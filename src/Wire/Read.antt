-- ===== src/Wire/Read.antt =====
-- include/packdef.h: the structures that a request's bytes are cast to in src/clogic.cpp, from the bytes
-- behind the type. The fields lie in the order of their declaration.
use nest_disk.Base.{Text, Option, some}
use nest_disk.Packet.{
  RegisterRq, LoginRq, UploadFileRq, FileContentRq, GetFileRq, DownloadFileRq, DownloadFolderRq,
  FileHeaderRs, FileContentRs, AddFolderRq, ShareFileRq, MyShareRq, GetShareRq, DeleteFileRq,
  ContinueDownloadRq, ContinueUploadRq, PlayVideoRq, max_size, max_path_size, def_buffer,
}
use nest_disk.Wire.{int32, chars, bytes, int_array, ◌>>=◌}

unfoldable pub read_register_rq : Text → Option RegisterRq
read_register_rq b0 = do
  (tel, b1) ← chars max_size b0
  (name, b2) ← chars max_size b1
  (password, b3) ← chars max_size b2
  some (record { tel = tel; name = name; password = password })

unfoldable pub read_login_rq : Text → Option LoginRq
read_login_rq b0 = do
  (tel, b1) ← chars max_size b0
  (password, b2) ← chars max_size b1
  some (record { tel = tel; password = password })

unfoldable pub read_upload_file_rq : Text → Option UploadFileRq
read_upload_file_rq b0 = do
  (timestamp, b1) ← int32 b0
  (userid, b2) ← int32 b1
  (file_name, b3) ← chars max_path_size b2
  (size, b4) ← int32 b3
  (dir, b5) ← chars max_path_size b4
  (md5, b6) ← chars max_size b5
  (file_type, b7) ← chars max_size b6
  (time, b8) ← chars max_size b7
  some (record {
    timestamp = timestamp;
    userid = userid;
    file_name = file_name;
    size = size;
    dir = dir;
    md5 = md5;
    file_type = file_type;
    time = time;
  })

unfoldable pub read_file_content_rq : Text → Option FileContentRq
read_file_content_rq b0 = do
  (timestamp, b1) ← int32 b0
  (userid, b2) ← int32 b1
  (fileid, b3) ← int32 b2
  (content, b4) ← bytes def_buffer b3
  (len, b5) ← int32 b4
  some (record {
    timestamp = timestamp;
    userid = userid;
    fileid = fileid;
    content = content;
    len = len;
  })

unfoldable pub read_get_file_rq : Text → Option GetFileRq
read_get_file_rq b0 = do
  (userid, b1) ← int32 b0
  (dir, b2) ← chars max_path_size b1
  some (record { userid = userid; dir = dir })

unfoldable pub read_download_file_rq : Text → Option DownloadFileRq
read_download_file_rq b0 = do
  (timestamp, b1) ← int32 b0
  (userid, b2) ← int32 b1
  (fileid, b3) ← int32 b2
  (dir, b4) ← chars max_path_size b3
  some (record { timestamp = timestamp; userid = userid; fileid = fileid; dir = dir })

unfoldable pub read_download_folder_rq : Text → Option DownloadFolderRq
read_download_folder_rq b0 = do
  (timestamp, b1) ← int32 b0
  (userid, b2) ← int32 b1
  (fileid, b3) ← int32 b2
  (dir, b4) ← chars max_path_size b3
  some (record { timestamp = timestamp; userid = userid; fileid = fileid; dir = dir })

unfoldable pub read_file_header_rs : Text → Option FileHeaderRs
read_file_header_rs b0 = do
  (timestamp, b1) ← int32 b0
  (userid, b2) ← int32 b1
  (fileid, b3) ← int32 b2
  (result, b4) ← int32 b3
  some (record { timestamp = timestamp; userid = userid; fileid = fileid; result = result })

unfoldable pub read_file_content_rs : Text → Option FileContentRs
read_file_content_rs b0 = do
  (timestamp, b1) ← int32 b0
  (userid, b2) ← int32 b1
  (fileid, b3) ← int32 b2
  (result, b4) ← int32 b3
  (len, b5) ← int32 b4
  some (record {
    timestamp = timestamp;
    userid = userid;
    fileid = fileid;
    result = result;
    len = len;
  })

unfoldable pub read_add_folder_rq : Text → Option AddFolderRq
read_add_folder_rq b0 = do
  (timestamp, b1) ← int32 b0
  (userid, b2) ← int32 b1
  (file_name, b3) ← chars max_path_size b2
  (dir, b4) ← chars max_path_size b3
  (time, b5) ← chars max_size b4
  some (record {
    timestamp = timestamp;
    userid = userid;
    file_name = file_name;
    dir = dir;
    time = time;
  })

unfoldable pub read_share_file_rq : Text → Option ShareFileRq
read_share_file_rq b0 = do
  (userid, b1) ← int32 b0
  (dir, b2) ← chars max_path_size b1
  (share_time, b3) ← chars max_size b2
  (item_count, b4) ← int32 b3
  some (record {
    userid = userid;
    dir = dir;
    share_time = share_time;
    item_count = item_count;
    fileid_array = int_array b4;
  })

unfoldable pub read_my_share_rq : Text → Option MyShareRq
read_my_share_rq b0 = do (userid, b1) ← int32 b0; some (record { userid = userid })

unfoldable pub read_get_share_rq : Text → Option GetShareRq
read_get_share_rq b0 = do
  (userid, b1) ← int32 b0
  (share_link, b2) ← int32 b1
  (dir, b3) ← chars max_path_size b2
  (time, b4) ← chars max_size b3
  some (record { userid = userid; share_link = share_link; dir = dir; time = time })

unfoldable pub read_delete_file_rq : Text → Option DeleteFileRq
read_delete_file_rq b0 = do
  (userid, b1) ← int32 b0
  (dir, b2) ← chars max_path_size b1
  (file_count, b3) ← int32 b2
  some (record { userid = userid; dir = dir; file_count = file_count; fileid_array = int_array b3 })

unfoldable pub read_continue_download_rq : Text → Option ContinueDownloadRq
read_continue_download_rq b0 = do
  (userid, b1) ← int32 b0
  (timestamp, b2) ← int32 b1
  (fileid, b3) ← int32 b2
  (at, b4) ← int32 b3
  (dir, b5) ← chars max_path_size b4
  some (record { userid = userid; timestamp = timestamp; fileid = fileid; pos = at; dir = dir })

unfoldable pub read_continue_upload_rq : Text → Option ContinueUploadRq
read_continue_upload_rq b0 = do
  (userid, b1) ← int32 b0
  (timestamp, b2) ← int32 b1
  (fileid, b3) ← int32 b2
  (dir, b4) ← chars max_path_size b3
  some (record { userid = userid; timestamp = timestamp; fileid = fileid; dir = dir })

unfoldable pub read_play_video_rq : Text → Option PlayVideoRq
read_play_video_rq b0 = do
  (fileid, b1) ← int32 b0
  (user_id, b2) ← int32 b1
  (dir, b3) ← chars max_path_size b2
  some (record { fileid = fileid; user_id = user_id; dir = dir })
