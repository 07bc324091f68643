-- ===== src/Wire/Trip.antt =====
-- include/packdef.h: a structure that is read from the bytes it was sent in.
use nest_disk.Base.{◌≡◌, some}
use nest_disk.Packet.{
  RegisterRq, LoginRq, UploadFileRq, FileContentRq, GetFileRq, DownloadFileRq, DownloadFolderRq,
  FileHeaderRs, FileContentRs, AddFolderRq, ShareFileRq, MyShareRq, GetShareRq, DeleteFileRq,
  ContinueDownloadRq, ContinueUploadRq, PlayVideoRq, max_size, max_path_size, def_buffer,
}
use nest_disk.Wire.{int32-int_bytes, chars-padded, bytes-append, int_array-array_bytes}
use nest_disk.Wire.Read.{
  read_register_rq, read_login_rq, read_upload_file_rq, read_file_content_rq, read_get_file_rq,
  read_download_file_rq, read_download_folder_rq, read_file_header_rs, read_file_content_rs,
  read_add_folder_rq, read_share_file_rq, read_my_share_rq, read_get_share_rq, read_delete_file_rq,
  read_continue_download_rq, read_continue_upload_rq, read_play_video_rq,
}
use nest_disk.Wire.Print.{
  print_register_rq, RegisterRqFits, print_login_rq, LoginRqFits, print_upload_file_rq,
  UploadFileRqFits, print_file_content_rq, FileContentRqFits, print_get_file_rq, GetFileRqFits,
  print_download_file_rq, DownloadFileRqFits, print_download_folder_rq, DownloadFolderRqFits,
  print_file_header_rs, FileHeaderRsFits, print_file_content_rs, FileContentRsFits,
  print_add_folder_rq, AddFolderRqFits, print_share_file_rq, ShareFileRqFits, print_my_share_rq,
  MyShareRqFits, print_get_share_rq, GetShareRqFits, print_delete_file_rq, DeleteFileRqFits,
  print_continue_download_rq, ContinueDownloadRqFits, print_continue_upload_rq,
  ContinueUploadRqFits, print_play_video_rq, PlayVideoRqFits,
}

pub read-print_register_rq :
    (r : RegisterRq) → RegisterRqFits r → read_register_rq (print_register_rq r) ≡ some r
unfolding read_register_rq print_register_rq
read-print_register_rq r h = rw (
  chars-padded max_size r.tel _ h.tel,
  chars-padded max_size r.name _ h.name,
  chars-padded max_size r.password _ h.password,
)

pub read-print_login_rq : (r : LoginRq) → LoginRqFits r → read_login_rq (print_login_rq r) ≡ some r
unfolding read_login_rq print_login_rq
read-print_login_rq r h =
    rw (chars-padded max_size r.tel _ h.tel, chars-padded max_size r.password _ h.password)

pub read-print_upload_file_rq :
    (r : UploadFileRq) → UploadFileRqFits r → read_upload_file_rq (print_upload_file_rq r) ≡ some r
unfolding read_upload_file_rq print_upload_file_rq
read-print_upload_file_rq r h = rw (
  int32-int_bytes r.timestamp _ h.timestamp,
  int32-int_bytes r.userid _ h.userid,
  chars-padded max_path_size r.file_name _ h.file_name,
  int32-int_bytes r.size _ h.size,
  chars-padded max_path_size r.dir _ h.dir,
  chars-padded max_size r.md5 _ h.md5,
  chars-padded max_size r.file_type _ h.file_type,
  chars-padded max_size r.time _ h.time,
)

pub read-print_file_content_rq :
    (r : FileContentRq)
    → FileContentRqFits r
    → read_file_content_rq (print_file_content_rq r) ≡ some r
unfolding read_file_content_rq print_file_content_rq
read-print_file_content_rq r h = rw (
  int32-int_bytes r.timestamp _ h.timestamp,
  int32-int_bytes r.userid _ h.userid,
  int32-int_bytes r.fileid _ h.fileid,
  bytes-append def_buffer r.content _ h.content,
  int32-int_bytes r.len _ h.len,
)

pub read-print_get_file_rq :
    (r : GetFileRq) → GetFileRqFits r → read_get_file_rq (print_get_file_rq r) ≡ some r
unfolding read_get_file_rq print_get_file_rq
read-print_get_file_rq r h =
    rw (int32-int_bytes r.userid _ h.userid, chars-padded max_path_size r.dir _ h.dir)

pub read-print_download_file_rq :
    (r : DownloadFileRq)
    → DownloadFileRqFits r
    → read_download_file_rq (print_download_file_rq r) ≡ some r
unfolding read_download_file_rq print_download_file_rq
read-print_download_file_rq r h = rw (
  int32-int_bytes r.timestamp _ h.timestamp,
  int32-int_bytes r.userid _ h.userid,
  int32-int_bytes r.fileid _ h.fileid,
  chars-padded max_path_size r.dir _ h.dir,
)

pub read-print_download_folder_rq :
    (r : DownloadFolderRq)
    → DownloadFolderRqFits r
    → read_download_folder_rq (print_download_folder_rq r) ≡ some r
unfolding read_download_folder_rq print_download_folder_rq
read-print_download_folder_rq r h = rw (
  int32-int_bytes r.timestamp _ h.timestamp,
  int32-int_bytes r.userid _ h.userid,
  int32-int_bytes r.fileid _ h.fileid,
  chars-padded max_path_size r.dir _ h.dir,
)

pub read-print_file_header_rs :
    (r : FileHeaderRs) → FileHeaderRsFits r → read_file_header_rs (print_file_header_rs r) ≡ some r
unfolding read_file_header_rs print_file_header_rs
read-print_file_header_rs r h = rw (
  int32-int_bytes r.timestamp _ h.timestamp,
  int32-int_bytes r.userid _ h.userid,
  int32-int_bytes r.fileid _ h.fileid,
  int32-int_bytes r.result _ h.result,
)

pub read-print_file_content_rs :
    (r : FileContentRs)
    → FileContentRsFits r
    → read_file_content_rs (print_file_content_rs r) ≡ some r
unfolding read_file_content_rs print_file_content_rs
read-print_file_content_rs r h = rw (
  int32-int_bytes r.timestamp _ h.timestamp,
  int32-int_bytes r.userid _ h.userid,
  int32-int_bytes r.fileid _ h.fileid,
  int32-int_bytes r.result _ h.result,
  int32-int_bytes r.len _ h.len,
)

pub read-print_add_folder_rq :
    (r : AddFolderRq) → AddFolderRqFits r → read_add_folder_rq (print_add_folder_rq r) ≡ some r
unfolding read_add_folder_rq print_add_folder_rq
read-print_add_folder_rq r h = rw (
  int32-int_bytes r.timestamp _ h.timestamp,
  int32-int_bytes r.userid _ h.userid,
  chars-padded max_path_size r.file_name _ h.file_name,
  chars-padded max_path_size r.dir _ h.dir,
  chars-padded max_size r.time _ h.time,
)

pub read-print_share_file_rq :
    (r : ShareFileRq) → ShareFileRqFits r → read_share_file_rq (print_share_file_rq r) ≡ some r
unfolding read_share_file_rq print_share_file_rq
read-print_share_file_rq r h = rw (
  int32-int_bytes r.userid _ h.userid,
  chars-padded max_path_size r.dir _ h.dir,
  chars-padded max_size r.share_time _ h.share_time,
  int32-int_bytes r.item_count _ h.item_count,
  int_array-array_bytes r.fileid_array h.fileid_array,
)

pub read-print_my_share_rq :
    (r : MyShareRq) → MyShareRqFits r → read_my_share_rq (print_my_share_rq r) ≡ some r
unfolding read_my_share_rq print_my_share_rq
read-print_my_share_rq r h = rw (int32-int_bytes r.userid _ h.userid)

pub read-print_get_share_rq :
    (r : GetShareRq) → GetShareRqFits r → read_get_share_rq (print_get_share_rq r) ≡ some r
unfolding read_get_share_rq print_get_share_rq
read-print_get_share_rq r h = rw (
  int32-int_bytes r.userid _ h.userid,
  int32-int_bytes r.share_link _ h.share_link,
  chars-padded max_path_size r.dir _ h.dir,
  chars-padded max_size r.time _ h.time,
)

pub read-print_delete_file_rq :
    (r : DeleteFileRq) → DeleteFileRqFits r → read_delete_file_rq (print_delete_file_rq r) ≡ some r
unfolding read_delete_file_rq print_delete_file_rq
read-print_delete_file_rq r h = rw (
  int32-int_bytes r.userid _ h.userid,
  chars-padded max_path_size r.dir _ h.dir,
  int32-int_bytes r.file_count _ h.file_count,
  int_array-array_bytes r.fileid_array h.fileid_array,
)

pub read-print_continue_download_rq :
    (r : ContinueDownloadRq)
    → ContinueDownloadRqFits r
    → read_continue_download_rq (print_continue_download_rq r) ≡ some r
unfolding read_continue_download_rq print_continue_download_rq
read-print_continue_download_rq r h = rw (
  int32-int_bytes r.userid _ h.userid,
  int32-int_bytes r.timestamp _ h.timestamp,
  int32-int_bytes r.fileid _ h.fileid,
  int32-int_bytes r.pos _ h.pos,
  chars-padded max_path_size r.dir _ h.dir,
)

pub read-print_continue_upload_rq :
    (r : ContinueUploadRq)
    → ContinueUploadRqFits r
    → read_continue_upload_rq (print_continue_upload_rq r) ≡ some r
unfolding read_continue_upload_rq print_continue_upload_rq
read-print_continue_upload_rq r h = rw (
  int32-int_bytes r.userid _ h.userid,
  int32-int_bytes r.timestamp _ h.timestamp,
  int32-int_bytes r.fileid _ h.fileid,
  chars-padded max_path_size r.dir _ h.dir,
)

pub read-print_play_video_rq :
    (r : PlayVideoRq) → PlayVideoRqFits r → read_play_video_rq (print_play_video_rq r) ≡ some r
unfolding read_play_video_rq print_play_video_rq
read-print_play_video_rq r h = rw (
  int32-int_bytes r.fileid _ h.fileid,
  int32-int_bytes r.user_id _ h.user_id,
  chars-padded max_path_size r.dir _ h.dir,
)
