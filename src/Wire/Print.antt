-- ===== src/Wire/Print.antt =====
-- include/packdef.h: the bytes behind the type in which a client sends a request, and which requests the
-- structures can hold.
use nest_disk.Base.{◌≡◌, Text, length, [], ◌∷◌, InInt}
use nest_disk.Packet.{
  RegisterRq, LoginRq, UploadFileRq, FileContentRq, GetFileRq, DownloadFileRq, DownloadFolderRq,
  FileHeaderRs, FileContentRs, AddFolderRq, ShareFileRq, MyShareRq, GetShareRq, DeleteFileRq,
  ContinueDownloadRq, ContinueUploadRq, PlayVideoRq, max_size, max_path_size, def_buffer,
}
use nest_disk.Wire.{int_bytes, padded, array_bytes, Fits, AllInInt}
use nest_disk.Net.Frame.Trip.{join}

unfoldable pub print_register_rq : RegisterRq → Text
print_register_rq r =
    join (padded max_size r.tel ∷ padded max_size r.name ∷ padded max_size r.password ∷ [])

pub record RegisterRqFits (r : RegisterRq) : Type 0 where
  pub tel : Fits max_size r.tel
  pub name : Fits max_size r.name
  pub password : Fits max_size r.password

unfoldable pub print_login_rq : LoginRq → Text
print_login_rq r = join (padded max_size r.tel ∷ padded max_size r.password ∷ [])

pub record LoginRqFits (r : LoginRq) : Type 0 where
  pub tel : Fits max_size r.tel
  pub password : Fits max_size r.password

unfoldable pub print_upload_file_rq : UploadFileRq → Text
print_upload_file_rq r = join (
    int_bytes r.timestamp
    ∷ int_bytes r.userid
    ∷ padded max_path_size r.file_name
    ∷ int_bytes r.size
    ∷ padded max_path_size r.dir
    ∷ padded max_size r.md5
    ∷ padded max_size r.file_type
    ∷ padded max_size r.time
    ∷ [])

pub record UploadFileRqFits (r : UploadFileRq) : Type 0 where
  pub timestamp : InInt r.timestamp
  pub userid : InInt r.userid
  pub file_name : Fits max_path_size r.file_name
  pub size : InInt r.size
  pub dir : Fits max_path_size r.dir
  pub md5 : Fits max_size r.md5
  pub file_type : Fits max_size r.file_type
  pub time : Fits max_size r.time

unfoldable pub print_file_content_rq : FileContentRq → Text
print_file_content_rq r = join (
    int_bytes r.timestamp
    ∷ int_bytes r.userid
    ∷ int_bytes r.fileid
    ∷ r.content
    ∷ int_bytes r.len
    ∷ [])

pub record FileContentRqFits (r : FileContentRq) : Type 0 where
  pub timestamp : InInt r.timestamp
  pub userid : InInt r.userid
  pub fileid : InInt r.fileid
  pub content : length r.content ≡ def_buffer
  pub len : InInt r.len

unfoldable pub print_get_file_rq : GetFileRq → Text
print_get_file_rq r = join (int_bytes r.userid ∷ padded max_path_size r.dir ∷ [])

pub record GetFileRqFits (r : GetFileRq) : Type 0 where
  pub userid : InInt r.userid
  pub dir : Fits max_path_size r.dir

unfoldable pub print_download_file_rq : DownloadFileRq → Text
print_download_file_rq r = join (
    int_bytes r.timestamp
    ∷ int_bytes r.userid
    ∷ int_bytes r.fileid
    ∷ padded max_path_size r.dir
    ∷ [])

pub record DownloadFileRqFits (r : DownloadFileRq) : Type 0 where
  pub timestamp : InInt r.timestamp
  pub userid : InInt r.userid
  pub fileid : InInt r.fileid
  pub dir : Fits max_path_size r.dir

unfoldable pub print_download_folder_rq : DownloadFolderRq → Text
print_download_folder_rq r = join (
    int_bytes r.timestamp
    ∷ int_bytes r.userid
    ∷ int_bytes r.fileid
    ∷ padded max_path_size r.dir
    ∷ [])

pub record DownloadFolderRqFits (r : DownloadFolderRq) : Type 0 where
  pub timestamp : InInt r.timestamp
  pub userid : InInt r.userid
  pub fileid : InInt r.fileid
  pub dir : Fits max_path_size r.dir

unfoldable pub print_file_header_rs : FileHeaderRs → Text
print_file_header_rs r =
    join (int_bytes r.timestamp ∷ int_bytes r.userid ∷ int_bytes r.fileid ∷ int_bytes r.result ∷ [])

pub record FileHeaderRsFits (r : FileHeaderRs) : Type 0 where
  pub timestamp : InInt r.timestamp
  pub userid : InInt r.userid
  pub fileid : InInt r.fileid
  pub result : InInt r.result

unfoldable pub print_file_content_rs : FileContentRs → Text
print_file_content_rs r = join (
    int_bytes r.timestamp
    ∷ int_bytes r.userid
    ∷ int_bytes r.fileid
    ∷ int_bytes r.result
    ∷ int_bytes r.len
    ∷ [])

pub record FileContentRsFits (r : FileContentRs) : Type 0 where
  pub timestamp : InInt r.timestamp
  pub userid : InInt r.userid
  pub fileid : InInt r.fileid
  pub result : InInt r.result
  pub len : InInt r.len

unfoldable pub print_add_folder_rq : AddFolderRq → Text
print_add_folder_rq r = join (
    int_bytes r.timestamp
    ∷ int_bytes r.userid
    ∷ padded max_path_size r.file_name
    ∷ padded max_path_size r.dir
    ∷ padded max_size r.time
    ∷ [])

pub record AddFolderRqFits (r : AddFolderRq) : Type 0 where
  pub timestamp : InInt r.timestamp
  pub userid : InInt r.userid
  pub file_name : Fits max_path_size r.file_name
  pub dir : Fits max_path_size r.dir
  pub time : Fits max_size r.time

unfoldable pub print_share_file_rq : ShareFileRq → Text
print_share_file_rq r = join (
    int_bytes r.userid
    ∷ padded max_path_size r.dir
    ∷ padded max_size r.share_time
    ∷ int_bytes r.item_count
    ∷ array_bytes r.fileid_array
    ∷ [])

pub record ShareFileRqFits (r : ShareFileRq) : Type 0 where
  pub userid : InInt r.userid
  pub dir : Fits max_path_size r.dir
  pub share_time : Fits max_size r.share_time
  pub item_count : InInt r.item_count
  pub fileid_array : AllInInt r.fileid_array

unfoldable pub print_my_share_rq : MyShareRq → Text
print_my_share_rq r = join (int_bytes r.userid ∷ [])

pub record MyShareRqFits (r : MyShareRq) : Type 0 where
  pub userid : InInt r.userid

unfoldable pub print_get_share_rq : GetShareRq → Text
print_get_share_rq r = join (
    int_bytes r.userid
    ∷ int_bytes r.share_link
    ∷ padded max_path_size r.dir
    ∷ padded max_size r.time
    ∷ [])

pub record GetShareRqFits (r : GetShareRq) : Type 0 where
  pub userid : InInt r.userid
  pub share_link : InInt r.share_link
  pub dir : Fits max_path_size r.dir
  pub time : Fits max_size r.time

unfoldable pub print_delete_file_rq : DeleteFileRq → Text
print_delete_file_rq r = join (
    int_bytes r.userid
    ∷ padded max_path_size r.dir
    ∷ int_bytes r.file_count
    ∷ array_bytes r.fileid_array
    ∷ [])

pub record DeleteFileRqFits (r : DeleteFileRq) : Type 0 where
  pub userid : InInt r.userid
  pub dir : Fits max_path_size r.dir
  pub file_count : InInt r.file_count
  pub fileid_array : AllInInt r.fileid_array

unfoldable pub print_continue_download_rq : ContinueDownloadRq → Text
print_continue_download_rq r = join (
    int_bytes r.userid
    ∷ int_bytes r.timestamp
    ∷ int_bytes r.fileid
    ∷ int_bytes r.pos
    ∷ padded max_path_size r.dir
    ∷ [])

pub record ContinueDownloadRqFits (r : ContinueDownloadRq) : Type 0 where
  pub userid : InInt r.userid
  pub timestamp : InInt r.timestamp
  pub fileid : InInt r.fileid
  pub pos : InInt r.pos
  pub dir : Fits max_path_size r.dir

unfoldable pub print_continue_upload_rq : ContinueUploadRq → Text
print_continue_upload_rq r = join (
    int_bytes r.userid
    ∷ int_bytes r.timestamp
    ∷ int_bytes r.fileid
    ∷ padded max_path_size r.dir
    ∷ [])

pub record ContinueUploadRqFits (r : ContinueUploadRq) : Type 0 where
  pub userid : InInt r.userid
  pub timestamp : InInt r.timestamp
  pub fileid : InInt r.fileid
  pub dir : Fits max_path_size r.dir

unfoldable pub print_play_video_rq : PlayVideoRq → Text
print_play_video_rq r =
    join (int_bytes r.fileid ∷ int_bytes r.user_id ∷ padded max_path_size r.dir ∷ [])

pub record PlayVideoRqFits (r : PlayVideoRq) : Type 0 where
  pub fileid : InInt r.fileid
  pub user_id : InInt r.user_id
  pub dir : Fits max_path_size r.dir
