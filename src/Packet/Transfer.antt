-- ===== src/Packet/Transfer.antt =====
-- include/packdef.h: the structures of uploads, downloads, folders and lists. The packet type is the
-- constructor of `Packet`; a `char` array is the text up to its NUL.
use nest_disk.Base.{ℤ, Text, ℕ, List}

-- `FileContentRq.content` is the whole array of 4096 bytes, of which `len` are used.
-- `FileInfo`.
pub record FileInfo : Type 0 where
  pub fid : ℤ
  pub name : Text
  pub dir : Text
  pub time : Text
  pub size : ℤ
  pub md5 : Text
  pub type : Text
  pub absolute_path : Text
  pub pos : ℤ
  pub file_fd : ℤ

-- `STRU_UPLOAD_FILE_RQ`.
pub record UploadFileRq : Type 0 where
  pub timestamp : ℤ
  pub userid : ℤ
  pub file_name : Text
  pub size : ℤ
  pub dir : Text
  pub md5 : Text
  pub file_type : Text
  pub time : Text

-- `STRU_UPLOAD_FILE_RS`.
pub record UploadFileRs : Type 0 where
  pub timestamp : ℤ
  pub userid : ℤ
  pub fileid : ℤ
  pub result : ℤ

-- `STRU_FILE_CONTENT_RQ`.
pub record FileContentRq : Type 0 where
  pub timestamp : ℤ
  pub userid : ℤ
  pub fileid : ℤ
  pub content : Text
  pub len : ℤ

-- `STRU_FILE_CONTENT_RS`.
pub record FileContentRs : Type 0 where
  pub timestamp : ℤ
  pub userid : ℤ
  pub fileid : ℤ
  pub result : ℤ
  pub len : ℤ

-- `STRU_FILE_INFO`.
pub record FileEntry : Type 0 where
  pub fileid : ℤ
  pub name : Text
  pub time : Text
  pub size : ℤ
  pub file_type : Text

-- `STRU_GET_FILE_RQ`.
pub record GetFileRq : Type 0 where
  pub userid : ℤ
  pub dir : Text

-- `STRU_GET_FILE_RS`.
pub record GetFileRs : Type 0 where
  pub dir : Text
  pub count : ℕ
  pub file_info : List FileEntry

-- `STRU_DOWNLOAD_FILE_RQ`.
pub record DownloadFileRq : Type 0 where
  pub timestamp : ℤ
  pub userid : ℤ
  pub fileid : ℤ
  pub dir : Text

-- `STRU_DOWNLOAD_FOLDER_RQ`.
pub record DownloadFolderRq : Type 0 where
  pub timestamp : ℤ
  pub userid : ℤ
  pub fileid : ℤ
  pub dir : Text

-- `STRU_FILE_HEADER_RQ`.
pub record FileHeaderRq : Type 0 where
  pub timestamp : ℤ
  pub fileid : ℤ
  pub file_name : Text
  pub size : ℤ
  pub dir : Text
  pub md5 : Text
  pub file_type : Text

-- `STRU_FILE_HEADER_RS`.
pub record FileHeaderRs : Type 0 where
  pub timestamp : ℤ
  pub userid : ℤ
  pub fileid : ℤ
  pub result : ℤ

-- `STRU_ADD_FOLDER_RQ`.
pub record AddFolderRq : Type 0 where
  pub timestamp : ℤ
  pub userid : ℤ
  pub file_name : Text
  pub dir : Text
  pub time : Text

-- `STRU_ADD_FOLDER_RS`.
pub record AddFolderRs : Type 0 where
  pub timestamp : ℤ
  pub userid : ℤ
  pub result : ℤ

-- `STRU_QUICK_UPLOAD_RS`.
pub record QuickUploadRs : Type 0 where
  pub timestamp : ℤ
  pub userid : ℤ
  pub fileid : ℤ
  pub result : ℤ

-- `STRU_CONTINUE_DOWNLOAD_RQ`.
pub record ContinueDownloadRq : Type 0 where
  pub userid : ℤ
  pub timestamp : ℤ
  pub fileid : ℤ
  pub pos : ℤ
  pub dir : Text

-- `STRU_CONTINUE_UPLOAD_RQ`.
pub record ContinueUploadRq : Type 0 where
  pub userid : ℤ
  pub timestamp : ℤ
  pub fileid : ℤ
  pub dir : Text

-- `STRU_CONTINUE_UPLOAD_RS`.
pub record ContinueUploadRs : Type 0 where
  pub fileid : ℤ
  pub timestamp : ℤ
  pub pos : ℤ
