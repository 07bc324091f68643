-- ===== src/Packet/Manage.antt =====
-- include/packdef.h: the structures of links that are taken, of deletion and of videos. The packet type
-- is the constructor of `Packet`; a `char` array is the text up to its NUL.
use nest_disk.Base.{ℤ, Text, List}

-- `STRU_GET_SHARE_RQ`.
pub record GetShareRq : Type 0 where
  pub userid : ℤ
  pub share_link : ℤ
  pub dir : Text
  pub time : Text

-- `STRU_GET_SHARE_RS`.
pub record GetShareRs : Type 0 where
  pub result : ℤ
  pub dir : Text

-- `STRU_DELETE_FILE_RQ`.
pub record DeleteFileRq : Type 0 where
  pub userid : ℤ
  pub dir : Text
  pub file_count : ℤ
  pub fileid_array : List ℤ

-- `STRU_DELETE_FILE_RS`.
pub record DeleteFileRs : Type 0 where
  pub result : ℤ
  pub dir : Text

-- `STRU_PLAY_VIDEO_RQ`.
pub record PlayVideoRq : Type 0 where
  pub fileid : ℤ
  pub user_id : ℤ
  pub dir : Text

-- `STRU_PLAY_VIDEO_RS`.
pub record PlayVideoRs : Type 0 where
  pub result : ℤ
  pub fileid : ℤ
  pub server_port : ℤ
  pub play_dir : Text
