-- ===== src/Packet/Share.antt =====
-- include/packdef.h: the structures of sharing. The packet type is the
-- constructor of `Packet`; a `char` array is the text up to its NUL.
use nest_disk.Base.{ℤ, Text, ℕ, List}

-- `STRU_SHARE_FILE_RQ`.
pub record ShareFileRq : Type 0 where
  pub userid : ℤ
  pub dir : Text
  pub share_time : Text
  pub item_count : ℤ
  pub fileid_array : List ℤ

-- `STRU_SHARE_FILE_RS`.
pub record ShareFileRs : Type 0 where
  pub result : ℤ

-- `STRU_MY_SHARE_RQ`.
pub record MyShareRq : Type 0 where
  pub userid : ℤ

-- `STRU_MY_SHARE_FILE`.
pub record MyShareFile : Type 0 where
  pub name : Text
  pub size : ℤ
  pub time : Text
  pub share_link : ℤ

-- `STRU_MY_SHARE_RS`.
pub record MyShareRs : Type 0 where
  pub item_count : ℕ
  pub items : List MyShareFile
