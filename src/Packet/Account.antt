-- ===== src/Packet/Account.antt =====
-- include/packdef.h: the structures of registration and login. The packet type is the
-- constructor of `Packet`; a `char` array is the text up to its NUL.
use nest_disk.Base.{ℤ, Text, Option}

-- The reply's `name` is `none` where the code never writes it: the constructor leaves it as it is.
-- `STRU_REGISTER_RQ`.
pub record RegisterRq : Type 0 where
  pub tel : Text
  pub name : Text
  pub password : Text

-- `STRU_REGISTER_RS`.
pub record RegisterRs : Type 0 where
  pub result : ℤ

-- `STRU_LOGIN_RQ`.
pub record LoginRq : Type 0 where
  pub tel : Text
  pub password : Text

-- `STRU_LOGIN_RS`.
pub record LoginRs : Type 0 where
  pub result : ℤ
  pub userid : ℤ
  pub name : Option Text

-- `STRU_USERINFO`.
pub record UserInfo : Type 0 where
  pub userid : ℤ
  pub clientfd : ℤ
  pub name : Text
