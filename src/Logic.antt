-- ===== src/Logic.antt =====
-- src/clogic.cpp, include/clogic.h: the handlers of the server, and what they share.
pub mod Sessions
pub mod Account
pub mod Upload
pub mod Download
pub mod Share
pub mod Folder
pub mod Tree
pub mod Delete
pub mod Link
pub mod FolderDownload
pub mod Video
pub mod Serve
pub mod Lists
pub mod Resume
pub mod Tests
use nest_disk.Base.{Text, [], ◌∷◌, ◌++◌, ℕ, ℤ, pos, ◌+ℤ◌, ◌*ℤ◌, to_int}

-- `CLogic::number`, a 64-bit `long`.
abbrev pub number : ℤ
number = pos 1000000000

-- `int64_t user_time = userid * number() + timestamp`. The factors are of type `int`, so 64 bits hold
-- the result.
unfoldable pub user_time : ℤ → ℤ → ℤ
user_time userid timestamp = userid *ℤ number +ℤ timestamp

-- The key that `m_mapTimstampToFileinfo`, a `MyMap<int, FileInfo*>`, gets for it: the conversion to
-- `int` keeps the low 32 bits.
unfoldable pub session_key : ℤ → ℤ → ℤ
session_key userid timestamp = to_int (user_time userid timestamp)

-- The texts "file" and "folder", which stand in the column `f_type`.
abbrev pub file_type : Text
file_type = b'f' ∷ b'i' ∷ b'l' ∷ b'e' ∷ []

abbrev pub folder_type : Text
folder_type = b'f' ∷ b'o' ∷ b'l' ∷ b'd' ∷ b'e' ∷ b'r' ∷ []

-- `dir + name + "/"`, the directory of a folder's entries.
abbrev pub subdir : Text → Text → Text
subdir dir name = (dir ++ name) ++ (b'/' ∷ [])
