-- ===== src/Logic/Tests.antt =====
-- The handlers' theorems at concrete requests, each with a system that answers as it says.
mod Accounts
mod Transfers
mod Sharing
mod Downloads
mod Folders
mod Walks
mod FolderDownloads
mod Resumed
mod Uploads
mod Links
mod Videos
mod Runs
use nest_disk.Base.{
  ℕ, ℤ, pos, negsuc, Bool, true, false, Text, Option, none, some, List, [], ◌∷◌, length,
}
use nest_disk.Env.{Sys, Server, Trace, Row, wrote}

-- No session, no transfer, nothing asked.
abbrev pub fresh_server : Server
fresh_server = record { users = []; files = []; trace = [] }

abbrev pub write_all : Trace → ℤ
write_all (wrote fd b ∷ t) = pos (length b)
write_all _ = negsuc 0

-- Statements succeed, a `select` gives these rows, and the file calls succeed.
abbrev pub answers : List Row → Sys
answers rows = record {
  mysql_query = λ t. false;
  mysql_store_result = λ t. some rows;
  open_file = λ t. pos 5;
  write_file = write_all;
  read_file = λ t. (pos 0, []);
  seek_file = λ t. pos 0;
  mkdir = λ t. pos 0;
  errno = λ t. 0;
  random = λ t. length t;
  stat = λ t. pos 0;
  system = λ t. pos 0;
}
