-- ===== src/Logic/Lists.antt =====
-- src/clogic.cpp: `getFileList` and `getShareList`.
pub mod Entries
pub mod Isolation
use nest_disk.Base.{
  ℕ, zero, suc, ◌/◌, ℤ, Text, not, List, [], ◌∷◌, length, Piece, lit, str, int, if◌then◌else◌,
}
use nest_disk.Packet.{
  GetFileRq, FileEntry, get_file_rs, MyShareRq, MyShareFile, my_share_rs, def_content_size,
  max_path_size, max_size,
}
use nest_disk.Env.{M, ◌>>=◌, pure, stop, send_data, sprintf, copy_to, number_of, pop_front}
use nest_disk.Mysql.{select_mysql}

abbrev pub select_files : GetFileRq → List Piece
select_files rq =
    lit "select f_name,f_size,f_uploadtime,f_id,f_type from user_file_info where f_dir='"
    ∷ str rq.dir
    ∷ lit "' and u_id='"
    ∷ int rq.userid
    ∷ lit "' and f_state=1;"
    ∷ []

-- One round of the loop: five strings make an entry.
pub read_entry : List Text → M (FileEntry × List Text)
read_entry l0 = do
  (name, l1) ← pop_front l0
  (t, l2) ← pop_front l1
  size ← number_of t
  (time, l3) ← pop_front l2
  (u, l4) ← pop_front l3
  fileid ← number_of u
  (type, l5) ← pop_front l4
  name' ← copy_to max_path_size name
  time' ← copy_to max_size time
  type' ← copy_to max_size type
  pure (record { fileid = fileid; name = name'; time = time'; size = size; file_type = type' }, l5)

pub read_entries : ℕ → List Text → M (List FileEntry)
unfolding read_entry
read_entries zero l = pure []
read_entries (suc n) l = do (e, rest) ← read_entry l; es ← read_entries n rest; pure (e ∷ es)

pub get_file_list : GetFileRq → ℤ → M (Unit {0})
unfolding read_entries
get_file_list rq fd = do
  sql ← sprintf def_content_size (select_files rq)
  (res, lststr) ← select_mysql sql 5 []
  if not res then stop else do
    dir ← copy_to max_path_size rq.dir
    entries ← read_entries (length lststr / 5) lststr
    send_data fd
        (get_file_rs (record { dir = dir; count = length lststr / 5; file_info = entries }))

abbrev pub select_shares : ℤ → List Piece
select_shares userid =
    lit "select f_name,f_size,s_linkTime,s_link from user_file_info where u_id='"
    ∷ int userid
    ∷ lit "' and s_link is not null;"
    ∷ []

pub read_share : List Text → M (MyShareFile × List Text)
read_share l0 = do
  (name, l1) ← pop_front l0
  (t, l2) ← pop_front l1
  size ← number_of t
  (time, l3) ← pop_front l2
  (u, l4) ← pop_front l3
  link ← number_of u
  name' ← copy_to max_path_size name
  time' ← copy_to max_size time
  pure (record { name = name'; size = size; time = time'; share_link = link }, l4)

pub read_shares : ℕ → List Text → M (List MyShareFile)
unfolding read_share
read_shares zero l = pure []
read_shares (suc n) l = do (e, rest) ← read_share l; es ← read_shares n rest; pure (e ∷ es)

pub get_share_list : MyShareRq → ℤ → M (Unit {0})
unfolding read_shares
get_share_list rq fd = do
  sql ← sprintf def_content_size (select_shares rq.userid)
  (res, lststr) ← select_mysql sql 4 []
  if not res then stop else do
    items ← read_shares (length lststr / 4) lststr
    send_data fd (my_share_rs (record { item_count = length lststr / 4; items = items }))
