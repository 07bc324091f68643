-- ===== src/Logic/Folder.antt =====
-- src/clogic.cpp: `addFolder`.
pub mod Lookup
pub mod Isolation
use nest_disk.Base.{
  ℕ, ℤ, pos, eq_ℤ, ◌==◌, ◌&&◌, Text, not, List, [], ◌∷◌, Piece, lit, str, int, if◌then◌else◌,
}
use nest_disk.Packet.{AddFolderRq, add_folder_rs, def_content_size}
use nest_disk.Env.{
  M, ◌>>=◌, pure, stop, ok, call, made_dir, send_data, sprintf, number_of, pop_front,
}
use nest_disk.Mysql.{select_mysql, updata_mysql}
use nest_disk.Logic.Upload.{insert_user_file}

abbrev pub eexist : ℕ
eexist = 17

abbrev pub folder_path : AddFolderRq → List Piece
folder_path rq = lit "/home/xx/Node/NetDisk/" ∷ int rq.userid ∷ str rq.dir ∷ str rq.file_name ∷ []

abbrev pub insert_folder : Text → List Piece
insert_folder path =
    lit "insert into t_file (f_size,f_path,f_count,f_md5,f_state,f_type) values(0,'"
    ∷ str path
    ∷ lit "',0,'?',1,'folder');"
    ∷ []

abbrev pub select_folder : Text → List Piece
select_folder path = lit "select f_id from t_file where f_path='" ∷ str path ∷ lit "';" ∷ []

abbrev pub relate_folder : AddFolderRq → ℤ → List Piece
relate_folder rq fid =
    lit "insert into t_user_file(u_id,f_id,f_dir,f_name,f_uploadtime) values('"
    ∷ int rq.userid
    ∷ lit "','"
    ∷ int fid
    ∷ lit "','"
    ∷ str rq.dir
    ∷ lit "','"
    ∷ str rq.file_name
    ∷ lit "','"
    ∷ str rq.time
    ∷ lit "');"
    ∷ []

-- The directory that is there already is no error.
pub make_folder : AddFolderRq → ℤ → Text → M (Unit {0})
make_folder rq fd path = do
  ires ← call (made_dir path) (λ sys. sys.mkdir)
  errno ← λ sys s. (ok (sys.errno s.trace), s)
  if not (eq_ℤ ires (pos 0)) && not (errno == eexist)
      then stop
      else send_data fd
          (add_folder_rs (record { result = pos 1; userid = rq.userid; timestamp = rq.timestamp }))

pub store_folder : AddFolderRq → ℤ → Text → List Text → M (Unit {0})
store_folder rq fd path lststr = do
  (t, rest) ← pop_front lststr
  fid ← number_of t
  sql ← sprintf def_content_size (relate_folder rq fid)
  res ← updata_mysql sql
  if not res then stop else make_folder rq fd path

-- After the look-up the code tests `res`, which is true here, and not the look-up's own result.
pub look_up_folder : AddFolderRq → ℤ → Text → M (Unit {0})
look_up_folder rq fd path = do
  sql ← sprintf def_content_size (select_folder path)
  (ires, lststr) ← select_mysql sql 1 []
  store_folder rq fd path lststr

pub add_folder : AddFolderRq → ℤ → M (Unit {0})
add_folder rq fd = do
  path ← sprintf 1024 (folder_path rq)
  sql ← sprintf def_content_size (insert_folder path)
  res ← updata_mysql sql
  if not res then stop else look_up_folder rq fd path
