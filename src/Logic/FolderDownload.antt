-- ===== src/Logic/FolderDownload.antt =====
-- src/clogic.cpp: `downloadFileFolder` and `downloadFolderByDir`.
pub mod Fresh
pub mod Grown
pub mod Walk
pub mod Whole
pub mod Isolation
use nest_disk.Base.{
  ℕ, zero, suc, ℤ, pos, ◌+ℤ◌, to_int, Text, text_eq, not, none, some, List, [], ◌∷◌, Piece, lit,
  str, int, if◌then◌else◌,
}
use nest_disk.Packet.{
  DownloadFolderRq, DownloadFileRq, AddFolderRq, add_folder_rq, def_content_size, max_path_size,
}
use nest_disk.MyMap.{find}
use nest_disk.Env.{
  M, ◌>>=◌, ◌>>◌, pure, stop, fail, empty_front, out_of_fuel, gets, function_call, send_data,
  sprintf, copy_to, number_of,
}
use nest_disk.Mysql.{select_mysql}
use nest_disk.Logic.{session_key, file_type, folder_type, subdir}
use nest_disk.Logic.Download.{download_file}

abbrev pub select_name : DownloadFolderRq → List Piece
select_name rq =
    lit "select f_name from user_file_info where u_id='"
    ∷ int rq.userid
    ∷ lit "' and f_id='"
    ∷ int rq.fileid
    ∷ lit "' and f_dir='"
    ∷ str rq.dir
    ∷ lit "';"
    ∷ []

abbrev pub select_inside : ℤ → Text → List Piece
select_inside userid dir =
    lit "select f_type,f_id,f_name from user_file_info where u_id='"
    ∷ int userid
    ∷ lit "' and f_dir='"
    ∷ str dir
    ∷ lit "';"
    ∷ []

-- The packet that tells the client to make a folder: the constructor leaves all else 0 or empty.
abbrev pub folder_packet : Text → AddFolderRq
folder_packet dir = record {
  timestamp = pos 0;
  userid = pos 0;
  file_name = [];
  dir = dir;
  time = [];
}

-- `timestamp + 1`, an `int`.
abbrev pub next_timestamp : ℤ → ℤ
next_timestamp timestamp = to_int (timestamp +ℤ pos 1)

-- `while (m_map.find(…)) newTimestamp++`, a look-up for each unit of fuel.
pub fresh_timestamp : ℕ → ℤ → ℤ → M ℤ
fresh_timestamp zero userid timestamp = out_of_fuel
fresh_timestamp (suc fuel) userid timestamp = do
  found ← gets (λ s. find (session_key userid timestamp) s.files)
  elim found [
    | none ↦ pure timestamp
    | some file ↦ fresh_timestamp fuel userid (next_timestamp timestamp)
  ]

-- The download of one file of the folder, by the handler itself.
pub download_inside : ℤ → ℤ → Text → ℤ → ℤ → M (Unit {0})
download_inside userid fd dir timestamp fileid = do
  copied ← copy_to max_path_size dir
  function_call (
      download_file
        (record { timestamp = timestamp; userid = userid; fileid = fileid; dir = copied }) fd)

-- What the loop does with one entry; `again` is the function itself, on timestamp, directory and name.
pub fetch_entry :
    (ℤ → Text → Text → M (Unit {0})) → ℤ → ℤ → Text → Text → ℤ → Text → ℤ → M (Unit {0})
fetch_entry again userid fd dir type fileid name timestamp =
    if text_eq type file_type
    then download_inside userid fd dir timestamp fileid
    else if text_eq type folder_type
    then function_call (again timestamp dir name)
    else pure tt

-- `while (lststr.size() > 0)`: an entry is three strings. Each starts from the function's timestamp.
pub fetch_all : (ℤ → Text → Text → M (Unit {0})) → ℕ → ℤ → ℤ → ℤ → Text → List Text → M (Unit {0})
fetch_all again fuel timestamp userid fd dir [] = pure tt
fetch_all again fuel timestamp userid fd dir (type ∷ []) = fail empty_front
fetch_all again fuel timestamp userid fd dir (type ∷ t ∷ []) =
    number_of t >>= λ fileid. fail empty_front
fetch_all again fuel timestamp userid fd dir (type ∷ t ∷ name ∷ rest) = do
  fileid ← number_of t
  fresh ← fresh_timestamp fuel userid (next_timestamp timestamp)
  fetch_entry again userid fd dir type fileid name fresh
  fetch_all again fuel timestamp userid fd dir rest

pub fetch_listed : (ℤ → Text → Text → M (Unit {0})) → ℕ → ℤ → ℤ → ℤ → Text → M (Unit {0})
fetch_listed again fuel timestamp userid fd dir = do
  sql ← sprintf def_content_size (select_inside userid dir)
  (res, lststr) ← select_mysql sql 3 []
  if not res then stop else fetch_all again fuel timestamp userid fd dir lststr

-- The first fuel is the depth of the calls, the second for the look-ups of a timestamp.
pub download_folder_by_dir : ℕ → ℕ → ℤ → ℤ → ℤ → Text → Text → M (Unit {0})
download_folder_by_dir zero fuel userid fd timestamp dir name = out_of_fuel
download_folder_by_dir (suc calls) fuel userid fd timestamp dir name = do
  copied ← copy_to max_path_size (subdir dir name)
  send_data fd (add_folder_rq (folder_packet copied))
  fetch_listed (download_folder_by_dir calls fuel userid fd) fuel timestamp userid fd
      (subdir dir name)

pub folder_named : ℕ → ℕ → DownloadFolderRq → ℤ → List Text → M (Unit {0})
folder_named calls fuel rq fd [] = stop
folder_named calls fuel rq fd (name ∷ _) =
    function_call (download_folder_by_dir calls fuel rq.userid fd rq.timestamp rq.dir name)

pub download_file_folder : ℕ → ℕ → DownloadFolderRq → ℤ → M (Unit {0})
download_file_folder calls fuel rq fd = do
  sql ← sprintf def_content_size (select_name rq)
  (res, lststr) ← select_mysql sql 1 []
  if not res then stop else folder_named calls fuel rq fd lststr
