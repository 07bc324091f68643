-- ===== src/Logic/Delete.antt =====
-- src/clogic.cpp: `deleteFile`, `deleteFileById` and `deleteFolderById`.
pub mod Walk
pub mod Request
pub mod Isolation
use nest_disk.Base.{
  ℕ, zero, suc, ℤ, pos, pos_part, Text, text_eq, not, List, [], ◌∷◌, Piece, lit, str, int,
  if◌then◌else◌,
}
use nest_disk.Packet.{DeleteFileRq, delete_file_rs, def_content_size, max_path_size}
use nest_disk.Env.{
  M, ◌>>=◌, ◌>>◌, pure, stop, fail, overread, empty_front, out_of_fuel, call, removed,
  function_call, send_data, sprintf, copy_to, number_of, pop_front,
}
use nest_disk.Mysql.{select_mysql, updata_mysql}
use nest_disk.Logic.{file_type, folder_type, subdir}

abbrev pub delete_relation : ℤ → ℤ → Text → List Piece
delete_relation u_id f_id dir =
    lit "delete from  t_user_file where u_id='"
    ∷ int u_id
    ∷ lit "' and f_id='"
    ∷ int f_id
    ∷ lit "' and f_dir='"
    ∷ str dir
    ∷ lit "' ;"
    ∷ []

-- That of `deleteFolderById` for the folder itself, with one blank less.
abbrev pub delete_folder_relation : ℤ → ℤ → Text → List Piece
delete_folder_relation u_id f_id dir =
    lit "delete from t_user_file where u_id='"
    ∷ int u_id
    ∷ lit "' and f_id='"
    ∷ int f_id
    ∷ lit "' and f_dir='"
    ∷ str dir
    ∷ lit "' ;"
    ∷ []

abbrev pub select_count : ℤ → List Piece
select_count f_id = lit "select f_count from t_file where  f_id='" ∷ int f_id ∷ lit "' ;" ∷ []

abbrev pub select_entries : ℤ → Text → List Piece
select_entries u_id dir =
    lit "select f_id,f_type,f_name from user_file_info where  u_id='"
    ∷ int u_id
    ∷ lit "' and f_dir='"
    ∷ str dir
    ∷ lit "';"
    ∷ []

abbrev pub select_kind : ℤ → ℤ → Text → List Piece
select_kind fid u_id dir =
    lit "select f_type,f_name,f_path from user_file_info where f_id='"
    ∷ int fid
    ∷ lit "' and u_id='"
    ∷ int u_id
    ∷ lit "' and f_dir='"
    ∷ str dir
    ∷ lit "';"
    ∷ []

-- The file is removed from the disk if its row is gone; a failure is only printed.
pub remove_unused : Text → List Text → M (Unit {0})
remove_unused path [] = call (removed path) (λ sys t. tt)
remove_unused path (_ ∷ _) = pure tt

pub look_up_count : ℤ → Text → M (Unit {0})
look_up_count f_id path = do
  sql ← sprintf def_content_size (select_count f_id)
  (res, lststr) ← select_mysql sql 1 []
  if not res then stop else remove_unused path lststr

pub delete_file_by_id : ℤ → ℤ → Text → Text → M (Unit {0})
delete_file_by_id u_id f_id dir path = do
  sql ← sprintf def_content_size (delete_relation u_id f_id dir)
  res ← updata_mysql sql
  if not res then stop else look_up_count f_id path

-- A file of the folder: a failed statement ends the whole function.
pub delete_entry : ℤ → Text → ℤ → M (Unit {0})
delete_entry u_id dir fid = do
  sql ← sprintf def_content_size (delete_relation u_id fid dir)
  res ← updata_mysql sql
  if not res then stop else pure tt

-- What the loop does with one entry; `again` is the function itself.
pub visit : (ℤ → Text → Text → M (Unit {0})) → ℤ → Text → ℤ → Text → Text → M (Unit {0})
visit again u_id dir fid type name =
    if text_eq type file_type
    then delete_entry u_id dir fid
    else if text_eq type folder_type
    then function_call (again fid dir name)
    else pure tt

-- `while (lststr.size() > 0)`: an entry is three strings.
pub visit_all : (ℤ → Text → Text → M (Unit {0})) → ℤ → Text → List Text → M (Unit {0})
visit_all again u_id dir [] = pure tt
visit_all again u_id dir (t ∷ []) = number_of t >>= λ fid. fail empty_front
visit_all again u_id dir (t ∷ type ∷ []) = number_of t >>= λ fid. fail empty_front
visit_all again u_id dir (t ∷ type ∷ name ∷ rest) = do
  fid ← number_of t
  visit again u_id dir fid type name
  visit_all again u_id dir rest

pub list_folder : (ℤ → Text → Text → M (Unit {0})) → ℤ → Text → M (Unit {0})
list_folder again u_id dir = do
  sql ← sprintf def_content_size (select_entries u_id dir)
  (res, lststr) ← select_mysql sql 3 []
  if not res then stop else visit_all again u_id dir lststr

-- The fuel is the depth of the calls.
pub delete_folder_by_id : ℕ → ℤ → ℤ → Text → Text → M (Unit {0})
delete_folder_by_id zero u_id f_id dir name = out_of_fuel
delete_folder_by_id (suc fuel) u_id f_id dir name = do
  sql ← sprintf def_content_size (delete_folder_relation u_id f_id dir)
  res ← updata_mysql sql
  if not res then stop else list_folder (delete_folder_by_id fuel u_id) u_id (subdir dir name)

-- One item of the request, by its type; the functions' `return`s do not end the handler.
pub delete_item : ℕ → ℤ → ℤ → Text → Text → Text → Text → M (Unit {0})
delete_item fuel u_id fid dir type name path =
    if text_eq type file_type
    then function_call (delete_file_by_id u_id fid dir path)
    else if text_eq type folder_type
    then function_call (delete_folder_by_id fuel u_id fid dir name)
    else pure tt

-- The strings that the look-up left, and those of the rounds before; what is over stays.
pub delete_found : ℕ → DeleteFileRq → ℤ → List Text → M (List Text)
delete_found fuel rq fid [] = stop
delete_found fuel rq fid (type ∷ l) = do
  (name, l1) ← pop_front l
  (path, l2) ← pop_front l1
  delete_item fuel rq.userid fid rq.dir type name path >>= λ u. pure l2

-- `for (i = 0; i < fileCount; i++)` over the array that ends the packet.
pub delete_items : ℕ → DeleteFileRq → List Text → ℕ → List ℤ → M (Unit {0})
delete_items fuel rq lststr zero fids = pure tt
delete_items fuel rq lststr (suc n) [] = fail overread
delete_items fuel rq lststr (suc n) (fid ∷ fids) = do
  sql ← sprintf def_content_size (select_kind fid rq.userid rq.dir)
  (res, found) ← select_mysql sql 3 lststr
  if not res
      then stop
      else delete_found fuel rq fid found >>= λ rest. delete_items fuel rq rest n fids

pub delete_file : ℕ → DeleteFileRq → ℤ → M (Unit {0})
delete_file fuel rq fd = do
  delete_items fuel rq [] (pos_part rq.file_count) rq.fileid_array
  dir ← copy_to max_path_size rq.dir
  send_data fd (delete_file_rs (record { result = pos 1; dir = dir }))
