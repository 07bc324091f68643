-- ===== src/Logic/Link.antt =====
-- src/clogic.cpp: `getShareByLink` and `addFolderByShareDir`.
pub mod Copy
pub mod Items
pub mod Take
pub mod Isolation
use nest_disk.Base.{
  ℕ, zero, suc, ℤ, pos, Text, text_eq, not, List, [], ◌∷◌, Piece, lit, str, int, if◌then◌else◌,
}
use nest_disk.Packet.{GetShareRq, get_share_rs, def_content_size, max_path_size}
use nest_disk.Env.{
  M, ◌>>=◌, ◌>>◌, pure, stop, fail, empty_front, out_of_fuel, function_call, send_data, sprintf,
  copy_to, number_of,
}
use nest_disk.Mysql.{select_mysql, updata_mysql}
use nest_disk.Logic.{folder_type, subdir}
use nest_disk.Logic.Upload.{insert_user_file}

abbrev pub select_shared : Text → List Piece
select_shared dir =
    lit "select f_id,f_name,f_type from user_file_info where f_dir='" ∷ str dir ∷ lit "';" ∷ []

abbrev pub select_by_link : ℤ → List Piece
select_by_link link =
    lit "select u_id,f_id,f_dir,f_name,f_type from user_file_info where s_link='"
    ∷ int link
    ∷ lit "';"
    ∷ []

-- What a walk does with a folder: its destination's directory and its source's.
abbrev pub Walk : Type 0
Walk = Text → Text → M (Unit {0})

-- An entry is related to the user who takes it; `again` is the function itself.
pub copy_entry : Walk → ℤ → Text → Text → Text → ℤ → Text → Text → M (Unit {0})
copy_entry again user time dest source fid name type = do
  sql ← sprintf def_content_size (insert_user_file user fid dest name time)
  res ← updata_mysql sql
  if not res
      then stop
      else if text_eq type folder_type
      then function_call (again (subdir dest name) (subdir source name))
      else pure tt

-- `while (lststr.size() > 0)`: an entry is three strings.
pub copy_all : Walk → ℤ → Text → Text → Text → List Text → M (Unit {0})
copy_all again user time dest source [] = pure tt
copy_all again user time dest source (t ∷ []) = number_of t >>= λ fid. fail empty_front
copy_all again user time dest source (t ∷ name ∷ []) = number_of t >>= λ fid. fail empty_front
copy_all again user time dest source (t ∷ name ∷ type ∷ rest) = do
  fid ← number_of t
  copy_entry again user time dest source fid name type
  copy_all again user time dest source rest

-- The fuel is the depth of the calls. The user who shares is not asked for.
pub add_folder_by_share_dir : ℕ → ℤ → Text → Text → Text → M (Unit {0})
add_folder_by_share_dir zero user time dest source = out_of_fuel
add_folder_by_share_dir (suc fuel) user time dest source = do
  sql ← sprintf def_content_size (select_shared source)
  (res, lststr) ← select_mysql sql 3 []
  if not res
      then stop
      else copy_all (add_folder_by_share_dir fuel user time) user time dest source lststr

-- A shared item; the result is the destination for the items that follow, which a folder changes.
pub take_item : Walk → ℤ → Text → Text → Text → ℤ → Text → Text → M Text
take_item again user time dest source fid name type = do
  sql ← sprintf def_content_size (insert_user_file user fid dest name time)
  res ← updata_mysql sql
  if not res
      then stop
      else if text_eq type folder_type
      then (function_call (again (subdir dest name) (subdir source name))
          >> pure (subdir dest name))
      else pure dest

-- `while (lststr.size() > 0)`: an item is five strings.
pub take_items : Walk → ℤ → Text → Text → List Text → M (Unit {0})
take_items again user time dest [] = pure tt
take_items again user time dest (a ∷ []) = number_of a >>= λ u. fail empty_front
take_items again user time dest (a ∷ b ∷ []) =
    number_of a >>= λ u. number_of b >>= λ fid. fail empty_front
take_items again user time dest (a ∷ b ∷ c ∷ []) =
    number_of a >>= λ u. number_of b >>= λ fid. fail empty_front
take_items again user time dest (a ∷ b ∷ c ∷ d ∷ []) =
    number_of a >>= λ u. number_of b >>= λ fid. fail empty_front
take_items again user time dest (a ∷ b ∷ source ∷ name ∷ type ∷ rest) = do
  u ← number_of a
  fid ← number_of b
  next ← take_item again user time dest source fid name type
  take_items again user time next rest

pub link_found : ℕ → GetShareRq → ℤ → List Text → M (Unit {0})
link_found fuel rq fd [] = send_data fd (get_share_rs (record { result = pos 0; dir = [] }))
link_found fuel rq fd (t ∷ ts) = do
  take_items (add_folder_by_share_dir fuel rq.userid rq.time) rq.userid rq.time rq.dir (t ∷ ts)
  dir ← copy_to max_path_size rq.dir
  send_data fd (get_share_rs (record { result = pos 1; dir = dir }))

pub get_share_by_link : ℕ → GetShareRq → ℤ → M (Unit {0})
get_share_by_link fuel rq fd = do
  sql ← sprintf def_content_size (select_by_link rq.share_link)
  (res, lststr) ← select_mysql sql 5 []
  if not res then stop else link_found fuel rq fd lststr
