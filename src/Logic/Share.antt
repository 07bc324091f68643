-- ===== src/Logic/Share.antt =====
-- src/clogic.cpp: `shareFile`.
pub mod Links
pub mod Reply
pub mod Isolation
use nest_disk.Base.{
  ℕ, zero, suc, ◌+◌, ◌*◌, ◌%◌, ℤ, pos, pos_part, Text, not, List, [], ◌∷◌, Piece, lit, str, int,
  if◌then◌else◌,
}
use nest_disk.Packet.{ShareFileRq, share_file_rs, def_content_size}
use nest_disk.Env.{
  M, ◌>>=◌, ◌>>◌, pure, stop, fail, overread, out_of_fuel, call, drew, send_data, sprintf,
}
use nest_disk.Mysql.{select_mysql, updata_mysql}

abbrev pub select_link : ℤ → List Piece
select_link link = lit "select s_link from user_file_info where s_link='" ∷ int link ∷ lit "';" ∷ []

abbrev pub set_link : ℤ → Text → ℤ → ℤ → Text → List Piece
set_link link time userid fid dir =
    lit "update t_user_file set s_link='"
    ∷ int link
    ∷ lit "',s_linkTime='"
    ∷ str time
    ∷ lit "' where u_id='"
    ∷ int userid
    ∷ lit "' and f_id='"
    ∷ int fid
    ∷ lit "' and f_dir='"
    ∷ str dir
    ∷ lit "';"
    ∷ []

-- The link that two results of `random` make.
unfoldable pub link_of : ℕ → ℕ → ℤ
link_of a b = pos ((1 + a % 9) * 100000000 + b % 100000000)

pub draw_link : M ℤ
draw_link = do
  a ← call drew (λ sys. sys.random)
  b ← call drew (λ sys. sys.random)
  pure (link_of a b)

-- The `do … while (lststr.size() > 0)`, a round for each unit of fuel. The list is not cleared
-- between rounds.
pub choose_link : ℕ → List Text → M ℤ
choose_link zero lststr = out_of_fuel
choose_link (suc fuel) lststr = do
  link ← draw_link
  sql ← sprintf def_content_size (select_link link)
  (res, found) ← select_mysql sql 1 lststr
  if not res then stop else elim found [ [] ↦ pure link | t ∷ ts ↦ choose_link fuel (t ∷ ts) ]

-- `for (i = 0; i < itemCount; i++)` over the array that ends the packet.
pub link_items : ShareFileRq → ℤ → ℕ → List ℤ → M (Unit {0})
link_items rq link zero fids = pure tt
link_items rq link (suc n) [] = fail overread
link_items rq link (suc n) (fid ∷ fids) = do
  sql ← sprintf def_content_size (set_link link rq.share_time rq.userid fid rq.dir)
  res ← updata_mysql sql
  if not res then stop else link_items rq link n fids

pub share_file : ℕ → ShareFileRq → ℤ → M (Unit {0})
share_file fuel rq fd = do
  link ← choose_link fuel []
  link_items rq link (pos_part rq.item_count) rq.fileid_array
  send_data fd (share_file_rs (record { result = pos 1 }))
