-- ===== src/Kernel/Protocol.antt =====
-- Which packet reaches which handler.
use nest_disk.Base.{
  ℕ, zero, suc, ◌+◌, ◌-◌, ◌<◌, ◌≡◌, refl, ap, ◌∙◌, Text, Bool, true, false, ◌&&◌, ◌++◌, get_elem?,
  ◌==◌, ==_iff, arith, ◌↔◌, ◌≢◌, ◌^◌,
}
use nest_disk.Packet.{
  def_pack_base, def_pack_count, def_pack_register_rq, def_pack_login_rq, def_pack_upload_file_rq,
  def_pack_file_content_rq, def_pack_file_content_rs, def_pack_file_list_rq,
  def_pack_download_file_rq, def_pack_download_folder_rq, def_pack_file_header_rs,
  def_pack_add_folder_rq, def_pack_share_file_rq, def_pack_my_share_rq, def_pack_get_share_rq,
  def_pack_delete_file_rq, def_pack_continue_download_rq, def_pack_continue_upload_rq,
  def_pack_play_video_rq,
}
use nest_disk.Net.Frame.{le_bytes}
use nest_disk.Net.Frame.Trip.{from_le-le_bytes}
use nest_disk.Kernel.{
  Handler, register_rq, login_rq, upload_file, file_content_rq, get_file_list, download_file,
  download_file_folder, download_file_head_rs, file_content_rs, add_folder, share_file,
  get_share_list, get_share_by_link, delete_file, continue_download, continue_upload, play_video,
  Deal, dropped, calls, overread, entry, deal_type, deal_data, set_net_pack_map,
}

-- The packet types that packdef.h gives to the requests.
unfoldable pub pack_type : Handler → ℕ
pack_type register_rq = def_pack_register_rq
pack_type login_rq = def_pack_login_rq
pack_type upload_file = def_pack_upload_file_rq
pack_type file_content_rq = def_pack_file_content_rq
pack_type file_content_rs = def_pack_file_content_rs
pack_type get_file_list = def_pack_file_list_rq
pack_type download_file = def_pack_download_file_rq
pack_type download_file_folder = def_pack_download_folder_rq
pack_type download_file_head_rs = def_pack_file_header_rs
pack_type add_folder = def_pack_add_folder_rq
pack_type share_file = def_pack_share_file_rq
pack_type get_share_list = def_pack_my_share_rq
pack_type get_share_by_link = def_pack_get_share_rq
pack_type delete_file = def_pack_delete_file_rq
pack_type continue_download = def_pack_continue_download_rq
pack_type continue_upload = def_pack_continue_upload_rq
pack_type play_video = def_pack_play_video_rq

pub pack_type-lt : (h : Handler) → pack_type h < 2 ^ 32
unfolding pack_type
pack_type-lt register_rq = omega arith
pack_type-lt _ = omega arith

-- No overrun, and a handler only if its type is `10000 + i`.
fits : Deal → ℕ → Bool
fits overread i = false
fits dropped i = true
fits (calls h) i = pack_type h == def_pack_base + i

slot : ℕ → Deal
slot i = entry (get_elem? set_net_pack_map i)

slot_fits : ℕ → Bool
slot_fits i = fits (slot i) i

-- The test of the first `count` slots.
slots_below : ℕ → Bool
slots_below zero = true
slots_below (suc count) = slots_below count && slot_fits count

slot_below : (i count : ℕ) → i < count → slots_below count ≡ true → slot_fits i ≡ true
unfolding slots_below
slot_below i zero inside all = absurd (omega arith)
slot_below i (suc count) inside all = ground (arith, slot_below i count)

slots_fit : slots_below def_pack_count ≡ true
unfolding slots_below slot_fits slot fits set_net_pack_map pack_type
slots_fit = refl

fits_sound :
    (d : Deal) (i : ℕ)
    → fits d i ≡ true
    → (d ≢ overread) × ((h : Handler) → d ≡ calls h → pack_type h ≡ def_pack_base + i)
unfolding fits
fits_sound overread i e = absurd (ground arith)
fits_sound dropped i e = (λ d. cc, λ h d. cc)
fits_sound (calls k) i e =
    (λ d. cc, λ h d. ground (arith, ==_iff (pack_type k) (def_pack_base + i)))

slot_sound :
    (i : ℕ)
    → i < def_pack_count
    → (slot i ≢ overread) × ((h : Handler) → slot i ≡ calls h → pack_type h ≡ def_pack_base + i)
unfolding slot_fits
slot_sound i h = fits_sound (slot i) i (slot_below i def_pack_count h slots_fit)

handler_of-pack_type : (h : Handler) → deal_type set_net_pack_map (pack_type h) ≡ calls h
unfolding deal_type set_net_pack_map pack_type
handler_of-pack_type register_rq = refl
handler_of-pack_type _ = refl

deal_type-calls : (n : ℕ) (h : Handler) → deal_type set_net_pack_map n ≡ calls h → n ≡ pack_type h
unfolding deal_type slot
deal_type-calls n h e =
    ground
      (arith, λ (p : n - def_pack_base < def_pack_count). (slot_sound (n - def_pack_base) p).1 h)

deal_type-ne-overread : (n : ℕ) → ¬ (deal_type set_net_pack_map n ≡ overread)
unfolding deal_type slot
deal_type-ne-overread n e =
    ground (arith, λ (p : n - def_pack_base < def_pack_count). (slot_sound (n - def_pack_base) p).0)

deal_data_header :
    (n : ℕ) (body : Text)
    → n < 2 ^ 32
    → deal_data set_net_pack_map (le_bytes n ++ body) ≡ deal_type set_net_pack_map n
unfolding deal_data le_bytes
deal_data_header n body h = ground (arith, ap (deal_type set_net_pack_map) (from_le-le_bytes n h))

-- A packet of four bytes or more, whose first four are those of the type `n`, is given to the handler `h`
-- exactly when `n` is the type that packdef.h gives to the requests of `h`, and never makes `DealData`
-- read outside the table.
pub deal_data-pack_type :
    (n : ℕ) (body : Text) (h : Handler)
    → n < 2 ^ 32
    → ((deal_data set_net_pack_map (le_bytes n ++ body) ≡ calls h) ↔ (n ≡ pack_type h))
      × ¬ (deal_data set_net_pack_map (le_bytes n ++ body) ≡ overread)
deal_data-pack_type n body h small = rw (deal_data_header n body small) (
  (deal_type-calls n h, λ e. ap (deal_type set_net_pack_map) e ∙ handler_of-pack_type h),
  deal_type-ne-overread n,
)
