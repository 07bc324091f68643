-- ===== src/Logic/Link/Isolation.antt =====
-- src/clogic.cpp: what the pieces of the handlers in Link send, and to whom.
use nest_disk.Base.{ℕ, zero, suc, ℤ, Text, List, [], ◌∷◌}
use nest_disk.Packet.{def_pack_get_share_rs, GetShareRq}
use nest_disk.Env.Isolation.{Allowed, to, OnlyTo}
use nest_disk.Env.Pieces.{pieces}
use nest_disk.Logic.Link.{
  copy_entry, copy_all, add_folder_by_share_dir, take_item, take_items, link_found,
  get_share_by_link, Walk,
}

pub copy_entry-OnlyTo :
    (allowed : Allowed) (again : Walk) (h : (a b : Text) → OnlyTo allowed (again a b)) (user : ℤ)
    (time : Text) (dest : Text) (source : Text) (fid : ℤ) (name : Text) (type : Text)
    → OnlyTo allowed (copy_entry again user time dest source fid name type)
unfolding copy_entry
copy_entry-OnlyTo allowed again h user time dest source fid name type = search pieces depth 30

pub copy_all-OnlyTo :
    (allowed : Allowed) (again : Walk) (h : (a b : Text) → OnlyTo allowed (again a b)) (user : ℤ)
    (time : Text) (dest : Text) (source : Text) (l : List Text)
    → OnlyTo allowed (copy_all again user time dest source l)
unfolding copy_all
copy_all-OnlyTo allowed again h user time dest source [] =
    search (pieces, copy_entry-OnlyTo) depth 30
copy_all-OnlyTo allowed again h user time dest source (t ∷ []) =
    search (pieces, copy_entry-OnlyTo) depth 30
copy_all-OnlyTo allowed again h user time dest source (t ∷ name ∷ []) =
    search (pieces, copy_entry-OnlyTo) depth 30
copy_all-OnlyTo allowed again h user time dest source (t ∷ name ∷ type ∷ rest) =
    let ih = copy_all-OnlyTo allowed again h user time dest source rest in
    search (pieces, copy_entry-OnlyTo) depth 30

pub add_folder_by_share_dir-OnlyTo :
    (allowed : Allowed) (n : ℕ) (user : ℤ) (time : Text) (dest : Text) (source : Text)
    → OnlyTo allowed (add_folder_by_share_dir n user time dest source)
unfolding add_folder_by_share_dir
add_folder_by_share_dir-OnlyTo allowed zero user time dest source =
    search (pieces, copy_all-OnlyTo) depth 30
add_folder_by_share_dir-OnlyTo allowed (suc fuel) user time dest source =
    let ih = add_folder_by_share_dir-OnlyTo allowed fuel user time in
    search (pieces, copy_all-OnlyTo) depth 30

pub take_item-OnlyTo :
    (allowed : Allowed) (again : Walk) (h : (a b : Text) → OnlyTo allowed (again a b)) (user : ℤ)
    (time : Text) (dest : Text) (source : Text) (fid : ℤ) (name : Text) (type : Text)
    → OnlyTo allowed (take_item again user time dest source fid name type)
unfolding take_item
take_item-OnlyTo allowed again h user time dest source fid name type = search pieces depth 30

pub take_items-OnlyTo :
    (allowed : Allowed) (again : Walk) (h : (a b : Text) → OnlyTo allowed (again a b)) (user : ℤ)
    (time : Text) (dest : Text) (l : List Text)
    → OnlyTo allowed (take_items again user time dest l)
unfolding take_items
take_items-OnlyTo allowed again h user time dest [] = search (pieces, take_item-OnlyTo) depth 30
take_items-OnlyTo allowed again h user time dest (a ∷ []) =
    search (pieces, take_item-OnlyTo) depth 30
take_items-OnlyTo allowed again h user time dest (a ∷ b ∷ []) =
    search (pieces, take_item-OnlyTo) depth 30
take_items-OnlyTo allowed again h user time dest (a ∷ b ∷ c ∷ []) =
    search (pieces, take_item-OnlyTo) depth 30
take_items-OnlyTo allowed again h user time dest (a ∷ b ∷ c ∷ d ∷ []) =
    search (pieces, take_item-OnlyTo) depth 30
take_items-OnlyTo allowed again h user time dest (a ∷ b ∷ source ∷ name ∷ type ∷ rest) =
    let ih : (d : Text) → OnlyTo allowed (take_items again user time d rest) =
      λ d. take_items-OnlyTo allowed again h user time d rest in
    search (pieces, take_item-OnlyTo) depth 30

pub link_found-OnlyTo :
    (fd : ℤ) (fuel : ℕ) (rq : GetShareRq) (l : List Text)
    → OnlyTo (to fd (def_pack_get_share_rs ∷ [])) (link_found fuel rq fd l)
unfolding link_found
link_found-OnlyTo fd fuel rq [] =
    search (pieces, add_folder_by_share_dir-OnlyTo, take_items-OnlyTo) depth 30
link_found-OnlyTo fd fuel rq (t ∷ ts) =
    search (pieces, add_folder_by_share_dir-OnlyTo, take_items-OnlyTo) depth 30

pub get_share_by_link-OnlyTo :
    (fd : ℤ) (fuel : ℕ) (rq : GetShareRq)
    → OnlyTo (to fd (def_pack_get_share_rs ∷ [])) (get_share_by_link fuel rq fd)
unfolding get_share_by_link
get_share_by_link-OnlyTo fd fuel rq = search (pieces, link_found-OnlyTo) depth 30
