-- ===== src/Logic/Delete/Isolation.antt =====
-- src/clogic.cpp: what the pieces of the handlers in Delete send, and to whom.
use nest_disk.Base.{ℕ, zero, suc, ℤ, Text, List, [], ◌∷◌}
use nest_disk.Packet.{def_pack_delete_file_rs, DeleteFileRq}
use nest_disk.Env.{M}
use nest_disk.Env.Isolation.{Allowed, to, OnlyTo}
use nest_disk.Env.Pieces.{pieces}
use nest_disk.Logic.Delete.{
  remove_unused, look_up_count, delete_file_by_id, delete_entry, visit, visit_all, list_folder,
  delete_folder_by_id, delete_item, delete_found, delete_items, delete_file,
}

pub remove_unused-OnlyTo :
    (allowed : Allowed) (path : Text) (l : List Text) → OnlyTo allowed (remove_unused path l)
unfolding remove_unused
remove_unused-OnlyTo allowed path [] = search pieces depth 30
remove_unused-OnlyTo allowed path (_ ∷ _) = search pieces depth 30

pub look_up_count-OnlyTo :
    (allowed : Allowed) (f_id : ℤ) (path : Text) → OnlyTo allowed (look_up_count f_id path)
unfolding look_up_count
look_up_count-OnlyTo allowed f_id path = search (pieces, remove_unused-OnlyTo) depth 30

pub delete_file_by_id-OnlyTo :
    (allowed : Allowed) (u_id : ℤ) (f_id : ℤ) (dir : Text) (path : Text)
    → OnlyTo allowed (delete_file_by_id u_id f_id dir path)
unfolding delete_file_by_id
delete_file_by_id-OnlyTo allowed u_id f_id dir path = search (pieces, look_up_count-OnlyTo) depth 30

pub delete_entry-OnlyTo :
    (allowed : Allowed) (u_id : ℤ) (dir : Text) (fid : ℤ)
    → OnlyTo allowed (delete_entry u_id dir fid)
unfolding delete_entry
delete_entry-OnlyTo allowed u_id dir fid = search pieces depth 30

pub visit-OnlyTo :
    (allowed : Allowed) (again : ℤ → Text → Text → M (Unit {0}))
    (h : (x : ℤ) (a b : Text) → OnlyTo allowed (again x a b)) (u_id : ℤ) (dir : Text) (fid : ℤ)
    (type : Text) (name : Text)
    → OnlyTo allowed (visit again u_id dir fid type name)
unfolding visit
visit-OnlyTo allowed again h u_id dir fid type name = search (pieces, delete_entry-OnlyTo) depth 30

pub visit_all-OnlyTo :
    (allowed : Allowed) (again : ℤ → Text → Text → M (Unit {0}))
    (h : (x : ℤ) (a b : Text) → OnlyTo allowed (again x a b)) (u_id : ℤ) (dir : Text)
    (l : List Text)
    → OnlyTo allowed (visit_all again u_id dir l)
unfolding visit_all
visit_all-OnlyTo allowed again h u_id dir [] = search (pieces, visit-OnlyTo) depth 30
visit_all-OnlyTo allowed again h u_id dir (t ∷ []) = search (pieces, visit-OnlyTo) depth 30
visit_all-OnlyTo allowed again h u_id dir (t ∷ type ∷ []) = search (pieces, visit-OnlyTo) depth 30
visit_all-OnlyTo allowed again h u_id dir (t ∷ type ∷ name ∷ rest) =
    let ih = visit_all-OnlyTo allowed again h u_id dir rest in
    search (pieces, visit-OnlyTo) depth 30

pub list_folder-OnlyTo :
    (allowed : Allowed) (again : ℤ → Text → Text → M (Unit {0}))
    (h : (x : ℤ) (a b : Text) → OnlyTo allowed (again x a b)) (u_id : ℤ) (dir : Text)
    → OnlyTo allowed (list_folder again u_id dir)
unfolding list_folder
list_folder-OnlyTo allowed again h u_id dir = search (pieces, visit_all-OnlyTo) depth 30

pub delete_folder_by_id-OnlyTo :
    (allowed : Allowed) (n : ℕ) (u_id : ℤ) (f_id : ℤ) (dir : Text) (name : Text)
    → OnlyTo allowed (delete_folder_by_id n u_id f_id dir name)
unfolding delete_folder_by_id
delete_folder_by_id-OnlyTo allowed zero u_id f_id dir name =
    search (pieces, list_folder-OnlyTo) depth 30
delete_folder_by_id-OnlyTo allowed (suc fuel) u_id f_id dir name =
    let ih = delete_folder_by_id-OnlyTo allowed fuel u_id in
    search (pieces, list_folder-OnlyTo) depth 30

pub delete_item-OnlyTo :
    (allowed : Allowed) (fuel : ℕ) (u_id : ℤ) (fid : ℤ) (dir : Text) (type : Text) (name : Text)
    (path : Text)
    → OnlyTo allowed (delete_item fuel u_id fid dir type name path)
unfolding delete_item
delete_item-OnlyTo allowed fuel u_id fid dir type name path =
    search (pieces, delete_file_by_id-OnlyTo, delete_folder_by_id-OnlyTo) depth 30

pub delete_found-OnlyTo :
    (allowed : Allowed) (fuel : ℕ) (rq : DeleteFileRq) (fid : ℤ) (l : List Text)
    → OnlyTo allowed (delete_found fuel rq fid l)
unfolding delete_found
delete_found-OnlyTo allowed fuel rq fid [] = search (pieces, delete_item-OnlyTo) depth 30
delete_found-OnlyTo allowed fuel rq fid (type ∷ l) = search (pieces, delete_item-OnlyTo) depth 30

pub delete_items-OnlyTo :
    (allowed : Allowed) (fuel : ℕ) (rq : DeleteFileRq) (lststr : List Text) (n : ℕ) (fids : List ℤ)
    → OnlyTo allowed (delete_items fuel rq lststr n fids)
unfolding delete_items
delete_items-OnlyTo allowed fuel rq lststr zero fids = search (pieces, delete_found-OnlyTo) depth 30
delete_items-OnlyTo allowed fuel rq lststr (suc n) [] =
    search (pieces, delete_found-OnlyTo) depth 30
delete_items-OnlyTo allowed fuel rq lststr (suc n) (fid ∷ fids) =
    let ih : (l : List Text) → OnlyTo allowed (delete_items fuel rq l n fids) =
      λ l. delete_items-OnlyTo allowed fuel rq l n fids in
    search (pieces, delete_found-OnlyTo) depth 30

pub delete_file-OnlyTo :
    (fd : ℤ) (fuel : ℕ) (rq : DeleteFileRq)
    → OnlyTo (to fd (def_pack_delete_file_rs ∷ [])) (delete_file fuel rq fd)
unfolding delete_file
delete_file-OnlyTo fd fuel rq = search (pieces, delete_items-OnlyTo) depth 30
