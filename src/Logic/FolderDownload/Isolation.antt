-- ===== src/Logic/FolderDownload/Isolation.antt =====
-- src/clogic.cpp: what the pieces of the handlers in FolderDownload send, and to whom.
use nest_disk.Base.{
  ◌≡◌, true, arith, ℕ, zero, suc, ℤ, Text, List, [], ◌∷◌, Option-cases, inl, inr, refl,
}
use nest_disk.Packet.{
  Packet, DownloadFileRq, def_pack_add_folder_rq, def_pack_file_header_rq, DownloadFolderRq,
}
use nest_disk.MyMap.{find}
use nest_disk.Env.{M}
use nest_disk.Env.Isolation.{Allowed, to, OnlyTo, OnlyTo-mono}
use nest_disk.Env.Pieces.{pieces}
use nest_disk.Logic.{session_key}
use nest_disk.Logic.Download.{download_file}
use nest_disk.Logic.Download.Isolation.{download_file-OnlyTo}
use nest_disk.Logic.FolderDownload.{
  next_timestamp, fresh_timestamp, download_inside, fetch_entry, fetch_all, fetch_listed,
  download_folder_by_dir, folder_named, download_file_folder,
}

pub fresh_timestamp-OnlyTo :
    (allowed : Allowed) (n : ℕ) (userid : ℤ) (timestamp : ℤ)
    → OnlyTo allowed (fresh_timestamp n userid timestamp)
unfolding fresh_timestamp
fresh_timestamp-OnlyTo allowed zero userid timestamp = search pieces depth 30
fresh_timestamp-OnlyTo allowed (suc fuel) userid timestamp = record {
  keeps = λ sys s. elim (Option-cases (find (session_key userid timestamp) s.files)) [
    | inl e ↦ rw (e) refl
    | inr (file, e) ↦
        rw (e) ((fresh_timestamp-OnlyTo allowed fuel userid (next_timestamp timestamp)).keeps sys s)
  ];
}

-- The headers of the files, and the folders.
abbrev pub folder_replies : List ℕ
folder_replies = def_pack_file_header_rq ∷ def_pack_add_folder_rq ∷ []

header-folder_replies :
    (fd g : ℤ) (p : Packet)
    → to fd (def_pack_file_header_rq ∷ []) g p ≡ true
    → to fd folder_replies g p ≡ true
unfolding to
header-folder_replies fd g p h = ground arith

folder_file-OnlyTo :
    (fd : ℤ) (rq : DownloadFileRq) → OnlyTo (to fd folder_replies) (download_file rq fd)
folder_file-OnlyTo fd rq =
    OnlyTo-mono (to fd (def_pack_file_header_rq ∷ [])) (to fd folder_replies)
      (header-folder_replies fd) (download_file rq fd) (download_file-OnlyTo fd rq)

pub download_inside-OnlyTo :
    (fd : ℤ) (userid : ℤ) (dir : Text) (timestamp : ℤ) (fileid : ℤ)
    → OnlyTo (to fd folder_replies) (download_inside userid fd dir timestamp fileid)
unfolding download_inside
download_inside-OnlyTo fd userid dir timestamp fileid = search (pieces, folder_file-OnlyTo) depth 30

pub fetch_entry-OnlyTo :
    (fd : ℤ) (again : ℤ → Text → Text → M (Unit {0}))
    (h : (x : ℤ) (a b : Text) → OnlyTo (to fd folder_replies) (again x a b)) (userid : ℤ)
    (dir : Text) (type : Text) (fileid : ℤ) (name : Text) (timestamp : ℤ)
    → OnlyTo (to fd folder_replies) (fetch_entry again userid fd dir type fileid name timestamp)
unfolding fetch_entry
fetch_entry-OnlyTo fd again h userid dir type fileid name timestamp =
    search (pieces, download_inside-OnlyTo) depth 30

pub fetch_all-OnlyTo :
    (fd : ℤ) (again : ℤ → Text → Text → M (Unit {0}))
    (h : (x : ℤ) (a b : Text) → OnlyTo (to fd folder_replies) (again x a b)) (fuel : ℕ)
    (timestamp : ℤ) (userid : ℤ) (dir : Text) (l : List Text)
    → OnlyTo (to fd folder_replies) (fetch_all again fuel timestamp userid fd dir l)
unfolding fetch_all
fetch_all-OnlyTo fd again h fuel timestamp userid dir [] =
    search (pieces, fresh_timestamp-OnlyTo, fetch_entry-OnlyTo) depth 30
fetch_all-OnlyTo fd again h fuel timestamp userid dir (type ∷ []) =
    search (pieces, fresh_timestamp-OnlyTo, fetch_entry-OnlyTo) depth 30
fetch_all-OnlyTo fd again h fuel timestamp userid dir (type ∷ t ∷ []) =
    search (pieces, fresh_timestamp-OnlyTo, fetch_entry-OnlyTo) depth 30
fetch_all-OnlyTo fd again h fuel timestamp userid dir (type ∷ t ∷ name ∷ rest) =
    let ih = fetch_all-OnlyTo fd again h fuel timestamp userid dir rest in
    search (pieces, fresh_timestamp-OnlyTo, fetch_entry-OnlyTo) depth 30

pub fetch_listed-OnlyTo :
    (fd : ℤ) (again : ℤ → Text → Text → M (Unit {0}))
    (h : (x : ℤ) (a b : Text) → OnlyTo (to fd folder_replies) (again x a b)) (fuel : ℕ)
    (timestamp : ℤ) (userid : ℤ) (dir : Text)
    → OnlyTo (to fd folder_replies) (fetch_listed again fuel timestamp userid fd dir)
unfolding fetch_listed
fetch_listed-OnlyTo fd again h fuel timestamp userid dir =
    search (pieces, fetch_all-OnlyTo) depth 30

pub download_folder_by_dir-OnlyTo :
    (fd : ℤ) (n : ℕ) (fuel : ℕ) (userid : ℤ) (timestamp : ℤ) (dir : Text) (name : Text)
    → OnlyTo (to fd folder_replies) (download_folder_by_dir n fuel userid fd timestamp dir name)
unfolding download_folder_by_dir
download_folder_by_dir-OnlyTo fd zero fuel userid timestamp dir name =
    search (pieces, fetch_listed-OnlyTo) depth 30
download_folder_by_dir-OnlyTo fd (suc calls) fuel userid timestamp dir name =
    let ih = download_folder_by_dir-OnlyTo fd calls fuel userid in
    search (pieces, fetch_listed-OnlyTo) depth 30

pub folder_named-OnlyTo :
    (fd : ℤ) (calls : ℕ) (fuel : ℕ) (rq : DownloadFolderRq) (l : List Text)
    → OnlyTo (to fd folder_replies) (folder_named calls fuel rq fd l)
unfolding folder_named
folder_named-OnlyTo fd calls fuel rq [] = search (pieces, download_folder_by_dir-OnlyTo) depth 30
folder_named-OnlyTo fd calls fuel rq (name ∷ _) =
    search (pieces, download_folder_by_dir-OnlyTo) depth 30

pub download_file_folder-OnlyTo :
    (fd : ℤ) (calls : ℕ) (fuel : ℕ) (rq : DownloadFolderRq)
    → OnlyTo (to fd folder_replies) (download_file_folder calls fuel rq fd)
unfolding download_file_folder
download_file_folder-OnlyTo fd calls fuel rq = search (pieces, folder_named-OnlyTo) depth 30
