-- ===== src/Logic/FolderDownload/Whole.antt =====
-- src/clogic.cpp, `downloadFolderByDir` and `downloadFileFolder`: the download of a whole folder.
use nest_disk.Base.{
  ℕ, zero, suc, ◌+◌, ◌<◌, ◌≤◌, ◌≡◌, refl, sym, ap, ◌∙◌, ℤ, pos, ◌+ℤ◌, InInt, Text, some, List, [],
  ◌∷◌, ◌++◌, map, length, format, bound, arith,
}
use nest_disk.Packet.{DownloadFolderRq, add_folder_rq, def_content_size, max_path_size}
use nest_disk.Env.{Sys, Server, ok, function_end, queried}
use nest_disk.Mysql.Rows.{Serves, flat, concat, select_mysql-all}
use nest_disk.Env.Rules.{sprintf-eq-ok}
use nest_disk.Logic.{subdir, file_type, folder_type}
use nest_disk.Logic.Tree.{Entries, end, file, folder, depth, rows, Lists}
use nest_disk.Logic.Download.Offer.{Details, Opens, offered}
use nest_disk.Logic.FolderDownload.{
  select_name, select_inside, folder_packet, fetch_all, download_folder_by_dir, folder_named,
  download_file_folder,
}
use nest_disk.Logic.FolderDownload.Fresh.{InInt-between}
use nest_disk.Logic.FolderDownload.Grown.{
  Grew, Grew-refl, Grew-trans, Grew-trans_zero, offered-Grew, announced, announced-Grew, asked-Grew,
  next_stamp,
}
use nest_disk.Logic.FolderDownload.Walk.{
  inside_columns, count_files, offers, lookups, AllKnown, stamps, stamps-ge, stamps_mono,
  inner-InInt, fetch_all-step, fetch_entry-file, fetch_entry-folder,
  download_folder_by_dir-announced,
}

module _ (u fd : ℤ) (info : ℤ → Details) (sys : Sys) (good : Serves sys) (opens : Opens sys) where
  -- The loop over the entries of a directory.
  abbrev Fetches : ℕ → ℕ → ℤ → Text → Entries → Server → Type 0
  Fetches c fuel t dir es s =
      (s' : Server) × (fetch_all (download_folder_by_dir c fuel u fd) fuel t u fd dir
          (flat (rows inside_columns es)) sys s
        ≡ (ok tt, s'))
      × Grew u (offers u fd info dir es) (lookups u fd info dir es) (count_files es) s s'

  fetch_all-walk :
      (c fuel : ℕ) (t : ℤ) (dir : Text) (es : Entries) (s : Server)
      → depth es ≤ c
      → AllKnown u fd info sys dir es
      → length s.files + count_files es < fuel
      → InInt t
      → InInt (t +ℤ pos (stamps fuel (depth es)))
      → Fetches c fuel t dir es s
  unfolding offers lookups count_files rows flat depth
  fetch_all-walk c fuel t dir end s deep known few a b =
      (s, (unfold fetch_all in refl), Grew-refl u s)
  fetch_all-walk c fuel t dir (file fid name es) s deep known few a b =
      let n =
        next_stamp fuel u t sys s (omega arith) a
          (InInt-between t (suc fuel) (stamps fuel (depth es)) (stamps-ge fuel (depth es)) a b) in
      let stamp = t +ℤ pos (suc n.0) in
      let s1 = offered u fd dir stamp fid name (info fid) sys s in
      let g = offered-Grew u fd dir stamp fid name (info fid) sys s n.3 in
      let rest = fetch_all-walk c fuel t dir es s1 deep known.3 (omega (arith, g.opens)) a b in
      (
        rest.0,
        fetch_all-step (download_folder_by_dir c fuel u fd) fuel t u fd dir file_type fid name
              (flat (rows inside_columns es)) stamp sys s s1 known.0 n.2
              (fetch_entry-file (download_folder_by_dir c fuel u fd) u fd dir fid name stamp
                (info fid) sys s good opens known.2 known.1)
            ∙ rest.1,
        Grew-trans u _ _ _ _ 1 (count_files es) s s1 rest.0 g rest.2,
      )
  fetch_all-walk zero fuel t dir (folder fid name inner es) s deep known few a b =
      absurd (omega arith)
  fetch_all-walk (suc c) fuel t dir (folder fid name inner es) s deep known few a b =
      let d = depth (folder fid name inner es) in
      let again = download_folder_by_dir (suc c) fuel u fd in
      let n =
        next_stamp fuel u t sys s (omega arith) a
          (InInt-between t (suc fuel) (stamps fuel d) (stamps-ge fuel d) a b) in
      let stamp = t +ℤ pos (suc n.0) in
      let ints = inner-InInt fuel n.0 (depth inner) d t n.1 (omega arith) a b in
      let p = folder_packet (subdir dir name) in
      let q = format (select_inside u (subdir dir name)) in
      let s1 = announced fd p q s in
      let below =
        fetch_all-walk c fuel stamp (subdir dir name) inner s1 (omega arith) known.3 (omega arith)
          ints.0 ints.1 in
      let rest =
        fetch_all-walk (suc c) fuel t dir es below.0 (omega arith) known.4
          (omega (arith, below.2.opens)) a
          (InInt-between t (stamps fuel (depth es)) (stamps fuel d)
            (stamps_mono fuel (depth es) d (omega arith)) a b) in
      (
        rest.0,
        fetch_all-step again fuel t u fd dir folder_type fid name (flat (rows inside_columns es))
              stamp sys s below.0 known.0 n.2
              (fetch_entry-folder again u fd dir fid name stamp sys s
                ∙ ap function_end (
                    download_folder_by_dir-announced c fuel u fd stamp dir name inner sys s good
                      known.1 known.2
                    ∙ below.1))
            ∙ rest.1,
        Grew-trans u _ _ _ _ 0 (count_files inner + count_files es) s s1 rest.0
            (announced-Grew u fd p q s)
            (Grew-trans u _ _ _ _ (count_files inner) (count_files es) s1 below.0 rest.0 below.2
              rest.2),
      )

select_name-fits :
    (rq : DownloadFolderRq)
    → length rq.dir < max_path_size
    → bound (select_name rq) < def_content_size
unfolding nest_disk.Base.codes
select_name-fits rq h = omega arith

-- The handler up to the folder itself.
download_file_folder-named :
    (calls fuel : ℕ) (rq : DownloadFolderRq) (fd : ℤ) (name : Text) (sys : Sys) (s : Server)
    → Serves sys
    → length rq.dir < max_path_size
    → sys.mysql_store_result (queried (format (select_name rq)) ∷ s.trace)
      ≡ some (map (map some) ((name ∷ []) ∷ []))
    → download_file_folder calls fuel rq fd sys s
      ≡ function_end (
          download_folder_by_dir calls fuel rq.userid fd rq.timestamp rq.dir name sys
            (record s { trace = queried (format (select_name rq)) ∷ s.trace }))
unfolding download_file_folder folder_named concat
download_file_folder-named calls fuel rq fd name sys s good short row =
    rw
      (
        download_file_folder,
        sprintf-eq-ok def_content_size (select_name rq) sys s (select_name-fits rq short),
        select_mysql-all (format (select_name rq)) 1 ((name ∷ []) ∷ []) sys s good row (refl, tt),
      )
      refl

-- No statement fails and every `open` gives a descriptor; the look-up of the request's folder gives a
-- name, the queries for it and for the folders below it give the entries of a tree, the look-ups of its
-- files their rows, and all strings fit the packets; calls may go deeper than the tree, look-ups of a
-- timestamp are more than there are and will be transfers, and the timestamps stay of type `int`. Then
-- `downloadFileFolder` ends. It has sent the client each folder, before its entries, and the header of
-- each file, in the order of a walk through the tree, and nothing else; the timestamp of each header is
-- one under which the user had no transfer and now has that of this file, at its beginning. It has
-- executed the look-ups of that walk and no other statement; there is one transfer more for each file
-- of the tree, and those that ran before are as they were.
pub download_file_folder_lem :
    (calls fuel : ℕ) (rq : DownloadFolderRq) (fd : ℤ) (name : Text) (inner : Entries)
    (info : ℤ → Details) (sys : Sys) (s : Server)
    → Serves sys
    → Opens sys
    → length rq.dir < max_path_size
    → length (subdir rq.dir name) < max_path_size
    → sys.mysql_store_result (queried (format (select_name rq)) ∷ s.trace)
      ≡ some (map (map some) ((name ∷ []) ∷ []))
    → Lists inside_columns (select_inside rq.userid) sys (subdir rq.dir name) inner
    → AllKnown rq.userid fd info sys (subdir rq.dir name) inner
    → depth inner < calls
    → length s.files + count_files inner < fuel
    → InInt rq.timestamp
    → InInt (rq.timestamp +ℤ pos (stamps fuel (depth inner)))
    → (s' : Server) × (download_file_folder calls fuel rq fd sys s ≡ (ok tt, s'))
      × Grew rq.userid
          ((fd, add_folder_rq (folder_packet (subdir rq.dir name)))
            ∷ offers rq.userid fd info (subdir rq.dir name) inner)
          (format (select_name rq)
            ∷ format (select_inside rq.userid (subdir rq.dir name))
            ∷ lookups rq.userid fd info (subdir rq.dir name) inner)
          (count_files inner)
          s
          s'
download_file_folder_lem zero fuel rq fd name inner info sys s good opens short short' row listed
      known deep few a b =
    absurd (omega arith)
download_file_folder_lem (suc c) fuel rq fd name inner info sys s good opens short short' row listed
      known deep few a b =
    let dir = subdir rq.dir name in
    let q = format (select_name rq) in
    let p = folder_packet dir in
    let s1 = record s { trace = queried q ∷ s.trace } in
    let s2 = announced fd p (format (select_inside rq.userid dir)) s1 in
    let below =
      fetch_all-walk rq.userid fd info sys good opens c fuel rq.timestamp dir inner s2 (omega arith)
        known few a b in
    (
      below.0,
      download_file_folder-named (suc c) fuel rq fd name sys s good short row
          ∙ ap function_end (
              download_folder_by_dir-announced c fuel rq.userid fd rq.timestamp rq.dir name inner
                sys s1 good short' listed
              ∙ below.1),
      Grew-trans_zero rq.userid _ _ _ _ (count_files inner) s s1 below.0 (asked-Grew rq.userid q s)
          (Grew-trans_zero rq.userid _ _ _ _ (count_files inner) s1 s2 below.0
            (announced-Grew rq.userid fd p (format (select_inside rq.userid dir)) s1) below.2),
    )
