-- ===== src/Logic/FolderDownload/Walk.antt =====
-- src/clogic.cpp, `downloadFolderByDir`: the walk through a folder of the database.
use nest_disk.Base.{
  ℕ, zero, suc, ◌+◌, ◌<◌, ◌≤◌, ◌≡◌, refl, sym, ap, ◌∙◌, subst, ℤ, pos, ◌+ℤ◌, int_laws, InInt, Text,
  text_eq, List, [], ◌∷◌, ◌++◌, length, format, bound, decimal, stoi-decimal, arith,
}
use nest_disk.Packet.{Packet, file_header_rq, add_folder_rq, def_content_size, max_path_size}
use nest_disk.Env.{Sys, Server, M, ok, function_end}
use nest_disk.Env.Rules.{copy_to-eq-ok, number_of-eq-ok}
use nest_disk.Mysql.Rows.{Serves, Triple, flat, select_then}
use nest_disk.Logic.{file_type, folder_type, subdir}
use nest_disk.Logic.Tree.{Entries, end, file, folder, rows, Lists}
use nest_disk.Logic.Download.{select_download}
use nest_disk.Logic.Download.Offer.{
  Details, HasRow, HasRoom, Opens, header_of, offered, download_file-offered,
}
use nest_disk.Logic.FolderDownload.{
  select_inside, folder_packet, next_timestamp, fresh_timestamp, download_inside, fetch_entry,
  fetch_all, fetch_listed, download_folder_by_dir,
}
use nest_disk.Logic.FolderDownload.Fresh.{InInt-between}
use nest_disk.Logic.FolderDownload.Grown.{announced}

abbrev pub inside_columns : Text → Text → Text → Triple
inside_columns fid type name = (type, fid, name)

-- How many files a folder holds, at any depth.
unfoldable pub count_files : Entries → ℕ
count_files end = 0
count_files (file fid name es) = 1 + count_files es
count_files (folder fid name inner es) = 0 + (count_files inner + count_files es)

module _ (u fd : ℤ) (info : ℤ → Details) where
  -- What the client is told: the header of each file, here without its timestamp, and each folder before
  -- its entries.
  unfoldable pub offers : Text → Entries → List (ℤ × Packet)
  offers dir end = []
  offers dir (file fid name es) =
      ((fd, file_header_rq (header_of (pos 0) fid dir name (info fid))) ∷ []) ++ offers dir es
  offers dir (folder fid name inner es) =
      ((fd, add_folder_rq (folder_packet (subdir dir name))) ∷ [])
      ++ (offers (subdir dir name) inner ++ offers dir es)

  -- The look-ups of the walk: the row of each file, and the entries of each folder.
  unfoldable pub lookups : Text → Entries → List Text
  lookups dir end = []
  lookups dir (file fid name es) = (format (select_download u dir fid) ∷ []) ++ lookups dir es
  lookups dir (folder fid name inner es) =
      (format (select_inside u (subdir dir name)) ∷ [])
      ++ (lookups (subdir dir name) inner ++ lookups dir es)

  -- The database knows the rows of the files and the entries of the folders, their ids are of type
  -- `int`, and their strings fit the packets.
  abbrev pub AllKnown : Sys → Text → Entries → Type 0
  AllKnown sys dir end = Unit {0}
  AllKnown sys dir (file fid name es) =
      InInt fid
      × HasRoom dir name (info fid)
      × HasRow sys u dir fid name (info fid)
      × AllKnown sys dir es
  AllKnown sys dir (folder fid name inner es) =
      InInt fid
      × (length (subdir dir name) < max_path_size)
      × Lists inside_columns (select_inside u) sys (subdir dir name) inner
      × AllKnown sys (subdir dir name) inner
      × AllKnown sys dir es

-- How far timestamps go, with this many look-ups for each and folders of this depth.
unfoldable pub stamps : ℕ → ℕ → ℕ
stamps fuel zero = suc fuel
stamps fuel (suc d) = suc fuel + stamps fuel d

pub stamps-ge : (fuel d : ℕ) → suc fuel ≤ stamps fuel d
unfolding stamps
stamps-ge fuel zero = omega arith
stamps-ge fuel (suc d) = omega arith

pub stamps_mono : (fuel d e : ℕ) → d ≤ e → stamps fuel d ≤ stamps fuel e
unfolding stamps
stamps_mono fuel zero e h = stamps-ge fuel e
stamps_mono fuel (suc d) zero h = absurd (omega arith)
stamps_mono fuel (suc d) (suc e) h = omega (arith, stamps_mono fuel d e)

add_pos : (t : ℤ) (a b : ℕ) → (t +ℤ pos a) +ℤ pos b ≡ t +ℤ pos (a + b)
add_pos t a b = omega int_laws

-- The timestamps of a folder below.
pub inner-InInt :
    (fuel k d e : ℕ) (t : ℤ)
    → k < fuel
    → suc d ≤ e
    → InInt t
    → InInt (t +ℤ pos (stamps fuel e))
    → InInt (t +ℤ pos (suc k)) × InInt ((t +ℤ pos (suc k)) +ℤ pos (stamps fuel d))
unfolding stamps
inner-InInt fuel k d e t lt deep a b = (
  InInt-between t (suc k) (stamps fuel e) (omega (arith, stamps-ge fuel e)) a b,
  subst InInt (sym (add_pos t (suc k) (stamps fuel d))) (
      InInt-between t (suc k + stamps fuel d) (stamps fuel e)
        (omega (arith, stamps_mono fuel (suc d) e deep)) a b),
)

select_inside-fits :
    (u : ℤ) (dir : Text)
    → length dir < max_path_size
    → bound (select_inside u dir) < def_content_size
unfolding nest_disk.Base.codes
select_inside-fits u dir h = omega arith

-- The loop's work on one entry, under the timestamp that the search found.
pub fetch_all-step :
    (again : ℤ → Text → Text → M (Unit {0})) (fuel : ℕ) (t u fd : ℤ) (dir type : Text) (fid : ℤ)
    (name : Text) (rest : List Text) (stamp : ℤ) (sys : Sys) (s s1 : Server)
    → InInt fid
    → fresh_timestamp fuel u (next_timestamp t) sys s ≡ (ok stamp, s)
    → fetch_entry again u fd dir type fid name stamp sys s ≡ (ok tt, s1)
    → fetch_all again fuel t u fd dir (type ∷ decimal fid ∷ name ∷ rest) sys s
      ≡ fetch_all again fuel t u fd dir rest sys s1
unfolding fetch_all
fetch_all-step again fuel t u fd dir type fid name rest stamp sys s s1 h fresh entry =
    rw (fetch_all, number_of-eq-ok (decimal fid) fid sys s (stoi-decimal fid h), fresh, entry) refl

pub fetch_entry-file :
    (again : ℤ → Text → Text → M (Unit {0})) (u fd : ℤ) (dir : Text) (fid : ℤ) (name : Text)
    (stamp : ℤ) (f : Details) (sys : Sys) (s : Server)
    → Serves sys
    → Opens sys
    → HasRow sys u dir fid name f
    → HasRoom dir name f
    → fetch_entry again u fd dir file_type fid name stamp sys s
      ≡ (ok tt, offered u fd dir stamp fid name f sys s)
unfolding fetch_entry download_inside text_eq
fetch_entry-file again u fd dir fid name stamp f sys s good opens row room =
    rw
      (
        fetch_entry,
        copy_to-eq-ok max_path_size dir sys s room.1,
        download_file-offered u fd dir stamp fid name f sys s good opens row room,
      )
      refl

pub fetch_entry-folder :
    (again : ℤ → Text → Text → M (Unit {0})) (u fd : ℤ) (dir : Text) (fid : ℤ) (name : Text)
    (stamp : ℤ) (sys : Sys) (s : Server)
    → fetch_entry again u fd dir folder_type fid name stamp sys s
      ≡ function_end (again stamp dir name sys s)
unfolding fetch_entry text_eq
fetch_entry-folder again u fd dir fid name stamp sys s = refl

-- A folder up to the loop over its entries.
pub download_folder_by_dir-announced :
    (c fuel : ℕ) (u fd t : ℤ) (dir name : Text) (inner : Entries) (sys : Sys) (s : Server)
    → Serves sys
    → length (subdir dir name) < max_path_size
    → Lists inside_columns (select_inside u) sys (subdir dir name) inner
    → download_folder_by_dir (suc c) fuel u fd t dir name sys s
      ≡ fetch_all
          (download_folder_by_dir c fuel u fd)
          fuel
          t
          u
          fd
          (subdir dir name)
          (flat (rows inside_columns inner))
          sys
          (announced fd
            (folder_packet (subdir dir name))
            (format (select_inside u (subdir dir name)))
            s)
unfolding download_folder_by_dir fetch_listed
download_folder_by_dir-announced c fuel u fd t dir name inner sys s good short listed =
    rw (download_folder_by_dir, copy_to-eq-ok max_path_size (subdir dir name) sys s short)
      (select_then (select_inside u (subdir dir name)) (rows inside_columns inner)
        (fetch_all (download_folder_by_dir c fuel u fd) fuel t u fd (subdir dir name)) sys _ good
        (select_inside-fits u (subdir dir name) short) (listed _))
