-- ===== src/Logic/Tests/Walks.antt =====
-- The handlers that walk folders, at a folder with two entries, one of them a folder with one file.
use nest_disk.Base.{
  ◌≡◌, refl, pos, ℤ, InInt, Text, text_eq, Option, none, some, List, [], ◌∷◌, map, format, arith,
  if◌then◌else◌,
}
use nest_disk.Packet.{DeleteFileRq, delete_file_rs}
use nest_disk.Env.{Sys, Trace, Row, ok, queried, sent}
use nest_disk.Mysql.Rows.{after_asking, row_of}
use nest_disk.Logic.{subdir, file_type, folder_type}
use nest_disk.Logic.Tree.{Entries, end, file, folder, depth, IsWithin, path_limit, rows}
use nest_disk.Logic.Delete.{
  select_entries, select_kind, delete_folder_relation, delete_folder_by_id, delete_file,
}
use nest_disk.Logic.Delete.Walk.{delete_columns, walk, delete_folder_by_id-walk}
use nest_disk.Logic.Delete.Request.{
  Item, one_file, one_folder, AllKnown, items_trace, delete_file_lem,
}
use nest_disk.Logic.Tests.{fresh_server, answers}

abbrev pub root : Text
root = b'/' ∷ []

-- In "/p/": a file "a", and a folder "d" with a file "b".
abbrev pub inner : Entries
inner = file (pos 7) (b'b' ∷ []) end

abbrev pub album : Entries
album = file (pos 5) (b'a' ∷ []) (folder (pos 6) (b'd' ∷ []) inner end)

abbrev pub album_dir : Text
album_dir = subdir root (b'p' ∷ [])

abbrev pub inner_dir : Text
inner_dir = subdir album_dir (b'd' ∷ [])

-- A system that gives certain rows to certain statements, and no row to others.
abbrev reply : List (Text × List Row) → Trace → Option (List Row)
reply [] t = some []
reply ((q, found) ∷ more) (queried p ∷ t) =
    if text_eq p q then some found else reply more (queried p ∷ t)
reply ((q, found) ∷ more) t = some []

abbrev pub replies : List (Text × List Row) → Sys
replies table = record (answers []) { mysql_store_result = reply table }

abbrev delete_table : List (Text × List Row)
delete_table =
    (format (select_entries (pos 42) album_dir), map row_of (rows delete_columns album))
    ∷ (format (select_entries (pos 42) inner_dir), map row_of (rows delete_columns inner))
    ∷ []

abbrev delete_sys : Sys
delete_sys = replies delete_table

album-IsWithin : IsWithin path_limit album_dir album
album-IsWithin = (
  (omega arith, omega arith),
  omega arith,
  ((omega arith, omega arith), omega arith, ((omega arith, omega arith), omega arith, tt), tt),
)

delete_folder_by_id-walk_example :
    delete_folder_by_id 2 (pos 42) (pos 4) root (b'p' ∷ []) delete_sys fresh_server ≡ (
      ok tt,
      after_asking
          (format (delete_folder_relation (pos 42) (pos 4) root)
            ∷ format (select_entries (pos 42) album_dir)
            ∷ walk (pos 42) album_dir album)
          fresh_server,
    )
unfolding depth rows text_eq format nest_disk.Base.codes nest_disk.Base.decimal
    nest_disk.Base.digits_of
delete_folder_by_id-walk_example =
    delete_folder_by_id-walk 2 (pos 42) (pos 4) root (b'p' ∷ []) album delete_sys fresh_server
      (λ t. refl) (omega arith) (omega arith) (omega arith) album-IsWithin refl (refl, tt, tt)

-- A request for the folder "p" and a file of which no other user has a relation.
abbrev clean_up : DeleteFileRq
clean_up = record {
  userid = pos 42;
  dir = root;
  file_count = pos 2;
  fileid_array = pos 4 ∷ pos 8 ∷ [];
}

abbrev items : List Item
items = one_folder (pos 4) (b'p' ∷ []) [] album ∷ one_file (pos 8) (b'c' ∷ []) (b'C' ∷ []) [] ∷ []

abbrev clean_up_sys : Sys
clean_up_sys = replies (
    (
      format (select_kind (pos 4) (pos 42) root),
      map (map some) ((folder_type ∷ (b'p' ∷ []) ∷ [] ∷ []) ∷ []),
    )
    ∷ (
      format (select_kind (pos 8) (pos 42) root),
      map (map some) ((file_type ∷ (b'c' ∷ []) ∷ (b'C' ∷ []) ∷ []) ∷ []),
    )
    ∷ delete_table)

items-AllKnown : AllKnown 2 (pos 42) root clean_up_sys items []
unfolding depth rows text_eq format nest_disk.Base.codes nest_disk.Base.decimal
    nest_disk.Base.digits_of
items-AllKnown = (
  omega arith,
  refl,
  (omega arith, album-IsWithin, refl, (refl, tt, tt)),
  (omega arith, refl, (tt, refl), tt),
)

delete_file_lem_example : delete_file 2 clean_up (pos 7) clean_up_sys fresh_server ≡ (
  ok tt,
  record fresh_server {
    trace =
        sent (pos 7) (delete_file_rs (record { result = pos 1; dir = root }))
        ∷ items_trace (pos 42) root items [];
  },
)
delete_file_lem_example =
    delete_file_lem 2 clean_up (pos 7) items clean_up_sys fresh_server (λ t. refl) (omega arith)
      refl refl items-AllKnown
