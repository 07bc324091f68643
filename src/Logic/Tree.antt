-- ===== src/Logic/Tree.antt =====
-- A folder of the database as a tree, for the handlers that walk folders.
use Prim.Native.Nat.{max}
use nest_disk.Base.{
  ℕ, suc, ◌≤◌, ◌≡◌, ℤ, InInt, Text, decimal, some, List, [], ◌∷◌, map, length, Piece, format,
}
use nest_disk.Env.{Sys, Trace, queried}
use nest_disk.Mysql.Rows.{Triple, row_of}
use nest_disk.Logic.{file_type, folder_type, subdir}

-- The entries of a folder: files and folders with their ids and names, in the order of the rows.
pub data Entries : Type 0 where
  end : Entries
  file : ℤ → Text → Entries → Entries
  folder : ℤ → Text → Entries → Entries → Entries

-- How deep the folders lie in one another.
unfoldable pub depth : Entries → ℕ
depth end = 0
depth (file fid name es) = depth es
depth (folder fid name inner es) = max (suc (depth inner)) (depth es)

-- The longest path that the statements have room for.
abbrev pub path_limit : ℕ
path_limit = 800

-- Ids are of type `int`, and no path of an entry is longer than `limit`.
abbrev pub IsWithin : ℕ → Text → Entries → Type 0
IsWithin limit dir end = Unit {0}
IsWithin limit dir (file fid name es) =
    InInt fid × (length (subdir dir name) ≤ limit) × IsWithin limit dir es
IsWithin limit dir (folder fid name inner es) =
    InInt fid
    × (length (subdir dir name) ≤ limit)
    × IsWithin limit (subdir dir name) inner
    × IsWithin limit dir es

-- The rows of a folder, by the order in which a query names id, type and name.
module _ (columns : Text → Text → Text → Triple) where
  unfoldable pub rows : Entries → List Triple
  rows end = []
  rows (file fid name es) = columns (decimal fid) file_type name ∷ rows es
  rows (folder fid name inner es) = columns (decimal fid) folder_type name ∷ rows es

  module _ (select : Text → List Piece) (sys : Sys) where
    -- Whenever it is asked, the query for the directory gives the rows of these entries.
    abbrev pub Lists : Text → Entries → Type 0
    Lists dir es =
        (t : Trace)
        → sys.mysql_store_result (queried (format (select dir)) ∷ t) ≡ some (map row_of (rows es))

    -- So do the queries for the directories below.
    abbrev pub ListsBelow : Text → Entries → Type 0
    ListsBelow dir end = Unit {0}
    ListsBelow dir (file fid name es) = ListsBelow dir es
    ListsBelow dir (folder fid name inner es) =
        Lists (subdir dir name) inner × ListsBelow (subdir dir name) inner × ListsBelow dir es
