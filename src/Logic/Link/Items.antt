-- ===== src/Logic/Link/Items.antt =====
-- The items of a link, and what `getShareByLink` does with them.
use Prim.Native.Nat.{max}
use nest_disk.Base.{
  InInt, ℕ, suc, ◌<◌, ◌≤◌, ◌≡◌, refl, ◌∙◌, ap, sym, ℤ, Text, text_eq, decimal, stoi-decimal, List,
  [], ◌∷◌, ◌++◌, length, format, arith,
}
use nest_disk.Packet.{max_size}
use nest_disk.Env.{Sys, Server, Trace, Out, ok, after, pure, ◌>>=◌, function_end, function_call}
use nest_disk.Env.Rules.{number_of-eq-ok}
use nest_disk.Mysql.Rows.{Serves, asked, asked-append, after_asking, AllOf, concat, update_then}
use nest_disk.Logic.{file_type, folder_type, subdir}
use nest_disk.Logic.Tree.{Entries, depth, IsWithin, path_limit, Lists, ListsBelow}
use nest_disk.Logic.Upload.{insert_user_file}
use nest_disk.Logic.Link.{select_shared, Walk, take_item, take_items, add_folder_by_share_dir}
use nest_disk.Logic.Link.Copy.{
  share_columns, copies, insert_user_file-fits, done, add_folder_by_share_dir-copies,
}

-- The items of a link, each with its owner, id, directory and name; a folder with its entries.
pub data Shared : Type 0 where
  no_more : Shared
  one_file : ℤ → ℤ → Text → Text → Shared → Shared
  one_folder : ℤ → ℤ → Text → Text → Entries → Shared → Shared

unfoldable pub columns_of : Shared → List (List Text)
columns_of no_more = []
columns_of (one_file u fid dir name items) =
    (decimal u ∷ decimal fid ∷ dir ∷ name ∷ file_type ∷ []) ∷ columns_of items
columns_of (one_folder u fid dir name es items) =
    (decimal u ∷ decimal fid ∷ dir ∷ name ∷ folder_type ∷ []) ∷ columns_of items

pub columns_of-AllOf : (items : Shared) → AllOf 5 (columns_of items)
unfolding columns_of
columns_of-AllOf no_more = tt
columns_of-AllOf (one_file u fid dir name items) = (refl, columns_of-AllOf items)
columns_of-AllOf (one_folder u fid dir name es items) = (refl, columns_of-AllOf items)

-- The statements for the items. The destination moves into each folder, and stays there.
unfoldable pub taken : ℤ → Text → Text → Shared → List Text
taken user time dest no_more = []
taken user time dest (one_file u fid dir name items) =
    format (insert_user_file user fid dest name time) ∷ taken user time dest items
taken user time dest (one_folder u fid dir name es items) =
    format (insert_user_file user fid dest name time)
    ∷ format (select_shared (subdir dir name))
    ∷ (copies user time (subdir dest name) (subdir dir name) es
        ++ taken user time (subdir dest name) items)

-- How deep the folders of the items lie in one another.
unfoldable pub deepest : Shared → ℕ
deepest no_more = 0
deepest (one_file u fid dir name items) = deepest items
deepest (one_folder u fid dir name es items) = max (suc (depth es)) (deepest items)

-- Numbers are of type `int`, and no path is longer than `path_limit`, in the source or at the
-- destination.
abbrev pub IsRoomy : Text → Shared → Type 0
IsRoomy dest no_more = Unit {0}
IsRoomy dest (one_file u fid dir name items) =
    (InInt u × InInt fid) × (length (subdir dest name) ≤ path_limit) × IsRoomy dest items
IsRoomy dest (one_folder u fid dir name es items) =
    (InInt u × InInt fid)
    × (length (subdir dest name) ≤ path_limit)
    × (length (subdir dir name) ≤ path_limit)
    × IsWithin path_limit (subdir dest name) es
    × IsWithin path_limit (subdir dir name) es
    × IsRoomy (subdir dest name) items

-- The queries for the items' folders give their entries.
abbrev pub ListsItems : Sys → Shared → Type 0
ListsItems sys no_more = Unit {0}
ListsItems sys (one_file u fid dir name items) = ListsItems sys items
ListsItems sys (one_folder u fid dir name es items) =
    Lists share_columns select_shared sys (subdir dir name) es
    × ListsBelow share_columns select_shared sys (subdir dir name) es
    × ListsItems sys items

take_items-step :
    (again : Walk) (user u fid : ℤ) (time dest source name type : Text) (rest : List Text)
    (sys : Sys) (s : Server)
    → InInt u
    → InInt fid
    → take_items again user time dest (decimal u ∷ decimal fid ∷ source ∷ name ∷ type ∷ rest) sys s
      ≡ after
          (take_item again user time dest source fid name type sys s)
          (λ next t. take_items again user time next rest sys t)
unfolding take_items
take_items-step again user u fid time dest source name type rest sys s g h =
    rw
      (
        take_items,
        number_of-eq-ok (decimal u) u sys s (stoi-decimal u g),
        number_of-eq-ok (decimal fid) fid sys s (stoi-decimal fid h),
      )
      refl

abbrev into : Text → Server → Out Text × Server
into dest s = (ok dest, s)

module _ (again : Walk) (user fid : ℤ) (time dest source name : Text) (sys : Sys) (s : Server)
    (good : Serves sys) (short : length (subdir dest name) ≤ path_limit)
    (t : length time < max_size) where
  take_item-file :
      take_item again user time dest source fid name file_type sys s
      ≡ (ok dest, after_asking (format (insert_user_file user fid dest name time) ∷ []) s)
  unfolding take_item text_eq asked
  take_item-file =
      update_then (insert_user_file user fid dest name time) (pure dest) sys s good
        (insert_user_file-fits user fid dest name time short t)

  take_item-folder :
      take_item again user time dest source fid name folder_type sys s
      ≡ after
          (function_end (
            again
              (subdir dest name)
              (subdir source name)
              sys
              (after_asking (format (insert_user_file user fid dest name time) ∷ []) s)))
          (λ u t. into (subdir dest name) t)
  unfolding take_item text_eq asked
  take_item-folder =
      update_then (insert_user_file user fid dest name time)
        (function_call (again (subdir dest name) (subdir source name)) >>= λ u.
          pure (subdir dest name))
        sys s good (insert_user_file-fits user fid dest name time short t)

pub take_items-taken :
    (fuel : ℕ) (user : ℤ) (time dest : Text) (items : Shared) (sys : Sys) (s : Server)
    → Serves sys
    → length time < max_size
    → deepest items ≤ fuel
    → IsRoomy dest items
    → ListsItems sys items
    → take_items
        (add_folder_by_share_dir fuel user time)
        user
        time
        dest
        (concat (columns_of items))
        sys
        s
      ≡ (ok tt, after_asking (taken user time dest items) s)
unfolding taken columns_of concat asked deepest
take_items-taken fuel user time dest no_more sys s good t deep roomy stored =
    unfold take_items in refl
take_items-taken fuel user time dest (one_file u fid dir name items) sys s good t deep roomy
      stored =
    let again = add_folder_by_share_dir fuel user time in
    let rest = concat (columns_of items) in
    take_items-step again user u fid time dest dir name file_type rest sys s roomy.0.0 roomy.0.1
    ∙ ap (λ r. after r (λ next v. take_items again user time next rest sys v))
        (take_item-file again user fid time dest dir name sys s good roomy.1 t)
    ∙ take_items-taken fuel user time dest items sys _ good t deep roomy.2 stored
take_items-taken fuel user time dest (one_folder u fid dir name es items) sys s good t deep roomy
      stored =
    let again = add_folder_by_share_dir fuel user time in
    let rest = concat (columns_of items) in
    let s1 = after_asking (format (insert_user_file user fid dest name time) ∷ []) s in
    let qs =
      format (select_shared (subdir dir name))
      ∷ copies user time (subdir dest name) (subdir dir name) es in
    take_items-step again user u fid time dest dir name folder_type rest sys s roomy.0.0 roomy.0.1
    ∙ ap (λ r. after r (λ next v. take_items again user time next rest sys v))
        (take_item-folder again user fid time dest dir name sys s good roomy.1 t
          ∙ ap (λ r. after (function_end r) (λ w v. into (subdir dest name) v))
              (add_folder_by_share_dir-copies fuel user time (subdir dest name) (subdir dir name) es
                sys s1 good t roomy.2 (omega arith) roomy.3 roomy.4 stored.0 stored.1))
    ∙ take_items-taken fuel user time (subdir dest name) items sys (after_asking qs s1) good t
        (omega arith) roomy.5 stored.2
    ∙ ap (λ (v : Trace). done (record s { trace = v }))
        (sym (asked-append qs (taken user time (subdir dest name) items) s1.trace))
