-- ===== src/Logic/Delete/Walk.antt =====
-- What `deleteFolderById` does with a folder of the database.
use nest_disk.Base.{
  InInt, ℕ, zero, suc, ◌+◌, ◌<◌, ◌≤◌, ◌≡◌, refl, ◌∙◌, ap, sym, ℤ, Text, text_eq, Bool, true, false,
  not, decimal, stoi-decimal, some, map, List, [], ◌∷◌, ◌++◌, length, bound, format, arith,
  if◌then◌else◌,
}
use nest_disk.Packet.{def_content_size}
use nest_disk.Env.{Sys, Server, Trace, Out, M, ok, after, pure, function_end, queried}
use nest_disk.Env.Rules.{number_of-eq-ok}
use nest_disk.Mysql.Rows.{
  Serves, asked, asked-append, after_asking, Triple, row_of, flat, update_then, select_then,
}
use nest_disk.Logic.{file_type, folder_type, subdir}
use nest_disk.Logic.Tree.{Entries, end, file, folder, depth, IsWithin, path_limit, rows}
use nest_disk.Logic.Delete.{
  delete_relation, delete_folder_relation, select_entries, delete_entry, visit, visit_all,
  list_folder, delete_folder_by_id,
}

abbrev pub delete_columns : Text → Text → Text → Triple
delete_columns fid type name = (fid, type, name)

-- The statements for the entries of a directory, in the order of a walk through the tree: every file
-- and every folder is deleted, and the entries of a folder follow it.
unfoldable pub walk : ℤ → Text → Entries → List Text
walk u dir end = []
walk u dir (file fid name es) = format (delete_relation u fid dir) ∷ walk u dir es
walk u dir (folder fid name inner es) =
    format (delete_folder_relation u fid dir)
    ∷ format (select_entries u (subdir dir name))
    ∷ (walk u (subdir dir name) inner ++ walk u dir es)

pub delete_relation-fits :
    (u fid : ℤ) (dir : Text)
    → length dir ≤ path_limit
    → bound (delete_relation u fid dir) < def_content_size
unfolding nest_disk.Base.codes
delete_relation-fits u fid dir h = omega arith

delete_folder_relation-fits :
    (u fid : ℤ) (dir : Text)
    → length dir ≤ path_limit
    → bound (delete_folder_relation u fid dir) < def_content_size
unfolding nest_disk.Base.codes
delete_folder_relation-fits u fid dir h = omega arith

select_entries-fits :
    (u : ℤ) (dir : Text) → length dir ≤ path_limit → bound (select_entries u dir) < def_content_size
unfolding nest_disk.Base.codes
select_entries-fits u dir h = omega arith

-- The query for a directory, asked when the trace is `t`, gives the rows of these entries.
abbrev pub Stored : ℤ → Sys → Text → Entries → Trace → Type 0
Stored u sys dir es t =
    sys.mysql_store_result (queried (format (select_entries u dir)) ∷ t)
    ≡ some (map row_of (rows delete_columns es))

-- So do the queries for the directories below, each when the walk comes to it: what a query gives
-- may be different later, when entries have been deleted.
abbrev pub StoredBelow : ℤ → Sys → Text → Entries → Trace → Type 0
StoredBelow u sys dir end t = Unit {0}
StoredBelow u sys dir (file fid name es) t =
    StoredBelow u sys dir es (queried (format (delete_relation u fid dir)) ∷ t)
StoredBelow u sys dir (folder fid name inner es) t =
    Stored u sys (subdir dir name) inner (queried (format (delete_folder_relation u fid dir)) ∷ t)
    × StoredBelow u sys (subdir dir name) inner (
        queried (format (select_entries u (subdir dir name)))
        ∷ queried (format (delete_folder_relation u fid dir))
        ∷ t)
    × StoredBelow u sys dir es (
        asked (walk u (subdir dir name) inner) (
          queried (format (select_entries u (subdir dir name)))
          ∷ queried (format (delete_folder_relation u fid dir))
          ∷ t))

-- A folder, when the walk through its entries is known.
delete_folder_by_id-list :
    (f : ℕ) (u fid : ℤ) (dir name : Text) (inner : Entries) (sys : Sys) (s : Server)
    → Serves sys
    → length dir ≤ path_limit
    → length (subdir dir name) ≤ path_limit
    → Stored u sys
        (subdir dir name)
        inner
        (queried (format (delete_folder_relation u fid dir)) ∷ s.trace)
    → delete_folder_by_id (suc f) u fid dir name sys s
      ≡ visit_all
          (delete_folder_by_id f u)
          u
          (subdir dir name)
          (flat (rows delete_columns inner))
          sys
          (after_asking
            (format (delete_folder_relation u fid dir)
              ∷ format (select_entries u (subdir dir name))
              ∷ [])
            s)
unfolding delete_folder_by_id list_folder asked
delete_folder_by_id-list f u fid dir name inner sys s good short short' stored =
    update_then (delete_folder_relation u fid dir)
      (list_folder (delete_folder_by_id f u) u (subdir dir name)) sys s good
      (delete_folder_relation-fits u fid dir short)
    ∙ select_then (select_entries u (subdir dir name)) (rows delete_columns inner)
        (visit_all (delete_folder_by_id f u) u (subdir dir name)) sys _ good
        (select_entries-fits u (subdir dir name) short') stored

abbrev done : Server → Out (Unit {0}) × Server
done s = (ok tt, s)

visit_all-step :
    (again : ℤ → Text → Text → M (Unit {0})) (u fid : ℤ) (dir type name : Text) (rest : List Text)
    (sys : Sys) (s : Server)
    → InInt fid
    → visit_all again u dir (decimal fid ∷ type ∷ name ∷ rest) sys s
      ≡ after (visit again u dir fid type name sys s) (λ a t. visit_all again u dir rest sys t)
unfolding visit_all
visit_all-step again u fid dir type name rest sys s h =
    rw (visit_all, number_of-eq-ok (decimal fid) fid sys s (stoi-decimal fid h)) refl

visit-file :
    (again : ℤ → Text → Text → M (Unit {0})) (u fid : ℤ) (dir name : Text) (sys : Sys) (s : Server)
    → Serves sys
    → length dir ≤ path_limit
    → visit again u dir fid file_type name sys s
      ≡ (ok tt, after_asking (format (delete_relation u fid dir) ∷ []) s)
unfolding visit delete_entry text_eq asked
visit-file again u fid dir name sys s good short =
    update_then (delete_relation u fid dir) (pure tt) sys s good
      (delete_relation-fits u fid dir short)

visit-folder :
    (again : ℤ → Text → Text → M (Unit {0})) (u fid : ℤ) (dir name : Text) (sys : Sys) (s : Server)
    → visit again u dir fid folder_type name sys s ≡ function_end (again fid dir name sys s)
unfolding visit text_eq
visit-folder again u fid dir name sys s = refl

visit_all-walk :
    (f : ℕ) (u : ℤ) (dir : Text) (es : Entries) (sys : Sys) (s : Server)
    → Serves sys
    → length dir ≤ path_limit
    → depth es ≤ f
    → IsWithin path_limit dir es
    → StoredBelow u sys dir es s.trace
    → visit_all (delete_folder_by_id f u) u dir (flat (rows delete_columns es)) sys s
      ≡ (ok tt, after_asking (walk u dir es) s)
unfolding walk rows flat asked depth
visit_all-walk f u dir end sys s good short deep within stored = unfold visit_all in refl
visit_all-walk f u dir (file fid name es) sys s good short deep within stored =
    visit_all-step (delete_folder_by_id f u) u fid dir file_type name
      (flat (rows delete_columns es)) sys s within.0
    ∙ ap
        (λ r.
          after r (λ a t.
            visit_all (delete_folder_by_id f u) u dir (flat (rows delete_columns es)) sys t))
        (visit-file (delete_folder_by_id f u) u fid dir name sys s good short)
    ∙ visit_all-walk f u dir es sys _ good short deep within.2 stored
visit_all-walk zero u dir (folder fid name inner es) sys s good short deep within stored =
    absurd (omega arith)
visit_all-walk (suc f) u dir (folder fid name inner es) sys s good short deep within stored =
    let again = delete_folder_by_id (suc f) u in
    let rest = flat (rows delete_columns es) in
    let s1 =
      after_asking
        (format (delete_folder_relation u fid dir)
          ∷ format (select_entries u (subdir dir name))
          ∷ [])
        s in
    let s2 = after_asking (walk u (subdir dir name) inner) s1 in
    visit_all-step again u fid dir folder_type name rest sys s within.0
    ∙ ap (λ r. after r (λ a t. visit_all again u dir rest sys t))
        (visit-folder again u fid dir name sys s
          ∙ ap function_end (
              delete_folder_by_id-list f u fid dir name inner sys s good short within.1 stored.0
              ∙ visit_all-walk f u (subdir dir name) inner sys s1 good within.1 (omega arith)
                  within.2 stored.1))
    ∙ visit_all-walk (suc f) u dir es sys s2 good short (omega arith) within.3 stored.2
    ∙ ap (λ (t : Trace). done (record s { trace = t }))
        (sym (asked-append (walk u (subdir dir name) inner) (walk u dir es) s1.trace))

-- No statement fails, no path is longer than 800 bytes, and the queries for the folder and for
-- those below it, each when the walk comes to it, give the entries of a tree: then
-- `deleteFolderById`, with a depth of calls above that of the tree, ends, and has executed the
-- statements of the walk through the tree, in its order and no others.
pub delete_folder_by_id-walk :
    (fuel : ℕ) (u fid : ℤ) (dir name : Text) (inner : Entries) (sys : Sys) (s : Server)
    → Serves sys
    → length dir ≤ path_limit
    → length (subdir dir name) ≤ path_limit
    → depth inner < fuel
    → IsWithin path_limit (subdir dir name) inner
    → Stored u sys
        (subdir dir name)
        inner
        (queried (format (delete_folder_relation u fid dir)) ∷ s.trace)
    → StoredBelow u sys (subdir dir name) inner (
        queried (format (select_entries u (subdir dir name)))
        ∷ queried (format (delete_folder_relation u fid dir))
        ∷ s.trace)
    → delete_folder_by_id fuel u fid dir name sys s ≡ (
      ok tt,
      after_asking
          (format (delete_folder_relation u fid dir)
            ∷ format (select_entries u (subdir dir name))
            ∷ walk u (subdir dir name) inner)
          s,
    )
unfolding asked
delete_folder_by_id-walk zero u fid dir name inner sys s good short short' deep within stored
      below =
    absurd (omega arith)
delete_folder_by_id-walk (suc f) u fid dir name inner sys s good short short' deep within stored
      below =
    delete_folder_by_id-list f u fid dir name inner sys s good short short' stored
    ∙ visit_all-walk f u (subdir dir name) inner sys _ good short' (omega arith) within below
