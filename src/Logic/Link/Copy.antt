-- ===== src/Logic/Link/Copy.antt =====
-- What `addFolderByShareDir` does with a folder of the database.
use nest_disk.Base.{
  InInt, ℕ, zero, suc, ◌+◌, ◌<◌, ◌≤◌, ◌≡◌, refl, ◌∙◌, ap, sym, ℤ, Text, text_eq, Bool, true, false,
  not, decimal, stoi-decimal, List, [], ◌∷◌, ◌++◌, length, length-append, bound, format, arith,
  if◌then◌else◌,
}
use nest_disk.Packet.{def_content_size, max_size}
use nest_disk.Env.{Sys, Server, Trace, Out, ok, after, pure, function_end, function_call}
use nest_disk.Env.Rules.{number_of-eq-ok}
use nest_disk.Mysql.Rows.{
  Serves, asked, asked-append, after_asking, Triple, flat, update_then, select_then,
}
use nest_disk.Logic.{file_type, folder_type, subdir}
use nest_disk.Logic.Tree.{
  Entries, end, file, folder, depth, IsWithin, path_limit, rows, Lists, ListsBelow,
}
use nest_disk.Logic.Upload.{insert_user_file}
use nest_disk.Logic.Link.{select_shared, Walk, copy_entry, copy_all, add_folder_by_share_dir}

abbrev pub share_columns : Text → Text → Text → Triple
share_columns fid type name = (fid, name, type)

-- The statements that relate the entries of a directory to the user who takes them, in the order of a
-- walk through the tree.
unfoldable pub copies : ℤ → Text → Text → Text → Entries → List Text
copies user time dest source end = []
copies user time dest source (file fid name es) =
    format (insert_user_file user fid dest name time) ∷ copies user time dest source es
copies user time dest source (folder fid name inner es) =
    format (insert_user_file user fid dest name time)
    ∷ format (select_shared (subdir source name))
    ∷ (copies user time (subdir dest name) (subdir source name) inner
        ++ copies user time dest source es)

pub insert_user_file-fits :
    (user fid : ℤ) (dest name time : Text)
    → length (subdir dest name) ≤ path_limit
    → length time < max_size
    → bound (insert_user_file user fid dest name time) < def_content_size
unfolding nest_disk.Base.codes
insert_user_file-fits user fid dest name time h t =
    omega (arith, length-append (dest ++ name) (b'/' ∷ []), length-append dest name)

pub select_shared-fits :
    (source : Text) → length source ≤ path_limit → bound (select_shared source) < def_content_size
unfolding nest_disk.Base.codes
select_shared-fits source h = omega arith

abbrev pub done : Server → Out (Unit {0}) × Server
done s = (ok tt, s)

copy_all-step :
    (again : Walk) (user fid : ℤ) (time dest source name type : Text) (rest : List Text) (sys : Sys)
    (s : Server)
    → InInt fid
    → copy_all again user time dest source (decimal fid ∷ name ∷ type ∷ rest) sys s
      ≡ after
          (copy_entry again user time dest source fid name type sys s)
          (λ a t. copy_all again user time dest source rest sys t)
unfolding copy_all
copy_all-step again user fid time dest source name type rest sys s h =
    rw (copy_all, number_of-eq-ok (decimal fid) fid sys s (stoi-decimal fid h)) refl

module _ (again : Walk) (user fid : ℤ) (time dest source name : Text) (sys : Sys) (s : Server)
    (good : Serves sys) (short : length (subdir dest name) ≤ path_limit)
    (t : length time < max_size) where
  copy_entry-file :
      copy_entry again user time dest source fid name file_type sys s
      ≡ (ok tt, after_asking (format (insert_user_file user fid dest name time) ∷ []) s)
  unfolding copy_entry text_eq asked
  copy_entry-file =
      update_then (insert_user_file user fid dest name time) (pure tt) sys s good
        (insert_user_file-fits user fid dest name time short t)

  copy_entry-folder :
      copy_entry again user time dest source fid name folder_type sys s
      ≡ function_end (
          again
            (subdir dest name)
            (subdir source name)
            sys
            (after_asking (format (insert_user_file user fid dest name time) ∷ []) s))
  unfolding copy_entry text_eq asked
  copy_entry-folder =
      update_then (insert_user_file user fid dest name time)
        (function_call (again (subdir dest name) (subdir source name))) sys s good
        (insert_user_file-fits user fid dest name time short t)

add_folder_by_share_dir-list :
    (f : ℕ) (user : ℤ) (time dest source : Text) (es : Entries) (sys : Sys) (s : Server)
    → Serves sys
    → length source ≤ path_limit
    → Lists share_columns select_shared sys source es
    → add_folder_by_share_dir (suc f) user time dest source sys s
      ≡ copy_all
          (add_folder_by_share_dir f user time)
          user
          time
          dest
          source
          (flat (rows share_columns es))
          sys
          (after_asking (format (select_shared source) ∷ []) s)
unfolding add_folder_by_share_dir asked
add_folder_by_share_dir-list f user time dest source es sys s good short stored =
    select_then (select_shared source) (rows share_columns es)
      (copy_all (add_folder_by_share_dir f user time) user time dest source) sys s good
      (select_shared-fits source short) (stored s.trace)

copy_all-copies :
    (f : ℕ) (user : ℤ) (time dest source : Text) (es : Entries) (sys : Sys) (s : Server)
    → Serves sys
    → length time < max_size
    → depth es ≤ f
    → IsWithin path_limit dest es
    → IsWithin path_limit source es
    → ListsBelow share_columns select_shared sys source es
    → copy_all
        (add_folder_by_share_dir f user time)
        user
        time
        dest
        source
        (flat (rows share_columns es))
        sys
        s
      ≡ (ok tt, after_asking (copies user time dest source es) s)
unfolding copies rows flat asked depth
copy_all-copies f user time dest source end sys s good t deep within below stored =
    unfold copy_all in refl
copy_all-copies f user time dest source (file fid name es) sys s good t deep within below stored =
    let again = add_folder_by_share_dir f user time in
    let rest = flat (rows share_columns es) in
    copy_all-step again user fid time dest source name file_type rest sys s within.0
    ∙ ap (λ r. after r (λ a u. copy_all again user time dest source rest sys u))
        (copy_entry-file again user fid time dest source name sys s good within.1 t)
    ∙ copy_all-copies f user time dest source es sys _ good t deep within.2 below.2 stored
copy_all-copies zero user time dest source (folder fid name inner es) sys s good t deep within below
      stored =
    absurd (omega arith)
copy_all-copies (suc f) user time dest source (folder fid name inner es) sys s good t deep within
      below stored =
    let again = add_folder_by_share_dir (suc f) user time in
    let rest = flat (rows share_columns es) in
    let s1 = after_asking (format (insert_user_file user fid dest name time) ∷ []) s in
    let s2 = after_asking (format (select_shared (subdir source name)) ∷ []) s1 in
    let s3 = after_asking (copies user time (subdir dest name) (subdir source name) inner) s2 in
    copy_all-step again user fid time dest source name folder_type rest sys s within.0
    ∙ ap (λ r. after r (λ a u. copy_all again user time dest source rest sys u))
        (copy_entry-folder again user fid time dest source name sys s good within.1 t
          ∙ ap function_end (
              add_folder_by_share_dir-list f user time (subdir dest name) (subdir source name) inner
                sys s1 good below.1 stored.0
              ∙ copy_all-copies f user time (subdir dest name) (subdir source name) inner sys s2
                  good t (omega arith) within.2 below.2 stored.1))
    ∙ copy_all-copies (suc f) user time dest source es sys s3 good t (omega arith) within.3 below.3
        stored.2
    ∙ ap (λ (u : Trace). done (record s { trace = u }))
        (sym (
          asked-append (copies user time (subdir dest name) (subdir source name) inner)
            (copies user time dest source es) s2.trace))

-- No statement fails, no path in the source or at the destination is longer than 800 bytes, and the
-- queries for the source's directory and for those below it give the entries of a tree: then
-- `addFolderByShareDir`, with a depth of calls above that of the tree, ends, and has related every
-- entry of the tree to the user, under the destination's directory and the same names below it, in the
-- order of a walk through the tree.
pub add_folder_by_share_dir-copies :
    (fuel : ℕ) (user : ℤ) (time dest source : Text) (es : Entries) (sys : Sys) (s : Server)
    → Serves sys
    → length time < max_size
    → length source ≤ path_limit
    → depth es < fuel
    → IsWithin path_limit dest es
    → IsWithin path_limit source es
    → Lists share_columns select_shared sys source es
    → ListsBelow share_columns select_shared sys source es
    → add_folder_by_share_dir fuel user time dest source sys s
      ≡ (ok tt, after_asking (format (select_shared source) ∷ copies user time dest source es) s)
unfolding asked
add_folder_by_share_dir-copies zero user time dest source es sys s good t short deep within below
      stored sub =
    absurd (omega arith)
add_folder_by_share_dir-copies (suc f) user time dest source es sys s good t short deep within below
      stored sub =
    add_folder_by_share_dir-list f user time dest source es sys s good short stored
    ∙ copy_all-copies f user time dest source es sys _ good t (omega arith) within below sub
