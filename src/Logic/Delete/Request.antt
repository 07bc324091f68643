-- ===== src/Logic/Delete/Request.antt =====
-- What `deleteFile` does with a request.
use nest_disk.Base.{
  InInt, ℕ, zero, suc, ◌+◌, ◌<◌, ◌≤◌, ◌≡◌, refl, ◌∙◌, ap, sym, ℤ, pos, pos_part, Text, text_eq,
  Bool, true, false, not, some, List, [], ◌∷◌, ◌++◌, map, length, bound, format, arith,
  if◌then◌else◌,
}
use nest_disk.Packet.{DeleteFileRq, delete_file_rs, def_content_size, max_path_size}
use nest_disk.Env.{
  Sys, Server, Trace, Out, ok, after, function_end, sent, removed, queried, pop_front,
}
use nest_disk.Env.Rules.{copy_to-eq-ok, sprintf-eq-ok}
use nest_disk.Mysql.Rows.{Serves, asked, AllOf, concat, select_mysql-all, update_then}
use nest_disk.Logic.{file_type, folder_type, subdir}
use nest_disk.Logic.Tree.{Entries, depth, IsWithin, path_limit}
use nest_disk.Logic.Delete.{
  delete_relation, delete_folder_relation, select_count, select_kind, select_entries, remove_unused,
  look_up_count, delete_file_by_id, delete_item, delete_found, delete_items, delete_file,
}
use nest_disk.Logic.Delete.Walk.{
  walk, Stored, StoredBelow, delete_relation-fits, delete_folder_by_id-walk,
}

-- An item that the user has: a file, with the rows of its count, or a folder with its entries.
pub data Item : Type 0 where
  one_file : ℤ → Text → Text → List (List Text) → Item
  one_folder : ℤ → Text → Text → Entries → Item

abbrev pub id_of : Item → ℤ
id_of (one_file fid name path counts) = fid
id_of (one_folder fid name path es) = fid

-- The row that the look-up of the item gives: type, name and path.
abbrev pub columns_of : Item → List Text
columns_of (one_file fid name path counts) = file_type ∷ name ∷ path ∷ []
columns_of (one_folder fid name path es) = folder_type ∷ name ∷ path ∷ []

-- The file on the disk goes if its count has no row.
abbrev pub cleaned : Text → List Text → Trace → Trace
cleaned path [] t = removed path ∷ t
cleaned path (_ ∷ _) t = t

-- The trace after an item of a user's directory.
abbrev pub item_trace : ℤ → Text → Item → Trace → Trace
item_trace u dir (one_file fid name path counts) t = cleaned path (concat counts) (
    asked
      (format (select_kind fid u dir)
        ∷ format (delete_relation u fid dir)
        ∷ format (select_count fid)
        ∷ [])
      t)
item_trace u dir (one_folder fid name path es) t =
    asked
      (format (select_kind fid u dir)
        ∷ format (delete_folder_relation u fid dir)
        ∷ format (select_entries u (subdir dir name))
        ∷ walk u (subdir dir name) es)
      t

unfoldable pub items_trace : ℤ → Text → List Item → Trace → Trace
items_trace u dir [] t = t
items_trace u dir (i ∷ is) t = items_trace u dir is (item_trace u dir i t)

-- What the database answers about an item, from the trace on at which its look-up has been asked.
abbrev pub Known : ℤ → Text → Sys → Item → Trace → Type 0
Known u dir sys (one_file fid name path counts) t =
    AllOf 1 counts
    × (sys.mysql_store_result
          (queried (format (select_count fid)) ∷ queried (format (delete_relation u fid dir)) ∷ t)
        ≡ some (map (map some) counts))
Known u dir sys (one_folder fid name path es) t =
    (length (subdir dir name) ≤ path_limit)
    × IsWithin path_limit (subdir dir name) es
    × Stored u sys (subdir dir name) es (queried (format (delete_folder_relation u fid dir)) ∷ t)
    × StoredBelow u sys (subdir dir name) es (
        queried (format (select_entries u (subdir dir name)))
        ∷ queried (format (delete_folder_relation u fid dir))
        ∷ t)

abbrev pub deep_of : Item → ℕ
deep_of (one_file fid name path counts) = 0
deep_of (one_folder fid name path es) = suc (depth es)

-- What it answers about all items, each when the handler comes to it: what is asked later may be
-- answered differently, when items have been deleted.
abbrev pub AllKnown : ℕ → ℤ → Text → Sys → List Item → Trace → Type 0
AllKnown fuel u dir sys [] t = Unit {0}
AllKnown fuel u dir sys (i ∷ is) t =
    (deep_of i ≤ fuel)
    × (sys.mysql_store_result (queried (format (select_kind (id_of i) u dir)) ∷ t)
        ≡ some (map (map some) (columns_of i ∷ [])))
    × Known u dir sys i (queried (format (select_kind (id_of i) u dir)) ∷ t)
    × AllKnown fuel u dir sys is (item_trace u dir i t)

select_count-fits : (fid : ℤ) → bound (select_count fid) < def_content_size
unfolding nest_disk.Base.codes
select_count-fits fid = omega arith

select_kind-fits :
    (fid u : ℤ) (dir : Text)
    → length dir < max_path_size
    → bound (select_kind fid u dir) < def_content_size
unfolding nest_disk.Base.codes
select_kind-fits fid u dir h = omega arith

abbrev done_at : Server → Trace → Out (Unit {0}) × Server
done_at s t = (ok tt, record s { trace = t })

remove_unused-cleaned :
    (path : Text) (l : List Text) (sys : Sys) (s : Server)
    → remove_unused path l sys s ≡ done_at s (cleaned path l s.trace)
unfolding remove_unused
remove_unused-cleaned path [] sys s = refl
remove_unused-cleaned path (c ∷ l) sys s = refl

look_up_count-cleaned :
    (fid : ℤ) (path : Text) (counts : List (List Text)) (sys : Sys) (s : Server)
    → Serves sys
    → AllOf 1 counts
    → sys.mysql_store_result (queried (format (select_count fid)) ∷ s.trace)
      ≡ some (map (map some) counts)
    → look_up_count fid path sys s
      ≡ done_at s (cleaned path (concat counts) (queried (format (select_count fid)) ∷ s.trace))
unfolding look_up_count
look_up_count-cleaned fid path counts sys s good one row =
    rw
      (
        sprintf-eq-ok def_content_size (select_count fid) sys s (select_count-fits fid),
        select_mysql-all (format (select_count fid)) 1 counts sys s good row one,
      )
      (remove_unused-cleaned path (concat counts) sys
        (record s { trace = queried (format (select_count fid)) ∷ s.trace }))

abbrev ends : List Text → Out (Unit {0}) × Server → Out (List Text) × Server
ends l r = after (function_end r) (λ u t. (ok l, t))

module _ (fuel : ℕ) (rq : DeleteFileRq) (sys : Sys) (good : Serves sys)
    (short : length rq.dir < max_path_size) where
  -- One item, from the server at which its look-up has been asked.
  delete_found-trace :
      (i : Item) (s : Server)
      → deep_of i ≤ fuel
      → Known rq.userid rq.dir sys i
          (queried (format (select_kind (id_of i) rq.userid rq.dir)) ∷ s.trace)
      → delete_found fuel rq
          (id_of i)
          (columns_of i)
          sys
          (record s { trace = queried (format (select_kind (id_of i) rq.userid rq.dir)) ∷ s.trace })
        ≡ (ok [], record s { trace = item_trace rq.userid rq.dir i s.trace })
  unfolding delete_found delete_item pop_front text_eq asked delete_file_by_id
  delete_found-trace (one_file fid name path counts) s deep known = ap (ends []) (
      update_then (delete_relation rq.userid fid rq.dir) (look_up_count fid path) sys _ good
        (delete_relation-fits rq.userid fid rq.dir (omega arith))
      ∙ look_up_count-cleaned fid path counts sys _ good known.0 known.1)
  delete_found-trace (one_folder fid name path es) s deep known = ap (ends []) (
      delete_folder_by_id-walk fuel rq.userid fid rq.dir name es sys _ good (omega arith) known.0
        deep known.1 known.2 known.3)

  delete_items-trace :
      (is : List Item) (s : Server)
      → AllKnown fuel rq.userid rq.dir sys is s.trace
      → delete_items fuel rq [] (length is) (map id_of is) sys s
        ≡ (ok tt, record s { trace = items_trace rq.userid rq.dir is s.trace })
  unfolding delete_items items_trace
  delete_items-trace [] s known = refl
  delete_items-trace (i ∷ is) s known =
      rw
        (
          delete_items,
          sprintf-eq-ok def_content_size (select_kind (id_of i) rq.userid rq.dir) sys s
              (select_kind-fits (id_of i) rq.userid rq.dir short),
          select_mysql-all (format (select_kind (id_of i) rq.userid rq.dir)) 3 (columns_of i ∷ [])
              sys s good known.1 (three i, tt),
          one_row i,
          delete_found-trace i s known.0 known.2,
        )
        (delete_items-trace is (record s { trace = item_trace rq.userid rq.dir i s.trace }) known.3)
    where
      three : (i : Item) → length (columns_of i) ≡ 3
      three (one_file fid name path counts) = refl
      three (one_folder fid name path es) = refl

      one_row : (i : Item) → concat (columns_of i ∷ []) ≡ columns_of i
      one_row (one_file fid name path counts) = unfold concat in refl
      one_row (one_folder fid name path es) = unfold concat in refl

-- No statement fails, the request's directory fits its array, and for each id of the request the
-- database knows one item when the handler comes to it, a file or a folder whose paths have at most 800
-- bytes: then `deleteFile`,
-- with a depth of calls that is enough for the folders, ends. It has executed the statements for each
-- item in the order of the request, for a folder those of the walk through its tree; the file of an
-- item that is a file has been removed from the disk exactly when its count had no row; and it sends
-- one reply.
pub delete_file_lem :
    (fuel : ℕ) (rq : DeleteFileRq) (fd : ℤ) (is : List Item) (sys : Sys) (s : Server)
    → Serves sys
    → length rq.dir < max_path_size
    → rq.file_count ≡ pos (length is)
    → rq.fileid_array ≡ map id_of is
    → AllKnown fuel rq.userid rq.dir sys is s.trace
    → delete_file fuel rq fd sys s ≡ (
      ok tt,
      record s {
        trace =
            sent fd (delete_file_rs (record { result = pos 1; dir = rq.dir }))
            ∷ items_trace rq.userid rq.dir is s.trace;
      },
    )
unfolding delete_file
delete_file_lem fuel rq fd is sys s good short count ids known =
    let items =
      ap (λ (c : ℤ). delete_items fuel rq [] (pos_part c) rq.fileid_array sys s) count
      ∙ ap (λ (l : List ℤ). delete_items fuel rq [] (length is) l sys s) ids
      ∙ delete_items-trace fuel rq sys good short is s known in
    rw
      (
        delete_file,
        items,
        copy_to-eq-ok max_path_size rq.dir sys
            (record s { trace = items_trace rq.userid rq.dir is s.trace }) short,
      )
      refl
