-- ===== src/Logic/Lists/Entries.antt =====
-- What `getFileList` reads back from the rows of the files' view.
use nest_disk.Base.{
  ℕ, zero, suc, ◌+◌, ◌*◌, ◌/◌, ◌<◌, ◌≡◌, refl, sym, ap, ◌∙◌, ℤ, InInt, Text, Bool, true, false, not,
  none, some, List, [], ◌∷◌, ◌++◌, map, length, decimal, stoi, stoi-decimal, bound, format, arith,
  if◌then◌else◌,
}
use mathlib.Core.List.{append_assoc, append-nil}
use nest_disk.Packet.{GetFileRq, FileEntry, get_file_rs, def_content_size, max_path_size, max_size}
use nest_disk.Env.{Sys, Server, Row, ok, queried, sent, pop_front}
use nest_disk.Env.Rules.{number_of-eq-ok, copy_to-eq-ok, sprintf-eq-ok}
use nest_disk.Mysql.{push_columns, push_rows, select_mysql}
use nest_disk.Logic.Lists.{select_files, read_entry, read_entries, get_file_list}

-- The columns of an entry, as the database gives them.
abbrev pub row_of : FileEntry → Row
row_of e =
    some e.name
    ∷ some (decimal e.size)
    ∷ some e.time
    ∷ some (decimal e.fileid)
    ∷ some e.file_type
    ∷ []

abbrev columns : FileEntry → List Text → List Text
columns e l = e.name ∷ decimal e.size ∷ e.time ∷ decimal e.fileid ∷ e.file_type ∷ l

-- The strings fit the packet's arrays, and the numbers are of type `int`.
abbrev pub FitsEntry : FileEntry → Type 0
FitsEntry e =
    (length e.name < max_path_size)
    × (length e.time < max_size)
    × (length e.file_type < max_size)
    × InInt e.size
    × InInt e.fileid

abbrev pub AllFit : List FileEntry → Type 0
AllFit [] = Unit {0}
AllFit (e ∷ es) = FitsEntry e × AllFit es

-- The strings of all entries, as `SelectMysql` pushes them.
strings : List FileEntry → List Text
strings [] = []
strings (e ∷ es) = columns e (strings es)

length-strings : (es : List FileEntry) → length (strings es) ≡ 5 * length es
unfolding strings
length-strings [] = refl
length-strings (e ∷ es) = omega (arith, length-strings es)

append_columns :
    (acc l : List Text) (e : FileEntry)
    → (((((acc ++ (e.name ∷ [])) ++ (decimal e.size ∷ [])) ++ (e.time ∷ []))
            ++ (decimal e.fileid ∷ []))
          ++ (e.file_type ∷ []))
        ++ l
      ≡ acc ++ columns e l
append_columns acc l e = simp append_assoc

push_rows-eq :
    (es : List FileEntry) (acc : List Text) (sys : Sys) (s : Server)
    → push_rows 5 acc (map row_of es) sys s ≡ (ok (acc ++ strings es), s)
unfolding push_rows push_columns strings
push_rows-eq [] acc sys s = ap (λ (l : List Text). (ok l, s)) (sym (append-nil acc))
push_rows-eq (e ∷ es) acc sys s =
    push_rows-eq es _ sys s ∙ ap (λ (l : List Text). (ok l, s)) (append_columns acc (strings es) e)

read_entry-eq :
    (e : FileEntry) (l : List Text) (sys : Sys) (s : Server)
    → FitsEntry e
    → read_entry (columns e l) sys s ≡ (ok (e, l), s)
unfolding read_entry pop_front
read_entry-eq e l sys s (n, t, f, size, id) =
    rw
      (
        read_entry,
        number_of-eq-ok (decimal e.size) e.size sys s (stoi-decimal e.size size),
        number_of-eq-ok (decimal e.fileid) e.fileid sys s (stoi-decimal e.fileid id),
        copy_to-eq-ok max_path_size e.name sys s n,
        copy_to-eq-ok max_size e.time sys s t,
        copy_to-eq-ok max_size e.file_type sys s f,
      )
      refl

read_entries-eq :
    (es : List FileEntry) (sys : Sys) (s : Server)
    → AllFit es
    → read_entries (length es) (strings es) sys s ≡ (ok es, s)
unfolding read_entries strings
read_entries-eq [] sys s a = refl
read_entries-eq (e ∷ es) sys s a =
    rw (read_entry-eq e (strings es) sys s a.0, read_entries-eq es sys s a.1) refl

count-strings : (es : List FileEntry) → length (strings es) / 5 ≡ length es
count-strings es = omega (arith, length-strings es)

select_files-fits :
    (rq : GetFileRq) → length rq.dir < max_path_size → bound (select_files rq) < def_content_size
unfolding nest_disk.Base.codes
select_files-fits rq h = omega arith

-- The server after the query of a list.
abbrev pub listed : GetFileRq → Server → Server
listed rq s = record s { trace = queried (format (select_files rq)) ∷ s.trace }

-- When the query gives the rows of some entries, whose strings fit their arrays and whose numbers are of
-- type `int`, the reply holds exactly these entries, in their order, with their number and the
-- request's directory.
pub get_file_list_lem :
    (rq : GetFileRq) (fd : ℤ) (es : List FileEntry) (sys : Sys) (s : Server)
    → length rq.dir < max_path_size
    → sys.mysql_query (listed rq s).trace ≡ false
    → sys.mysql_store_result (listed rq s).trace ≡ some (map row_of es)
    → AllFit es
    → get_file_list rq fd sys s ≡ (
      ok tt,
      record s {
        trace =
            sent fd (get_file_rs (record { dir = rq.dir; count = length es; file_info = es }))
            ∷ queried (format (select_files rq))
            ∷ s.trace;
      },
    )
unfolding get_file_list select_mysql
get_file_list_lem rq fd es sys s h good rows a =
    rw
      (
        get_file_list,
        sprintf-eq-ok def_content_size (select_files rq) sys s (select_files-fits rq h),
        good,
        rows,
        push_rows-eq es [] sys (listed rq s),
        copy_to-eq-ok max_path_size rq.dir sys (listed rq s) h,
        count-strings es,
        read_entries-eq es sys (listed rq s) a,
      )
      refl
