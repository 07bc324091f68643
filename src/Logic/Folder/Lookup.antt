-- ===== src/Logic/Folder/Lookup.antt =====
-- What `addFolder` does after the folder's row is stored.
use nest_disk.Base.{
  Bool, not, ◌&&◌, ◌==◌, eq_ℤ, ◌⊎◌, inl, inr, if◌then◌else◌, ℕ, ◌+◌, ◌<◌, ◌≤◌, ◌≡◌, refl, ◌∙◌, ap,
  ℤ, pos, Text, true, false, some, none, List, [], ◌∷◌, length, length-format, bound, format, stoi,
  arith,
}
use nest_disk.Packet.{Packet, AddFolderRq, add_folder_rs, def_content_size, max_path_size, max_size}
use nest_disk.Env.{
  Sys, Server, Trace, ok, fault, empty_front, queried, made_dir, sent, pop_front, stop, send_data,
}
use nest_disk.Env.Rules.{sprintf-eq-ok, number_of-eq-ok}
use nest_disk.Mysql.{push_columns, push_rows, select_mysql, updata_mysql}
use nest_disk.Logic.Folder.{
  eexist, folder_path, insert_folder, select_folder, relate_folder, make_folder, store_folder,
  look_up_folder, add_folder,
}

-- The strings of the request are NUL-terminated in their arrays.
abbrev pub Fits : AddFolderRq → Type 0
Fits rq =
    (length rq.dir < max_path_size)
    × (length rq.file_name < max_path_size)
    × (length rq.time < max_size)

abbrev path_of : AddFolderRq → Text
path_of rq = format (folder_path rq)

-- The trace when the look-up has been asked.
abbrev pub looked_up : AddFolderRq → Trace → Trace
looked_up rq t =
    queried (format (select_folder (format (folder_path rq))))
    ∷ queried (format (insert_folder (format (folder_path rq))))
    ∷ t

folder_path-Fits : (rq : AddFolderRq) → Fits rq → bound (folder_path rq) < 600
unfolding nest_disk.Base.codes
folder_path-Fits rq (d, n, t) = omega arith

insert_folder-Fits :
    (rq : AddFolderRq) → Fits rq → bound (insert_folder (path_of rq)) < def_content_size
unfolding nest_disk.Base.codes
insert_folder-Fits rq h = omega (arith, folder_path-Fits rq h, length-format (folder_path rq))

select_folder-Fits :
    (rq : AddFolderRq) → Fits rq → bound (select_folder (path_of rq)) < def_content_size
unfolding nest_disk.Base.codes
select_folder-Fits rq h = omega (arith, folder_path-Fits rq h, length-format (folder_path rq))

relate_folder-Fits :
    (rq : AddFolderRq) (fid : ℤ) → Fits rq → bound (relate_folder rq fid) < def_content_size
unfolding nest_disk.Base.codes
relate_folder-Fits rq fid (d, n, t) = omega arith

-- The handler up to the look-up, when the folder's row is stored.
add_folder-look_up_folder :
    (rq : AddFolderRq) (fd : ℤ) (sys : Sys) (s : Server)
    → Fits rq
    → sys.mysql_query (queried (format (insert_folder (format (folder_path rq)))) ∷ s.trace) ≡ false
    → add_folder rq fd sys s
      ≡ look_up_folder rq fd (path_of rq) sys (record s {
        trace = queried (format (insert_folder (format (folder_path rq)))) ∷ s.trace;
      })
unfolding add_folder updata_mysql
add_folder-look_up_folder rq fd sys s h good =
    rw
      (
        add_folder,
        sprintf-eq-ok 1024 (folder_path rq) sys s (omega (arith, folder_path-Fits rq h)),
        sprintf-eq-ok def_content_size (insert_folder (path_of rq)) sys s (insert_folder-Fits rq h),
        good,
      )
      refl

-- The folder's row is stored and the look-up of its id fails: then the handler takes the first string
-- of an empty list, since it tests the result of the statement before.
add_folder-unknown :
    (rq : AddFolderRq) (fd : ℤ) (sys : Sys) (s : Server)
    → Fits rq
    → sys.mysql_query (queried (format (insert_folder (format (folder_path rq)))) ∷ s.trace) ≡ false
    → sys.mysql_query (looked_up rq s.trace) ≡ true
    → add_folder rq fd sys s ≡ (fault empty_front, record s { trace = looked_up rq s.trace })
unfolding look_up_folder select_mysql store_folder pop_front
add_folder-unknown rq fd sys s h good bad =
    add_folder-look_up_folder rq fd sys s h good
    ∙ rw
        (
          look_up_folder,
          sprintf-eq-ok def_content_size (select_folder (path_of rq)) sys
              (record s { trace = queried (format (insert_folder (path_of rq))) ∷ s.trace })
              (select_folder-Fits rq h),
          bad,
        )
        refl

-- The trace when the user's relation to the folder is stored and the directory asked for.
abbrev pub created : AddFolderRq → ℤ → Trace → Trace
created rq fid t =
    made_dir (format (folder_path rq)) ∷ queried (format (relate_folder rq fid)) ∷ looked_up rq t

abbrev folder_reply : AddFolderRq → Packet
folder_reply rq =
    add_folder_rs (record { result = pos 1; userid = rq.userid; timestamp = rq.timestamp })

make_folder-made :
    (rq : AddFolderRq) (fd : ℤ) (path : Text) (sys : Sys) (s : Server)
    → (sys.mkdir (made_dir path ∷ s.trace) ≡ pos 0) ⊎ (sys.errno (made_dir path ∷ s.trace) ≡ eexist)
    → make_folder rq fd path sys s
      ≡ (ok tt, record s { trace = sent fd (folder_reply rq) ∷ made_dir path ∷ s.trace })
unfolding make_folder
make_folder-made rq fd path sys s (inl made) = rw (made, make_folder) refl
make_folder-made rq fd path sys s (inr there) =
    rw (there, make_folder) (last (eq_ℤ (sys.mkdir (made_dir path ∷ s.trace)) (pos 0)))
  where
    last :
        (b : Bool)
        → (if not b && not (eexist == eexist) then stop else send_data fd (folder_reply rq)) sys
            (record s { trace = made_dir path ∷ s.trace })
          ≡ (ok tt, record s { trace = sent fd (folder_reply rq) ∷ made_dir path ∷ s.trace })
    last true = refl
    last false = refl

store_folder-stored :
    (rq : AddFolderRq) (fd : ℤ) (path t : Text) (ts : List Text) (fid : ℤ) (sys : Sys) (s : Server)
    → Fits rq
    → stoi t ≡ some fid
    → sys.mysql_query (queried (format (relate_folder rq fid)) ∷ s.trace) ≡ false
    → store_folder rq fd path (t ∷ ts) sys s
      ≡ make_folder rq fd path sys
          (record s { trace = queried (format (relate_folder rq fid)) ∷ s.trace })
unfolding store_folder pop_front updata_mysql
store_folder-stored rq fd path t ts fid sys s h n good =
    rw
      (
        store_folder,
        number_of-eq-ok t fid sys s n,
        sprintf-eq-ok def_content_size (relate_folder rq fid) sys s (relate_folder-Fits rq fid h),
        good,
      )
      refl

look_up_folder-found :
    (rq : AddFolderRq) (fd : ℤ) (t : Text) (sys : Sys) (s : Server)
    → Fits rq
    → sys.mysql_query (queried (format (select_folder (path_of rq))) ∷ s.trace) ≡ false
    → sys.mysql_store_result (queried (format (select_folder (path_of rq))) ∷ s.trace)
      ≡ some ((some t ∷ []) ∷ [])
    → look_up_folder rq fd (path_of rq) sys s
      ≡ store_folder rq fd
          (path_of rq)
          (t ∷ [])
          sys
          (record s { trace = queried (format (select_folder (path_of rq))) ∷ s.trace })
unfolding look_up_folder select_mysql push_rows push_columns
look_up_folder-found rq fd t sys s h good row =
    rw
      (
        look_up_folder,
        sprintf-eq-ok def_content_size (select_folder (path_of rq)) sys s (select_folder-Fits rq h),
        good,
        row,
      )
      refl

-- The three statements succeed, the look-up gives one row with a number, and the directory is made or
-- is there: then the handler stores the user's relation to the folder of that number, and sends one
-- reply of success with the request's timestamp and user.
pub add_folder_lem :
    (rq : AddFolderRq) (fd fid : ℤ) (t : Text) (sys : Sys) (s : Server)
    → Fits rq
    → stoi t ≡ some fid
    → sys.mysql_query (queried (format (insert_folder (format (folder_path rq)))) ∷ s.trace) ≡ false
    → sys.mysql_query (looked_up rq s.trace) ≡ false
    → sys.mysql_store_result (looked_up rq s.trace) ≡ some ((some t ∷ []) ∷ [])
    → sys.mysql_query (queried (format (relate_folder rq fid)) ∷ looked_up rq s.trace) ≡ false
    → (sys.mkdir (created rq fid s.trace) ≡ pos 0) ⊎ (sys.errno (created rq fid s.trace) ≡ eexist)
    → add_folder rq fd sys s ≡ (
      ok tt,
      record s {
        trace =
            sent fd (
              add_folder_rs
                (record { result = pos 1; userid = rq.userid; timestamp = rq.timestamp }))
            ∷ created rq fid s.trace;
      },
    )
add_folder_lem rq fd fid t sys s h n stored found row related made =
    let s1 = record s { trace = queried (format (insert_folder (path_of rq))) ∷ s.trace } in
    let s2 = record s { trace = looked_up rq s.trace } in
    add_folder-look_up_folder rq fd sys s h stored
    ∙ look_up_folder-found rq fd t sys s1 h found row
    ∙ store_folder-stored rq fd (path_of rq) t [] fid sys s2 h n related
    ∙ make_folder-made rq fd (path_of rq) sys
        (record s { trace = queried (format (relate_folder rq fid)) ∷ looked_up rq s.trace }) made
