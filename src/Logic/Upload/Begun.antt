-- ===== src/Logic/Upload/Begun.antt =====
-- `uploadFile` for a content that the server does not have, and the chunks that follow it.
use nest_disk.Base.{
  ℕ, suc, ◌+◌, ◌^◌, ◌<◌, ◌≤◌, ◌≡◌, refl, sym, ap, ◌∙◌, ℤ, pos, negsuc, eq_ℤ, false, eq_ℤ_iff, Text,
  none, some, List, [], ◌∷◌, ◌++◌, map, length, length-format, bound, format, stoi, arith,
}
use mathlib.Core.List.{append_assoc}
use nest_disk.Packet.{
  UploadFileRq, FileContentRq, FileInfo, Packet, upload_file_rs, def_content_size,
}
use nest_disk.MyMap.{find, insert, find-insert}
use nest_disk.Env.{Sys, Server, Trace, ok, queried, opened, sent, create_truncate, pop_front}
use nest_disk.Env.Rules.{sprintf-eq-ok, number_of-eq-ok}
use nest_disk.Env.Views.{written, packets, statements}
use nest_disk.Mysql.Rows.{Serves, select_mysql-all, concat, update_then}
use nest_disk.Logic.{session_key}
use nest_disk.Logic.Upload.{
  select_by_md5, insert_user_file, server_path, insert_file, select_by_path, new_file,
  set_state_done, upload_reply, relate_file, keep_fid, find_fid, store_upload, start_upload,
  new_upload, upload_found, upload_file,
}
use nest_disk.Logic.Upload.Buffers.{Fits, server_path-Fits}
use nest_disk.Logic.Upload.Chunks.{WritesAll}
use nest_disk.Logic.Upload.Whole.{InSession, total, bytes, acks, run, upload_complete}

module _ (rq : UploadFileRq) where
  -- The path of the file, and the statements of the request, in their order.
  abbrev pub path_of : Text
  path_of = format (server_path rq)

  abbrev pub by_md5 : Text
  by_md5 = format (select_by_md5 rq.md5)

  abbrev pub new_row : Text
  new_row = format (insert_file rq.size path_of rq.md5 rq.file_type)

  abbrev pub by_path : Text
  by_path = format (select_by_path rq.md5 path_of)

  abbrev pub relation : ℤ → Text
  relation fid = format (insert_user_file rq.userid fid rq.dir rq.file_name rq.time)

  -- The calls up to `open`, and up to the look-up of the new row's id.
  abbrev pub made : Trace → Trace
  made t = opened path_of create_truncate ∷ queried by_md5 ∷ t

  abbrev pub numbered : Trace → Trace
  numbered t = queried by_path ∷ queried new_row ∷ made t

  abbrev pub accepted : ℤ → Packet
  accepted fid =
      upload_file_rs
        (record { timestamp = rq.timestamp; userid = rq.userid; fileid = fid; result = pos 1 })

from_zero : (n z : ℕ) → n ≡ z → 0 + n ≡ z
from_zero n z e = omega arith

opened_well : (d : ℕ) → eq_ℤ (pos d) (negsuc 0) ≡ false
opened_well d = ground arith

by_md5-fits : (rq : UploadFileRq) → Fits rq → bound (select_by_md5 rq.md5) < def_content_size
unfolding nest_disk.Base.codes
by_md5-fits rq (n, d, m, t, u) = omega arith

new_row-fits :
    (rq : UploadFileRq)
    → Fits rq
    → bound (insert_file rq.size (path_of rq) rq.md5 rq.file_type) < def_content_size
unfolding nest_disk.Base.codes
new_row-fits rq h = omega (arith, h.2, h.3, server_path-Fits rq h, length-format (server_path rq))

by_path-fits :
    (rq : UploadFileRq) → Fits rq → bound (select_by_path rq.md5 (path_of rq)) < def_content_size
unfolding nest_disk.Base.codes
by_path-fits rq h = omega (arith, h.2, server_path-Fits rq h, length-format (server_path rq))

relation-fits :
    (rq : UploadFileRq) (fid : ℤ)
    → Fits rq
    → bound (insert_user_file rq.userid fid rq.dir rq.file_name rq.time) < def_content_size
unfolding nest_disk.Base.codes
relation-fits rq fid (n, d, m, t, u) = omega arith

module _ (rq : UploadFileRq) (fd fid : ℤ) (t : Text) (d : ℕ) (sys : Sys) (good : Serves sys)
    (fits : Fits rq) (number : stoi t ≡ some fid) where
  abbrev key : ℤ
  key = session_key rq.userid rq.timestamp

  abbrev file : FileInfo
  file = new_file rq (path_of rq) (pos d)

  -- The server behind the request.
  abbrev begun : Server → Server
  begun s = record {
    users = s.users;
    files = insert key (record file { fid = fid }) (insert key file s.files);
    trace = sent fd (accepted rq fid) ∷ queried (relation rq fid) ∷ numbered rq s.trace;
  }

  keep_fid-kept :
      (s : Server)
      → keep_fid rq fd file (t ∷ []) sys s ≡ (
        ok tt,
        record s {
          files = insert key (record file { fid = fid }) s.files;
          trace = sent fd (accepted rq fid) ∷ queried (relation rq fid) ∷ s.trace;
        },
      )
  unfolding keep_fid relate_file pop_front
  keep_fid-kept s =
      let s1 = record s { files = insert key (record file { fid = fid }) s.files } in
      rw (keep_fid, number_of-eq-ok t fid sys s number)
        (update_then (insert_user_file rq.userid fid rq.dir rq.file_name rq.time)
          (upload_reply rq fd fid) sys s1 good (relation-fits rq fid fits))

  find_fid-found :
      (s : Server)
      → sys.mysql_store_result (queried (by_path rq) ∷ s.trace)
        ≡ some (map (map some) ((t ∷ []) ∷ []))
      → find_fid rq fd file sys s
        ≡ keep_fid rq fd file (t ∷ []) sys (record s { trace = queried (by_path rq) ∷ s.trace })
  unfolding find_fid concat
  find_fid-found s row =
      rw
        (
          find_fid,
          sprintf-eq-ok def_content_size (select_by_path rq.md5 (path_of rq)) sys s
              (by_path-fits rq fits),
          select_mysql-all (by_path rq) 1 ((t ∷ []) ∷ []) sys s good row (refl, tt),
        )
        refl

  start_upload-started :
      (s : Server)
      → start_upload rq fd file sys s
        ≡ find_fid rq fd file sys
            (record s { files = insert key file s.files; trace = queried (new_row rq) ∷ s.trace })
  unfolding start_upload store_upload
  start_upload-started s =
      update_then (insert_file rq.size (path_of rq) rq.md5 rq.file_type) (find_fid rq fd file) sys
        (record s { files = insert key file s.files }) good (new_row-fits rq fits)

  upload_file-started :
      (s : Server)
      → sys.mysql_store_result (queried (by_md5 rq) ∷ s.trace) ≡ some []
      → sys.open_file (made rq s.trace) ≡ pos d
      → upload_file rq fd sys s ≡ start_upload rq fd file sys (record s { trace = made rq s.trace })
  unfolding upload_file upload_found new_upload concat
  upload_file-started s fresh opens =
      rw
        (
          upload_file,
          sprintf-eq-ok def_content_size (select_by_md5 rq.md5) sys s (by_md5-fits rq fits),
          select_mysql-all (by_md5 rq) 1 [] sys s good fresh tt,
          sprintf-eq-ok 1000 (server_path rq) sys
              (record s { trace = queried (by_md5 rq) ∷ s.trace })
              (omega (arith, server_path-Fits rq fits)),
          opens,
          opened_well d,
        )
        refl

  upload_file-begun :
      (s : Server)
      → sys.mysql_store_result (queried (by_md5 rq) ∷ s.trace) ≡ some []
      → sys.open_file (made rq s.trace) ≡ pos d
      → sys.mysql_store_result (numbered rq s.trace) ≡ some (map (map some) ((t ∷ []) ∷ []))
      → upload_file rq fd sys s ≡ (ok tt, begun s)
  upload_file-begun s fresh opens row =
      upload_file-started s fresh opens
      ∙ start_upload-started (record s { trace = made rq s.trace })
      ∙ find_fid-found _ row
      ∙ keep_fid-kept _

append_five :
    (l : List Text) (a b c d e : Text)
    → ((((l ++ (a ∷ [])) ++ (b ∷ [])) ++ (c ∷ [])) ++ (d ∷ [])) ++ (e ∷ [])
      ≡ l ++ (a ∷ b ∷ c ∷ d ∷ e ∷ [])
append_five l a b c d e = simp append_assoc

-- No statement fails and the request's strings fit their arrays; the look-up of the MD5 gives no row,
-- the file can be opened on the server, and the look-up of its row gives one number. If every write
-- takes all its bytes, then the request and chunks of its session for the file of that number (each
-- of 1 to 4096 bytes) that have the announced size together, more than 0 and below 2 ^ 31, are handled
-- so: the reply gives the client the number, and each chunk is acknowledged with success, in order; the
-- bytes of the chunks are written to the file in order, and nothing else with them; the statements that
-- have been executed are the two look-ups, the two that store the file's row and the user's relation to
-- it, and at the end the one that marks it complete; and the session is gone from the map.
pub upload_file_complete :
    (rq : UploadFileRq) (fd fid : ℤ) (t : Text) (rqs : List FileContentRq) (d z : ℕ) (sys : Sys)
    (s : Server)
    → Serves sys
    → WritesAll sys
    → Fits rq
    → rq.size ≡ pos z
    → 0 < z
    → z < 2 ^ 31
    → sys.mysql_store_result (queried (by_md5 rq) ∷ s.trace) ≡ some []
    → sys.open_file (made rq s.trace) ≡ pos d
    → stoi t ≡ some fid
    → sys.mysql_store_result (numbered rq s.trace) ≡ some (map (map some) ((t ∷ []) ∷ []))
    → InSession rq.userid rq.timestamp fid rqs
    → total rqs ≡ z
    → let s' = run rqs fd sys (upload_file rq fd sys s).1 in
      (find (session_key rq.userid rq.timestamp) s'.files ≡ none)
      × (written (pos d) s'.trace ≡ written (pos d) s.trace ++ bytes rqs)
      × (packets s'.trace ≡ packets s.trace ++ ((fd, accepted rq fid) ∷ acks fd rqs))
      × (statements s'.trace
          ≡ statements s.trace
            ++ (by_md5 rq
                ∷ new_row rq
                ∷ by_path rq
                ∷ relation rq fid
                ∷ format (set_state_done fid)
                ∷ []))
unfolding written packets statements
upload_file_complete rq fd fid t rqs d z sys s good w fits size some_bytes small fresh opens number
      row c full =
    let k = session_key rq.userid rq.timestamp in
    let file0 = file rq fd fid t d sys good fits number in
    let s1 = begun rq fd fid t d sys good fits number s in
    let known =
      find-insert k k (record file0 { fid = fid }) (insert k file0 s.files)
      ∙ rw ((eq_ℤ_iff k k).1 refl) in
    let h =
      upload_complete rq.userid rq.timestamp fid fd rqs (record file0 { fid = fid }) 0 z sys s1
        known refl size c w some_bytes (from_zero (total rqs) z full) small in
    rw (upload_file-begun rq fd fid t d sys good fits number s fresh opens row) (
      h.0,
      h.1,
      h.2 ∙ append_assoc (packets s.trace) ((fd, accepted rq fid) ∷ []) (acks fd rqs),
      h.3
          ∙ append_five (statements s.trace) (by_md5 rq) (new_row rq) (by_path rq) (relation rq fid)
              (format (set_state_done fid)),
    )
