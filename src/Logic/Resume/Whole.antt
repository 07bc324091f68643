-- ===== src/Logic/Resume/Whole.antt =====
-- src/clogic.cpp, `continueDownload`: a download for which the handler finds nothing in the map, from the
-- request to its end.
use nest_disk.Base.{
  ℕ, suc, ◌+◌, ◌^◌, ◌<◌, ◌≡◌, refl, ◌∙◌, ℤ, pos, eq_ℤ_iff, Text, none, some, List, [], ◌∷◌, ◌++◌,
  map, length, arith,
}
use mathlib.Core.List.{append_assoc}
use nest_disk.Packet.{ContinueDownloadRq, FileHeaderRs, FileInfo, max_path_size, def_buffer}
use nest_disk.MyMap.{find, insert, find-insert}
use nest_disk.Env.{Sys, Server, Trace, ok, queried, sought, fetched, sent, read_only, seek_set}
use nest_disk.Env.Views.{packets, statements}
use nest_disk.Mysql.Rows.{Serves}
use nest_disk.Logic.{session_key}
use nest_disk.Logic.Download.Whole.{
  ReadsFrom, AllBlocks, size_of, answer, block_packet, block_packets, answer_all,
}
use nest_disk.Logic.Resume.{continue_download}
use nest_disk.Logic.Resume.Lost.{Stored, row_of, look_up, reopened, session_of, resume_file-lost}

-- The client, as it acknowledges chunks.
abbrev pub client_of : ContinueDownloadRq → FileHeaderRs
client_of rq = record {
  timestamp = rq.timestamp;
  userid = rq.userid;
  fileid = rq.fileid;
  result = pos 1;
}

module _ (rq : ContinueDownloadRq) (fd : ℤ) (f : Stored) (b : Text) (d : ℕ) (sys : Sys)
    (s : Server) where
  abbrev key : ℤ
  key = session_key rq.userid rq.timestamp

  abbrev lost_and_found : FileInfo
  lost_and_found = session_of rq.fileid rq.dir rq.pos f (suc d)

  abbrev at_open : Trace
  at_open = reopened read_only rq.userid rq.fileid rq.dir f s.trace

  -- The server behind the request.
  abbrev resumed : Server
  resumed = record {
    users = s.users;
    files = insert key lost_and_found (insert key lost_and_found s.files);
    trace =
        sent fd (block_packet (client_of rq) b)
        ∷ fetched (pos (suc d)) def_buffer
        ∷ sought (pos (suc d)) rq.pos seek_set
        ∷ at_open;
  }

  continue_download-resumed :
      Serves sys
      → find rq.timestamp s.files ≡ none
      → length rq.dir < max_path_size
      → f.size < 2 ^ 31
      → sys.mysql_store_result (queried (look_up rq.userid rq.fileid rq.dir) ∷ s.trace)
        ≡ some (map (map some) (row_of f ∷ []))
      → sys.open_file (at_open) ≡ pos (suc d)
      → 0 < length b
      → sys.read_file
          (fetched (pos (suc d)) def_buffer ∷ sought (pos (suc d)) rq.pos seek_set ∷ at_open)
        ≡ (pos (length b), b)
      → continue_download rq fd sys s ≡ (ok tt, resumed)
  unfolding continue_download
  continue_download-resumed good lost short small row opens some_bytes read =
      rw
        (
          continue_download,
          resume_file-lost read_only rq.userid rq.timestamp rq.fileid rq.dir rq.pos f d sys s good
              lost short small row opens,
          read,
        )
        (ground arith)

-- Nothing is in the map under the request's timestamp, which is the key that the handler looks up;
-- whether the transfer is there under its own key, of user and timestamp, makes no difference. No
-- statement fails, the request's directory fits its array, and the look-up gives the row of a file
-- of fewer than 2 ^ 31 bytes, which can be opened. Behind the request's position the descriptor
-- gives blocks of 1 to 4096 bytes, one for each `read`, up to the file's size, and then nothing.
-- Then the request and the client's acknowledgements bring the client these blocks, each once and
-- in order, in the packets in which the download would have brought them; besides the look-up no
-- statement is executed, and after the last acknowledgement nothing is in the map under the key of
-- user and timestamp.
pub continue_download_complete :
    (rq : ContinueDownloadRq) (fd : ℤ) (f : Stored) (b : Text) (bs : List Text) (d p : ℕ)
    (sys : Sys) (s : Server)
    → Serves sys
    → find rq.timestamp s.files ≡ none
    → length rq.dir < max_path_size
    → f.size < 2 ^ 31
    → sys.mysql_store_result (queried (look_up rq.userid rq.fileid rq.dir) ∷ s.trace)
      ≡ some (map (map some) (row_of f ∷ []))
    → sys.open_file (reopened read_only rq.userid rq.fileid rq.dir f s.trace) ≡ pos (suc d)
    → rq.pos ≡ pos p
    → ReadsFrom sys (pos (suc d)) (b ∷ bs) (
        sought (pos (suc d)) rq.pos seek_set
        ∷ reopened read_only rq.userid rq.fileid rq.dir f s.trace)
    → AllBlocks (b ∷ bs)
    → p + size_of (b ∷ bs) ≡ f.size
    → let s' = answer (client_of rq) fd (b ∷ bs) sys (continue_download rq fd sys s).1 in
      (find (session_key rq.userid rq.timestamp) s'.files ≡ none)
      × (packets s'.trace ≡ packets s.trace ++ block_packets (client_of rq) fd (b ∷ bs))
      × (statements s'.trace ≡ statements s.trace ++ (look_up rq.userid rq.fileid rq.dir ∷ []))
unfolding packets statements
continue_download_complete rq fd f b bs d p sys s good lost short small row opens at read all full =
    let s1 = resumed rq fd f b d sys s in
    let rs = client_of rq in
    let file = lost_and_found rq fd f b d sys s in
    let known =
      find-insert (session_key rq.userid rq.timestamp) (session_key rq.userid rq.timestamp) file
        (insert (session_key rq.userid rq.timestamp) file s.files)
      ∙ rw (
          (eq_ℤ_iff (session_key rq.userid rq.timestamp) (session_key rq.userid rq.timestamp)).1
            refl) in
    let h =
      answer_all rs fd b bs file p f.size sys s1 known at refl (read.1 fd (block_packet rs b)) all.1
        full small in
    rw (continue_download-resumed rq fd f b d sys s good lost short small row opens all.0.0 read.0)
      (
        h.0,
        h.1
            ∙ append_assoc (packets s.trace) ((fd, block_packet rs b) ∷ [])
                (block_packets rs fd bs),
        h.2,
      )
