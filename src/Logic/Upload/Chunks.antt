-- ===== src/Logic/Upload/Chunks.antt =====
-- The chunks of an upload: what one does, and what a whole upload comes to.
use nest_disk.Base.{
  to_int-sum, ℕ, ◌+◌, ◌^◌, ◌≤◌, ◌<◌, ◌≡◌, refl, ℤ, pos, Text, ◌∷◌, length, take, length-take,
  format, codes, arith,
}
use nest_disk.Packet.{FileContentRq, FileInfo, Packet, file_content_rs, def_content_size}
use nest_disk.MyMap.{insert, erase}
use nest_disk.Env.{Sys, Server, Trace, wrote, sent, closed, queried, ok}
use nest_disk.Env.Rules.{sprintf-eq-ok}
use nest_disk.Mysql.{updata_mysql}
use nest_disk.Logic.Upload.{on_chunk, advance, finish_upload, write_chunk, set_state_done}

-- A chunk of `n` bytes, with the array that `len` fits into.
abbrev pub IsChunk : FileContentRq → ℕ → Type 0
IsChunk rq n = (rq.len ≡ pos n) × (0 < n) × (n ≤ 4096) × (length rq.content ≡ 4096)

-- Every `write` takes all bytes.
abbrev pub WritesAll : Sys → Type 0
WritesAll sys = (t : Trace) (fd : ℤ) (b : Text) → sys.write_file (wrote fd b ∷ t) ≡ pos (length b)

abbrev pub moved : FileInfo → ℕ → FileInfo
moved file p = record file { pos = pos p }

-- The server after the chunk, if the upload goes on, and if it is complete.
abbrev pub chunk_ack : FileContentRq → Packet
chunk_ack rq = file_content_rs (record {
  timestamp = rq.timestamp;
  userid = rq.userid;
  fileid = rq.fileid;
  result = pos 1;
  len = rq.len;
})

abbrev pub going_on : FileContentRq → ℤ → ℤ → FileInfo → ℕ → ℕ → Server → Server
going_on rq fd key file p n s = record {
  users = s.users;
  files = insert key (moved file (p + n)) s.files;
  trace = sent fd (chunk_ack rq) ∷ wrote file.file_fd (take n rq.content) ∷ s.trace;
}

abbrev pub finished : FileContentRq → ℤ → ℤ → FileInfo → ℕ → ℕ → Server → Server
finished rq fd key file p n s = record {
  users = s.users;
  files = erase key (insert key (moved file (p + n)) s.files);
  trace =
      sent fd (chunk_ack rq)
      ∷ closed file.file_fd
      ∷ queried (format (set_state_done rq.fileid))
      ∷ wrote file.file_fd (take n rq.content)
      ∷ s.trace;
}

write_chunk-all :
    (rq : FileContentRq) (file : FileInfo) (n : ℕ) (sys : Sys) (s : Server)
    → IsChunk rq n
    → WritesAll sys
    → write_chunk file.file_fd rq.content rq.len sys s
      ≡ (ok (pos n), record s { trace = wrote file.file_fd (take n rq.content) ∷ s.trace })
unfolding write_chunk
write_chunk-all rq file n sys s c w =
    rw c.0 (ground (arith, w s.trace file.file_fd (take n rq.content), length-take n rq.content))

finish_upload-lem :
    (rq : FileContentRq) (key : ℤ) (file : FileInfo) (sys : Sys) (s : Server)
    → finish_upload rq key file sys s ≡ (
      ok tt,
      record {
        users = s.users;
        files = erase key s.files;
        trace = closed file.file_fd ∷ queried (format (set_state_done rq.fileid)) ∷ s.trace;
      },
    )
unfolding finish_upload updata_mysql codes
finish_upload-lem rq key file sys s =
    rw (sprintf-eq-ok def_content_size (set_state_done rq.fileid) sys s (omega arith)) refl

module _ (rq : FileContentRq) (fd key : ℤ) (file : FileInfo) (p n z : ℕ) (sys : Sys) (s : Server)
    (at : file.pos ≡ pos p) (size : file.size ≡ pos z) (c : IsChunk rq n) (w : WritesAll sys)
    (small : p + n < 2 ^ 31) where
  pub on_chunk-going_on :
      p + n < z → on_chunk rq fd key file sys s ≡ (ok tt, going_on rq fd key file p n s)
  unfolding on_chunk advance
  on_chunk-going_on more =
      rw (write_chunk-all rq file n sys s c w, to_int-sum file.pos (pos n) p n at refl small)
        (ground arith)

  pub on_chunk-last :
      z ≤ p + n → on_chunk rq fd key file sys s ≡ (ok tt, finished rq fd key file p n s)
  unfolding on_chunk advance
  on_chunk-last last =
      rw (write_chunk-all rq file n sys s c w, to_int-sum file.pos (pos n) p n at refl small)
        (ground (
          arith,
          finish_upload-lem rq key (moved file (p + n)) sys (record {
            users = s.users;
            files = insert key (moved file (p + n)) s.files;
            trace = wrote file.file_fd (take n rq.content) ∷ s.trace;
          }),
        ))
