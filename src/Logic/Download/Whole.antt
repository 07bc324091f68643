-- ===== src/Logic/Download/Whole.antt =====
-- A whole download: the header's answer, and the client's acknowledgement of each chunk.
use nest_disk.Base.{
  ℕ, ◌+◌, ◌^◌, ◌≤◌, ◌<◌, ◌≡◌, refl, sym, ap, ◌∙◌, ℤ, pos, to_int-sum, eq_ℤ_iff, Text, none, some,
  List, [], ◌∷◌, ◌++◌, map, length, arith,
}
use mathlib.Core.List.{append_assoc, append-nil}
use nest_disk.Packet.{FileContentRs, FileHeaderRs, FileInfo, Packet, file_content_rq, def_buffer}
use nest_disk.MyMap.{find, insert, erase, find-insert, find-erase}
use nest_disk.Env.{Sys, Server, Trace, ok, returned, fetched, closed, sent}
use nest_disk.Env.Views.{packets, statements}
use nest_disk.Logic.{session_key}
use nest_disk.Logic.Download.{chunk, download_file_head_rs, file_content_rs, next_chunk, after_read}

-- From this trace on, with only packets sent in between, the reads of a descriptor give these blocks,
-- one for each call, and then the end of the file.
abbrev pub ReadsFrom : Sys → ℤ → List Text → Trace → Type 0
ReadsFrom sys file_fd [] t = sys.read_file (fetched file_fd def_buffer ∷ t) ≡ (pos 0, [])
ReadsFrom sys file_fd (b ∷ bs) t =
    (sys.read_file (fetched file_fd def_buffer ∷ t) ≡ (pos (length b), b))
    × ((fd : ℤ) (p : Packet)
        → ReadsFrom sys file_fd bs (sent fd p ∷ fetched file_fd def_buffer ∷ t))

-- No block is empty, and none is larger than a chunk.
abbrev pub AllBlocks : List Text → Type 0
AllBlocks [] = Unit {0}
AllBlocks (b ∷ bs) = ((0 < length b) × (length b ≤ def_buffer)) × AllBlocks bs

abbrev pub size_of : List Text → ℕ
size_of [] = 0
size_of (b ∷ bs) = length b + size_of bs

-- The client's answer to a block that it has stored.
abbrev pub stored_block : FileHeaderRs → Text → FileContentRs
stored_block rs b = record {
  timestamp = rs.timestamp;
  userid = rs.userid;
  fileid = rs.fileid;
  result = pos 1;
  len = pos (length b);
}

pub answer : FileHeaderRs → ℤ → List Text → Sys → Server → Server
answer rs fd [] sys s = s
answer rs fd (b ∷ bs) sys s = answer rs fd bs sys (file_content_rs (stored_block rs b) fd sys s).1

-- The packet of a block, and the packets of all blocks.
abbrev pub block_packet : FileHeaderRs → Text → Packet
block_packet rs b = file_content_rq (chunk rs.timestamp rs.userid rs.fileid b (pos (length b)))

abbrev pub block_packets : FileHeaderRs → ℤ → List Text → List (ℤ × Packet)
block_packets rs fd = map λ b. (fd, block_packet rs b)

abbrev moved : FileInfo → ℕ → FileInfo
moved file p = record file { pos = pos p }

abbrev pub key_of : FileHeaderRs → ℤ
key_of rs = session_key rs.userid rs.timestamp

-- The server after an acknowledgement, if another block follows, and if it was the last.
abbrev going_on : FileHeaderRs → ℤ → FileInfo → ℕ → Text → Server → Server
going_on rs fd file p b s = record {
  users = s.users;
  files = insert (key_of rs) (moved file p) s.files;
  trace = sent fd (block_packet rs b) ∷ fetched file.file_fd def_buffer ∷ s.trace;
}

abbrev finished : FileHeaderRs → FileInfo → ℕ → Server → Server
finished rs file p s = record {
  users = s.users;
  files = erase (key_of rs) (insert (key_of rs) (moved file p) s.files);
  trace = closed file.file_fd ∷ fetched file.file_fd def_buffer ∷ s.trace;
}

module _ (rs : FileHeaderRs) (fd : ℤ) (b : Text) (file : FileInfo) (p z : ℕ) (sys : Sys)
    (s : Server) (e : find (key_of rs) s.files ≡ some file) (at : file.pos ≡ pos p)
    (size : file.size ≡ pos z) (small : p + length b < 2 ^ 31) where
  file_content_rs-next :
      file_content_rs (stored_block rs b) fd sys s
      ≡ next_chunk (stored_block rs b) fd (key_of rs) file sys s
  unfolding file_content_rs
  file_content_rs-next = rw (e, file_content_rs) refl

  step-going_on :
      (c : Text)
      → p + length b < z
      → sys.read_file (fetched file.file_fd def_buffer ∷ s.trace) ≡ (pos (length c), c)
      → file_content_rs (stored_block rs b) fd sys s
        ≡ (ok tt, going_on rs fd file (p + length b) c s)
  unfolding next_chunk after_read
  step-going_on c more read =
      file_content_rs-next
      ∙ rw (to_int-sum file.pos (pos (length b)) p (length b) at refl small, read) (ground arith)

  step-last :
      z ≤ p + length b
      → sys.read_file (fetched file.file_fd def_buffer ∷ s.trace) ≡ (pos 0, [])
      → file_content_rs (stored_block rs b) fd sys s ≡ (returned, finished rs file (p + length b) s)
  unfolding next_chunk after_read
  step-last last read =
      file_content_rs-next
      ∙ rw (to_int-sum file.pos (pos (length b)) p (length b) at refl small, read) (ground arith)

-- What the answers to a sent block and to those that follow it leave behind.
abbrev pub Answered : FileHeaderRs → ℤ → List Text → Server → Server → Type 0
Answered rs fd bs s s' =
    (find (key_of rs) s'.files ≡ none)
    × (packets s'.trace ≡ packets s.trace ++ block_packets rs fd bs)
    × (statements s'.trace ≡ statements s.trace)

views-going_on :
    (rs : FileHeaderRs) (fd : ℤ) (file : FileInfo) (p : ℕ) (b : Text) (s : Server)
    → (find (key_of rs) (going_on rs fd file p b s).files ≡ some (moved file p))
      × (packets (going_on rs fd file p b s).trace
          ≡ packets s.trace ++ ((fd, block_packet rs b) ∷ []))
      × (statements (going_on rs fd file p b s).trace ≡ statements s.trace)
unfolding packets statements
views-going_on rs fd file p b s = (
  find-insert (key_of rs) (key_of rs) (moved file p) s.files
      ∙ rw ((eq_ℤ_iff (key_of rs) (key_of rs)).1 refl),
  refl,
  refl,
)

views-finished :
    (rs : FileHeaderRs) (fd : ℤ) (file : FileInfo) (p : ℕ) (s : Server)
    → Answered rs fd [] s (finished rs file p s)
unfolding packets statements
views-finished rs fd file p s = (
  find-erase (key_of rs) (key_of rs) (insert (key_of rs) (moved file p) s.files)
      ∙ rw ((eq_ℤ_iff (key_of rs) (key_of rs)).1 refl),
  sym (append-nil (packets s.trace)),
  refl,
)

pub answer_all :
    (rs : FileHeaderRs) (fd : ℤ) (b : Text) (bs : List Text) (file : FileInfo) (p z : ℕ) (sys : Sys)
    (s : Server)
    → find (key_of rs) s.files ≡ some file
    → file.pos ≡ pos p
    → file.size ≡ pos z
    → ReadsFrom sys file.file_fd bs s.trace
    → AllBlocks bs
    → p + size_of (b ∷ bs) ≡ z
    → z < 2 ^ 31
    → Answered rs fd bs s (answer rs fd (b ∷ bs) sys s)
unfolding answer
answer_all rs fd b [] file p z sys s e at size read all full small =
    rw (answer, step-last rs fd b file p z sys s e at size (omega arith) (omega arith) read)
      (views-finished rs fd file (p + length b) s)
answer_all rs fd b (b' ∷ bs) file p z sys s e at size read all full small =
    let q = p + length b in
    let v = views-going_on rs fd file q b' s in
    let h =
      answer_all rs fd b' bs (moved file q) q z sys (going_on rs fd file q b' s) v.0 refl size
        (read.1 fd (block_packet rs b')) all.1 (omega arith) small in
    rw
      (
        answer,
        step-going_on rs fd b file p z sys s e at size (omega arith) b' (omega (arith, all.0.0))
            read.0,
      )
      (
        h.0,
        h.1
            ∙ ap (λ (l : List (ℤ × Packet)). l ++ block_packets rs fd bs) v.1
            ∙ append_assoc (packets s.trace) ((fd, block_packet rs b') ∷ [])
                (block_packets rs fd bs),
        h.2 ∙ v.2,
      )

head-going :
    (rs : FileHeaderRs) (fd : ℤ) (b : Text) (file : FileInfo) (sys : Sys) (s : Server)
    → find (key_of rs) s.files ≡ some file
    → sys.read_file (fetched file.file_fd def_buffer ∷ s.trace) ≡ (pos (length b), b)
    → download_file_head_rs rs fd sys s ≡ (
      ok tt,
      record s { trace = sent fd (block_packet rs b) ∷ fetched file.file_fd def_buffer ∷ s.trace },
    )
unfolding download_file_head_rs
head-going rs fd b file sys s e read = rw (e, download_file_head_rs, read) (ground arith)

-- A file of fewer than 2 ^ 31 bytes whose descriptor gives it in blocks of 1 to 4096 bytes, one for
-- each `read`, and then nothing: when the client has taken the header, and acknowledges each chunk that
-- it gets, then the packets that go out to it are the blocks, each once and in order, with their
-- lengths; no statement is executed, and after the last acknowledgement the session is gone from the map.
pub download_complete :
    (rs : FileHeaderRs) (fd : ℤ) (b : Text) (bs : List Text) (file : FileInfo) (z : ℕ) (sys : Sys)
    (s : Server)
    → find (session_key rs.userid rs.timestamp) s.files ≡ some file
    → file.pos ≡ pos 0
    → file.size ≡ pos z
    → ReadsFrom sys file.file_fd (b ∷ bs) s.trace
    → AllBlocks (b ∷ bs)
    → size_of (b ∷ bs) ≡ z
    → z < 2 ^ 31
    → let s' = answer rs fd (b ∷ bs) sys (download_file_head_rs rs fd sys s).1 in
      (find (session_key rs.userid rs.timestamp) s'.files ≡ none)
      × (packets s'.trace ≡ packets s.trace ++ block_packets rs fd (b ∷ bs))
      × (statements s'.trace ≡ statements s.trace)
unfolding packets statements
download_complete rs fd b bs file z sys s e at size read all full small =
    let s1 = record s {
      trace = sent fd (block_packet rs b) ∷ fetched file.file_fd def_buffer ∷ s.trace;
    } in
    let h =
      answer_all rs fd b bs file 0 z sys s1 e at size (read.1 fd (block_packet rs b)) all.1
        (omega arith) small in
    rw (head-going rs fd b file sys s e read.0) (
      h.0,
      h.1 ∙ append_assoc (packets s.trace) ((fd, block_packet rs b) ∷ []) (block_packets rs fd bs),
      h.2,
    )
