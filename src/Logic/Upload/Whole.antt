-- ===== src/Logic/Upload/Whole.antt =====
-- A whole upload: the chunks of one session, one after the other.
use nest_disk.Base.{
  ℕ, ◌+◌, ◌^◌, ◌≤◌, ◌<◌, ◌≡◌, refl, sym, ap, ◌∙◌, ℤ, pos, pos_part, eq_ℤ_iff, Text, none, some,
  List, [], ◌∷◌, ◌++◌, map, take, format, arith,
}
use mathlib.Core.List.{append_assoc, append-nil}
use nest_disk.Packet.{FileContentRq, FileInfo, Packet}
use nest_disk.MyMap.{find, insert, find-insert, find-erase}
use nest_disk.Env.{Sys, Server, ok}
use nest_disk.Env.Views.{written, packets, statements}
use nest_disk.Logic.{session_key}
use nest_disk.Logic.Upload.{file_content_rq, on_chunk, set_state_done}
use nest_disk.Logic.Upload.Chunks.{
  IsChunk, WritesAll, moved, chunk_ack, going_on, finished, on_chunk-going_on, on_chunk-last,
}

-- Chunks of one session, each for the same file.
abbrev pub InSession : ℤ → ℤ → ℤ → List FileContentRq → Type 0
InSession u t f [] = Unit {0}
InSession u t f (rq ∷ rqs) =
    ((rq.userid ≡ u) × (rq.timestamp ≡ t) × (rq.fileid ≡ f) × IsChunk rq (pos_part rq.len))
    × InSession u t f rqs

abbrev pub total : List FileContentRq → ℕ
total [] = 0
total (rq ∷ rqs) = pos_part rq.len + total rqs

-- The bytes that the chunks carry.
abbrev pub bytes : List FileContentRq → Text
bytes [] = []
bytes (rq ∷ rqs) = take (pos_part rq.len) rq.content ++ bytes rqs

abbrev pub acks : ℤ → List FileContentRq → List (ℤ × Packet)
acks fd = map λ rq. (fd, chunk_ack rq)

pub run : List FileContentRq → ℤ → Sys → Server → Server
run [] fd sys s = s
run (rq ∷ rqs) fd sys s = run rqs fd sys (file_content_rq rq fd sys s).1

file_content_rq-found :
    (rq : FileContentRq) (fd : ℤ) (file : FileInfo) (n : ℕ) (sys : Sys) (s : Server)
    → find (session_key rq.userid rq.timestamp) s.files ≡ some file
    → rq.len ≡ pos n
    → 0 < n
    → file_content_rq rq fd sys s ≡ on_chunk rq fd (session_key rq.userid rq.timestamp) file sys s
unfolding file_content_rq
file_content_rq-found rq fd file n sys s e l h = ground arith

-- What the trace of a chunk adds to each view of it.
written-going_on :
    (rq : FileContentRq) (fd key : ℤ) (file : FileInfo) (p n : ℕ) (s : Server)
    → (written file.file_fd (going_on rq fd key file p n s).trace
        ≡ written file.file_fd s.trace ++ take n rq.content)
      × (packets (going_on rq fd key file p n s).trace
          ≡ packets s.trace ++ ((fd, chunk_ack rq) ∷ []))
      × (statements (going_on rq fd key file p n s).trace ≡ statements s.trace)
unfolding written packets statements
written-going_on rq fd key file p n s =
    (rw ((eq_ℤ_iff file.file_fd file.file_fd).1 refl), refl, refl)

written-finished :
    (rq : FileContentRq) (fd key : ℤ) (file : FileInfo) (p n : ℕ) (s : Server)
    → (written file.file_fd (finished rq fd key file p n s).trace
        ≡ written file.file_fd s.trace ++ take n rq.content)
      × (packets (finished rq fd key file p n s).trace
          ≡ packets s.trace ++ ((fd, chunk_ack rq) ∷ []))
      × (statements (finished rq fd key file p n s).trace
          ≡ statements s.trace ++ (format (set_state_done rq.fileid) ∷ []))
      × (find key (finished rq fd key file p n s).files ≡ none)
unfolding written packets statements
written-finished rq fd key file p n s = (
  rw ((eq_ℤ_iff file.file_fd file.file_fd).1 refl),
  refl,
  refl,
  find-erase key key (insert key (moved file (p + n)) s.files) ∙ rw ((eq_ℤ_iff key key).1 refl),
)

find-going_on :
    (rq : FileContentRq) (fd key : ℤ) (file : FileInfo) (p n : ℕ) (s : Server)
    → find key (going_on rq fd key file p n s).files ≡ some (moved file (p + n))
find-going_on rq fd key file p n s =
    find-insert key key (moved file (p + n)) s.files ∙ rw ((eq_ℤ_iff key key).1 refl)

module _ (u t fd : ℤ) (rq : FileContentRq) (file : FileInfo) (p z : ℕ) (sys : Sys) (s : Server)
    (e : find (session_key u t) s.files ≡ some file) (user : rq.userid ≡ u)
    (time : rq.timestamp ≡ t) (at : file.pos ≡ pos p) (size : file.size ≡ pos z)
    (c : IsChunk rq (pos_part rq.len)) (w : WritesAll sys)
    (small : p + pos_part rq.len < 2 ^ 31) where
  same_key : session_key rq.userid rq.timestamp ≡ session_key u t
  same_key = rw (user, time)

  step-going_on :
      p + pos_part rq.len < z
      → file_content_rq rq fd sys s
        ≡ (ok tt, going_on rq fd (session_key u t) file p (pos_part rq.len) s)
  step-going_on more =
      file_content_rq-found rq fd file (pos_part rq.len) sys s (rw same_key e) c.0 c.1
      ∙ rw same_key (
          on_chunk-going_on rq fd (session_key u t) file p (pos_part rq.len) z sys s at size c w
            small more)

  step-last :
      z ≤ p + pos_part rq.len
      → file_content_rq rq fd sys s
        ≡ (ok tt, finished rq fd (session_key u t) file p (pos_part rq.len) s)
  step-last last =
      file_content_rq-found rq fd file (pos_part rq.len) sys s (rw same_key e) c.0 c.1
      ∙ rw same_key (
          on_chunk-last rq fd (session_key u t) file p (pos_part rq.len) z sys s at size c w small
            last)

-- What holds of the server `s'` after the chunks of a complete upload.
abbrev pub Uploaded : ℤ → ℤ → ℤ → ℤ → FileInfo → List FileContentRq → Server → Server → Type 0
Uploaded u t f fd file rqs s s' =
    (find (session_key u t) s'.files ≡ none)
    × (written file.file_fd s'.trace ≡ written file.file_fd s.trace ++ bytes rqs)
    × (packets s'.trace ≡ packets s.trace ++ acks fd rqs)
    × (statements s'.trace ≡ statements s.trace ++ (format (set_state_done f) ∷ []))

-- If every write takes all its bytes, the chunks of one session that bring a known upload exactly to
-- its size (each of 1 to 4096 bytes, the size below 2 ^ 31) are all written to the file, in order and
-- nothing else with them; each is acknowledged with success, in order; the file is marked complete in
-- the database once, at the end, and its session is gone from the map.
pub upload_complete :
    (u t f fd : ℤ) (rqs : List FileContentRq) (file : FileInfo) (p z : ℕ) (sys : Sys) (s : Server)
    → find (session_key u t) s.files ≡ some file
    → file.pos ≡ pos p
    → file.size ≡ pos z
    → InSession u t f rqs
    → WritesAll sys
    → p < z
    → p + total rqs ≡ z
    → z < 2 ^ 31
    → Uploaded u t f fd file rqs s (run rqs fd sys s)
unfolding run
upload_complete u t f fd [] file p z sys s e at size c w room full small = absurd (omega arith)
upload_complete u t f fd (rq ∷ []) file p z sys s e at size c w room full small =
    let n = pos_part rq.len in
    let v = written-finished rq fd (session_key u t) file p n s in
    rw
      (
        run,
        step-last u t fd rq file p z sys s e c.0.0 c.0.1 at size c.0.3 w (omega arith)
            (omega arith),
      )
      (
        v.3,
        v.0
            ∙ ap (λ (b : Text). written file.file_fd s.trace ++ b)
                (sym (append-nil (take n rq.content))),
        v.1,
        v.2 ∙ ap (λ (g : ℤ). statements s.trace ++ (format (set_state_done g) ∷ [])) c.0.2,
      )
upload_complete u t f fd (rq ∷ rq' ∷ rqs) file p z sys s e at size c w room full small =
    let n = pos_part rq.len in
    let s1 = going_on rq fd (session_key u t) file p n s in
    let v = written-going_on rq fd (session_key u t) file p n s in
    let h =
      upload_complete u t f fd (rq' ∷ rqs) (moved file (p + n)) (p + n) z sys s1
        (find-going_on rq fd (session_key u t) file p n s) refl size c.1 w (omega arith)
        (omega arith) small in
    rw
      (
        run,
        step-going_on u t fd rq file p z sys s e c.0.0 c.0.1 at size c.0.3 w (omega arith)
            (omega arith),
      )
      (
        h.0,
        h.1
            ∙ ap (λ (b : Text). b ++ bytes (rq' ∷ rqs)) v.0
            ∙ append_assoc (written file.file_fd s.trace) (take n rq.content) (bytes (rq' ∷ rqs)),
        h.2
            ∙ ap (λ (b : List (ℤ × Packet)). b ++ acks fd (rq' ∷ rqs)) v.1
            ∙ append_assoc (packets s.trace) ((fd, chunk_ack rq) ∷ []) (acks fd (rq' ∷ rqs)),
        h.3 ∙ ap (λ (b : List Text). b ++ (format (set_state_done f) ∷ [])) v.2,
      )
