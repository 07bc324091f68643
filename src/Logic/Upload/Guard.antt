-- ===== src/Logic/Upload/Guard.antt =====
-- When a chunk changes the transfers.
use nest_disk.Base.{
  ◌≡◌, refl, ◌⊎◌, inl, inr, ℤ, pos, pos_part, leb_ℤ, ltb, eq_ℤ, eq_ℤ_iff, Bool-cases, Option-cases,
  some, ◌∷◌, take,
}
use nest_disk.Packet.{FileContentRq, FileInfo, def_buffer}
use nest_disk.MyMap.{find}
use nest_disk.Env.{Sys, Server, wrote}
use nest_disk.Logic.{session_key}
use nest_disk.Logic.Upload.{on_chunk, write_chunk, file_content_rq}

-- The answer to the `write` of a chunk.
abbrev pub write_answer : FileContentRq → FileInfo → Sys → Server → ℤ
write_answer rq file sys s =
    sys.write_file (wrote file.file_fd (take (pos_part rq.len) rq.content) ∷ s.trace)

on_chunk-guarded :
    (rq : FileContentRq) (fd key : ℤ) (file : FileInfo) (sys : Sys) (s : Server)
    → ((on_chunk rq fd key file sys s).1.files ≡ s.files) ⊎ (write_answer rq file sys s ≡ rq.len)
unfolding on_chunk write_chunk
on_chunk-guarded rq fd key file sys s = elim (Bool-cases (ltb def_buffer (pos_part rq.len))) [
  | inl long ↦ inl (rw (on_chunk, long) refl)
  | inr fits ↦ elim (Bool-cases (eq_ℤ (write_answer rq file sys s) rq.len)) [
    | inl whole ↦ inr ((eq_ℤ_iff (write_answer rq file sys s) rq.len).0 whole)
    | inr part ↦ inl (rw (on_chunk, fits, part) refl)
  ]
]

-- Whatever the system answers, a chunk changes the transfers only if its session is known and the
-- `write` of its bytes took exactly the announced number of them.
pub file_content_rq-guarded :
    (rq : FileContentRq) (fd : ℤ) (sys : Sys) (s : Server)
    → ((file_content_rq rq fd sys s).1.files ≡ s.files)
      ⊎ ((file : FileInfo) × (find (session_key rq.userid rq.timestamp) s.files ≡ some file)
          × (write_answer rq file sys s ≡ rq.len))
unfolding file_content_rq
file_content_rq-guarded rq fd sys s =
    elim (Option-cases (find (session_key rq.userid rq.timestamp) s.files)) [
      | inl unknown ↦ inl (rw (unknown, file_content_rq) refl)
      | inr (file, known) ↦ elim (Bool-cases (leb_ℤ rq.len (pos 0))) [
        | inl empty ↦ inl (rw (known, file_content_rq, empty) refl)
        | inr some_bytes ↦
            elim (on_chunk-guarded rq fd (session_key rq.userid rq.timestamp) file sys s) [
              | inl kept ↦ inl (rw (known, file_content_rq, some_bytes) kept)
              | inr whole ↦ inr (file, known, whole)
            ]
      ]
    ]
