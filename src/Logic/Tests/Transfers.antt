-- ===== src/Logic/Tests/Transfers.antt =====
-- An upload of 4099 bytes in two chunks, and the keys of transfers.
use nest_disk.Base.{
  ◌⊎◌, some, ℕ, zero, suc, ap, ◌≢◌, ◌+◌, ◌+ℤ◌, ◌<◌, ◌≡◌, refl, ℤ, pos, InInt, Text, none, some,
  List, [], ◌∷◌, length, arith,
}
use nest_disk.Packet.{FileContentRq, FileInfo}
use nest_disk.MyMap.{find}
use nest_disk.Env.{Server, ok}
use nest_disk.Logic.{session_key}
use nest_disk.Logic.FolderDownload.{fresh_timestamp}
use nest_disk.Logic.FolderDownload.Fresh.{FirstFree, fresh_timestamp-free}
use nest_disk.Logic.Upload.{file_content_rq}
use nest_disk.Logic.Upload.Guard.{write_answer, file_content_rq-guarded}
use nest_disk.Logic.Upload.Chunks.{WritesAll}
use nest_disk.Logic.Upload.Whole.{InSession, Uploaded, run, upload_complete}
use nest_disk.Logic.Tests.{fresh_server, answers}

pub zeros : ℕ → Text
zeros zero = []
zeros (suc n) = 0 ∷ zeros n

pub length-zeros : (n : ℕ) → length (zeros n) ≡ n
unfolding zeros
length-zeros zero = refl
length-zeros (suc n) = ap suc (length-zeros n)

abbrev chunk : ℕ → FileContentRq
chunk n = record {
  timestamp = pos 1200;
  userid = pos 42;
  fileid = pos 9;
  content = zeros 4096;
  len = pos n;
}

abbrev half_done : FileInfo
half_done = record {
  fid = pos 9;
  name = 97 ∷ [];
  dir = 47 ∷ [];
  time = [];
  size = pos 4103;
  md5 = 99 ∷ [];
  type = [];
  absolute_path = 47 ∷ 99 ∷ [];
  pos = pos 4;
  file_fd = pos 5;
}

abbrev uploading : Server
uploading = record fresh_server { files = (session_key (pos 42) (pos 1200), half_done) ∷ [] }

uploading-find : find (session_key (pos 42) (pos 1200)) uploading.files ≡ some half_done
unfolding find session_key nest_disk.Base.to_int nest_disk.Logic.user_time nest_disk.Base.◌+ℤ◌
    nest_disk.Base.◌*ℤ◌
uploading-find = refl

answers-WritesAll : WritesAll (answers [])
answers-WritesAll t fd b = refl

abbrev pub two_chunks : List FileContentRq
two_chunks = chunk 4096 ∷ chunk 3 ∷ []

pub two_chunks-InSession : InSession (pos 42) (pos 1200) (pos 9) two_chunks
two_chunks-InSession = (
  (refl, refl, refl, (refl, omega arith, omega arith, length-zeros 4096)),
  ((refl, refl, refl, (refl, omega arith, omega arith, length-zeros 4096)), tt),
)

upload_complete_example :
    Uploaded
      (pos 42)
      (pos 1200)
      (pos 9)
      (pos 7)
      half_done
      two_chunks
      uploading
      (run two_chunks (pos 7) (answers []) uploading)
upload_complete_example =
    upload_complete (pos 42) (pos 1200) (pos 9) (pos 7) two_chunks half_done 4 4103 (answers [])
      uploading uploading-find refl refl two_chunks-InSession answers-WritesAll (omega arith)
      (omega arith) (omega arith)

file_content_rq-guarded_example :
    ((file_content_rq (chunk 3) (pos 7) (answers []) uploading).1.files ≡ uploading.files)
    ⊎ ((file : FileInfo) × (find (session_key (pos 42) (pos 1200)) uploading.files ≡ some file)
        × (write_answer (chunk 3) file (answers []) uploading ≡ pos 3))
file_content_rq-guarded_example = file_content_rq-guarded (chunk 3) (pos 7) (answers []) uploading

-- The next timestamp of a user whose transfer at 1200 is in progress.
fresh_timestamp-free_example :
    (k : ℕ) × (k < 2)
    × (fresh_timestamp 2 (pos 42) (pos 1200) (answers []) uploading
        ≡ (ok (pos 1200 +ℤ pos k), uploading))
    × FirstFree (pos 42) (pos 1200) uploading.files k
unfolding nest_disk.Base.◌+ℤ◌
fresh_timestamp-free_example =
    fresh_timestamp-free 2 (pos 42) (pos 1200) (answers []) uploading (omega arith)
      (omega arith, omega arith) (omega arith, omega arith)
