-- ===== src/Logic/Tests/Uploads.antt =====
-- An upload of 4099 bytes from its request to its last chunk.
use nest_disk.Base.{◌≡◌, refl, pos, none, some, Option, List, [], ◌∷◌, ◌++◌, format, arith}
use nest_disk.Packet.{UploadFileRq}
use nest_disk.MyMap.{find}
use nest_disk.Env.{Sys, Trace, Row}
use nest_disk.Env.Views.{written, packets, statements}
use nest_disk.Logic.{session_key}
use nest_disk.Logic.Upload.{set_state_done, upload_file}
use nest_disk.Logic.Upload.Whole.{bytes, acks, run}
use nest_disk.Logic.Upload.Begun.{
  by_md5, new_row, by_path, relation, accepted, upload_file_complete,
}
use nest_disk.Logic.Tests.{fresh_server, answers}
use nest_disk.Logic.Tests.Folders.{nine_read}
use nest_disk.Logic.Tests.Transfers.{two_chunks, two_chunks-InSession}

abbrev announced : UploadFileRq
announced = record {
  timestamp = pos 1200;
  userid = pos 42;
  file_name = b'a' ∷ [];
  size = pos 4099;
  dir = b'/' ∷ [];
  md5 = b'c' ∷ [];
  file_type = b'f' ∷ [];
  time = b'1' ∷ [];
}

-- No row at first, then the number of the new one.
abbrev numbered_later : Trace → Option (List Row)
numbered_later (a ∷ []) = some []
numbered_later _ = some ((some (57 ∷ []) ∷ []) ∷ [])

abbrev accepts : Sys
accepts = record (answers []) { mysql_store_result = numbered_later }

upload_file_complete_example :
    let s' =
      run two_chunks (pos 7) accepts (upload_file announced (pos 7) accepts fresh_server).1 in
    (find (session_key (pos 42) (pos 1200)) s'.files ≡ none)
    × (written (pos 5) s'.trace ≡ written (pos 5) fresh_server.trace ++ bytes two_chunks)
    × (packets s'.trace
        ≡ packets fresh_server.trace
          ++ ((pos 7, accepted announced (pos 9)) ∷ acks (pos 7) two_chunks))
    × (statements s'.trace
        ≡ statements fresh_server.trace
          ++ (by_md5 announced
              ∷ new_row announced
              ∷ by_path announced
              ∷ relation announced (pos 9)
              ∷ format (set_state_done (pos 9))
              ∷ []))
upload_file_complete_example =
    upload_file_complete announced (pos 7) (pos 9) (57 ∷ []) two_chunks 5 4099 accepts fresh_server
      (λ t. refl) (λ t fd b. refl) (omega arith, omega arith, omega arith, omega arith, omega arith)
      refl (omega arith) (omega arith) refl refl nine_read refl two_chunks-InSession (omega arith)
