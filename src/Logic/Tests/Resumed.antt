-- ===== src/Logic/Tests/Resumed.antt =====
-- A download that goes on at its fourth byte, and an upload, with nothing in the map.
use nest_disk.Base.{◌≡◌, refl, pos, ℤ, Text, none, some, [], ◌∷◌, ◌++◌, map, arith}
use nest_disk.Packet.{ContinueDownloadRq, ContinueUploadRq, FileContentRq}
use nest_disk.MyMap.{find}
use nest_disk.Env.{Sys, Trace}
use nest_disk.Env.Views.{packets, statements}
use nest_disk.Logic.{session_key}
use nest_disk.Logic.Download.Whole.{answer, block_packets}
use nest_disk.Logic.Resume.{continue_download}
use nest_disk.Logic.Resume.Lost.{Stored, look_up, row_of}
use nest_disk.Logic.Resume.Whole.{client_of, continue_download_complete}
use nest_disk.Logic.Tests.{fresh_server, answers}
use nest_disk.Logic.Tests.Transfers.{zeros}

abbrev goes_on : ContinueDownloadRq
goes_on = record {
  userid = pos 42;
  timestamp = pos 1200;
  fileid = pos 9;
  pos = pos 3;
  dir = b'/' ∷ [];
}

abbrev known : Stored
known = record {
  name = b'a' ∷ [];
  size = 4;
  time = b'9' ∷ [];
  md5 = b'm' ∷ [];
  type = b'f' ∷ [];
  path = b'/' ∷ b'm' ∷ [];
}

-- The last byte at the first `read`.
abbrev read_by : Trace → ℤ × Text
read_by (c ∷ d ∷ e ∷ f ∷ []) = (pos 1, 4 ∷ [])
read_by _ = (pos 0, [])

abbrev at_end : Sys
at_end = record (answers (map (map some) (row_of known ∷ []))) { read_file = read_by }

nothing_runs : find (pos 1200) fresh_server.files ≡ none
unfolding find
nothing_runs = refl

continue_download_complete_example :
    let s' =
      answer
        (client_of goes_on)
        (pos 7)
        ((4 ∷ []) ∷ [])
        at_end
        (continue_download goes_on (pos 7) at_end fresh_server).1 in
    (find (session_key (pos 42) (pos 1200)) s'.files ≡ none)
    × (packets s'.trace
        ≡ packets fresh_server.trace ++ block_packets (client_of goes_on) (pos 7) ((4 ∷ []) ∷ []))
    × (statements s'.trace
        ≡ statements fresh_server.trace ++ (look_up (pos 42) (pos 9) goes_on.dir ∷ []))
continue_download_complete_example =
    continue_download_complete goes_on (pos 7) known (4 ∷ []) [] 4 3 at_end fresh_server (λ t. refl)
      nothing_runs (omega arith) (omega arith) refl refl refl (refl, λ fd p. refl)
      ((omega arith, omega arith), tt) refl

abbrev sends_on : ContinueUploadRq
sends_on = record { userid = pos 42; timestamp = pos 1200; fileid = pos 9; dir = b'/' ∷ [] }

abbrev last_chunk : FileContentRq
last_chunk = record {
  timestamp = pos 1200;
  userid = pos 42;
  fileid = pos 9;
  content = zeros 4096;
  len = pos 1;
}

-- The file ends behind its third byte.
abbrev at_third : Sys
at_third = record (answers (map (map some) (row_of known ∷ []))) { seek_file = λ t. pos 3 }
