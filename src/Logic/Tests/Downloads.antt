-- ===== src/Logic/Tests/Downloads.antt =====
-- A download of four bytes in two reads, and a list of one file.
use nest_disk.Base.{
  ℕ, ◌+◌, ◌≡◌, refl, ℤ, pos, Text, none, some, List, [], ◌∷◌, ◌++◌, map, length, format, arith,
}
use nest_disk.Packet.{FileHeaderRs, FileInfo, FileEntry, GetFileRq, get_file_rs, UploadFileRq}
use nest_disk.MyMap.{find}
use nest_disk.Env.{Sys, Server, Trace, ok, sent, queried, overflow}
use nest_disk.Env.Rules.{Avoids}
use nest_disk.Env.Views.{packets, statements}
use nest_disk.Logic.{session_key}
use nest_disk.Logic.Download.{download_file_head_rs}
use nest_disk.Logic.Download.Whole.{ReadsFrom, AllBlocks, answer, block_packets, download_complete}
use nest_disk.Logic.Lists.{select_files, get_file_list}
use nest_disk.Logic.Lists.Entries.{row_of, get_file_list_lem}
use nest_disk.Logic.Upload.{upload_file}
use nest_disk.Logic.Upload.Buffers.{upload_file-Avoids}
use nest_disk.Logic.Tests.{fresh_server, answers}

abbrev header : FileHeaderRs
header = record { timestamp = pos 1200; userid = pos 42; fileid = pos 9; result = pos 1 }

abbrev blocks : List Text
blocks = (1 ∷ 2 ∷ 3 ∷ []) ∷ (4 ∷ []) ∷ []

abbrev opened_now : FileInfo
opened_now = record {
  fid = pos 9;
  name = 97 ∷ [];
  dir = 47 ∷ [];
  time = [];
  size = pos 4;
  md5 = 99 ∷ [];
  type = [];
  absolute_path = 47 ∷ 99 ∷ [];
  pos = pos 0;
  file_fd = pos 5;
}

abbrev downloading : Server
downloading = record fresh_server { files = (session_key (pos 42) (pos 1200), opened_now) ∷ [] }

-- One block for each read, by the length of the trace.
abbrev read_by : Trace → ℤ × Text
read_by (c ∷ []) = (pos 3, 1 ∷ 2 ∷ 3 ∷ [])
read_by (c ∷ d ∷ e ∷ []) = (pos 1, 4 ∷ [])
read_by _ = (pos 0, [])

abbrev reading : Sys
reading = record (answers []) { read_file = read_by }

downloading-find : find (session_key (pos 42) (pos 1200)) downloading.files ≡ some opened_now
unfolding find session_key nest_disk.Base.to_int nest_disk.Logic.user_time nest_disk.Base.◌+ℤ◌
    nest_disk.Base.◌*ℤ◌
downloading-find = refl

reading-ReadsFrom : ReadsFrom reading (pos 5) blocks []
reading-ReadsFrom = (refl, λ fd p. (refl, λ gd q. refl))

blocks-AllBlocks : AllBlocks blocks
blocks-AllBlocks = ((omega arith, omega arith), ((omega arith, omega arith), tt))

download_complete_example :
    let s' =
      answer header
        (pos 7)
        blocks
        reading
        (download_file_head_rs header (pos 7) reading downloading).1 in
    (find (session_key (pos 42) (pos 1200)) s'.files ≡ none)
    × (packets s'.trace ≡ packets downloading.trace ++ block_packets header (pos 7) blocks)
    × (statements s'.trace ≡ statements downloading.trace)
download_complete_example =
    download_complete header (pos 7) (1 ∷ 2 ∷ 3 ∷ []) ((4 ∷ []) ∷ []) opened_now 4 reading
      downloading downloading-find refl refl reading-ReadsFrom blocks-AllBlocks refl (omega arith)

abbrev entry : FileEntry
entry = record {
  fileid = pos 9;
  name = 97 ∷ [];
  time = 49 ∷ [];
  size = pos 4103;
  file_type = 102 ∷ [];
}

abbrev root_list : GetFileRq
root_list = record { userid = pos 42; dir = 47 ∷ [] }

get_file_list_lem_example :
    get_file_list root_list (pos 7) (answers (map row_of (entry ∷ []))) fresh_server ≡ (
      ok tt,
      record fresh_server {
        trace =
            sent (pos 7) (get_file_rs (record { dir = 47 ∷ []; count = 1; file_info = entry ∷ [] }))
            ∷ queried (format (select_files root_list))
            ∷ [];
      },
    )
get_file_list_lem_example =
    get_file_list_lem root_list (pos 7) (entry ∷ []) (answers (map row_of (entry ∷ [])))
      fresh_server (omega arith) refl refl
      ((omega arith, omega arith, omega arith, omega arith, omega arith), tt)

abbrev new_file_rq : UploadFileRq
new_file_rq = record {
  timestamp = pos 1200;
  userid = pos 42;
  file_name = 97 ∷ [];
  size = pos 4103;
  dir = 47 ∷ [];
  md5 = 99 ∷ [];
  file_type = 102 ∷ [];
  time = 49 ∷ [];
}

upload_file-Avoids_example : Avoids overflow (upload_file new_file_rq (pos 7))
upload_file-Avoids_example =
    upload_file-Avoids new_file_rq (pos 7)
      (omega arith, omega arith, omega arith, omega arith, omega arith)
