-- ===== src/Logic/Tests/Sharing.antt =====
-- Sharing two files: with a link that is free, and with one that is in use.
use nest_disk.Base.{◌≡◌, refl, pos, true, some, [], ◌∷◌, take, format, arith}
use nest_disk.Packet.{ShareFileRq, share_file_rs}
use nest_disk.Env.{Sys, Server, ok, spent, queried, sent}
use nest_disk.Mysql.{push_columns, push_rows, select_mysql}
use nest_disk.Logic.Share.{select_link, share_file}
use nest_disk.Logic.Share.Links.{next_link, drawn_twice, first_look}
use nest_disk.Logic.Share.Reply.{linked, share_file_lem, share_file-never_ends}
use nest_disk.Logic.Tests.{fresh_server, answers}

abbrev two_files : ShareFileRq
two_files = record {
  userid = pos 42;
  dir = 47 ∷ [];
  share_time = 49 ∷ [];
  item_count = pos 2;
  fileid_array = pos 9 ∷ pos 11 ∷ [];
}

-- The server after the look-up of the first link.
abbrev looked : Sys → Server
looked sys = record (drawn_twice fresh_server) {
  trace =
      queried (format (select_link (next_link sys fresh_server)))
      ∷ (drawn_twice fresh_server).trace;
}

free : first_look (answers []) fresh_server ≡ (ok (true, []), looked (answers []))
unfolding select_mysql push_rows
free = refl

share_file_lem_example : share_file 1 two_files (pos 7) (answers []) fresh_server ≡ (
  ok tt,
  record (looked (answers [])) {
    trace =
        sent (pos 7) (share_file_rs (record { result = pos 1 }))
        ∷ linked two_files
            (next_link (answers []) fresh_server)
            (take 2 two_files.fileid_array)
            (looked (answers [])).trace;
  },
)
share_file_lem_example =
    share_file_lem 0 two_files (pos 7) (answers []) fresh_server (looked (answers []))
      (omega arith, omega arith) (λ t. refl) (omega arith) free

-- Every look-up gives a row.
abbrev one_row : Sys
one_row = answers ((some (49 ∷ []) ∷ []) ∷ [])

taken : first_look one_row fresh_server ≡ (ok (true, (49 ∷ []) ∷ []), looked one_row)
unfolding select_mysql push_rows push_columns
taken = refl

share_file-never_ends_example : (share_file 1000 two_files (pos 7) one_row fresh_server).0 ≡ spent
share_file-never_ends_example =
    share_file-never_ends 1000 two_files (pos 7) one_row fresh_server (looked one_row) (49 ∷ []) []
      (λ t. refl) (λ t. (((49 ∷ []) ∷ []) ∷ [], refl, (refl, tt))) taken
