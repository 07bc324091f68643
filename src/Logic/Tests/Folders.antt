-- ===== src/Logic/Tests/Folders.antt =====
-- A folder that is made.
use nest_disk.Base.{◌≡◌, refl, inl, pos, some, [], ◌∷◌, stoi, arith}
use nest_disk.Packet.{AddFolderRq, add_folder_rs}
use nest_disk.Env.{Sys, ok, sent}
use nest_disk.Logic.Folder.{add_folder}
use nest_disk.Logic.Folder.Lookup.{created, add_folder_lem}
use nest_disk.Logic.Tests.{fresh_server, answers}

abbrev photos : AddFolderRq
photos = record {
  timestamp = pos 1200;
  userid = pos 42;
  file_name = 112 ∷ [];
  dir = 47 ∷ [];
  time = 49 ∷ [];
}

abbrev one_id : Sys
one_id = answers ((some (57 ∷ []) ∷ []) ∷ [])

pub nine_read : stoi (57 ∷ []) ≡ some (pos 9)
unfolding stoi
nine_read = refl

add_folder_lem_example : add_folder photos (pos 7) one_id fresh_server ≡ (
  ok tt,
  record fresh_server {
    trace =
        sent
          (pos 7)
          (add_folder_rs (record { result = pos 1; userid = pos 42; timestamp = pos 1200 }))
        ∷ created photos (pos 9) [];
  },
)
add_folder_lem_example =
    add_folder_lem photos (pos 7) (pos 9) (57 ∷ []) one_id fresh_server
      (omega arith, omega arith, omega arith) nine_read refl refl refl refl (inl refl)
