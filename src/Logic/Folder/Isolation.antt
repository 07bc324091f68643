-- ===== src/Logic/Folder/Isolation.antt =====
-- src/clogic.cpp: what the pieces of the handlers in Folder send, and to whom.
use nest_disk.Base.{ℤ, Text, List, [], ◌∷◌}
use nest_disk.Packet.{def_pack_add_folder_rs, AddFolderRq}
use nest_disk.Env.Isolation.{to, OnlyTo}
use nest_disk.Env.Pieces.{pieces}
use nest_disk.Logic.Folder.{make_folder, store_folder, look_up_folder, add_folder}

pub make_folder-OnlyTo :
    (fd : ℤ) (rq : AddFolderRq) (path : Text)
    → OnlyTo (to fd (def_pack_add_folder_rs ∷ [])) (make_folder rq fd path)
unfolding make_folder
make_folder-OnlyTo fd rq path = search pieces depth 30

pub store_folder-OnlyTo :
    (fd : ℤ) (rq : AddFolderRq) (path : Text) (lststr : List Text)
    → OnlyTo (to fd (def_pack_add_folder_rs ∷ [])) (store_folder rq fd path lststr)
unfolding store_folder
store_folder-OnlyTo fd rq path lststr = search (pieces, make_folder-OnlyTo) depth 30

pub look_up_folder-OnlyTo :
    (fd : ℤ) (rq : AddFolderRq) (path : Text)
    → OnlyTo (to fd (def_pack_add_folder_rs ∷ [])) (look_up_folder rq fd path)
unfolding look_up_folder
look_up_folder-OnlyTo fd rq path = search (pieces, store_folder-OnlyTo) depth 30

pub add_folder-OnlyTo :
    (fd : ℤ) (rq : AddFolderRq) → OnlyTo (to fd (def_pack_add_folder_rs ∷ [])) (add_folder rq fd)
unfolding add_folder
add_folder-OnlyTo fd rq = search (pieces, look_up_folder-OnlyTo) depth 30
