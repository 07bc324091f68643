-- ===== src/Logic/Lists/Isolation.antt =====
-- src/clogic.cpp: what the pieces of the handlers in Lists send, and to whom.
use nest_disk.Base.{ℕ, zero, suc, ℤ, Text, List, [], ◌∷◌}
use nest_disk.Packet.{def_pack_file_list_rs, def_pack_my_share_rs, GetFileRq, MyShareRq}
use nest_disk.Env.Isolation.{Allowed, to, OnlyTo}
use nest_disk.Env.Pieces.{pieces}
use nest_disk.Logic.Lists.{
  read_entry, read_entries, get_file_list, read_share, read_shares, get_share_list,
}

pub read_entry-OnlyTo : (allowed : Allowed) (l0 : List Text) → OnlyTo allowed (read_entry l0)
unfolding read_entry
read_entry-OnlyTo allowed l0 = search pieces depth 30

pub read_entries-OnlyTo :
    (allowed : Allowed) (n : ℕ) (l : List Text) → OnlyTo allowed (read_entries n l)
unfolding read_entries
read_entries-OnlyTo allowed zero l = search (pieces, read_entry-OnlyTo) depth 30
read_entries-OnlyTo allowed (suc n) l =
    let ih = read_entries-OnlyTo allowed n in search (pieces, read_entry-OnlyTo) depth 30

pub get_file_list-OnlyTo :
    (fd : ℤ) (rq : GetFileRq) → OnlyTo (to fd (def_pack_file_list_rs ∷ [])) (get_file_list rq fd)
unfolding get_file_list
get_file_list-OnlyTo fd rq = search (pieces, read_entries-OnlyTo) depth 30

pub read_share-OnlyTo : (allowed : Allowed) (l0 : List Text) → OnlyTo allowed (read_share l0)
unfolding read_share
read_share-OnlyTo allowed l0 = search pieces depth 30

pub read_shares-OnlyTo :
    (allowed : Allowed) (n : ℕ) (l : List Text) → OnlyTo allowed (read_shares n l)
unfolding read_shares
read_shares-OnlyTo allowed zero l = search (pieces, read_share-OnlyTo) depth 30
read_shares-OnlyTo allowed (suc n) l =
    let ih = read_shares-OnlyTo allowed n in search (pieces, read_share-OnlyTo) depth 30

pub get_share_list-OnlyTo :
    (fd : ℤ) (rq : MyShareRq) → OnlyTo (to fd (def_pack_my_share_rs ∷ [])) (get_share_list rq fd)
unfolding get_share_list
get_share_list-OnlyTo fd rq = search (pieces, read_shares-OnlyTo) depth 30
