-- ===== src/Kernel.antt =====
-- src/TCPKernel.cpp: the protocol table and `DealData`; src/clogic.cpp: `setNetPackMap`.
pub mod Protocol
pub mod Open
mod Tests
use nest_disk.Base.{
  ℕ, zero, suc, ◌+◌, ◌-◌, ◌≤◌, ◌<◌, Text, Option, none, some, List, [], ◌∷◌, get_elem?, set, leb,
  ltb, length, take, ◌&&◌, if◌then◌else◌,
}
use nest_disk.Packet.{def_pack_base, def_pack_count}
use nest_disk.Net.Frame.{from_le}

-- The member functions that the table may hold.
pub data Handler : Type 0 where
  register_rq login_rq upload_file file_content_rq get_file_list download_file : Handler
  download_file_folder download_file_head_rs file_content_rs add_folder share_file : Handler
  get_share_list get_share_by_link delete_file continue_download continue_upload : Handler
  play_video : Handler

-- `m_NetPackMap`; a null pointer is `none`.
abbrev pub Table : Type 0
Table = List (Option Handler)

empty_table : ℕ → Table
empty_table zero = []
empty_table (suc n) = none ∷ empty_table n

-- `NetPackMap(_DEF_PACK_BASE + n) = h`.
abbrev pub assign : ℕ → Handler → Table → Table
assign n h t = set t (def_pack_base + n - def_pack_base) (some h)

-- `TcpKernel::setNetPackMap` clears the table, and `CLogic::setNetPackMap` fills it.
unfoldable pub set_net_pack_map : Table
unfolding empty_table
set_net_pack_map = assign 30 play_video (
    assign 28 continue_upload (
      assign 27 continue_download (
        assign 25 delete_file (
          assign 22 get_share_by_link (
            assign 20 get_share_list (
              assign 18 share_file (
                assign 15 add_folder (
                  assign 7 file_content_rs (
                    assign 14 download_file_head_rs (
                      assign 11 download_file_folder (
                        assign 10 download_file (
                          assign 8 get_file_list (
                            assign 6 file_content_rq (
                              assign 4 upload_file (
                                assign 2 login_rq
                                  (assign 0 register_rq (empty_table def_pack_count)))))))))))))))))

-- What `DealData` does with a packet: it reads past the end of one that is shorter than its type,
-- it drops it, or it calls a handler.
pub data Deal : Type 0 where
  overread : Deal
  dropped : Deal
  calls : Handler → Deal

abbrev pub entry : Option (Option Handler) → Deal
entry none = overread
entry (some none) = dropped
entry (some (some h)) = calls h

-- The type is an `int`; one that is negative is not below `_DEF_PACK_BASE + _DEF_PACK_COUNT` as a
-- pattern, and is dropped by the other test.
pub deal_type : Table → ℕ → Deal
deal_type table type =
    if leb def_pack_base type && ltb type (def_pack_base + def_pack_count)
    then entry (get_elem? table (type - def_pack_base))
    else dropped

pub deal_data : Table → Text → Deal
deal_data table szbuf =
    if ltb (length szbuf) 4 then overread else deal_type table (from_le (take 4 szbuf))
