-- ===== src/Packet/Types.antt =====
-- include/packdef.h: the numbers of the packet types.
use nest_disk.Base.{ℕ, ◌+◌}

abbrev pub def_pack_base : ℕ
def_pack_base = 10000

abbrev pub def_pack_count : ℕ
def_pack_count = 100

abbrev pub def_pack_register_rq : ℕ
def_pack_register_rq = def_pack_base + 0

abbrev pub def_pack_register_rs : ℕ
def_pack_register_rs = def_pack_base + 1

abbrev pub def_pack_login_rq : ℕ
def_pack_login_rq = def_pack_base + 2

abbrev pub def_pack_login_rs : ℕ
def_pack_login_rs = def_pack_base + 3

abbrev pub def_pack_upload_file_rq : ℕ
def_pack_upload_file_rq = def_pack_base + 4

abbrev pub def_pack_upload_file_rs : ℕ
def_pack_upload_file_rs = def_pack_base + 5

abbrev pub def_pack_file_content_rq : ℕ
def_pack_file_content_rq = def_pack_base + 6

abbrev pub def_pack_file_content_rs : ℕ
def_pack_file_content_rs = def_pack_base + 7

abbrev pub def_pack_file_list_rq : ℕ
def_pack_file_list_rq = def_pack_base + 8

abbrev pub def_pack_file_list_rs : ℕ
def_pack_file_list_rs = def_pack_base + 9

abbrev pub def_pack_download_file_rq : ℕ
def_pack_download_file_rq = def_pack_base + 10

abbrev pub def_pack_download_folder_rq : ℕ
def_pack_download_folder_rq = def_pack_base + 11

abbrev pub def_pack_download_file_rs : ℕ
def_pack_download_file_rs = def_pack_base + 12

abbrev pub def_pack_file_header_rq : ℕ
def_pack_file_header_rq = def_pack_base + 13

abbrev pub def_pack_file_header_rs : ℕ
def_pack_file_header_rs = def_pack_base + 14

abbrev pub def_pack_add_folder_rq : ℕ
def_pack_add_folder_rq = def_pack_base + 15

abbrev pub def_pack_add_folder_rs : ℕ
def_pack_add_folder_rs = def_pack_base + 16

abbrev pub def_pack_quick_upload_rs : ℕ
def_pack_quick_upload_rs = def_pack_base + 17

abbrev pub def_pack_share_file_rq : ℕ
def_pack_share_file_rq = def_pack_base + 18

abbrev pub def_pack_share_file_rs : ℕ
def_pack_share_file_rs = def_pack_base + 19

abbrev pub def_pack_my_share_rq : ℕ
def_pack_my_share_rq = def_pack_base + 20

abbrev pub def_pack_my_share_rs : ℕ
def_pack_my_share_rs = def_pack_base + 21

abbrev pub def_pack_get_share_rq : ℕ
def_pack_get_share_rq = def_pack_base + 22

abbrev pub def_pack_get_share_rs : ℕ
def_pack_get_share_rs = def_pack_base + 23

abbrev pub def_pack_delete_file_rq : ℕ
def_pack_delete_file_rq = def_pack_base + 25

abbrev pub def_pack_delete_file_rs : ℕ
def_pack_delete_file_rs = def_pack_base + 26

abbrev pub def_pack_continue_download_rq : ℕ
def_pack_continue_download_rq = def_pack_base + 27

abbrev pub def_pack_continue_upload_rq : ℕ
def_pack_continue_upload_rq = def_pack_base + 28

abbrev pub def_pack_continue_upload_rs : ℕ
def_pack_continue_upload_rs = def_pack_base + 29

abbrev pub def_pack_play_video_rq : ℕ
def_pack_play_video_rq = def_pack_base + 30

abbrev pub def_pack_play_video_rs : ℕ
def_pack_play_video_rs = def_pack_base + 31
