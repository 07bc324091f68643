-- ===== src/Packet.antt =====
-- include/packdef.h: what the server receives and sends, and the packet types.
mod Account
mod Transfer
mod Share
mod Manage
mod Types
pub use Account.*
pub use Transfer.*
pub use Share.*
pub use Manage.*
pub use Types.*
use nest_disk.Base.{ℕ, ℤ, pos}

-- The packets that the server sends.
pub data Packet : Type 0 where
  register_rs : RegisterRs → Packet
  login_rs : LoginRs → Packet
  upload_file_rs : UploadFileRs → Packet
  file_content_rq : FileContentRq → Packet
  file_content_rs : FileContentRs → Packet
  get_file_rs : GetFileRs → Packet
  file_header_rq : FileHeaderRq → Packet
  add_folder_rq : AddFolderRq → Packet
  add_folder_rs : AddFolderRs → Packet
  quick_upload_rs : QuickUploadRs → Packet
  share_file_rs : ShareFileRs → Packet
  my_share_rs : MyShareRs → Packet
  continue_upload_rs : ContinueUploadRs → Packet
  get_share_rs : GetShareRs → Packet
  delete_file_rs : DeleteFileRs → Packet
  play_video_rs : PlayVideoRs → Packet

-- The bounds and sizes that the code names.
abbrev pub def_buffer : ℕ
def_buffer = 4096

abbrev pub def_content_size : ℕ
def_content_size = 1024

abbrev pub max_path_size : ℕ
max_path_size = 260

abbrev pub max_size : ℕ
max_size = 40

-- The results of registration and login.
abbrev pub user_is_exist : ℤ
user_is_exist = pos 0

abbrev pub register_success : ℤ
register_success = pos 1

abbrev pub register_error : ℤ
register_error = pos 2

abbrev pub user_not_exist : ℤ
user_not_exist = pos 0

abbrev pub password_error : ℤ
password_error = pos 1

abbrev pub login_success : ℤ
login_success = pos 2

-- The type that the constructor of a structure, or its `init`, writes into it.
abbrev pub packet_type : Packet → ℕ
packet_type (register_rs r) = def_pack_register_rs
packet_type (login_rs r) = def_pack_login_rs
packet_type (upload_file_rs r) = def_pack_upload_file_rs
packet_type (file_content_rq r) = def_pack_file_content_rq
packet_type (file_content_rs r) = def_pack_file_content_rs
packet_type (get_file_rs r) = def_pack_file_list_rs
packet_type (file_header_rq r) = def_pack_file_header_rq
packet_type (add_folder_rq r) = def_pack_add_folder_rq
packet_type (add_folder_rs r) = def_pack_add_folder_rs
packet_type (quick_upload_rs r) = def_pack_quick_upload_rs
packet_type (share_file_rs r) = def_pack_share_file_rs
packet_type (my_share_rs r) = def_pack_my_share_rs
packet_type (continue_upload_rs r) = def_pack_continue_upload_rs
packet_type (get_share_rs r) = def_pack_get_share_rs
packet_type (delete_file_rs r) = def_pack_delete_file_rs
packet_type (play_video_rs r) = def_pack_play_video_rs
