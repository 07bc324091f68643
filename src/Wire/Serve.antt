-- ===== src/Wire/Serve.antt =====
-- src/TCPKernel.cpp, `DealData`, with the casts of src/clogic.cpp: a packet's bytes up to its handler.
use nest_disk.Base.{ℕ, ℤ, ◌≡◌, refl, sym, Text, Option, none, some, ◌++◌, drop, drop-append_exact}
use nest_disk.Env.{M, fail, overread, pure}
use nest_disk.Kernel.{Handler, Deal, dropped, calls, deal_data, set_net_pack_map}
use nest_disk.Kernel.Protocol.{pack_type, pack_type-lt, deal_data-pack_type}
use nest_disk.Net.Frame.{le_bytes}
use nest_disk.Net.Frame.Trip.{length-le_bytes}
use nest_disk.Logic.Serve.{
  Request, register_packet, login_packet, upload_packet, content_packet, list_packet,
  download_packet, download_folder_packet, header_packet, block_packet, folder_packet, share_packet,
  share_list_packet, link_packet, delete_packet, resume_download_packet, resume_upload_packet,
  video_packet, serve,
}
use nest_disk.Wire.{◌>>=◌}
use nest_disk.Wire.Read.{
  read_register_rq, read_login_rq, read_upload_file_rq, read_file_content_rq, read_get_file_rq,
  read_download_file_rq, read_download_folder_rq, read_file_header_rs, read_file_content_rs,
  read_add_folder_rq, read_share_file_rq, read_my_share_rq, read_get_share_rq, read_delete_file_rq,
  read_continue_download_rq, read_continue_upload_rq, read_play_video_rq,
}
use nest_disk.Wire.Print.{
  print_register_rq, RegisterRqFits, print_login_rq, LoginRqFits, print_upload_file_rq,
  UploadFileRqFits, print_file_content_rq, FileContentRqFits, print_get_file_rq, GetFileRqFits,
  print_download_file_rq, DownloadFileRqFits, print_download_folder_rq, DownloadFolderRqFits,
  print_file_header_rs, FileHeaderRsFits, print_file_content_rs, FileContentRsFits,
  print_add_folder_rq, AddFolderRqFits, print_share_file_rq, ShareFileRqFits, print_my_share_rq,
  MyShareRqFits, print_get_share_rq, GetShareRqFits, print_delete_file_rq, DeleteFileRqFits,
  print_continue_download_rq, ContinueDownloadRqFits, print_continue_upload_rq,
  ContinueUploadRqFits, print_play_video_rq, PlayVideoRqFits,
}
use nest_disk.Wire.Trip.{
  read-print_register_rq, read-print_login_rq, read-print_upload_file_rq,
  read-print_file_content_rq, read-print_get_file_rq, read-print_download_file_rq,
  read-print_download_folder_rq, read-print_file_header_rs, read-print_file_content_rs,
  read-print_add_folder_rq, read-print_share_file_rq, read-print_my_share_rq,
  read-print_get_share_rq, read-print_delete_file_rq, read-print_continue_download_rq,
  read-print_continue_upload_rq, read-print_play_video_rq,
}

-- The cast with which each handler begins, on the bytes behind the type.
pub read_request : Handler → Text → Option Request
read_request Handler.register_rq b = do r ← read_register_rq b; some (register_packet r)
read_request Handler.login_rq b = do r ← read_login_rq b; some (login_packet r)
read_request Handler.upload_file b = do r ← read_upload_file_rq b; some (upload_packet r)
read_request Handler.file_content_rq b = do r ← read_file_content_rq b; some (content_packet r)
read_request Handler.get_file_list b = do r ← read_get_file_rq b; some (list_packet r)
read_request Handler.download_file b = do r ← read_download_file_rq b; some (download_packet r)
read_request Handler.download_file_folder b = do
  r ← read_download_folder_rq b
  some (download_folder_packet r)
read_request Handler.download_file_head_rs b = do r ← read_file_header_rs b; some (header_packet r)
read_request Handler.file_content_rs b = do r ← read_file_content_rs b; some (block_packet r)
read_request Handler.add_folder b = do r ← read_add_folder_rq b; some (folder_packet r)
read_request Handler.share_file b = do r ← read_share_file_rq b; some (share_packet r)
read_request Handler.get_share_list b = do r ← read_my_share_rq b; some (share_list_packet r)
read_request Handler.get_share_by_link b = do r ← read_get_share_rq b; some (link_packet r)
read_request Handler.delete_file b = do r ← read_delete_file_rq b; some (delete_packet r)
read_request Handler.continue_download b = do
  r ← read_continue_download_rq b
  some (resume_download_packet r)
read_request Handler.continue_upload b = do
  r ← read_continue_upload_rq b
  some (resume_upload_packet r)
read_request Handler.play_video b = do r ← read_play_video_rq b; some (video_packet r)

pub read_and_serve : ℕ → ℕ → Option Request → ℤ → M (Unit {0})
read_and_serve depth fuel none fd = fail overread
read_and_serve depth fuel (some r) fd = serve depth fuel r fd

-- What `DealData` does with a table's entry.
pub dispatch : ℕ → ℕ → Deal → Text → ℤ → M (Unit {0})
unfolding read_and_serve
dispatch depth fuel Deal.overread szbuf fd = fail overread
dispatch depth fuel dropped szbuf fd = pure tt
dispatch depth fuel (calls h) szbuf fd =
    read_and_serve depth fuel (read_request h (drop 4 szbuf)) fd

pub handle_packet : ℕ → ℕ → Text → ℤ → M (Unit {0})
unfolding dispatch
handle_packet depth fuel szbuf fd = dispatch depth fuel (deal_data set_net_pack_map szbuf) szbuf fd

-- The handler that a request is meant for.
abbrev pub handler_of : Request → Handler
handler_of (register_packet r) = Handler.register_rq
handler_of (login_packet r) = Handler.login_rq
handler_of (upload_packet r) = Handler.upload_file
handler_of (content_packet r) = Handler.file_content_rq
handler_of (list_packet r) = Handler.get_file_list
handler_of (download_packet r) = Handler.download_file
handler_of (download_folder_packet r) = Handler.download_file_folder
handler_of (header_packet r) = Handler.download_file_head_rs
handler_of (block_packet r) = Handler.file_content_rs
handler_of (folder_packet r) = Handler.add_folder
handler_of (share_packet r) = Handler.share_file
handler_of (share_list_packet r) = Handler.get_share_list
handler_of (link_packet r) = Handler.get_share_by_link
handler_of (delete_packet r) = Handler.delete_file
handler_of (resume_download_packet r) = Handler.continue_download
handler_of (resume_upload_packet r) = Handler.continue_upload
handler_of (video_packet r) = Handler.play_video

unfoldable pub print_body : Request → Text
print_body (register_packet r) = print_register_rq r
print_body (login_packet r) = print_login_rq r
print_body (upload_packet r) = print_upload_file_rq r
print_body (content_packet r) = print_file_content_rq r
print_body (list_packet r) = print_get_file_rq r
print_body (download_packet r) = print_download_file_rq r
print_body (download_folder_packet r) = print_download_folder_rq r
print_body (header_packet r) = print_file_header_rs r
print_body (block_packet r) = print_file_content_rs r
print_body (folder_packet r) = print_add_folder_rq r
print_body (share_packet r) = print_share_file_rq r
print_body (share_list_packet r) = print_my_share_rq r
print_body (link_packet r) = print_get_share_rq r
print_body (delete_packet r) = print_delete_file_rq r
print_body (resume_download_packet r) = print_continue_download_rq r
print_body (resume_upload_packet r) = print_continue_upload_rq r
print_body (video_packet r) = print_play_video_rq r

-- The whole packet: its type, which the constructors of the structures set, and the fields.
unfoldable pub print_request : Request → Text
unfolding print_body
print_request r = le_bytes (pack_type (handler_of r)) ++ print_body r

abbrev pub RequestFits : Request → Type 0
RequestFits (register_packet r) = RegisterRqFits r
RequestFits (login_packet r) = LoginRqFits r
RequestFits (upload_packet r) = UploadFileRqFits r
RequestFits (content_packet r) = FileContentRqFits r
RequestFits (list_packet r) = GetFileRqFits r
RequestFits (download_packet r) = DownloadFileRqFits r
RequestFits (download_folder_packet r) = DownloadFolderRqFits r
RequestFits (header_packet r) = FileHeaderRsFits r
RequestFits (block_packet r) = FileContentRsFits r
RequestFits (folder_packet r) = AddFolderRqFits r
RequestFits (share_packet r) = ShareFileRqFits r
RequestFits (share_list_packet r) = MyShareRqFits r
RequestFits (link_packet r) = GetShareRqFits r
RequestFits (delete_packet r) = DeleteFileRqFits r
RequestFits (resume_download_packet r) = ContinueDownloadRqFits r
RequestFits (resume_upload_packet r) = ContinueUploadRqFits r
RequestFits (video_packet r) = PlayVideoRqFits r

read_request-print_body :
    (r : Request) → RequestFits r → read_request (handler_of r) (print_body r) ≡ some r
unfolding read_request print_body
read_request-print_body (register_packet r) h = rw (read-print_register_rq r h)
read_request-print_body (login_packet r) h = rw (read-print_login_rq r h)
read_request-print_body (upload_packet r) h = rw (read-print_upload_file_rq r h)
read_request-print_body (content_packet r) h = rw (read-print_file_content_rq r h)
read_request-print_body (list_packet r) h = rw (read-print_get_file_rq r h)
read_request-print_body (download_packet r) h = rw (read-print_download_file_rq r h)
read_request-print_body (download_folder_packet r) h = rw (read-print_download_folder_rq r h)
read_request-print_body (header_packet r) h = rw (read-print_file_header_rs r h)
read_request-print_body (block_packet r) h = rw (read-print_file_content_rs r h)
read_request-print_body (folder_packet r) h = rw (read-print_add_folder_rq r h)
read_request-print_body (share_packet r) h = rw (read-print_share_file_rq r h)
read_request-print_body (share_list_packet r) h = rw (read-print_my_share_rq r h)
read_request-print_body (link_packet r) h = rw (read-print_get_share_rq r h)
read_request-print_body (delete_packet r) h = rw (read-print_delete_file_rq r h)
read_request-print_body (resume_download_packet r) h = rw (read-print_continue_download_rq r h)
read_request-print_body (resume_upload_packet r) h = rw (read-print_continue_upload_rq r h)
read_request-print_body (video_packet r) h = rw (read-print_play_video_rq r h)

deal_data-handler_of :
    (r : Request)
    → deal_data set_net_pack_map (le_bytes (pack_type (handler_of r)) ++ print_body r)
      ≡ calls (handler_of r)
deal_data-handler_of r =
    (deal_data-pack_type (pack_type (handler_of r)) (print_body r) (handler_of r)
        (pack_type-lt (handler_of r))).0.1
      refl

-- A packet in the bytes of a request that the structures can hold is served as that request.
pub handle_packet-print_request :
    (depth fuel : ℕ) (r : Request) (fd : ℤ)
    → RequestFits r
    → handle_packet depth fuel (print_request r) fd ≡ serve depth fuel r fd
unfolding handle_packet print_request
handle_packet-print_request depth fuel r fd h = rw (
  deal_data-handler_of r,
  drop-append_exact 4 (le_bytes (pack_type (handler_of r))) (print_body r)
      (sym (length-le_bytes (pack_type (handler_of r)))),
  read_request-print_body r h,
)
