-- ===== src/Logic/Serve/Isolated.antt =====
-- Whom the handlers answer, over a run.
use nest_disk.Base.{
  ℕ, ◌≡◌, ◌≢◌, refl, ◌∙◌, ap, sym, ℤ, eq_ℤ, eq_ℤ_iff, List, [], ◌∷◌, arith, if◌then◌else◌,
}
use nest_disk.Packet.{
  def_pack_add_folder_rs, def_pack_continue_upload_rs, def_pack_delete_file_rs,
  def_pack_file_content_rq, def_pack_file_content_rs, def_pack_file_header_rq,
  def_pack_file_list_rs, def_pack_get_share_rs, def_pack_login_rs, def_pack_my_share_rs,
  def_pack_play_video_rs, def_pack_register_rs, def_pack_share_file_rs, Packet,
}
use nest_disk.Env.{Sys, Server, Trace, Out, ok, returned, fault, spent, sent}
use nest_disk.Env.Isolation.{OnlyTo, strays, to}
use nest_disk.Logic.Serve.{
  Request, register_packet, login_packet, upload_packet, content_packet, list_packet,
  download_packet, download_folder_packet, header_packet, block_packet, folder_packet, share_packet,
  share_list_packet, link_packet, delete_packet, resume_download_packet, resume_upload_packet,
  video_packet, serve, and_on, run,
}
use nest_disk.Logic.Account.Isolation.{register_rq-OnlyTo, login_rq-OnlyTo}
use nest_disk.Logic.Upload.Isolation.{upload_replies, upload_file-OnlyTo, file_content_rq-OnlyTo}
use nest_disk.Logic.Download.Isolation.{
  download_file-OnlyTo, download_file_head_rs-OnlyTo, file_content_rs-OnlyTo,
}
use nest_disk.Logic.FolderDownload.Isolation.{folder_replies, download_file_folder-OnlyTo}
use nest_disk.Logic.Share.Isolation.{share_file-OnlyTo}
use nest_disk.Logic.Link.Isolation.{get_share_by_link-OnlyTo}
use nest_disk.Logic.Lists.Isolation.{get_file_list-OnlyTo, get_share_list-OnlyTo}
use nest_disk.Logic.Folder.Isolation.{add_folder-OnlyTo}
use nest_disk.Logic.Delete.Isolation.{delete_file-OnlyTo}
use nest_disk.Logic.Resume.Isolation.{continue_download-OnlyTo, continue_upload-OnlyTo}
use nest_disk.Logic.Video.Isolation.{play_video-OnlyTo}

-- The types with which packdef.h answers a request.
pub reply_types : Request → List ℕ
reply_types (register_packet rq) = def_pack_register_rs ∷ []
reply_types (login_packet rq) = def_pack_login_rs ∷ []
reply_types (upload_packet rq) = upload_replies
reply_types (content_packet rq) = def_pack_file_content_rs ∷ []
reply_types (list_packet rq) = def_pack_file_list_rs ∷ []
reply_types (download_packet rq) = def_pack_file_header_rq ∷ []
reply_types (download_folder_packet rq) = folder_replies
reply_types (header_packet rs) = def_pack_file_content_rq ∷ []
reply_types (block_packet rs) = def_pack_file_content_rq ∷ []
reply_types (folder_packet rq) = def_pack_add_folder_rs ∷ []
reply_types (share_packet rq) = def_pack_share_file_rs ∷ []
reply_types (share_list_packet rq) = def_pack_my_share_rs ∷ []
reply_types (link_packet rq) = def_pack_get_share_rs ∷ []
reply_types (delete_packet rq) = def_pack_delete_file_rs ∷ []
reply_types (resume_download_packet rq) = def_pack_file_content_rq ∷ []
reply_types (resume_upload_packet rq) = def_pack_continue_upload_rs ∷ []
reply_types (video_packet rq) = def_pack_play_video_rs ∷ []

serve-OnlyTo :
    (calls fuel : ℕ) (r : Request) (fd : ℤ) → OnlyTo (to fd (reply_types r)) (serve calls fuel r fd)
unfolding serve reply_types
serve-OnlyTo calls fuel (register_packet rq) fd = register_rq-OnlyTo fd rq
serve-OnlyTo calls fuel (login_packet rq) fd = login_rq-OnlyTo fd rq
serve-OnlyTo calls fuel (upload_packet rq) fd = upload_file-OnlyTo fd rq
serve-OnlyTo calls fuel (content_packet rq) fd = file_content_rq-OnlyTo fd rq
serve-OnlyTo calls fuel (list_packet rq) fd = get_file_list-OnlyTo fd rq
serve-OnlyTo calls fuel (download_packet rq) fd = download_file-OnlyTo fd rq
serve-OnlyTo calls fuel (download_folder_packet rq) fd =
    download_file_folder-OnlyTo fd calls fuel rq
serve-OnlyTo calls fuel (header_packet rs) fd = download_file_head_rs-OnlyTo fd rs
serve-OnlyTo calls fuel (block_packet rs) fd = file_content_rs-OnlyTo fd rs
serve-OnlyTo calls fuel (folder_packet rq) fd = add_folder-OnlyTo fd rq
serve-OnlyTo calls fuel (share_packet rq) fd = share_file-OnlyTo fd fuel rq
serve-OnlyTo calls fuel (share_list_packet rq) fd = get_share_list-OnlyTo fd rq
serve-OnlyTo calls fuel (link_packet rq) fd = get_share_by_link-OnlyTo fd calls rq
serve-OnlyTo calls fuel (delete_packet rq) fd = delete_file-OnlyTo fd calls rq
serve-OnlyTo calls fuel (resume_download_packet rq) fd = continue_download-OnlyTo fd rq
serve-OnlyTo calls fuel (resume_upload_packet rq) fd = continue_upload-OnlyTo fd rq
serve-OnlyTo calls fuel (video_packet rq) fd = play_video-OnlyTo fd rq

-- Whatever MySQL and the operating system answer to its handler, and however the handler ends, a
-- request makes the server send packets only to the number of the descriptor that it came with, and
-- only of the types that answer the type of the request: the other packets in the trace are those that
-- were there. Whether that number still belongs to the client is not said here.
pub serve-strays :
    (calls fuel : ℕ) (r : Request) (fd : ℤ) (sys : Sys) (s : Server)
    → strays (to fd (reply_types r)) (serve calls fuel r fd sys s).1.trace
      ≡ strays (to fd (reply_types r)) s.trace
serve-strays calls fuel r fd sys s = (serve-OnlyTo calls fuel r fd).keeps sys s

-- The packets that were sent to a descriptor, newest first.
unfoldable pub mail : ℤ → Trace → List Packet
mail c [] = []
mail c (sent g p ∷ t) = let rest = mail c t in if eq_ℤ g c then p ∷ rest else rest
mail c (_ ∷ t) = mail c t

pick : ℤ → List (ℤ × Packet) → List Packet
pick c [] = []
pick c ((g, p) ∷ l) = let rest = pick c l in if eq_ℤ g c then p ∷ rest else rest

-- The packets to a descriptor are among those that may not be sent with another one.
mail-strays :
    (c fd : ℤ) (types : List ℕ) (t : Trace) → fd ≢ c → mail c t ≡ pick c (strays (to fd types) t)
unfolding mail strays pick to
mail-strays c fd types [] h = refl
mail-strays c fd types (sent g p ∷ t) h =
    ground (arith, mail-strays c fd types t h, eq_ℤ_iff g c, eq_ℤ_iff g fd)
mail-strays c fd types (_ ∷ t) h = mail-strays c fd types t h

-- The rest of a run, if it sends nothing to the descriptor.
and_on-mail :
    (c : ℤ) (k : Server → Server)
    → ((t : Server) → mail c (k t).trace ≡ mail c t.trace)
    → (o : Out (Unit {0}) × Server) → mail c (and_on k o).trace ≡ mail c o.1.trace
and_on-mail c k h (ok a, t) = h t
and_on-mail c k h (returned, t) = h t
and_on-mail c k h (fault e, t) = refl
and_on-mail c k h (spent, t) = refl

-- None of the packets that are handled came from the descriptor.
abbrev pub Absent : ℤ → List (ℤ × Request) → Type 0
Absent c [] = Unit {0}
Absent c ((fd, r) ∷ rs) = (fd ≢ c) × Absent c rs

-- Packets from any descriptors are handled one after the other, whatever MySQL and the operating system
-- answer to their handlers, and whether a handler ends in a fault or not: to a descriptor from which
-- none of the packets came, nothing is sent.
pub run-Absent :
    (calls fuel : ℕ) (rs : List (ℤ × Request)) (c : ℤ) (sys : Sys) (s : Server)
    → Absent c rs
    → mail c (run calls fuel rs sys s).trace ≡ mail c s.trace
unfolding run
run-Absent calls fuel [] c sys s h = refl
run-Absent calls fuel ((fd, r) ∷ rs) c sys s (other, h) =
    and_on-mail c (run calls fuel rs sys) (λ t. run-Absent calls fuel rs c sys t h)
      (serve calls fuel r fd sys s)
    ∙ mail-strays c fd (reply_types r) (serve calls fuel r fd sys s).1.trace other
    ∙ ap (pick c) ((serve-OnlyTo calls fuel r fd).keeps sys s)
    ∙ sym (mail-strays c fd (reply_types r) s.trace other)
