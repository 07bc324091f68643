-- ===== src/Logic/Serve.antt =====
-- The handlers together: `(m_logic->*pf)(clientfd, szbuf, nlen)` of `DealData`, and the cast of the packet
-- with which each handler begins.
pub mod Isolated
use nest_disk.Base.{ℕ, ℤ, List, [], ◌∷◌}
use nest_disk.Packet.{
  RegisterRq, LoginRq, UploadFileRq, FileContentRq, GetFileRq, DownloadFileRq, DownloadFolderRq,
  FileHeaderRs, FileContentRs, AddFolderRq, ShareFileRq, MyShareRq, GetShareRq, DeleteFileRq,
  ContinueDownloadRq, ContinueUploadRq, PlayVideoRq,
}
use nest_disk.Env.{M, Sys, Server, Out, ok, returned, fault, spent}
use nest_disk.Logic.Account
use nest_disk.Logic.Upload
use nest_disk.Logic.Download
use nest_disk.Logic.FolderDownload
use nest_disk.Logic.Share
use nest_disk.Logic.Link
use nest_disk.Logic.Lists
use nest_disk.Logic.Folder
use nest_disk.Logic.Delete
use nest_disk.Logic.Resume
use nest_disk.Logic.Video

-- A packet that a client sends, by its type.
pub data Request : Type 0 where
  register_packet : RegisterRq → Request
  login_packet : LoginRq → Request
  upload_packet : UploadFileRq → Request
  content_packet : FileContentRq → Request
  list_packet : GetFileRq → Request
  download_packet : DownloadFileRq → Request
  download_folder_packet : DownloadFolderRq → Request
  header_packet : FileHeaderRs → Request
  block_packet : FileContentRs → Request
  folder_packet : AddFolderRq → Request
  share_packet : ShareFileRq → Request
  share_list_packet : MyShareRq → Request
  link_packet : GetShareRq → Request
  delete_packet : DeleteFileRq → Request
  resume_download_packet : ContinueDownloadRq → Request
  resume_upload_packet : ContinueUploadRq → Request
  video_packet : PlayVideoRq → Request

-- The first fuel is for the depth of calls, the second for loops.
pub serve : ℕ → ℕ → Request → ℤ → M (Unit {0})
serve calls fuel (register_packet rq) fd = Account.register_rq rq fd
serve calls fuel (login_packet rq) fd = Account.login_rq rq fd
serve calls fuel (upload_packet rq) fd = Upload.upload_file rq fd
serve calls fuel (content_packet rq) fd = Upload.file_content_rq rq fd
serve calls fuel (list_packet rq) fd = Lists.get_file_list rq fd
serve calls fuel (download_packet rq) fd = Download.download_file rq fd
serve calls fuel (download_folder_packet rq) fd =
    FolderDownload.download_file_folder calls fuel rq fd
serve calls fuel (header_packet rs) fd = Download.download_file_head_rs rs fd
serve calls fuel (block_packet rs) fd = Download.file_content_rs rs fd
serve calls fuel (folder_packet rq) fd = Folder.add_folder rq fd
serve calls fuel (share_packet rq) fd = Share.share_file fuel rq fd
serve calls fuel (share_list_packet rq) fd = Lists.get_share_list rq fd
serve calls fuel (link_packet rq) fd = Link.get_share_by_link calls rq fd
serve calls fuel (delete_packet rq) fd = Delete.delete_file calls rq fd
serve calls fuel (resume_download_packet rq) fd = Resume.continue_download rq fd
serve calls fuel (resume_upload_packet rq) fd = Resume.continue_upload rq fd
serve calls fuel (video_packet rq) fd = Video.play_video rq fd

-- A fault ends the process, and a handler that is out of fuel does not come back.
abbrev pub and_on : (Server → Server) → Out (Unit {0}) × Server → Server
and_on k (ok a, s) = k s
and_on k (returned, s) = k s
and_on k (fault e, s) = s
and_on k (spent, s) = s

-- The packets of the clients in the order in which they are handled.
unfoldable pub run : ℕ → ℕ → List (ℤ × Request) → Sys → Server → Server
run calls fuel [] sys s = s
run calls fuel ((fd, r) ∷ rs) sys s = and_on (run calls fuel rs sys) (serve calls fuel r fd sys s)
