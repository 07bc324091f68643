-- ===== src/Logic/Resume/Sent.antt =====
-- src/clogic.cpp, `continueUpload`: an upload for which the handler finds nothing in the map, from the
-- request to its last chunk.
use nest_disk.Base.{ℕ, suc, ℤ, pos, List, ◌∷◌}
use nest_disk.Packet.{ContinueUploadRq, FileInfo, Packet, continue_upload_rs}
use nest_disk.MyMap.{insert}
use nest_disk.Env.{Server, Trace, sought, sent, write_only, seek_end}
use nest_disk.Logic.{session_key}
use nest_disk.Logic.Upload.Chunks.{moved}
use nest_disk.Logic.Resume.Lost.{Stored, reopened, session_of}

-- The reply that tells the client how much the server has.
abbrev pub position : ContinueUploadRq → ℕ → Packet
position rq p =
    continue_upload_rs (record { fileid = rq.fileid; timestamp = rq.timestamp; pos = pos p })

module _ (rq : ContinueUploadRq) (fd : ℤ) (f : Stored) (d p : ℕ) (s : Server) where
  abbrev key : ℤ
  key = session_key rq.userid rq.timestamp

  abbrev lost_and_found : FileInfo
  lost_and_found = session_of rq.fileid rq.dir (pos 0) f (suc d)

  abbrev at_end : Trace
  at_end =
      sought (pos (suc d)) (pos 0) seek_end
      ∷ reopened write_only rq.userid rq.fileid rq.dir f s.trace

  -- The server behind the request.
  abbrev resumed : Server
  resumed = record {
    users = s.users;
    files = insert key (moved lost_and_found p) (insert key lost_and_found s.files);
    trace = sent fd (position rq p) ∷ at_end;
  }
