-- ===== src/Logic/Resume/Isolation.antt =====
-- src/clogic.cpp: what the pieces of the handlers in Resume send, and to whom.
use nest_disk.Base.{
  ℤ, Text, List, [], ◌∷◌, if◌then◌else◌, Option-cases, inl, inr, pos, refl, leb_ℤ, not,
}
use nest_disk.Packet.{
  def_pack_continue_upload_rs, def_pack_file_content_rq, def_content_size, FileInfo,
  ContinueDownloadRq, ContinueUploadRq,
}
use nest_disk.MyMap.{find}
use nest_disk.Env.{OpenMode, pure, stop, ◌>>=◌, ◌>>◌, sprintf}
use nest_disk.Mysql.{select_mysql}
use nest_disk.Env.Isolation.{Allowed, to, OnlyTo, bind-OnlyTo, if-OnlyTo, stop-OnlyTo}
use nest_disk.Env.Pieces.{pieces, sprintf-OnlyTo, select_mysql-OnlyTo}
use nest_disk.Logic.{session_key}
use nest_disk.Logic.Upload.{put_file}
use nest_disk.Logic.Resume.{
  select_resume, resume_row, reopen, resume_file, continue_download, continue_upload,
}

pub resume_row-OnlyTo :
    (allowed : Allowed) (mode : OpenMode) (fileid : ℤ) (dir : Text) (start : ℤ) (l0 : List Text)
    → OnlyTo allowed (resume_row mode fileid dir start l0)
unfolding resume_row
resume_row-OnlyTo allowed mode fileid dir start l0 = search pieces depth 30

row_of-OnlyTo :
    (allowed : Allowed) (mode : OpenMode) (userid timestamp fileid : ℤ) (dir : Text) (start : ℤ)
    (l : List Text)
    → OnlyTo {A = ℤ × FileInfo} allowed (elim l [
      | [] ↦ stop
      | t ∷ ts ↦
          (resume_row mode fileid dir start (t ∷ ts) >>= λ file.
          if leb_ℤ file.file_fd (pos 0)
          then stop
          else (put_file (session_key userid timestamp) file
              >> pure (session_key userid timestamp, file)))
    ])
row_of-OnlyTo allowed mode userid timestamp fileid dir start [] = search pieces
row_of-OnlyTo allowed mode userid timestamp fileid dir start (t ∷ ts) =
    search (pieces, resume_row-OnlyTo) depth 30

pub reopen-OnlyTo :
    (allowed : Allowed) (mode : OpenMode) (userid : ℤ) (timestamp : ℤ) (fileid : ℤ) (dir : Text)
    (start : ℤ)
    → OnlyTo allowed (reopen mode userid timestamp fileid dir start)
unfolding reopen
reopen-OnlyTo allowed mode userid timestamp fileid dir start =
    let sql = select_resume userid fileid dir in
    bind-OnlyTo allowed (sprintf def_content_size sql) _
      (sprintf-OnlyTo allowed def_content_size sql)
      λ q. bind-OnlyTo allowed (select_mysql q 6 []) _ (select_mysql-OnlyTo allowed q 6 []) λ r.
        if-OnlyTo allowed (not r.0) stop _ (stop-OnlyTo allowed)
          (row_of-OnlyTo allowed mode userid timestamp fileid dir start r.1)

pub resume_file-OnlyTo :
    (allowed : Allowed) (mode : OpenMode) (userid : ℤ) (timestamp : ℤ) (fileid : ℤ) (dir : Text)
    (start : ℤ)
    → OnlyTo allowed (resume_file mode userid timestamp fileid dir start)
unfolding resume_file
resume_file-OnlyTo allowed mode userid timestamp fileid dir start = record {
  keeps = λ sys s. elim (Option-cases (find timestamp s.files)) [
    | inl e ↦ rw (e) ((reopen-OnlyTo allowed mode userid timestamp fileid dir start).keeps sys s)
    | inr (file, e) ↦ rw (e) refl
  ];
}

pub continue_download-OnlyTo :
    (fd : ℤ) (rq : ContinueDownloadRq)
    → OnlyTo (to fd (def_pack_file_content_rq ∷ [])) (continue_download rq fd)
unfolding continue_download
continue_download-OnlyTo fd rq = search (pieces, resume_file-OnlyTo) depth 30

pub continue_upload-OnlyTo :
    (fd : ℤ) (rq : ContinueUploadRq)
    → OnlyTo (to fd (def_pack_continue_upload_rs ∷ [])) (continue_upload rq fd)
unfolding continue_upload
continue_upload-OnlyTo fd rq = search (pieces, resume_file-OnlyTo) depth 30
