-- ===== src/Logic/Resume.antt =====
-- src/clogic.cpp: `continueDownload` and `continueUpload`.
pub mod Isolation
pub mod Lost
pub mod Sent
pub mod Whole
use nest_disk.Base.{
  ℤ, pos, leb_ℤ, to_int, Text, not, none, some, List, [], ◌∷◌, Piece, lit, str, int, if◌then◌else◌,
}
use nest_disk.Packet.{
  ContinueDownloadRq, ContinueUploadRq, FileInfo, continue_upload_rs, file_content_rq,
  def_content_size,
}
use nest_disk.MyMap.{find}
use nest_disk.Env.{
  M, OpenMode, read_only, write_only, ◌>>=◌, ◌>>◌, pure, stop, gets, call, opened, sought, seek_set,
  seek_end, send_data, sprintf, number_of, pop_front,
}
use nest_disk.Mysql.{select_mysql}
use nest_disk.Logic.{session_key}
use nest_disk.Logic.Upload.{put_file}
use nest_disk.Logic.Download.{chunk, read_chunk}

abbrev pub select_resume : ℤ → ℤ → Text → List Piece
select_resume userid fileid dir =
    lit "select f_name,f_size,f_uploadtime,f_md5,f_type,f_Path from user_file_info where u_id='"
    ∷ int userid
    ∷ lit "' and f_id='"
    ∷ int fileid
    ∷ lit "' and f_dir='"
    ∷ str dir
    ∷ lit "' ;"
    ∷ []

-- The `FileInfo` of a row, opened in `mode`.
pub resume_row : OpenMode → ℤ → Text → ℤ → List Text → M FileInfo
resume_row mode fileid dir start l0 = do
  (name, l1) ← pop_front l0
  (t, l2) ← pop_front l1
  size ← number_of t
  (time, l3) ← pop_front l2
  (md5, l4) ← pop_front l3
  (type, l5) ← pop_front l4
  (path, l6) ← pop_front l5
  file_fd ← call (opened path mode) (λ sys. sys.open_file)
  pure (record {
    fid = fileid;
    name = name;
    dir = dir;
    time = time;
    size = size;
    md5 = md5;
    type = type;
    absolute_path = path;
    pos = start;
    file_fd = file_fd;
  })

-- The branch where the map has nothing: the new entry goes in under the session's key. The result
-- is the key and the file of the object that the pointer then names.
pub reopen : OpenMode → ℤ → ℤ → ℤ → Text → ℤ → M (ℤ × FileInfo)
unfolding resume_row
reopen mode userid timestamp fileid dir start = do
  sql ← sprintf def_content_size (select_resume userid fileid dir)
  (res, lststr) ← select_mysql sql 6 []
  if not res then stop else elim lststr [
    | [] ↦ stop
    | t ∷ ts ↦ (do
      file ← resume_row mode fileid dir start (t ∷ ts)
      if leb_ℤ file.file_fd (pos 0) then stop else do
        put_file (session_key userid timestamp) file
        pure (session_key userid timestamp, file))
  ]

-- The look-up is by the timestamp alone.
pub resume_file : OpenMode → ℤ → ℤ → ℤ → Text → ℤ → M (ℤ × FileInfo)
unfolding reopen
resume_file mode userid timestamp fileid dir start = do
  found ← gets (λ s. find timestamp s.files)
  elim found [
    | none ↦ reopen mode userid timestamp fileid dir start
    | some file ↦ pure (timestamp, file)
  ]

pub continue_download : ContinueDownloadRq → ℤ → M (Unit {0})
unfolding resume_file
continue_download rq fd = do
  (key, file) ← resume_file read_only rq.userid rq.timestamp rq.fileid rq.dir rq.pos
  put_file key (record file { pos = rq.pos })
  call (sought file.file_fd rq.pos seek_set) (λ sys t. tt)
  (len, content) ← read_chunk file
  if leb_ℤ len (pos 0)
      then stop
      else send_data fd (file_content_rq (chunk rq.timestamp rq.userid rq.fileid content len))

pub continue_upload : ContinueUploadRq → ℤ → M (Unit {0})
unfolding resume_file
continue_upload rq fd = do
  (key, file) ← resume_file write_only rq.userid rq.timestamp rq.fileid rq.dir (pos 0)
  end ← call (sought file.file_fd (pos 0) seek_end) (λ sys. sys.seek_file)
  put_file key (record file { pos = to_int end })
  send_data fd (
      continue_upload_rs
        (record { fileid = rq.fileid; timestamp = rq.timestamp; pos = to_int end }))
