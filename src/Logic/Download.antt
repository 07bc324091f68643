-- ===== src/Logic/Download.antt =====
-- src/clogic.cpp: `downloadFile`, `downloadFileHeadRs` and `fileContentRs`.
pub mod Whole
pub mod Offer
pub mod Isolation
use nest_disk.Base.{
  ℤ, pos, ◌+ℤ◌, ◌-ℤ◌, eq_ℤ, leb_ℤ, ltb_ℤ, to_int, Text, not, none, some, List, [], ◌∷◌, Piece, lit,
  str, int, if◌then◌else◌,
}
use nest_disk.Packet.{
  DownloadFileRq, FileHeaderRs, FileContentRq, FileContentRs, FileInfo, file_header_rq,
  file_content_rq, def_content_size, def_buffer, max_path_size, max_size,
}
use nest_disk.MyMap.{find, erase, is_exist}
use nest_disk.Env.{
  M, ◌>>=◌, ◌>>◌, pure, stop, gets, modify, call, opened, fetched, sought, closed, read_only,
  seek_cur, send_data, sprintf, copy_to, number_of, pop_front,
}
use nest_disk.Mysql.{select_mysql}
use nest_disk.Logic.{session_key, file_type}
use nest_disk.Logic.Upload.{put_file}

abbrev pub select_download : ℤ → Text → ℤ → List Piece
select_download userid dir fileid =
    lit "select f_name,f_size,f_uploadtime,f_path,f_MD5 from user_file_info where u_id='"
    ∷ int userid
    ∷ lit "' and f_dir='"
    ∷ str dir
    ∷ lit "'and f_state=1 and f_id='"
    ∷ int fileid
    ∷ lit "';"
    ∷ []

-- The `FileInfo` of a row; `open` gives the descriptor.
pub read_row : DownloadFileRq → List Text → M FileInfo
read_row rq l0 = do
  (name, l1) ← pop_front l0
  (t, l2) ← pop_front l1
  size ← number_of t
  (time, l3) ← pop_front l2
  (path, l4) ← pop_front l3
  (md5, l5) ← pop_front l4
  file_fd ← call (opened path read_only) (λ sys. sys.open_file)
  pure (record {
    fid = rq.fileid;
    name = name;
    dir = rq.dir;
    time = time;
    size = size;
    md5 = md5;
    type = file_type;
    absolute_path = path;
    pos = pos 0;
    file_fd = file_fd;
  })

-- The file header goes out; each `strcpy` is into an array of the packet.
pub send_header : DownloadFileRq → ℤ → FileInfo → M (Unit {0})
send_header rq fd file = do
  dir ← copy_to max_path_size rq.dir
  md5 ← copy_to max_size file.md5
  name ← copy_to max_path_size file.name
  type ← copy_to max_size file.type
  send_data fd (
      file_header_rq (record {
        timestamp = rq.timestamp;
        fileid = rq.fileid;
        file_name = name;
        size = file.size;
        dir = dir;
        md5 = md5;
        file_type = type;
      }))

pub register_download : DownloadFileRq → ℤ → FileInfo → M (Unit {0})
unfolding send_header
register_download rq fd file = do
  put_file (session_key rq.userid rq.timestamp) file
  exists ← gets (λ s. is_exist (session_key rq.userid rq.timestamp) s.files)
  if not exists then stop else send_header rq fd file

pub download_file : DownloadFileRq → ℤ → M (Unit {0})
unfolding read_row register_download
download_file rq fd = do
  sql ← sprintf def_content_size (select_download rq.userid rq.dir rq.fileid)
  (res, lststr) ← select_mysql sql 5 []
  if not res then stop else elim lststr [
    | [] ↦ stop
    | t ∷ ts ↦ (do
      file ← read_row rq (t ∷ ts)
      if leb_ℤ file.file_fd (pos 0) then stop else register_download rq fd file)
  ]

-- A chunk as it goes out: `read` fills the head of a zeroed array of 4096 bytes.
abbrev pub chunk : ℤ → ℤ → ℤ → Text → ℤ → FileContentRq
chunk timestamp userid fileid content len = record {
  timestamp = timestamp;
  userid = userid;
  fileid = fileid;
  content = content;
  len = len;
}

abbrev pub read_chunk : FileInfo → M (ℤ × Text)
read_chunk file = call (fetched file.file_fd def_buffer) (λ sys. sys.read_file)

pub download_file_head_rs : FileHeaderRs → ℤ → M (Unit {0})
download_file_head_rs rs fd = do
  found ← gets (λ s. find (session_key rs.userid rs.timestamp) s.files)
  elim found [
    | none ↦ stop
    | some file ↦ (do
      (len, content) ← read_chunk file
      if ltb_ℤ len (pos 0)
          then stop
          else send_data fd (file_content_rq (chunk rs.timestamp rs.userid rs.fileid content len)))
  ]

-- After the last acknowledgement: the descriptor is closed and the entry goes.
abbrev pub finish_download : ℤ → FileInfo → M (Unit {0})
finish_download key file = do
  call (closed file.file_fd) (λ sys t. tt)
  modify λ s. record s { files = erase key s.files }

abbrev pub seek_by : FileInfo → ℤ → M (Unit {0})
seek_by file offset = call (sought file.file_fd offset seek_cur) (λ sys t. tt)

-- What follows the read: a failure moves the descriptor and still sends the packet.
pub after_read : FileContentRs → ℤ → ℤ → FileInfo → ℤ → Text → M (Unit {0})
after_read rs fd key file len content =
    if ltb_ℤ len (pos 0)
    then (seek_by file (pos 0 -ℤ len)
        >> send_data fd (file_content_rq (chunk rs.timestamp rs.userid rs.fileid content len)))
    else if leb_ℤ file.size file.pos
    then (finish_download key file >> stop)
    else send_data fd (file_content_rq (chunk rs.timestamp rs.userid rs.fileid content len))

-- The client has stored a chunk: the next one, or the end.
pub next_chunk : FileContentRs → ℤ → ℤ → FileInfo → M (Unit {0})
unfolding after_read
next_chunk rs fd key file =
    let moved = record file { pos = to_int (file.pos +ℤ rs.len) } in
    do put_file key moved; (len, content) ← read_chunk moved; after_read rs fd key moved len content

-- The client could not store a chunk: the descriptor goes back, and a chunk of length 0 goes out.
pub repeat_chunk : FileContentRs → ℤ → FileInfo → M (Unit {0})
repeat_chunk rs fd file = do
  seek_by file (pos 0 -ℤ rs.len)
  send_data fd (file_content_rq (chunk rs.timestamp rs.userid rs.fileid [] (pos 0)))

pub file_content_rs : FileContentRs → ℤ → M (Unit {0})
unfolding next_chunk repeat_chunk
file_content_rs rs fd = do
  found ← gets (λ s. find (session_key rs.userid rs.timestamp) s.files)
  elim found [
    | none ↦ stop
    | some file ↦
        if eq_ℤ rs.result (pos 0)
        then repeat_chunk rs fd file
        else next_chunk rs fd (session_key rs.userid rs.timestamp) file
  ]
