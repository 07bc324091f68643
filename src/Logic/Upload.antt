-- ===== src/Logic/Upload.antt =====
-- src/clogic.cpp: `uploadFile` and `fileContentRq`. A `FileInfo` object is reached through one key of
-- the map only, so an assignment through the pointer is a new entry at that key.
pub mod Chunks
pub mod Whole
pub mod Buffers
pub mod Begun
pub mod Guard
pub mod Isolation
use nest_disk.Base.{
  ℤ, pos, negsuc, ◌+ℤ◌, ◌-ℤ◌, eq_ℤ, leb_ℤ, ltb, to_int, pos_part, Text, not, none, some, List, [],
  ◌∷◌, take, Piece, lit, str, int, if◌then◌else◌,
}
use nest_disk.Packet.{
  UploadFileRq, FileContentRq, FileInfo, upload_file_rs, quick_upload_rs, file_content_rs,
  def_content_size, def_buffer,
}
use nest_disk.MyMap.{find, insert, erase}
use nest_disk.Env.{
  M, ◌>>=◌, ◌>>◌, pure, stop, fail, overread, gets, modify, call, opened, wrote, sought, closed,
  create_truncate, seek_cur, send_data, sprintf, number_of, pop_front,
}
use nest_disk.Mysql.{select_mysql, updata_mysql}
use nest_disk.Logic.{session_key}

abbrev pub select_by_md5 : Text → List Piece
select_by_md5 md5 =
    lit "select f_id from t_file where f_MD5='" ∷ str md5 ∷ lit "'and f_state=1;" ∷ []

abbrev pub insert_user_file : ℤ → ℤ → Text → Text → Text → List Piece
insert_user_file userid fid dir name time =
    lit "insert into t_user_file(u_id,f_id,f_dir,f_name,f_uploadTime) values('"
    ∷ int userid
    ∷ lit "','"
    ∷ int fid
    ∷ lit "','"
    ∷ str dir
    ∷ lit "','"
    ∷ str name
    ∷ lit "','"
    ∷ str time
    ∷ lit "');"
    ∷ []

abbrev pub server_path : UploadFileRq → List Piece
server_path rq = lit "/home/xx/Node/NetDisk/" ∷ int rq.userid ∷ str rq.dir ∷ str rq.md5 ∷ []

abbrev pub insert_file : ℤ → Text → Text → Text → List Piece
insert_file size path md5 type =
    lit "insert into t_file(f_size,f_path,f_md5,f_count,f_state,f_type) values('"
    ∷ int size
    ∷ lit "','"
    ∷ str path
    ∷ lit "','"
    ∷ str md5
    ∷ lit "',0,0,'"
    ∷ str type
    ∷ lit "');"
    ∷ []

abbrev pub select_by_path : Text → Text → List Piece
select_by_path md5 path =
    lit "select f_id from t_file where f_MD5='"
    ∷ str md5
    ∷ lit "' and f_path='"
    ∷ str path
    ∷ lit "';"
    ∷ []

-- The content is on the server: only the user's relation to it is stored.
pub quick_upload : UploadFileRq → ℤ → List Text → M (Unit {0})
quick_upload rq fd lststr = do
  (t, rest) ← pop_front lststr
  fid ← number_of t
  sql ← sprintf def_content_size (insert_user_file rq.userid fid rq.dir rq.file_name rq.time)
  res ← updata_mysql sql
  if not res
      then stop
      else send_data fd (
          quick_upload_rs
            (record { timestamp = rq.timestamp; userid = rq.userid; fileid = fid; result = pos 1 }))

abbrev pub new_file : UploadFileRq → Text → ℤ → FileInfo
new_file rq path file_fd = record {
  fid = pos 0;
  name = rq.file_name;
  dir = rq.dir;
  time = rq.time;
  size = rq.size;
  md5 = rq.md5;
  type = rq.file_type;
  absolute_path = path;
  pos = pos 0;
  file_fd = file_fd;
}

abbrev pub put_file : ℤ → FileInfo → M (Unit {0})
put_file key file = modify λ s. record s { files = insert key file s.files }

abbrev pub upload_reply : UploadFileRq → ℤ → ℤ → M (Unit {0})
upload_reply rq fd fid = send_data fd (
    upload_file_rs
      (record { timestamp = rq.timestamp; userid = rq.userid; fileid = fid; result = pos 1 }))

-- The database part of a new upload, from its end: the user's relation to the file,
pub relate_file : UploadFileRq → ℤ → FileInfo → ℤ → M (Unit {0})
relate_file rq fd file fid = do
  sql ← sprintf def_content_size (insert_user_file rq.userid fid file.dir file.name file.time)
  res ← updata_mysql sql
  if not res then stop else upload_reply rq fd fid

-- the file's id,
pub keep_fid : UploadFileRq → ℤ → FileInfo → List Text → M (Unit {0})
keep_fid rq fd file lststr = do
  (id, rest) ← pop_front lststr
  fid ← number_of id
  put_file (session_key rq.userid rq.timestamp) (record file { fid = fid })
  relate_file rq fd file fid

pub find_fid : UploadFileRq → ℤ → FileInfo → M (Unit {0})
find_fid rq fd file = do
  sql ← sprintf def_content_size (select_by_path rq.md5 file.absolute_path)
  (res, lststr) ← select_mysql sql 1 []
  if not res then stop else keep_fid rq fd file lststr

-- and the file's row.
pub store_upload : UploadFileRq → ℤ → FileInfo → M (Unit {0})
store_upload rq fd file = do
  sql ← sprintf def_content_size (insert_file file.size file.absolute_path file.md5 file.type)
  res ← updata_mysql sql
  if not res then stop else find_fid rq fd file

-- The server's file is open: its session is kept.
pub start_upload : UploadFileRq → ℤ → FileInfo → M (Unit {0})
start_upload rq fd file = do
  put_file (session_key rq.userid rq.timestamp) file
  store_upload rq fd file

pub new_upload : UploadFileRq → ℤ → M (Unit {0})
new_upload rq fd = do
  path ← sprintf 1000 (server_path rq)
  file_fd ← call (opened path create_truncate) (λ sys. sys.open_file)
  if eq_ℤ file_fd (negsuc 0) then stop else start_upload rq fd (new_file rq path file_fd)

-- Whether the content is on the server.
pub upload_found : UploadFileRq → ℤ → List Text → M (Unit {0})
upload_found rq fd [] = new_upload rq fd
upload_found rq fd (t ∷ ts) = quick_upload rq fd (t ∷ ts)

pub upload_file : UploadFileRq → ℤ → M (Unit {0})
upload_file rq fd = do
  sql ← sprintf def_content_size (select_by_md5 rq.md5)
  (res, lststr) ← select_mysql sql 1 []
  if not res then stop else upload_found rq fd lststr

abbrev pub set_state_done : ℤ → List Piece
set_state_done fileid = lit "update t_file set f_state=1 where f_id='" ∷ int fileid ∷ lit "';" ∷ []

-- The end of an upload: a failed update is only logged.
pub finish_upload : FileContentRq → ℤ → FileInfo → M (Unit {0})
finish_upload rq key file = do
  sql ← sprintf def_content_size (set_state_done rq.fileid)
  res ← updata_mysql sql
  call (closed file.file_fd) (λ sys t. tt)
  modify λ s. record s { files = erase key s.files }

abbrev pub chunk_reply : FileContentRq → ℤ → ℤ → M (Unit {0})
chunk_reply rq fd r = send_data fd (
    file_content_rs (record {
      timestamp = rq.timestamp;
      userid = rq.userid;
      fileid = rq.fileid;
      result = r;
      len = rq.len;
    }))

-- `write(fd, content, len)` reads `len` bytes from the array `content`.
pub write_chunk : ℤ → Text → ℤ → M ℤ
write_chunk file_fd content len =
    if ltb def_buffer (pos_part len)
    then fail overread
    else call (wrote file_fd (take (pos_part len) content)) (λ sys. sys.write_file)

-- What follows a write of all bytes.
pub advance : FileContentRq → ℤ → FileInfo → ℤ → M (Unit {0})
advance rq key file len =
    let moved = record file { pos = to_int (file.pos +ℤ len) } in
    do
      put_file key moved
      if leb_ℤ moved.size moved.pos then finish_upload rq key moved else pure tt

-- A chunk for a known upload.
pub on_chunk : FileContentRq → ℤ → ℤ → FileInfo → M (Unit {0})
on_chunk rq fd key file = do
  len ← write_chunk file.file_fd rq.content rq.len
  if not (eq_ℤ len rq.len)
      then (call (sought file.file_fd (pos 0 -ℤ len) seek_cur) (λ sys t. tt)
          >> chunk_reply rq fd (pos 0))
      else (advance rq key file len >> chunk_reply rq fd (pos 1))

pub file_content_rq : FileContentRq → ℤ → M (Unit {0})
file_content_rq rq fd = do
  found ← gets (λ s. find (session_key rq.userid rq.timestamp) s.files)
  elim found [
    | none ↦ stop
    | some file ↦
        if leb_ℤ rq.len (pos 0)
        then stop
        else on_chunk rq fd (session_key rq.userid rq.timestamp) file
  ]
