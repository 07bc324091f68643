-- ===== src/Logic/Download/Offer.antt =====
-- src/clogic.cpp, `downloadFile`: a file that the database and the file system know.
use nest_disk.Base.{
  ℕ, suc, ◌+◌, ◌<◌, ◌≤◌, ◌≡◌, ◌≢◌, refl, sym, ap, ◌∙◌, ℤ, pos, leb_ℤ, eq_ℤ, eq_ℤ_iff, InInt, Text,
  true, false, none, some, List, [], ◌∷◌, map, length, Piece, format, bound, decimal, stoi-decimal,
  arith,
}
use nest_disk.Packet.{
  FileHeaderRq, FileInfo, file_header_rq, def_content_size, max_path_size, max_size,
}
use nest_disk.MyMap.{insert, is_exist-insert}
use nest_disk.Env.{Sys, Server, Trace, ok, queried, opened, sent, read_only, pop_front}
use nest_disk.Env.Rules.{sprintf-eq-ok, copy_to-eq-ok, number_of-eq-ok}
use nest_disk.Mysql.Rows.{Serves, select_mysql-all, concat}
use nest_disk.Logic.{session_key, file_type}
use nest_disk.Logic.Download.{
  select_download, read_row, send_header, register_download, download_file,
}

-- What the database knows of a file besides its name.
pub record Details : Type 0 where
  pub size : ℤ
  pub time : Text
  pub path : Text
  pub md5 : Text

-- The file's row, whenever it is asked for.
abbrev pub HasRow : Sys → ℤ → Text → ℤ → Text → Details → Type 0
HasRow sys u dir fid name f =
    (t : Trace)
    → sys.mysql_store_result (queried (format (select_download u dir fid)) ∷ t)
      ≡ some (map (map some) ((name ∷ decimal f.size ∷ f.time ∷ f.path ∷ f.md5 ∷ []) ∷ []))

-- Every `open` gives a descriptor.
abbrev pub Opens : Sys → Type 0
Opens sys = (t : Trace) → leb_ℤ (sys.open_file t) (pos 0) ≡ false

-- The arrays of the packet have room.
abbrev pub HasRoom : Text → Text → Details → Type 0
HasRoom dir name f =
    InInt f.size
    × (length dir < max_path_size)
    × (length name < max_path_size)
    × (length f.md5 < max_size)

abbrev pub header_of : ℤ → ℤ → Text → Text → Details → FileHeaderRq
header_of timestamp fid dir name f = record {
  timestamp = timestamp;
  fileid = fid;
  file_name = name;
  size = f.size;
  dir = dir;
  md5 = f.md5;
  file_type = file_type;
}

abbrev pub session_of : ℤ → ℤ → Text → Text → Details → FileInfo
session_of file_fd fid dir name f = record {
  fid = fid;
  name = name;
  dir = dir;
  time = f.time;
  size = f.size;
  md5 = f.md5;
  type = file_type;
  absolute_path = f.path;
  pos = pos 0;
  file_fd = file_fd;
}

-- The server behind the download of a file under a timestamp.
abbrev pub offered : ℤ → ℤ → Text → ℤ → ℤ → Text → Details → Sys → Server → Server
offered u fd dir timestamp fid name f sys s =
    let asked = opened f.path read_only ∷ queried (format (select_download u dir fid)) ∷ s.trace in
    record {
      users = s.users;
      files =
          insert (session_key u timestamp) (session_of (sys.open_file asked) fid dir name f)
            s.files;
      trace = sent fd (file_header_rq (header_of timestamp fid dir name f)) ∷ asked;
    }

select_download-fits :
    (u fid : ℤ) (dir : Text)
    → length dir < max_path_size
    → bound (select_download u dir fid) < def_content_size
unfolding nest_disk.Base.codes
select_download-fits u fid dir h = omega arith

register_download-offered :
    (u fd : ℤ) (dir : Text) (timestamp fid file_fd : ℤ) (name : Text) (f : Details) (sys : Sys)
    (s : Server)
    → HasRoom dir name f
    → register_download
        (record { timestamp = timestamp; userid = u; fileid = fid; dir = dir })
        fd
        (session_of file_fd fid dir name f)
        sys
        s
      ≡ (
        ok tt,
        record {
          users = s.users;
          files = insert (session_key u timestamp) (session_of file_fd fid dir name f) s.files;
          trace = sent fd (file_header_rq (header_of timestamp fid dir name f)) ∷ s.trace;
        },
      )
unfolding register_download send_header
register_download-offered u fd dir timestamp fid file_fd name f sys s room =
    let key = session_key u timestamp in
    let file = session_of file_fd fid dir name f in
    let s1 = record s { files = insert key file s.files } in
    rw
      (
        register_download,
        is_exist-insert key file s.files,
        copy_to-eq-ok max_path_size dir sys s1 room.1,
        copy_to-eq-ok max_size f.md5 sys s1 room.3,
        copy_to-eq-ok max_path_size name sys s1 room.2,
        copy_to-eq-ok max_size file_type sys s1 (omega arith),
      )
      refl

-- No statement fails, the look-up gives the row of a file whose strings fit the packet, and `open`
-- gives a descriptor: then `downloadFile` ends, has asked the look-up and opened the file's path, holds
-- the transfer from position 0 under the key of user and timestamp, and has sent one packet, the header.
pub download_file-offered :
    (u fd : ℤ) (dir : Text) (timestamp fid : ℤ) (name : Text) (f : Details) (sys : Sys) (s : Server)
    → Serves sys
    → Opens sys
    → HasRow sys u dir fid name f
    → HasRoom dir name f
    → download_file (record { timestamp = timestamp; userid = u; fileid = fid; dir = dir }) fd sys s
      ≡ (ok tt, offered u fd dir timestamp fid name f sys s)
unfolding download_file read_row pop_front concat
download_file-offered u fd dir timestamp fid name f sys s good opens row room =
    let s1 = record s { trace = queried (format (select_download u dir fid)) ∷ s.trace } in
    rw
      (
        download_file,
        sprintf-eq-ok def_content_size (select_download u dir fid) sys s
            (select_download-fits u fid dir room.1),
        select_mysql-all (format (select_download u dir fid)) 5
            ((name ∷ decimal f.size ∷ f.time ∷ f.path ∷ f.md5 ∷ []) ∷ []) sys s good (row s.trace)
            (refl, tt),
        number_of-eq-ok (decimal f.size) f.size sys s1 (stoi-decimal f.size room.0),
        opens (opened f.path read_only ∷ s1.trace),
      )
      (register_download-offered u fd dir timestamp fid
        (sys.open_file (opened f.path read_only ∷ s1.trace)) name f sys
        (record s { trace = opened f.path read_only ∷ s1.trace }) room)
