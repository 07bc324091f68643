-- ===== src/Logic/Upload/Buffers.antt =====
-- `uploadFile` writes no buffer past its end.
use nest_disk.Base.{
  ℕ, ◌+◌, ◌<◌, ◌≤◌, ◌≡◌, ℤ, pos, negsuc, eq_ℤ, Text, not, List, [], ◌∷◌, length, length-format,
  bound, format, arith, if◌then◌else◌,
}
use nest_disk.Packet.{quick_upload_rs, UploadFileRq, def_content_size, max_path_size, max_size}
use nest_disk.Env.{
  M, stop, overflow, call, opened, create_truncate, send_data, number_of, pop_front,
}
use nest_disk.Env.Rules.{
  Avoids, Avoids-bind, Avoids-sprintf, Avoids-if, number_of-Avoids, pop_front-Avoids,
}
use nest_disk.Mysql.{select_mysql, updata_mysql}
use nest_disk.Mysql.Faults.{select_mysql-Avoids, updata_mysql-Avoids}
use nest_disk.Logic.{session_key}
use nest_disk.Logic.Upload.{
  select_by_md5, insert_user_file, server_path, insert_file, select_by_path, quick_upload, new_file,
  put_file, upload_reply, relate_file, keep_fid, find_fid, store_upload, start_upload, new_upload,
  upload_found, upload_file,
}

-- The strings of the request are NUL-terminated in their arrays.
abbrev pub Fits : UploadFileRq → Type 0
Fits rq =
    (length rq.file_name < max_path_size)
    × (length rq.dir < max_path_size)
    × (length rq.md5 < max_size)
    × (length rq.file_type < max_size)
    × (length rq.time < max_size)

quick_upload-Avoids :
    (rq : UploadFileRq) (fd : ℤ) (l : List Text) → Fits rq → Avoids overflow (quick_upload rq fd l)
unfolding quick_upload nest_disk.Base.codes
quick_upload-Avoids rq fd l (n, d, m, t, u) =
    Avoids-bind overflow (pop_front l) _ (pop_front-Avoids overflow l (λ e. cc)) λ (v, rest).
      Avoids-bind overflow (number_of v) _ (number_of-Avoids overflow v (λ e. cc)) λ fid.
        Avoids-sprintf overflow def_content_size
          (insert_user_file rq.userid fid rq.dir rq.file_name rq.time) _ (omega arith)
          (Avoids-bind overflow
            (updata_mysql (format (insert_user_file rq.userid fid rq.dir rq.file_name rq.time))) _
            (updata_mysql-Avoids
              (format (insert_user_file rq.userid fid rq.dir rq.file_name rq.time)))
            λ res.
              Avoids-if overflow (not res) stop
                (send_data fd (
                  quick_upload_rs (record {
                    timestamp = rq.timestamp;
                    userid = rq.userid;
                    fileid = fid;
                    result = pos 1;
                  })))
                (λ sys s e. cc) (λ sys s e. cc))

-- The path on the server is shorter than the array that it is written to.
pub server_path-Fits : (rq : UploadFileRq) → Fits rq → bound (server_path rq) < 400
unfolding nest_disk.Base.codes
server_path-Fits rq (n, d, m, t, u) = omega arith

module _ (rq : UploadFileRq) (fd : ℤ) (fits : Fits rq) (path : Text) (short : length path < 400)
    (file_fd : ℤ) where
  relate_file-Avoids :
      (fid : ℤ) → Avoids overflow (relate_file rq fd (new_file rq path file_fd) fid)
  unfolding relate_file nest_disk.Base.codes
  relate_file-Avoids fid =
      Avoids-sprintf overflow def_content_size
        (insert_user_file rq.userid fid rq.dir rq.file_name rq.time) _
        (omega (arith, fits.0, fits.1, fits.4))
        (Avoids-bind overflow
          (updata_mysql (format (insert_user_file rq.userid fid rq.dir rq.file_name rq.time))) _
          (updata_mysql-Avoids
            (format (insert_user_file rq.userid fid rq.dir rq.file_name rq.time)))
          λ res.
            Avoids-if overflow (not res) stop (upload_reply rq fd fid) (λ sys s e. cc)
              (λ sys s e. cc))

  keep_fid-Avoids : (l : List Text) → Avoids overflow (keep_fid rq fd (new_file rq path file_fd) l)
  unfolding keep_fid
  keep_fid-Avoids l =
      Avoids-bind overflow (pop_front l) _ (pop_front-Avoids overflow l (λ e. cc)) λ (id, rest).
        Avoids-bind overflow (number_of id) _ (number_of-Avoids overflow id (λ e. cc)) λ fid.
          Avoids-bind overflow
            (put_file (session_key rq.userid rq.timestamp)
              (record (new_file rq path file_fd) { fid = fid }))
            (λ u. relate_file rq fd (new_file rq path file_fd) fid) (λ sys s e. cc)
            λ u. relate_file-Avoids fid

  find_fid-Avoids : Avoids overflow (find_fid rq fd (new_file rq path file_fd))
  unfolding find_fid nest_disk.Base.codes
  find_fid-Avoids =
      Avoids-sprintf overflow def_content_size (select_by_path rq.md5 path) _
        (omega (arith, fits.2, short))
        (Avoids-bind overflow (select_mysql (format (select_by_path rq.md5 path)) 1 []) _
          (select_mysql-Avoids (format (select_by_path rq.md5 path)) 1 [])
          λ (res, l).
            Avoids-if overflow (not res) stop (keep_fid rq fd (new_file rq path file_fd) l)
              (λ sys s e. cc) (keep_fid-Avoids l))

  store_upload-Avoids : Avoids overflow (store_upload rq fd (new_file rq path file_fd))
  unfolding store_upload nest_disk.Base.codes
  store_upload-Avoids =
      Avoids-sprintf overflow def_content_size (insert_file rq.size path rq.md5 rq.file_type) _
        (omega (arith, fits.2, fits.3, short))
        (Avoids-bind overflow (updata_mysql (format (insert_file rq.size path rq.md5 rq.file_type)))
          _ (updata_mysql-Avoids (format (insert_file rq.size path rq.md5 rq.file_type)))
          λ res.
            Avoids-if overflow (not res) stop (find_fid rq fd (new_file rq path file_fd))
              (λ sys s e. cc) find_fid-Avoids)

  start_upload-Avoids : Avoids overflow (start_upload rq fd (new_file rq path file_fd))
  unfolding start_upload
  start_upload-Avoids =
      Avoids-bind overflow
        (put_file (session_key rq.userid rq.timestamp) (new_file rq path file_fd))
        (λ u. store_upload rq fd (new_file rq path file_fd)) (λ sys s e. cc)
        λ u. store_upload-Avoids

-- What follows the opening of the file.
abbrev opened_file : UploadFileRq → ℤ → Text → ℤ → M (Unit {0})
opened_file rq fd path file_fd =
    if eq_ℤ file_fd (negsuc 0) then stop else start_upload rq fd (new_file rq path file_fd)

new_upload-Avoids : (rq : UploadFileRq) (fd : ℤ) → Fits rq → Avoids overflow (new_upload rq fd)
unfolding new_upload
new_upload-Avoids rq fd fits =
    let short = server_path-Fits rq fits in
    Avoids-sprintf overflow 1000 (server_path rq) _ (omega arith) (
      Avoids-bind overflow
        (call (opened (format (server_path rq)) create_truncate) (λ sys. sys.open_file))
        (opened_file rq fd (format (server_path rq))) (λ sys s e. cc)
        λ file_fd.
          Avoids-if overflow (eq_ℤ file_fd (negsuc 0)) stop
            (start_upload rq fd (new_file rq (format (server_path rq)) file_fd)) (λ sys s e. cc)
            (start_upload-Avoids rq fd fits (format (server_path rq))
              (omega (arith, length-format (server_path rq))) file_fd))

upload_found-Avoids :
    (rq : UploadFileRq) (fd : ℤ) (l : List Text) → Fits rq → Avoids overflow (upload_found rq fd l)
unfolding upload_found
upload_found-Avoids rq fd [] fits = new_upload-Avoids rq fd fits
upload_found-Avoids rq fd (t ∷ ts) fits = quick_upload-Avoids rq fd (t ∷ ts) fits

-- Whatever the database and the file system answer, an upload request whose strings are NUL-terminated
-- in their arrays never makes `sprintf` write past the end of a statement or of the path.
pub upload_file-Avoids :
    (rq : UploadFileRq) (fd : ℤ) → Fits rq → Avoids overflow (upload_file rq fd)
unfolding upload_file nest_disk.Base.codes
upload_file-Avoids rq fd fits =
    Avoids-sprintf overflow def_content_size (select_by_md5 rq.md5) _ (omega (arith, fits.2)) (
      Avoids-bind overflow (select_mysql (format (select_by_md5 rq.md5)) 1 []) _
        (select_mysql-Avoids (format (select_by_md5 rq.md5)) 1 [])
        λ (res, l).
          Avoids-if overflow (not res) stop (upload_found rq fd l) (λ sys s e. cc)
            (upload_found-Avoids rq fd l fits))
