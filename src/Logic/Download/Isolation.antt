-- ===== src/Logic/Download/Isolation.antt =====
-- src/clogic.cpp: what the pieces of the handlers in Download send, and to whom.
use nest_disk.Base.{
  ℤ, Text, List, [], ◌∷◌, if◌then◌else◌, eq_ℤ, Option-cases, inl, inr, pos, refl, leb_ℤ, ltb_ℤ, not,
}
use nest_disk.Packet.{
  def_pack_file_content_rq, def_pack_file_header_rq, def_content_size, file_content_rq,
  DownloadFileRq, FileContentRs, FileHeaderRs, FileInfo,
}
use nest_disk.MyMap.{find}
use nest_disk.Env.{stop, ◌>>=◌, send_data, sprintf}
use nest_disk.Mysql.{select_mysql}
use nest_disk.Env.Isolation.{Allowed, to, OnlyTo, bind-OnlyTo, if-OnlyTo, stop-OnlyTo}
use nest_disk.Env.Pieces.{pieces, sprintf-OnlyTo, select_mysql-OnlyTo}
use nest_disk.Logic.{session_key}
use nest_disk.Logic.Download.{
  select_download, read_chunk, chunk, read_row, send_header, register_download, download_file,
  download_file_head_rs, after_read, next_chunk, repeat_chunk, file_content_rs,
}

pub read_row-OnlyTo :
    (allowed : Allowed) (rq : DownloadFileRq) (l0 : List Text) → OnlyTo allowed (read_row rq l0)
unfolding read_row
read_row-OnlyTo allowed rq l0 = search pieces depth 30

pub send_header-OnlyTo :
    (fd : ℤ) (rq : DownloadFileRq) (file : FileInfo)
    → OnlyTo (to fd (def_pack_file_header_rq ∷ [])) (send_header rq fd file)
unfolding send_header
send_header-OnlyTo fd rq file = search pieces depth 30

pub register_download-OnlyTo :
    (fd : ℤ) (rq : DownloadFileRq) (file : FileInfo)
    → OnlyTo (to fd (def_pack_file_header_rq ∷ [])) (register_download rq fd file)
unfolding register_download
register_download-OnlyTo fd rq file = search (pieces, send_header-OnlyTo) depth 30

header_of-OnlyTo :
    (fd : ℤ) (rq : DownloadFileRq) (l : List Text)
    → OnlyTo {A = Unit {0}} (to fd (def_pack_file_header_rq ∷ [])) (elim l [
      | [] ↦ stop
      | t ∷ ts ↦
          (read_row rq (t ∷ ts) >>= λ file.
          if leb_ℤ file.file_fd (pos 0) then stop else register_download rq fd file)
    ])
header_of-OnlyTo fd rq [] = search pieces
header_of-OnlyTo fd rq (t ∷ ts) =
    search (pieces, read_row-OnlyTo, register_download-OnlyTo) depth 30

pub download_file-OnlyTo :
    (fd : ℤ) (rq : DownloadFileRq)
    → OnlyTo (to fd (def_pack_file_header_rq ∷ [])) (download_file rq fd)
unfolding download_file
download_file-OnlyTo fd rq =
    let sql = select_download rq.userid rq.dir rq.fileid in
    bind-OnlyTo (to fd (def_pack_file_header_rq ∷ [])) (sprintf def_content_size sql) _
      (sprintf-OnlyTo (to fd (def_pack_file_header_rq ∷ [])) def_content_size sql)
      λ q.
        bind-OnlyTo (to fd (def_pack_file_header_rq ∷ [])) (select_mysql q 5 []) _
          (select_mysql-OnlyTo (to fd (def_pack_file_header_rq ∷ [])) q 5 [])
          λ r.
            if-OnlyTo (to fd (def_pack_file_header_rq ∷ [])) (not r.0) stop _
              (stop-OnlyTo (to fd (def_pack_file_header_rq ∷ []))) (header_of-OnlyTo fd rq r.1)

header_chunk-OnlyTo :
    (fd : ℤ) (rs : FileHeaderRs) (file : FileInfo)
    → OnlyTo (to fd (def_pack_file_content_rq ∷ [])) (
        read_chunk file >>= λ r.
        if ltb_ℤ r.0 (pos 0)
        then stop
        else send_data fd (file_content_rq (chunk rs.timestamp rs.userid rs.fileid r.1 r.0)))
header_chunk-OnlyTo fd rs file = search pieces depth 30

pub download_file_head_rs-OnlyTo :
    (fd : ℤ) (rs : FileHeaderRs)
    → OnlyTo (to fd (def_pack_file_content_rq ∷ [])) (download_file_head_rs rs fd)
unfolding download_file_head_rs
download_file_head_rs-OnlyTo fd rs = record {
  keeps = λ sys s. elim (Option-cases (find (session_key rs.userid rs.timestamp) s.files)) [
    | inl e ↦ rw (e) refl
    | inr (file, e) ↦ rw (e) ((header_chunk-OnlyTo fd rs file).keeps sys s)
  ];
}

pub after_read-OnlyTo :
    (fd : ℤ) (rs : FileContentRs) (key : ℤ) (file : FileInfo) (len : ℤ) (content : Text)
    → OnlyTo (to fd (def_pack_file_content_rq ∷ [])) (after_read rs fd key file len content)
unfolding after_read
after_read-OnlyTo fd rs key file len content = search pieces depth 30

pub next_chunk-OnlyTo :
    (fd : ℤ) (rs : FileContentRs) (key : ℤ) (file : FileInfo)
    → OnlyTo (to fd (def_pack_file_content_rq ∷ [])) (next_chunk rs fd key file)
unfolding next_chunk
next_chunk-OnlyTo fd rs key file = search (pieces, after_read-OnlyTo) depth 30

pub repeat_chunk-OnlyTo :
    (fd : ℤ) (rs : FileContentRs) (file : FileInfo)
    → OnlyTo (to fd (def_pack_file_content_rq ∷ [])) (repeat_chunk rs fd file)
unfolding repeat_chunk
repeat_chunk-OnlyTo fd rs file = search pieces depth 30

pub file_content_rs-OnlyTo :
    (fd : ℤ) (rs : FileContentRs)
    → OnlyTo (to fd (def_pack_file_content_rq ∷ [])) (file_content_rs rs fd)
unfolding file_content_rs
file_content_rs-OnlyTo fd rs = record {
  keeps = λ sys s. elim (Option-cases (find (session_key rs.userid rs.timestamp) s.files)) [
    | inl e ↦ rw (e) refl
    | inr (file, e) ↦ rw (e) (
        (if-OnlyTo (to fd (def_pack_file_content_rq ∷ [])) (eq_ℤ rs.result (pos 0))
            (repeat_chunk rs fd file) (next_chunk rs fd (session_key rs.userid rs.timestamp) file)
            (repeat_chunk-OnlyTo fd rs file)
            (next_chunk-OnlyTo fd rs (session_key rs.userid rs.timestamp) file)).keeps
          sys s)
  ];
}
