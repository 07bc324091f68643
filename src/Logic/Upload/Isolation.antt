-- ===== src/Logic/Upload/Isolation.antt =====
-- src/clogic.cpp: what the pieces of the handlers in Upload send, and to whom.
use nest_disk.Base.{ℕ, ℤ, Text, List, [], ◌∷◌, Option-cases, inl, inr, pos, refl, leb_ℤ}
use nest_disk.Packet.{
  def_pack_file_content_rs, def_pack_quick_upload_rs, def_pack_upload_file_rs, FileContentRq,
  FileInfo, UploadFileRq,
}
use nest_disk.MyMap.{find}
use nest_disk.Env.{stop}
use nest_disk.Env.Isolation.{Allowed, to, OnlyTo, if-OnlyTo, stop-OnlyTo}
use nest_disk.Env.Pieces.{pieces}
use nest_disk.Logic.{session_key}
use nest_disk.Logic.Upload.{
  quick_upload, relate_file, keep_fid, find_fid, store_upload, start_upload, new_upload,
  upload_found, upload_file, finish_upload, write_chunk, advance, on_chunk, file_content_rq,
}

abbrev pub upload_replies : List ℕ
upload_replies = def_pack_upload_file_rs ∷ def_pack_quick_upload_rs ∷ []

pub quick_upload-OnlyTo :
    (fd : ℤ) (rq : UploadFileRq) (lststr : List Text)
    → OnlyTo (to fd upload_replies) (quick_upload rq fd lststr)
unfolding quick_upload
quick_upload-OnlyTo fd rq lststr = search pieces depth 30

pub relate_file-OnlyTo :
    (fd : ℤ) (rq : UploadFileRq) (file : FileInfo) (fid : ℤ)
    → OnlyTo (to fd upload_replies) (relate_file rq fd file fid)
unfolding relate_file
relate_file-OnlyTo fd rq file fid = search pieces depth 30

pub keep_fid-OnlyTo :
    (fd : ℤ) (rq : UploadFileRq) (file : FileInfo) (lststr : List Text)
    → OnlyTo (to fd upload_replies) (keep_fid rq fd file lststr)
unfolding keep_fid
keep_fid-OnlyTo fd rq file lststr = search (pieces, relate_file-OnlyTo) depth 30

pub find_fid-OnlyTo :
    (fd : ℤ) (rq : UploadFileRq) (file : FileInfo)
    → OnlyTo (to fd upload_replies) (find_fid rq fd file)
unfolding find_fid
find_fid-OnlyTo fd rq file = search (pieces, keep_fid-OnlyTo) depth 30

pub store_upload-OnlyTo :
    (fd : ℤ) (rq : UploadFileRq) (file : FileInfo)
    → OnlyTo (to fd upload_replies) (store_upload rq fd file)
unfolding store_upload
store_upload-OnlyTo fd rq file = search (pieces, find_fid-OnlyTo) depth 30

pub start_upload-OnlyTo :
    (fd : ℤ) (rq : UploadFileRq) (file : FileInfo)
    → OnlyTo (to fd upload_replies) (start_upload rq fd file)
unfolding start_upload
start_upload-OnlyTo fd rq file = search (pieces, store_upload-OnlyTo) depth 30

pub new_upload-OnlyTo :
    (fd : ℤ) (rq : UploadFileRq) → OnlyTo (to fd upload_replies) (new_upload rq fd)
unfolding new_upload
new_upload-OnlyTo fd rq = search (pieces, start_upload-OnlyTo) depth 30

pub upload_found-OnlyTo :
    (fd : ℤ) (rq : UploadFileRq) (l : List Text)
    → OnlyTo (to fd upload_replies) (upload_found rq fd l)
unfolding upload_found
upload_found-OnlyTo fd rq [] = search (pieces, quick_upload-OnlyTo, new_upload-OnlyTo) depth 30
upload_found-OnlyTo fd rq (t ∷ ts) =
    search (pieces, quick_upload-OnlyTo, new_upload-OnlyTo) depth 30

pub upload_file-OnlyTo :
    (fd : ℤ) (rq : UploadFileRq) → OnlyTo (to fd upload_replies) (upload_file rq fd)
unfolding upload_file
upload_file-OnlyTo fd rq = search (pieces, upload_found-OnlyTo) depth 30

pub finish_upload-OnlyTo :
    (allowed : Allowed) (rq : FileContentRq) (key : ℤ) (file : FileInfo)
    → OnlyTo allowed (finish_upload rq key file)
unfolding finish_upload
finish_upload-OnlyTo allowed rq key file = search pieces depth 30

pub write_chunk-OnlyTo :
    (allowed : Allowed) (file_fd : ℤ) (content : Text) (len : ℤ)
    → OnlyTo allowed (write_chunk file_fd content len)
unfolding write_chunk
write_chunk-OnlyTo allowed file_fd content len = search pieces depth 30

pub advance-OnlyTo :
    (allowed : Allowed) (rq : FileContentRq) (key : ℤ) (file : FileInfo) (len : ℤ)
    → OnlyTo allowed (advance rq key file len)
unfolding advance
advance-OnlyTo allowed rq key file len = search (pieces, finish_upload-OnlyTo) depth 30

pub on_chunk-OnlyTo :
    (fd : ℤ) (rq : FileContentRq) (key : ℤ) (file : FileInfo)
    → OnlyTo (to fd (def_pack_file_content_rs ∷ [])) (on_chunk rq fd key file)
unfolding on_chunk
on_chunk-OnlyTo fd rq key file = search (pieces, write_chunk-OnlyTo, advance-OnlyTo) depth 30

pub file_content_rq-OnlyTo :
    (fd : ℤ) (rq : FileContentRq)
    → OnlyTo (to fd (def_pack_file_content_rs ∷ [])) (file_content_rq rq fd)
unfolding file_content_rq
file_content_rq-OnlyTo fd rq = record {
  keeps = λ sys s. elim (Option-cases (find (session_key rq.userid rq.timestamp) s.files)) [
    | inl e ↦ rw (e) refl
    | inr (file, e) ↦ rw (e) (
        (if-OnlyTo (to fd (def_pack_file_content_rs ∷ [])) (leb_ℤ rq.len (pos 0)) stop
            (on_chunk rq fd (session_key rq.userid rq.timestamp) file)
            (stop-OnlyTo (to fd (def_pack_file_content_rs ∷ [])))
            (on_chunk-OnlyTo fd rq (session_key rq.userid rq.timestamp) file)).keeps
          sys s)
  ];
}
