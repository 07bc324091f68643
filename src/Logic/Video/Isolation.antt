-- ===== src/Logic/Video/Isolation.antt =====
-- src/clogic.cpp: what the pieces of the handlers in Video send, and to whom.
use nest_disk.Base.{ℕ, ℤ, Text, List, Option, [], ◌∷◌, false, none, some}
use nest_disk.Packet.{def_pack_play_video_rs, PlayVideoRq}
use nest_disk.Env.{fail, bad_format, copy_to}
use nest_disk.Env.Isolation.{Allowed, to, OnlyTo}
use nest_disk.Env.Pieces.{pieces}
use nest_disk.Logic.Video.{
  expand, transcode, print_as_format, read_video, make_playlist, look_for_playlist, video_reply,
  video_found, play_video,
}

pub transcode-OnlyTo :
    (allowed : Allowed) (input : Text) (output : Text) → OnlyTo allowed (transcode input output)
unfolding transcode
transcode-OnlyTo allowed input output = search pieces depth 30

pub print_as_format-OnlyTo :
    (allowed : Allowed) (size : ℕ) (t : Text) → OnlyTo allowed (print_as_format size t)
unfolding print_as_format
print_as_format-OnlyTo allowed size t = printed (expand false t)
  where
    printed :
        (o : Option Text)
        → OnlyTo {A = Text} allowed (elim o [ none ↦ fail bad_format | some u ↦ copy_to size u ])
    printed none = search pieces
    printed (some u) = search pieces

pub read_video-OnlyTo :
    (allowed : Allowed) (md5 : Text) (path : Text) (l : List Text)
    → OnlyTo allowed (read_video md5 path l)
unfolding read_video
read_video-OnlyTo allowed md5 path [] = search pieces depth 30
read_video-OnlyTo allowed md5 path (a ∷ []) = search pieces depth 30
read_video-OnlyTo allowed md5 path (a ∷ b ∷ rest) =
    let ih = read_video-OnlyTo allowed a b rest in search pieces depth 30

pub make_playlist-OnlyTo :
    (allowed : Allowed) (dir : Text) (path : Text) (output : Text)
    → OnlyTo allowed (make_playlist dir path output)
unfolding make_playlist
make_playlist-OnlyTo allowed dir path output = search (pieces, transcode-OnlyTo) depth 30

pub look_for_playlist-OnlyTo :
    (allowed : Allowed) (dir : Text) (path : Text) (output : Text)
    → OnlyTo allowed (look_for_playlist dir path output)
unfolding look_for_playlist
look_for_playlist-OnlyTo allowed dir path output = search (pieces, make_playlist-OnlyTo) depth 30

pub video_reply-OnlyTo :
    (fd : ℤ) (rq : PlayVideoRq) (md5 : Text)
    → OnlyTo (to fd (def_pack_play_video_rs ∷ [])) (video_reply rq fd md5)
unfolding video_reply
video_reply-OnlyTo fd rq md5 = search (pieces, print_as_format-OnlyTo) depth 30

pub video_found-OnlyTo :
    (fd : ℤ) (rq : PlayVideoRq) (lststr : List Text)
    → OnlyTo (to fd (def_pack_play_video_rs ∷ [])) (video_found rq fd lststr)
unfolding video_found
video_found-OnlyTo fd rq lststr =
    search (pieces, read_video-OnlyTo, look_for_playlist-OnlyTo, video_reply-OnlyTo) depth 30

pub play_video-OnlyTo :
    (fd : ℤ) (rq : PlayVideoRq) → OnlyTo (to fd (def_pack_play_video_rs ∷ [])) (play_video rq fd)
unfolding play_video
play_video-OnlyTo fd rq = search (pieces, video_found-OnlyTo) depth 30
