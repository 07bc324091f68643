-- ===== src/Logic/Video/Play.antt =====
-- What `playVideo` does.
use nest_disk.Base.{
  ℕ, ◌<◌, ◌≤◌, ◌≡◌, ◌≢◌, refl, ◌∙◌, ap, sym, ℤ, pos, eq_ℤ, eq_ℤ_iff, Text, Bool, true, false, not,
  ◌==◌, ==_iff, some, List, [], ◌∷◌, ◌++◌, map, codes, length, bound, format, length-format, arith,
  if◌then◌else◌,
}
use nest_disk.Packet.{Packet, PlayVideoRq, play_video_rs, def_content_size, max_path_size, max_size}
use nest_disk.Env.{
  ◌>>◌, Sys, Server, Trace, Out, ok, returned, queried, asked_stat, made_dir, ran, sent,
}
use nest_disk.Env.Rules.{copy_to-eq-ok, sprintf-eq-ok}
use nest_disk.Mysql.Rows.{Serves, AllOf, concat, select_mysql-all}
use nest_disk.Logic.Video.{
  select_video, output_dir, output_path, play_dir, command, transcode, expand, print_as_format,
  read_video, make_playlist, look_for_playlist, video_reply, video_found, play_video,
}

-- The rows of the look-up, each an MD5 and a path.
abbrev pub Video : Type 0
Video = Text × Text

unfoldable pub columns_of : List Video → List (List Text)
columns_of [] = []
columns_of ((md5, path) ∷ vs) = (md5 ∷ path ∷ []) ∷ columns_of vs

columns_of-AllOf : (vs : List Video) → AllOf 2 (columns_of vs)
unfolding columns_of
columns_of-AllOf [] = tt
columns_of-AllOf (v ∷ vs) = (refl, columns_of-AllOf vs)

-- The last row, or what was there before.
unfoldable pub last_of : Video → List Video → Video
last_of v [] = v
last_of v (w ∷ vs) = last_of w vs

read_video-last_of :
    (v : Video) (vs : List Video) (sys : Sys) (s : Server)
    → read_video v.0 v.1 (concat (columns_of vs)) sys s ≡ (ok (last_of v vs), s)
unfolding read_video columns_of concat last_of
read_video-last_of v [] sys s = refl
read_video-last_of v (w ∷ vs) sys s = read_video-last_of w vs sys s

-- No percent sign.
unfoldable pub is_plain : Text → Bool
is_plain [] = true
is_plain (c ∷ cs) = let rest = is_plain cs in if c == b'%' then false else rest

is_plain-append : (a b : Text) → is_plain a ≡ true → is_plain b ≡ true → is_plain (a ++ b) ≡ true
unfolding is_plain
is_plain-append [] b h g = g
is_plain-append (c ∷ a) b h g = ground (arith, is_plain-append a b)

expand-plain : (t : Text) → is_plain t ≡ true → expand false t ≡ some t
unfolding is_plain expand
expand-plain [] h = refl
expand-plain (c ∷ cs) h = ground (arith, expand-plain cs)

-- The directory and the playlist of a video, and the command that makes them.
abbrev pub dir_of : Text → Text
dir_of md5 = format (output_dir md5)

abbrev pub command_of : Video → Text
command_of (md5, path) = command path (format (output_path (dir_of md5) md5))

abbrev pub play_reply : PlayVideoRq → Text → Packet
play_reply rq md5 = play_video_rs (record {
  result = pos 1;
  fileid = rq.fileid;
  server_port = pos 80;
  play_dir = format (play_dir md5);
})

play_dir-is_plain : (md5 : Text) → is_plain md5 ≡ true → is_plain (format (play_dir md5)) ≡ true
unfolding format is_plain nest_disk.Base.codes nest_disk.Base.piece
play_dir-is_plain md5 h = is_plain-append md5 _ h (is_plain-append md5 _ h refl)

play_dir-fits : (md5 : Text) → length md5 < max_size → bound (play_dir md5) < max_path_size
unfolding nest_disk.Base.codes
play_dir-fits md5 h = omega arith

select_video-fits :
    (rq : PlayVideoRq) → length rq.dir < max_path_size → bound (select_video rq) < def_content_size
unfolding nest_disk.Base.codes
select_video-fits rq h = omega arith

output_dir-fits : (md5 : Text) → length md5 < max_size → bound (output_dir md5) < 1024
unfolding nest_disk.Base.codes
output_dir-fits md5 h = omega arith

output_path-fits :
    (md5 : Text) → length md5 < max_size → bound (output_path (dir_of md5) md5) < 1024
unfolding nest_disk.Base.codes
output_path-fits md5 h = omega (arith, length-format (output_dir md5))

print_as_format-eq-ok :
    (size : ℕ) (t : Text) (sys : Sys) (s : Server)
    → is_plain t ≡ true
    → length t < size
    → print_as_format size t sys s ≡ (ok t, s)
unfolding print_as_format
print_as_format-eq-ok size t sys s h g =
    rw (print_as_format, expand-plain t h) (copy_to-eq-ok size t sys s g)

video_reply-eq-ok :
    (rq : PlayVideoRq) (fd : ℤ) (md5 : Text) (sys : Sys) (s : Server)
    → length md5 < max_size
    → is_plain md5 ≡ true
    → video_reply rq fd md5 sys s
      ≡ (ok tt, record s { trace = sent fd (play_reply rq md5) ∷ s.trace })
unfolding video_reply
video_reply-eq-ok rq fd md5 sys s short plain =
    rw
      (
        video_reply,
        sprintf-eq-ok 1024 (play_dir md5) sys s (omega (arith, play_dir-fits md5 short)),
        print_as_format-eq-ok max_path_size (format (play_dir md5)) sys s
            (play_dir-is_plain md5 plain)
            (omega (arith, play_dir-fits md5 short, length-format (play_dir md5))),
      )
      refl

-- The traces at which the directory has been looked for, and at which ffmpeg has ended.
abbrev pub looked : PlayVideoRq → Video → Trace → Trace
looked rq v t = asked_stat (dir_of v.0) ∷ queried (format (select_video rq)) ∷ t

abbrev pub transcoded : PlayVideoRq → Video → Trace → Trace
transcoded rq v t = ran (command_of v) ∷ made_dir (dir_of v.0) ∷ looked rq v t

-- How the request ends, by whether the directory was there and whether ffmpeg ended with 0.
abbrev pub play_outcome : PlayVideoRq → ℤ → Video → Server → Bool → Bool → Out (Unit {0}) × Server
play_outcome rq fd v s true _ =
    (ok tt, record s { trace = sent fd (play_reply rq v.0) ∷ looked rq v s.trace })
play_outcome rq fd v s false true =
    (ok tt, record s { trace = sent fd (play_reply rq v.0) ∷ transcoded rq v s.trace })
play_outcome rq fd v s false false = (returned, record s { trace = transcoded rq v s.trace })

video_found-outcome :
    (rq : PlayVideoRq) (fd : ℤ) (v : Video) (found done : Bool) (sys : Sys) (s : Server)
    → length v.0 < max_size
    → is_plain v.0 ≡ true
    → eq_ℤ (sys.stat (looked rq v s.trace)) (pos 0) ≡ found
    → eq_ℤ (sys.system (transcoded rq v s.trace)) (pos 0) ≡ done
    → (look_for_playlist (dir_of v.0) v.1 (format (output_path (dir_of v.0) v.0))
          >> video_reply rq fd v.0)
        sys
        (record s { trace = queried (format (select_video rq)) ∷ s.trace })
      ≡ play_outcome rq fd v s found done
unfolding look_for_playlist make_playlist transcode
video_found-outcome rq fd v true done sys s short plain f d =
    rw (f) (video_reply-eq-ok rq fd v.0 sys (record s { trace = looked rq v s.trace }) short plain)
video_found-outcome rq fd v false true sys s short plain f d =
    rw (f, d)
      (video_reply-eq-ok rq fd v.0 sys (record s { trace = transcoded rq v s.trace }) short plain)
video_found-outcome rq fd v false false sys s short plain f d = rw (f, d) refl

-- The video that the rows of a look-up name: the last one, and none if there is no row.
abbrev pub named : List Video → Video
named vs = last_of ([], []) vs

-- No statement fails, the request's directory fits its array, and the MD5 of the last row that the
-- look-up gives is shorter than its column and has no percent sign: then `playVideo` ends. If the
-- directory of the MD5 exists, it replies with the playlist and starts nothing. Otherwise it makes the
-- directory and runs ffmpeg once: it replies with the same playlist if that ends with 0, and else sends
-- nothing. A look-up without rows counts as one with an empty MD5 and path.
pub play_video_lem :
    (rq : PlayVideoRq) (fd : ℤ) (vs : List Video) (sys : Sys) (s : Server)
    → Serves sys
    → length rq.dir < max_path_size
    → sys.mysql_store_result (queried (format (select_video rq)) ∷ s.trace)
      ≡ some (map (map some) (columns_of vs))
    → length (named vs).0 < max_size
    → is_plain (named vs).0 ≡ true
    → play_video rq fd sys s
      ≡ play_outcome rq fd
          (named vs)
          s
          (eq_ℤ (sys.stat (looked rq (named vs) s.trace)) (pos 0))
          (eq_ℤ (sys.system (transcoded rq (named vs) s.trace)) (pos 0))
unfolding play_video video_found
play_video_lem rq fd vs sys s good d rows short plain =
    let s1 = record s { trace = queried (format (select_video rq)) ∷ s.trace } in
    rw
      (
        play_video,
        sprintf-eq-ok def_content_size (select_video rq) sys s (select_video-fits rq d),
        select_mysql-all (format (select_video rq)) 2 (columns_of vs) sys s good rows
            (columns_of-AllOf vs),
        read_video-last_of ([], []) vs sys s1,
        sprintf-eq-ok 1024 (output_dir (named vs).0) sys s1 (output_dir-fits (named vs).0 short),
        sprintf-eq-ok 1024 (output_path (dir_of (named vs).0) (named vs).0) sys s1
            (output_path-fits (named vs).0 short),
      )
      (video_found-outcome rq fd (named vs) _ _ sys s short plain refl refl)
