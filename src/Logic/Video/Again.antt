-- ===== src/Logic/Video/Again.antt =====
-- A second request for a video whose transcoding has failed.
use nest_disk.Base.{
  ◌<◌, ◌≡◌, ◌≢◌, ap, ◌∙◌, ℤ, pos, eq_ℤ, eq_ℤ_iff, Text, text_eq, text_eq_self, Bool, true, false,
  some, List, [], ◌∷◌, map, format, length, ◌||◌, arith,
}
use nest_disk.Packet.{PlayVideoRq, max_path_size, max_size}
use nest_disk.Env.{Sys, Server, Trace, ok, returned, queried, asked_stat, made_dir, sent}
use nest_disk.Mysql.Rows.{Serves}
use nest_disk.Logic.Video.{select_video, play_video}
use nest_disk.Logic.Video.Play.{
  Video, columns_of, named, is_plain, dir_of, looked, transcoded, play_outcome, play_reply,
  play_video_lem,
}

-- Whether the directory has been made.
unfoldable pub has_made : Text → Trace → Bool
has_made dir [] = false
has_made dir (made_dir d ∷ t) = let rest = has_made dir t in text_eq d dir || rest
has_made dir (_ ∷ t) = has_made dir t

-- A directory that has been made is found.
abbrev pub Remembers : Sys → Text → Type 0
Remembers sys dir = (t : Trace) → has_made dir t ≡ true → sys.stat (asked_stat dir ∷ t) ≡ pos 0

is_zero : (a : ℤ) → a ≡ pos 0 → eq_ℤ a (pos 0) ≡ true
is_zero a h = ground (arith, eq_ℤ_iff a (pos 0))

is_nonzero : (a : ℤ) → a ≢ pos 0 → eq_ℤ a (pos 0) ≡ false
is_nonzero a h = ground (arith, eq_ℤ_iff a (pos 0))

-- ffmpeg fails for a video whose directory was not there, and a directory that has been made is found
-- later: then the request gets no reply, and the next request for the same video is answered with
-- success and the playlist, although ffmpeg is not started again.
pub play_video-after_failure :
    (rq : PlayVideoRq) (fd : ℤ) (vs : List Video) (sys : Sys) (s : Server)
    → Serves sys
    → length rq.dir < max_path_size
    → ((t : Trace)
        → sys.mysql_store_result (queried (format (select_video rq)) ∷ t)
          ≡ some (map (map some) (columns_of vs)))
    → length (named vs).0 < max_size
    → is_plain (named vs).0 ≡ true
    → Remembers sys (dir_of (named vs).0)
    → sys.stat (looked rq (named vs) s.trace) ≢ pos 0
    → sys.system (transcoded rq (named vs) s.trace) ≢ pos 0
    → (play_video rq fd sys s ≡ (returned, record s { trace = transcoded rq (named vs) s.trace }))
      × (play_video rq fd sys (record s { trace = transcoded rq (named vs) s.trace }) ≡ (
        ok tt,
        record s {
          trace =
              sent fd (play_reply rq (named vs).0)
              ∷ looked rq (named vs) (transcoded rq (named vs) s.trace);
        },
      ))
unfolding has_made
play_video-after_failure rq fd vs sys s good d rows short plain keeps gone failed =
    let v = named vs in
    let s1 = record s { trace = transcoded rq v s.trace } in
    (
      play_video_lem rq fd vs sys s good d (rows s.trace) short plain
          ∙ ap
              (λ (f : Bool).
                play_outcome rq fd v s f (eq_ℤ (sys.system (transcoded rq v s.trace)) (pos 0)))
              (is_nonzero (sys.stat (looked rq v s.trace)) gone)
          ∙ ap (λ (e : Bool). play_outcome rq fd v s false e)
              (is_nonzero (sys.system (transcoded rq v s.trace)) failed),
      play_video_lem rq fd vs sys s1 good d (rows s1.trace) short plain
          ∙ ap
              (λ (f : Bool).
                play_outcome rq fd v s1 f (eq_ℤ (sys.system (transcoded rq v s1.trace)) (pos 0)))
              (is_zero (sys.stat (looked rq v s1.trace))
                (keeps _ (ground (arith, text_eq_self (dir_of v.0))))),
    )
