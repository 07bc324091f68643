-- ===== src/Logic/Tests/Videos.antt =====
-- A video that has been transcoded, and one whose transcoding fails.
use nest_disk.Base.{some, ◌≡◌, refl, ℤ, pos, negsuc, true, [], ◌∷◌, map, arith, if◌then◌else◌}
use nest_disk.Packet.{PlayVideoRq}
use nest_disk.Env.{Sys, Trace, ok, returned, sent, asked_stat}
use nest_disk.Logic.Video.{play_video}
use nest_disk.Logic.Video.Play.{
  Video, columns_of, named, dir_of, looked, transcoded, play_outcome, play_reply, play_video_lem,
}
use nest_disk.Logic.Video.Again.{has_made, Remembers, play_video-after_failure}
use nest_disk.Logic.Tests.{fresh_server, answers}

abbrev watch : PlayVideoRq
watch = record { fileid = pos 9; user_id = pos 42; dir = b'/' ∷ [] }

abbrev clip : Video
clip = (b'c' ∷ b'9' ∷ [], b'/' ∷ b'v' ∷ [])

abbrev clip_sys : Sys
clip_sys = answers (map (map some) ((clip.0 ∷ clip.1 ∷ []) ∷ []))

play_video_lem_example :
    play_video watch (pos 7) clip_sys fresh_server
    ≡ play_outcome watch (pos 7) clip fresh_server true true
unfolding nest_disk.Logic.Video.Play.last_of columns_of nest_disk.Logic.Video.Play.is_plain
play_video_lem_example =
    play_video_lem watch (pos 7) (clip ∷ []) clip_sys fresh_server (λ t. refl) (omega arith) refl
      (omega arith) refl

-- Only directories that have been made are found, and ffmpeg fails.
abbrev stat_of : Trace → ℤ
stat_of (asked_stat dir ∷ t) = if has_made dir t then pos 0 else negsuc 0
stat_of _ = negsuc 0

abbrev broken : Sys
broken = record clip_sys { stat = stat_of; system = λ t. pos 256 }

broken-Remembers : Remembers broken (dir_of clip.0)
broken-Remembers t h = rw (h) refl

play_video-after_failure_example :
    (play_video watch (pos 7) broken fresh_server
      ≡ (returned, record fresh_server { trace = transcoded watch clip [] }))
    × (play_video watch (pos 7) broken (record fresh_server { trace = transcoded watch clip [] })
        ≡ (
          ok tt,
          record fresh_server {
            trace =
                sent (pos 7) (play_reply watch clip.0)
                ∷ looked watch clip (transcoded watch clip []);
          },
        ))
unfolding columns_of nest_disk.Logic.Video.Play.last_of nest_disk.Logic.Video.Play.is_plain has_made
play_video-after_failure_example =
    play_video-after_failure watch (pos 7) (clip ∷ []) broken fresh_server (λ t. refl) (omega arith)
      (λ t. refl) (omega arith) refl broken-Remembers (λ e. ground arith) (λ e. ground arith)
