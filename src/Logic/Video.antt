-- ===== src/Logic/Video.antt =====
-- src/clogic.cpp: `playVideo`; src/transcode.cpp: `transcode`.
pub mod Play
pub mod Again
pub mod Isolation
use nest_disk.Base.{
  ℕ, ℤ, pos, eq_ℤ, Text, Bool, true, false, not, ◌==◌, Option, none, some, List, [], ◌∷◌, ◌++◌,
  codes, Piece, lit, str, int, if◌then◌else◌,
}
use nest_disk.Packet.{PlayVideoRq, play_video_rs, def_content_size, max_path_size}
use nest_disk.Env.{
  M, ◌>>=◌, ◌>>◌, pure, stop, fail, empty_front, bad_format, call, asked_stat, made_dir, ran,
  send_data, sprintf, copy_to,
}
use nest_disk.Mysql.{select_mysql}

abbrev pub select_video : PlayVideoRq → List Piece
select_video rq =
    lit "select f_md5,f_Path from user_file_info where u_id='"
    ∷ int rq.user_id
    ∷ lit "' and f_id='"
    ∷ int rq.fileid
    ∷ lit "' and f_dir='"
    ∷ str rq.dir
    ∷ lit "';"
    ∷ []

-- `outputDir`, `outputPath` and `playDir`.
abbrev pub output_dir : Text → List Piece
output_dir md5 = lit "/home/xx/Node/NetDisk/hls/" ∷ str md5 ∷ lit "/" ∷ []

abbrev pub output_path : Text → Text → List Piece
output_path dir md5 = str dir ∷ str md5 ∷ lit ".m3u8" ∷ []

abbrev pub play_dir : Text → List Piece
play_dir md5 = lit "/hls/" ∷ str md5 ∷ lit "/" ∷ str md5 ∷ lit ".m3u8" ∷ []

-- The command line of ffmpeg.
unfoldable pub command : Text → Text → Text
command input output =
    codes "ffmpeg -i "
    ++ (input
        ++ (codes
              " -c:v libx264 -c:a aac -strict -2 -start_number 0 -hls_time 10 -hls_list_size 0 -f hls "
            ++ output))

-- Whether ffmpeg ended with 0.
pub transcode : Text → Text → M Bool
transcode input output = do
  result ← call (ran (command input output)) (λ sys. sys.system)
  pure (eq_ℤ result (pos 0))

-- A text as a format without arguments: `%%` is a percent sign, any other directive asks for an
-- argument that is not there. (glibc has `%m`, which needs none; it is counted with the others, since
-- what it prints is not known.) The first argument says whether a percent sign came before.
unfoldable pub expand : Bool → Text → Option Text
expand false [] = some []
expand true [] = none
expand true (c ∷ cs) =
    let rest = expand false cs in
    if c == b'%' then elim rest [ none ↦ none | some t ↦ some (c ∷ t) ] else none
expand false (c ∷ cs) =
    let rest = expand (c == b'%') cs in
    if c == b'%' then rest else elim rest [ none ↦ none | some t ↦ some (c ∷ t) ]

-- `sprintf(rs.playDir, playDir)`.
pub print_as_format : ℕ → Text → M Text
print_as_format size t = elim (expand false t) [
  | none ↦ fail bad_format
  | some printed ↦ copy_to size printed
]

-- The strings of the look-up, two for each row; the last row stays.
pub read_video : Text → Text → List Text → M (Text × Text)
read_video md5 path [] = pure (md5, path)
read_video md5 path (a ∷ []) = fail empty_front
read_video md5 path (a ∷ b ∷ rest) = read_video a b rest

-- The directory is made before the transcoding starts; that it could not be made is only printed.
pub make_playlist : Text → Text → Text → M (Unit {0})
make_playlist dir path output = do
  made ← call (made_dir dir) (λ sys. sys.mkdir)
  done ← transcode path output
  if done then pure tt else stop

pub look_for_playlist : Text → Text → Text → M (Unit {0})
look_for_playlist dir path output = do
  found ← call (asked_stat dir) (λ sys. sys.stat)
  if not (eq_ℤ found (pos 0)) then make_playlist dir path output else pure tt

pub video_reply : PlayVideoRq → ℤ → Text → M (Unit {0})
video_reply rq fd md5 = do
  dir ← sprintf 1024 (play_dir md5)
  copied ← print_as_format max_path_size dir
  send_data fd (
      play_video_rs
        (record { result = pos 1; fileid = rq.fileid; server_port = pos 80; play_dir = copied }))

pub video_found : PlayVideoRq → ℤ → List Text → M (Unit {0})
video_found rq fd lststr = do
  (md5, path) ← read_video [] [] lststr
  dir ← sprintf 1024 (output_dir md5)
  output ← sprintf 1024 (output_path dir md5)
  look_for_playlist dir path output
  video_reply rq fd md5

pub play_video : PlayVideoRq → ℤ → M (Unit {0})
play_video rq fd = do
  sql ← sprintf def_content_size (select_video rq)
  (res, lststr) ← select_mysql sql 2 []
  if not res then stop else video_found rq fd lststr
