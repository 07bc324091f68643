-- ===== src/Logic/Tests/FolderDownloads.antt =====
-- The download of a folder with a file and a folder, in which there is one more file.
use nest_disk.Base.{◌≡◌, refl, pos, ℤ, Text, List, [], ◌∷◌, map, some, decimal, format, arith}
use nest_disk.Packet.{DownloadFolderRq, add_folder_rq}
use nest_disk.Env.{Sys, Server, Row, ok}
use nest_disk.Mysql.Rows.{row_of}
use nest_disk.Logic.Tree.{depth, rows, Lists}
use nest_disk.Logic.Download.{select_download, download_file}
use nest_disk.Logic.Download.Offer.{Details, HasRow, offered, download_file-offered}
use nest_disk.Logic.FolderDownload.{select_name, select_inside, folder_packet, download_file_folder}
use nest_disk.Logic.FolderDownload.Grown.{Grew}
use nest_disk.Logic.FolderDownload.Walk.{
  inside_columns, offers, lookups, count_files, stamps, AllKnown,
}
use nest_disk.Logic.FolderDownload.Whole.{download_file_folder_lem}
use nest_disk.Logic.Tests.{fresh_server}
use nest_disk.Logic.Tests.Walks.{root, inner, album, album_dir, inner_dir, replies}

abbrev rq : DownloadFolderRq
rq = record { timestamp = pos 1200; userid = pos 42; fileid = pos 4; dir = root }

abbrev picture : Details
picture = record { size = pos 3; time = b'9' ∷ []; path = b'/' ∷ b'x' ∷ []; md5 = b'm' ∷ [] }

abbrev info : ℤ → Details
info fid = picture

abbrev row_for : Text → List Row
row_for name =
    map (map some)
      ((name ∷ decimal (pos 3) ∷ (b'9' ∷ []) ∷ (b'/' ∷ b'x' ∷ []) ∷ (b'm' ∷ []) ∷ []) ∷ [])

abbrev sys : Sys
sys = replies (
    (format (select_name rq), map (map some) (((b'p' ∷ []) ∷ []) ∷ []))
    ∷ (format (select_inside (pos 42) album_dir), map row_of (rows inside_columns album))
    ∷ (format (select_inside (pos 42) inner_dir), map row_of (rows inside_columns inner))
    ∷ (format (select_download (pos 42) album_dir (pos 5)), row_for (b'a' ∷ []))
    ∷ (format (select_download (pos 42) inner_dir (pos 7)), row_for (b'b' ∷ []))
    ∷ [])

album_listed : Lists inside_columns (select_inside (pos 42)) sys album_dir album
unfolding nest_disk.Base.text_eq format nest_disk.Base.codes decimal nest_disk.Base.digits_of
album_listed t = refl

inner_listed : Lists inside_columns (select_inside (pos 42)) sys inner_dir inner
unfolding nest_disk.Base.text_eq format nest_disk.Base.codes decimal nest_disk.Base.digits_of
inner_listed t = refl

outer_row : HasRow sys (pos 42) album_dir (pos 5) (b'a' ∷ []) picture
unfolding nest_disk.Base.text_eq format nest_disk.Base.codes decimal nest_disk.Base.digits_of
outer_row t = refl

inner_row : HasRow sys (pos 42) inner_dir (pos 7) (b'b' ∷ []) picture
unfolding nest_disk.Base.text_eq format nest_disk.Base.codes decimal nest_disk.Base.digits_of
inner_row t = refl

album-AllKnown : AllKnown (pos 42) (pos 7) info sys album_dir album
album-AllKnown = (
  (omega arith, omega arith),
  ((omega arith, omega arith), omega arith, omega arith, omega arith),
  outer_row,
  (
    (omega arith, omega arith),
    omega arith,
    inner_listed,
    (
      (omega arith, omega arith),
      ((omega arith, omega arith), omega arith, omega arith, omega arith),
      inner_row,
      tt,
    ),
    tt,
  ),
)

download_file_folder_lem_example :
    (s' : Server) × (download_file_folder 2 3 rq (pos 7) sys fresh_server ≡ (ok tt, s'))
    × Grew
        (pos 42)
        ((pos 7, add_folder_rq (folder_packet album_dir))
          ∷ offers (pos 42) (pos 7) info album_dir album)
        (format (select_name rq)
          ∷ format (select_inside (pos 42) album_dir)
          ∷ lookups (pos 42) (pos 7) info album_dir album)
        (count_files album)
        fresh_server
        s'
unfolding depth count_files stamps nest_disk.Base.text_eq format nest_disk.Base.codes decimal
    nest_disk.Base.digits_of nest_disk.Base.◌+ℤ◌
download_file_folder_lem_example =
    download_file_folder_lem 2 3 rq (pos 7) (b'p' ∷ []) album info sys fresh_server (λ t. refl)
      (λ t. refl) (omega arith) (omega arith) refl album_listed album-AllKnown (omega arith)
      (omega arith) (omega arith, omega arith) (omega arith, omega arith)

download_file-offered_example :
    download_file
      (record { timestamp = pos 1200; userid = pos 42; fileid = pos 5; dir = album_dir })
      (pos 7)
      sys
      fresh_server
    ≡ (
      ok tt,
      offered (pos 42) (pos 7) album_dir (pos 1200) (pos 5) (b'a' ∷ []) picture sys fresh_server,
    )
download_file-offered_example =
    download_file-offered (pos 42) (pos 7) album_dir (pos 1200) (pos 5) (b'a' ∷ []) picture sys
      fresh_server (λ t. refl) (λ t. refl) outer_row
      ((omega arith, omega arith), omega arith, omega arith, omega arith)
