-- ===== src/Logic/Tests/Links.antt =====
-- A link with a folder and a file, and the copy of the folder's entries.
use nest_disk.Base.{
  text_eq, ◌<◌, ℕ, ◌≡◌, refl, pos, ℤ, Text, ◌≤◌, none, some, List, [], ◌∷◌, map, format, arith,
  length,
}
use nest_disk.Packet.{GetShareRq}
use nest_disk.Env.{Sys, Row, ok, sent}
use nest_disk.Mysql.Rows.{after_asking, asked, row_of}
use nest_disk.Logic.{subdir}
use nest_disk.Logic.Tree.{depth, IsWithin, path_limit, rows, Lists}
use nest_disk.Logic.Link.{select_shared, select_by_link, add_folder_by_share_dir, get_share_by_link}
use nest_disk.Logic.Link.Copy.{share_columns, copies, add_folder_by_share_dir-copies}
use nest_disk.Logic.Link.Items.{Shared, no_more, one_file, one_folder, columns_of, deepest, taken}
use nest_disk.Logic.Link.Take.{link_reply, get_share_by_link_lem}
use nest_disk.Logic.Tests.{fresh_server}
use nest_disk.Logic.Tests.Walks.{root, inner, inner_dir, album, album_dir, replies}

abbrev share_table : List (Text × List Row)
share_table =
    (format (select_shared album_dir), map row_of (rows share_columns album))
    ∷ (format (select_shared inner_dir), map row_of (rows share_columns inner))
    ∷ []

-- The directory into which the user takes what is shared.
abbrev mine : Text
mine = subdir root (b'm' ∷ [])

abbrev time : Text
time = b'9' ∷ []

album_here : IsWithin path_limit album_dir album
album_here = (
  (omega arith, omega arith),
  omega arith,
  ((omega arith, omega arith), omega arith, ((omega arith, omega arith), omega arith, tt), tt),
)

album_there : IsWithin path_limit (subdir mine (b'p' ∷ [])) album
album_there = (
  (omega arith, omega arith),
  omega arith,
  ((omega arith, omega arith), omega arith, ((omega arith, omega arith), omega arith, tt), tt),
)

album_shared : Lists share_columns select_shared (replies share_table) album_dir album
unfolding rows text_eq format nest_disk.Base.codes nest_disk.Base.decimal nest_disk.Base.digits_of
album_shared t = refl

inner_shared : Lists share_columns select_shared (replies share_table) inner_dir inner
unfolding rows text_eq format nest_disk.Base.codes nest_disk.Base.decimal nest_disk.Base.digits_of
inner_shared t = refl

add_folder_by_share_dir-copies_example :
    add_folder_by_share_dir 2
      (pos 43)
      time
      (subdir mine (b'p' ∷ []))
      album_dir
      (replies share_table)
      fresh_server
    ≡ (
      ok tt,
      after_asking
          (format (select_shared album_dir)
            ∷ copies (pos 43) time (subdir mine (b'p' ∷ [])) album_dir album)
          fresh_server,
    )
unfolding depth
add_folder_by_share_dir-copies_example =
    add_folder_by_share_dir-copies 2 (pos 43) time (subdir mine (b'p' ∷ [])) album_dir album
      (replies share_table) fresh_server (λ t. refl) (omega arith) (omega arith) (omega arith)
      album_there album_here album_shared (inner_shared, tt, tt)

abbrev take_link : GetShareRq
take_link = record { userid = pos 43; share_link = pos 123456789; dir = mine; time = time }

abbrev linked : Shared
linked =
    one_folder (pos 42) (pos 4) root (b'p' ∷ []) album
      (one_file (pos 42) (pos 8) root (b'c' ∷ []) no_more)

abbrev link_sys : Sys
link_sys =
    replies
      ((format (select_by_link (pos 123456789)), map (map some) (columns_of linked)) ∷ share_table)

album_linked : Lists share_columns select_shared link_sys album_dir album
unfolding rows text_eq format nest_disk.Base.codes nest_disk.Base.decimal nest_disk.Base.digits_of
album_linked t = refl

inner_linked : Lists share_columns select_shared link_sys inner_dir inner
unfolding rows text_eq format nest_disk.Base.codes nest_disk.Base.decimal nest_disk.Base.digits_of
inner_linked t = refl

get_share_by_link_lem_example : get_share_by_link 2 take_link (pos 7) link_sys fresh_server ≡ (
  ok tt,
  record fresh_server {
    trace =
        sent (pos 7) (link_reply take_link linked)
        ∷ asked (format (select_by_link (pos 123456789)) ∷ taken (pos 43) time mine linked) [];
  },
)
unfolding deepest depth columns_of text_eq format nest_disk.Base.codes nest_disk.Base.decimal
    nest_disk.Base.digits_of
get_share_by_link_lem_example =
    get_share_by_link_lem 2 take_link (pos 7) linked link_sys fresh_server (λ t. refl) (omega arith)
      (omega arith) (omega arith)
      (
        ((omega arith, omega arith), (omega arith, omega arith)),
        omega arith,
        omega arith,
        album_there,
        album_here,
        (((omega arith, omega arith), (omega arith, omega arith)), omega arith, tt),
      )
      refl (album_linked, (inner_linked, tt, tt), tt)
