-- ===== src/Logic/Share/Isolation.antt =====
-- src/clogic.cpp: what the pieces of the handlers in Share send, and to whom.
use nest_disk.Base.{ℕ, zero, suc, ℤ, Text, List, [], ◌∷◌, not}
use nest_disk.Packet.{def_pack_share_file_rs, def_content_size, ShareFileRq}
use nest_disk.Env.{pure, stop, sprintf}
use nest_disk.Mysql.{select_mysql}
use nest_disk.Env.Isolation.{Allowed, to, OnlyTo, bind-OnlyTo, if-OnlyTo, stop-OnlyTo}
use nest_disk.Env.Pieces.{pieces, sprintf-OnlyTo, select_mysql-OnlyTo}
use nest_disk.Logic.Share.{select_link, draw_link, choose_link, link_items, share_file}

pub draw_link-OnlyTo : (allowed : Allowed) → OnlyTo allowed draw_link
unfolding draw_link
draw_link-OnlyTo allowed = search pieces depth 30

link_or_again-OnlyTo :
    (allowed : Allowed) (link : ℤ) (fuel : ℕ)
    → ((l : List Text) → OnlyTo allowed (choose_link fuel l))
    → (l : List Text)
    → OnlyTo allowed (elim l [ [] ↦ pure link | t ∷ ts ↦ choose_link fuel (t ∷ ts) ])
link_or_again-OnlyTo allowed link fuel h [] = search pieces
link_or_again-OnlyTo allowed link fuel h (t ∷ ts) = h (t ∷ ts)

pub choose_link-OnlyTo :
    (allowed : Allowed) (n : ℕ) (lststr : List Text) → OnlyTo allowed (choose_link n lststr)
unfolding choose_link
choose_link-OnlyTo allowed zero lststr = search (pieces, draw_link-OnlyTo) depth 30
choose_link-OnlyTo allowed (suc fuel) lststr =
    bind-OnlyTo allowed draw_link _ (draw_link-OnlyTo allowed) λ link.
      bind-OnlyTo allowed (sprintf def_content_size (select_link link)) _
        (sprintf-OnlyTo allowed def_content_size (select_link link))
        λ q.
          bind-OnlyTo allowed (select_mysql q 1 lststr) _ (select_mysql-OnlyTo allowed q 1 lststr)
            λ r.
              if-OnlyTo allowed (not r.0) stop _ (stop-OnlyTo allowed)
                (link_or_again-OnlyTo allowed link fuel (choose_link-OnlyTo allowed fuel) r.1)

pub link_items-OnlyTo :
    (allowed : Allowed) (rq : ShareFileRq) (link : ℤ) (n : ℕ) (fids : List ℤ)
    → OnlyTo allowed (link_items rq link n fids)
unfolding link_items
link_items-OnlyTo allowed rq link zero fids = search pieces depth 30
link_items-OnlyTo allowed rq link (suc n) [] = search pieces depth 30
link_items-OnlyTo allowed rq link (suc n) (fid ∷ fids) =
    let ih = link_items-OnlyTo allowed rq link n fids in search pieces depth 30

pub share_file-OnlyTo :
    (fd : ℤ) (fuel : ℕ) (rq : ShareFileRq)
    → OnlyTo (to fd (def_pack_share_file_rs ∷ [])) (share_file fuel rq fd)
unfolding share_file
share_file-OnlyTo fd fuel rq = search (pieces, choose_link-OnlyTo, link_items-OnlyTo) depth 30
