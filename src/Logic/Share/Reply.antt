-- ===== src/Logic/Share/Reply.antt =====
-- What `shareFile` does with the link that it draws first.
use nest_disk.Base.{
  ℕ, zero, suc, ◌+◌, ◌<◌, ◌≤◌, ◌≡◌, ◌≢◌, refl, ◌∙◌, ap, sym, ℤ, pos, pos_part, Text, Bool, true,
  false, not, List, [], ◌∷◌, length, take, arith, format, bound, if◌then◌else◌,
}
use nest_disk.Packet.{ShareFileRq, share_file_rs, def_content_size, max_path_size, max_size}
use nest_disk.Env.{
  Sys, Server, Trace, Out, ok, returned, fault, spent, M, after, ◌>>=◌, ◌>>◌, queried, sent,
  send_data, stop,
}
use nest_disk.Env.Rules.{sprintf-eq-ok}
use nest_disk.Mysql.{updata_mysql}
use nest_disk.Mysql.Rows.{Serves}
use nest_disk.Logic.Share.{choose_link, set_link, link_items, share_file}
use nest_disk.Logic.Share.Links.{
  next_link, first_look, choose_link-free, choose_link-taken, StoresOne,
}

-- The trace after the statements that store the link for the files, newest first.
pub linked : ShareFileRq → ℤ → List ℤ → Trace → Trace
linked rq link [] t = t
linked rq link (fid ∷ fids) t =
    linked rq link fids (queried (format (set_link link rq.share_time rq.userid fid rq.dir)) ∷ t)

-- The strings of the request are NUL-terminated in their arrays.
abbrev pub Fits : ShareFileRq → Type 0
Fits rq = (length rq.dir < max_path_size) × (length rq.share_time < max_size)

set_link-Fits :
    (rq : ShareFileRq) (link fid : ℤ)
    → Fits rq
    → bound (set_link link rq.share_time rq.userid fid rq.dir) < def_content_size
unfolding nest_disk.Base.codes
set_link-Fits rq link fid (h, g) = omega arith

abbrev next_items : ShareFileRq → ℤ → ℕ → List ℤ → Bool → M (Unit {0})
next_items rq link n fids res = if not res then stop else link_items rq link n fids

abbrev run_update : ShareFileRq → ℤ → ℕ → List ℤ → Out Text × Server → Sys → Out (Unit {0}) × Server
run_update rq link n fids r sys =
    after r (λ q t. (updata_mysql q >>= next_items rq link n fids) sys t)

link_items-eq :
    (rq : ShareFileRq) (link : ℤ) (n : ℕ) (fids : List ℤ) (sys : Sys) (s : Server)
    → Fits rq
    → Serves sys
    → n ≤ length fids
    → link_items rq link n fids sys s
      ≡ (ok tt, record s { trace = linked rq link (take n fids) s.trace })
unfolding link_items linked updata_mysql
link_items-eq rq link zero fids sys s f g h = refl
link_items-eq rq link (suc n) [] sys s f g h = absurd (omega arith)
link_items-eq rq link (suc n) (fid ∷ fids) sys s f g h =
    ap (λ r. run_update rq link n fids r sys)
      (sprintf-eq-ok def_content_size (set_link link rq.share_time rq.userid fid rq.dir) sys s
        (set_link-Fits rq link fid f))
    ∙ go (sys.mysql_query (queried q ∷ s.trace)) (g (queried q ∷ s.trace)) (
        link_items-eq rq link n fids sys (record s { trace = queried q ∷ s.trace }) f g
          (omega arith))
  where
    q : Text
    q = format (set_link link rq.share_time rq.userid fid rq.dir)

    go :
        (b : Bool)
        → b ≡ false
        → link_items rq link n fids sys (record s { trace = queried q ∷ s.trace })
          ≡ (ok tt, record s { trace = linked rq link (take n fids) (queried q ∷ s.trace) })
        → next_items rq link n fids (not b) sys (record s { trace = queried q ∷ s.trace })
          ≡ (ok tt, record s { trace = linked rq link (take n fids) (queried q ∷ s.trace) })
    go true p ih = cc
    go false p ih = ih

-- The link that is drawn first is not in use, no statement fails, the request's strings fit their
-- arrays and the array holds the announced number of ids: then `share_file` ends, stores that link
-- for each of the announced files in their order, with no other statement after the look-up, and
-- sends one reply.
pub share_file_lem :
    (fuel : ℕ) (rq : ShareFileRq) (fd : ℤ) (sys : Sys) (s s' : Server)
    → Fits rq
    → Serves sys
    → pos_part rq.item_count ≤ length rq.fileid_array
    → first_look sys s ≡ (ok (true, []), s')
    → share_file (suc fuel) rq fd sys s ≡ (
      ok tt,
      record s' {
        trace =
            sent fd (share_file_rs (record { result = pos 1 }))
            ∷ linked rq (next_link sys s) (take (pos_part rq.item_count) rq.fileid_array) s'.trace;
      },
    )
unfolding share_file
share_file_lem fuel rq fd sys s s' f g h e =
    ap
      (λ r. after r (λ link t.
        after (link_items rq link (pos_part rq.item_count) rq.fileid_array sys t) (λ u. reply sys)))
      (choose_link-free fuel sys s s' e)
    ∙ ap (λ r. after r (λ u. reply sys))
        (link_items-eq rq (next_link sys s) (pos_part rq.item_count) rq.fileid_array sys s' f g h)
  where
    reply : M (Unit {0})
    reply = send_data fd (share_file_rs (record { result = pos 1 }))

-- The link that is drawn first is in use, no statement fails, and every query stores a result of rows
-- with one column that is not NULL: then no number of rounds is enough, since the list that the loop
-- tests keeps the first look-up's row. `share_file` uses up all rounds that it is given and does not
-- return, whatever links later look-ups find free.
pub share_file-never_ends :
    (fuel : ℕ) (rq : ShareFileRq) (fd : ℤ) (sys : Sys) (s s' : Server) (t : Text) (ts : List Text)
    → Serves sys
    → StoresOne sys
    → first_look sys s ≡ (ok (true, t ∷ ts), s')
    → (share_file fuel rq fd sys s).0 ≡ spent
unfolding share_file
share_file-never_ends fuel rq fd sys s s' t ts good rows e =
    go (choose_link fuel [] sys s) (choose_link-taken fuel t ts sys s s' good rows e)
  where
    rest : ℤ → M (Unit {0})
    rest link =
        link_items rq link (pos_part rq.item_count) rq.fileid_array
        >> send_data fd (share_file_rs (record { result = pos 1 }))

    go : (r : Out ℤ × Server) → r.0 ≡ spent → (after r (λ a t. rest a sys t)).0 ≡ spent
    go (ok a, t) h = absurd (cc)
    go (returned, t) h = absurd (cc)
    go (fault d, t) h = absurd (cc)
    go (spent, t) h = refl
