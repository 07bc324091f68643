-- ===== src/Logic/Link/Take.antt =====
-- `getShareByLink` from the request to its reply.
use nest_disk.Base.{
  InInt, ℕ, zero, suc, ◌+◌, ◌<◌, ◌≤◌, ◌≡◌, refl, ◌∙◌, ap, sym, ℤ, pos, Text, text_eq, Bool, true,
  false, not, decimal, stoi-decimal, some, List, [], ◌∷◌, ◌++◌, map, length, bound, format, arith,
  if◌then◌else◌,
}
use nest_disk.Packet.{Packet, GetShareRq, get_share_rs, def_content_size, max_path_size, max_size}
use nest_disk.Env.{Sys, Server, ok, sent, queried}
use nest_disk.Env.Rules.{copy_to-eq-ok, sprintf-eq-ok}
use nest_disk.Mysql.Rows.{Serves, asked, after_asking, concat, select_mysql-all}
use nest_disk.Logic.Link.{
  select_by_link, take_items, link_found, get_share_by_link, add_folder_by_share_dir,
}
use nest_disk.Logic.Link.Items.{
  Shared, no_more, one_file, one_folder, columns_of, columns_of-AllOf, taken, deepest, IsRoomy,
  ListsItems, take_items-taken,
}

select_by_link-fits : (link : ℤ) → bound (select_by_link link) < def_content_size
unfolding nest_disk.Base.codes
select_by_link-fits link = omega arith

-- The reply: failure for a link without items.
abbrev pub link_reply : GetShareRq → Shared → Packet
link_reply rq no_more = get_share_rs (record { result = pos 0; dir = [] })
link_reply rq _ = get_share_rs (record { result = pos 1; dir = rq.dir })

link_found-some :
    (fuel : ℕ) (rq : GetShareRq) (fd : ℤ) (t : Text) (ts : List Text) (qs : List Text) (sys : Sys)
    (s : Server)
    → length rq.dir < max_path_size
    → take_items
        (add_folder_by_share_dir fuel rq.userid rq.time)
        rq.userid
        rq.time
        rq.dir
        (t ∷ ts)
        sys
        s
      ≡ (ok tt, after_asking qs s)
    → link_found fuel rq fd (t ∷ ts) sys s ≡ (
      ok tt,
      record s {
        trace = sent fd (get_share_rs (record { result = pos 1; dir = rq.dir })) ∷ asked qs s.trace;
      },
    )
unfolding link_found
link_found-some fuel rq fd t ts qs sys s h e =
    rw (link_found, e, copy_to-eq-ok max_path_size rq.dir sys (after_asking qs s) h) refl

link_found-eq :
    (fuel : ℕ) (rq : GetShareRq) (fd : ℤ) (items : Shared) (sys : Sys) (s : Server)
    → Serves sys
    → length rq.time < max_size
    → length rq.dir < max_path_size
    → deepest items ≤ fuel
    → IsRoomy rq.dir items
    → ListsItems sys items
    → link_found fuel rq fd (concat (columns_of items)) sys s ≡ (
      ok tt,
      record s {
        trace =
            sent fd (link_reply rq items) ∷ asked (taken rq.userid rq.time rq.dir items) s.trace;
      },
    )
unfolding columns_of concat
link_found-eq fuel rq fd no_more sys s good t d deep roomy stored =
    unfold link_found taken asked in refl
link_found-eq fuel rq fd (one_file u fid dir name items) sys s good t d deep roomy stored =
    link_found-some fuel rq fd _ _ _ sys s d (
      take_items-taken fuel rq.userid rq.time rq.dir (one_file u fid dir name items) sys s good t
        deep roomy stored)
link_found-eq fuel rq fd (one_folder u fid dir name es items) sys s good t d deep roomy stored =
    link_found-some fuel rq fd _ _ _ sys s d (
      take_items-taken fuel rq.userid rq.time rq.dir (one_folder u fid dir name es items) sys s good
        t deep roomy stored)

-- No statement fails, no path is longer than 800 bytes, the request's strings fit their arrays, the
-- look-up of the link gives some items and the queries for their folders the entries of trees: then
-- `getShareByLink`, with a depth of calls that is enough for these trees, ends; it has executed the
-- look-up and then the statements that relate each item and each entry below it to the user, in the
-- request's directory as long as no folder has come, and after a folder inside that folder; and it
-- sends one reply, of failure if the link has no items and of success if it has some.
pub get_share_by_link_lem :
    (fuel : ℕ) (rq : GetShareRq) (fd : ℤ) (items : Shared) (sys : Sys) (s : Server)
    → Serves sys
    → length rq.time < max_size
    → length rq.dir < max_path_size
    → deepest items ≤ fuel
    → IsRoomy rq.dir items
    → sys.mysql_store_result (queried (format (select_by_link rq.share_link)) ∷ s.trace)
      ≡ some (map (map some) (columns_of items))
    → ListsItems sys items
    → get_share_by_link fuel rq fd sys s ≡ (
      ok tt,
      record s {
        trace =
            sent fd (link_reply rq items)
            ∷ asked
                (format (select_by_link rq.share_link) ∷ taken rq.userid rq.time rq.dir items)
                s.trace;
      },
    )
unfolding get_share_by_link asked
get_share_by_link_lem fuel rq fd items sys s good t d deep roomy found stored =
    rw
      (
        sprintf-eq-ok def_content_size (select_by_link rq.share_link) sys s
            (select_by_link-fits rq.share_link),
        select_mysql-all (format (select_by_link rq.share_link)) 5 (columns_of items) sys s good
            found (columns_of-AllOf items),
      )
      (link_found-eq fuel rq fd items sys _ good t d deep roomy stored)
