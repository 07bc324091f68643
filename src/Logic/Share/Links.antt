-- ===== src/Logic/Share/Links.antt =====
-- The link that `shareFile` draws.
use nest_disk.Base.{
  ℕ, zero, suc, ◌+◌, ◌*◌, ◌%◌, ◌≤◌, ◌<◌, ◌≡◌, ◌≢◌, refl, ◌∙◌, ap, sym, ℤ, pos, Text, Bool, true,
  false, not, Option, none, some, List, [], ◌∷◌, ◌++◌, arith, format, bound, if◌then◌else◌,
  Bool-cases, inl, inr,
}
use nest_disk.Packet.{def_content_size}
use nest_disk.Env.Rules.{sprintf-eq-ok}
use nest_disk.Env.{Sys, Server, Out, ok, spent, M, after, ◌>>=◌, queried, stop, pure, drew}
use nest_disk.Mysql.{select_mysql}
use nest_disk.Mysql.Rows.{Serves, AllOf, concat, select_mysql-more}
use nest_disk.Env.{Trace}
use nest_disk.Base.{map}
use nest_disk.Logic.Share.{link_of, draw_link, choose_link, select_link}

-- Every link has nine digits, the first of them not 0, and is an `int`.
pub link_of-digits : (a b : ℕ) → (n : ℕ) × (link_of a b ≡ pos n) × (100000000 ≤ n) × (n ≤ 999999999)
unfolding link_of
link_of-digits a b = ((1 + a % 9) * 100000000 + b % 100000000, refl, omega arith, omega arith)

-- The test at the end of a round.
abbrev round_end : ℕ → ℤ → Bool × List Text → M ℤ
round_end fuel link (res, found) =
    if not res then stop else elim found [ [] ↦ pure link | t ∷ ts ↦ choose_link fuel (t ∷ ts) ]

abbrev round_query : ℕ → List Text → ℤ → Text → M ℤ
round_query fuel lst link sql = select_mysql sql 1 lst >>= round_end fuel link

-- The link that the next two results of `random` make, and the server after them.
abbrev pub next_link : Sys → Server → ℤ
next_link sys s = link_of (sys.random (drew ∷ s.trace)) (sys.random (drew ∷ drew ∷ s.trace))

abbrev pub drawn_twice : Server → Server
drawn_twice s = record s { trace = drew ∷ drew ∷ s.trace }

-- The look-up of the first link drawn, run on its own: what it answers, and the server after it.
abbrev pub first_look : Sys → Server → Out (Bool × List Text) × Server
first_look sys s = select_mysql (format (select_link (next_link sys s))) 1 [] sys (drawn_twice s)

select_link-fits : (a b : ℕ) → bound (select_link (link_of a b)) < def_content_size
unfolding link_of nest_disk.Base.codes
select_link-fits a b = omega arith

choose_link-first :
    (fuel : ℕ) (sys : Sys) (s : Server)
    → choose_link (suc fuel) [] sys s
      ≡ after (first_look sys s) (λ r t. round_end fuel (next_link sys s) r sys t)
unfolding choose_link draw_link
choose_link-first fuel sys s =
    ap (λ r. after r (λ q t. round_query fuel [] (next_link sys s) q sys t))
      (sprintf-eq-ok def_content_size (select_link (next_link sys s)) sys (drawn_twice s)
        (select_link-fits (sys.random (drew ∷ s.trace)) (sys.random (drew ∷ drew ∷ s.trace))))

-- If the first link drawn is not in use, it is the one chosen.
pub choose_link-free :
    (fuel : ℕ) (sys : Sys) (s s' : Server)
    → first_look sys s ≡ (ok (true, []), s')
    → choose_link (suc fuel) [] sys s ≡ (ok (next_link sys s), s')
choose_link-free fuel sys s s' e =
    choose_link-first fuel sys s
    ∙ ap (λ r. after r (λ q t. round_end fuel (next_link sys s) q sys t)) e

-- Every query stores a result, of rows with one column that is not NULL.
abbrev pub StoresOne : Sys → Type 0
StoresOne sys =
    (t : Trace)
    → (css : List (List Text)) × (sys.mysql_store_result t ≡ some (map (map some) css))
      × AllOf 1 css

-- Once the list holds a string, there is one more round after each.
choose_link-spent :
    (fuel : ℕ) (t : Text) (ts : List Text) (sys : Sys) (s : Server)
    → Serves sys
    → StoresOne sys
    → (choose_link fuel (t ∷ ts) sys s).0 ≡ spent
unfolding choose_link draw_link
choose_link-spent zero t ts sys s good rows = refl
choose_link-spent (suc fuel) t ts sys s good rows =
    let sql = format (select_link (next_link sys s)) in
    let found = rows (queried sql ∷ (drawn_twice s).trace) in
    rw
      (
        sprintf-eq-ok def_content_size (select_link (next_link sys s)) sys (drawn_twice s)
            (select_link-fits (sys.random (drew ∷ s.trace)) (sys.random (drew ∷ drew ∷ s.trace))),
        select_mysql-more sql 1 (t ∷ ts) found.0 sys (drawn_twice s) good found.1 found.2,
      )
      (choose_link-spent fuel t (ts ++ concat found.0) sys _ good rows)

-- If it is in use, no number of rounds is enough.
pub choose_link-taken :
    (fuel : ℕ) (t : Text) (ts : List Text) (sys : Sys) (s s' : Server)
    → Serves sys
    → StoresOne sys
    → first_look sys s ≡ (ok (true, t ∷ ts), s')
    → (choose_link fuel [] sys s).0 ≡ spent
unfolding choose_link
choose_link-taken zero t ts sys s s' good rows e = refl
choose_link-taken (suc fuel) t ts sys s s' good rows e =
    rw (choose_link-first fuel sys s, e) (choose_link-spent fuel t ts sys s' good rows)
