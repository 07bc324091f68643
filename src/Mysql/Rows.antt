-- ===== src/Mysql/Rows.antt =====
-- The queries when every statement succeeds: what comes back, and what was asked.
use nest_disk.Base.{
  arith, zero, suc, ℕ, ◌≡◌, refl, ◌∙◌, ap, sym, Text, true, false, some, List, [], ◌∷◌, ◌++◌, map,
  length, bound, format, Piece, ◌<◌, if◌then◌else◌, not,
}
use mathlib.Core.List.{append_assoc, append-nil}
use nest_disk.Env.{Sys, Server, Trace, Row, M, ok, after, ◌>>=◌, queried, sprintf, stop}
use nest_disk.Env.Rules.{sprintf-eq-ok}
use nest_disk.Packet.{def_content_size}
use nest_disk.Mysql.{push_columns, push_rows, select_mysql, updata_mysql}

-- No statement fails.
abbrev pub Serves : Sys → Type 0
Serves sys = (t : Trace) → sys.mysql_query t ≡ false

-- The trace after some statements, the first of them first.
unfoldable pub asked : List Text → Trace → Trace
asked [] t = t
asked (q ∷ qs) t = asked qs (queried q ∷ t)

pub asked-append : (ps qs : List Text) (t : Trace) → asked (ps ++ qs) t ≡ asked qs (asked ps t)
unfolding asked
asked-append [] qs t = refl
asked-append (p ∷ ps) qs t = asked-append ps qs (queried p ∷ t)

-- The server after them.
abbrev pub after_asking : List Text → Server → Server
after_asking qs s = record s { trace = asked qs s.trace }

-- Rows of three columns, and the list of strings that they become.
abbrev pub Triple : Type 0
Triple = Text × Text × Text

abbrev pub row_of : Triple → Row
row_of (a, b, c) = some a ∷ some b ∷ some c ∷ []

unfoldable pub flat : List Triple → List Text
flat [] = []
flat ((a, b, c) ∷ ts) = a ∷ b ∷ c ∷ flat ts

append_three :
    (acc l : List Text) (a b c : Text)
    → (((acc ++ (a ∷ [])) ++ (b ∷ [])) ++ (c ∷ [])) ++ l ≡ acc ++ (a ∷ b ∷ c ∷ l)
append_three acc l a b c = simp append_assoc

push_rows-flat :
    (ts : List Triple) (acc : List Text) (sys : Sys) (s : Server)
    → push_rows 3 acc (map row_of ts) sys s ≡ (ok (acc ++ flat ts), s)
unfolding push_rows push_columns flat
push_rows-flat [] acc sys s = ap (λ (l : List Text). (ok l, s)) (sym (append-nil acc))
push_rows-flat ((a, b, c) ∷ ts) acc sys s =
    push_rows-flat ts _ sys s ∙ ap (λ (l : List Text). (ok l, s)) (append_three acc (flat ts) a b c)

pub select_mysql-flat :
    (sql : Text) (ts : List Triple) (sys : Sys) (s : Server)
    → Serves sys
    → sys.mysql_store_result (queried sql ∷ s.trace) ≡ some (map row_of ts)
    → select_mysql sql 3 [] sys s ≡ (ok (true, flat ts), record s { trace = queried sql ∷ s.trace })
unfolding select_mysql
select_mysql-flat sql ts sys s good rows =
    rw
      (
        select_mysql,
        good (queried sql ∷ s.trace),
        rows,
        push_rows-flat ts [] sys (record s { trace = queried sql ∷ s.trace }),
      )
      refl

-- Rows of any number of columns, none of them NULL.
abbrev pub AllOf : ℕ → List (List Text) → Type 0
AllOf n [] = Unit {0}
AllOf n (cs ∷ css) = (length cs ≡ n) × AllOf n css

unfoldable pub concat : List (List Text) → List Text
concat [] = []
concat (cs ∷ css) = cs ++ concat css

push_columns-all :
    (n : ℕ) (cs acc : List Text) (sys : Sys) (s : Server)
    → length cs ≡ n
    → push_columns n acc (map some cs) sys s ≡ (ok (acc ++ cs), s)
unfolding push_columns
push_columns-all zero [] acc sys s h = ap (λ (l : List Text). (ok l, s)) (sym (append-nil acc))
push_columns-all zero (c ∷ cs) acc sys s h = absurd (omega arith)
push_columns-all (suc n) [] acc sys s h = absurd (omega arith)
push_columns-all (suc n) (c ∷ cs) acc sys s h =
    push_columns-all n cs (acc ++ (c ∷ [])) sys s (omega arith)
    ∙ ap (λ (l : List Text). (ok l, s)) (append_assoc acc (c ∷ []) cs)

push_rows-all :
    (n : ℕ) (css : List (List Text)) (acc : List Text) (sys : Sys) (s : Server)
    → AllOf n css
    → push_rows n acc (map (map some) css) sys s ≡ (ok (acc ++ concat css), s)
unfolding push_rows concat
push_rows-all n [] acc sys s h = ap (λ (l : List Text). (ok l, s)) (sym (append-nil acc))
push_rows-all n (cs ∷ css) acc sys s h =
    ap (λ r. after r (λ l t. push_rows n l (map (map some) css) sys t))
      (push_columns-all n cs acc sys s h.0)
    ∙ push_rows-all n css (acc ++ cs) sys s h.1
    ∙ ap (λ (l : List Text). (ok l, s)) (append_assoc acc cs (concat css))

pub select_mysql-all :
    (sql : Text) (n : ℕ) (css : List (List Text)) (sys : Sys) (s : Server)
    → Serves sys
    → sys.mysql_store_result (queried sql ∷ s.trace) ≡ some (map (map some) css)
    → AllOf n css
    → select_mysql sql n [] sys s
      ≡ (ok (true, concat css), record s { trace = queried sql ∷ s.trace })
unfolding select_mysql
select_mysql-all sql n css sys s good rows h =
    rw
      (
        select_mysql,
        good (queried sql ∷ s.trace),
        rows,
        push_rows-all n css [] sys (record s { trace = queried sql ∷ s.trace }) h,
      )
      refl

-- The same behind what a list holds already.
pub select_mysql-more :
    (sql : Text) (n : ℕ) (acc : List Text) (css : List (List Text)) (sys : Sys) (s : Server)
    → Serves sys
    → sys.mysql_store_result (queried sql ∷ s.trace) ≡ some (map (map some) css)
    → AllOf n css
    → select_mysql sql n acc sys s
      ≡ (ok (true, acc ++ concat css), record s { trace = queried sql ∷ s.trace })
unfolding select_mysql
select_mysql-more sql n acc css sys s good rows h =
    rw
      (
        select_mysql,
        good (queried sql ∷ s.trace),
        rows,
        push_rows-all n css acc sys (record s { trace = queried sql ∷ s.trace }) h,
      )
      refl

pub updata_mysql-eq-ok :
    (sql : Text) (sys : Sys) (s : Server)
    → Serves sys
    → updata_mysql sql sys s ≡ (ok true, record s { trace = queried sql ∷ s.trace })
unfolding updata_mysql
updata_mysql-eq-ok sql sys s good = rw (good (queried sql ∷ s.trace)) refl

-- A statement that is printed into the usual array and succeeds, before the rest of a handler.
pub update_then :
    {A : Type 0} (ps : List Piece) (k : M A) (sys : Sys) (s : Server)
    → Serves sys
    → bound ps < def_content_size
    → (sprintf def_content_size ps >>= λ sql.
          updata_mysql sql >>= λ res. if not res then stop else k)
        sys s
      ≡ k sys (record s { trace = queried (format ps) ∷ s.trace })
update_then ps k sys s good fits =
    rw (sprintf-eq-ok def_content_size ps sys s fits, updata_mysql-eq-ok (format ps) sys s good)
      refl

-- A query of three columns likewise.
pub select_then :
    {A : Type 0} (ps : List Piece) (ts : List Triple) (k : List Text → M A) (sys : Sys) (s : Server)
    → Serves sys
    → bound ps < def_content_size
    → sys.mysql_store_result (queried (format ps) ∷ s.trace) ≡ some (map row_of ts)
    → (sprintf def_content_size ps >>= λ sql.
          select_mysql sql 3 [] >>= λ r. if not r.0 then stop else k r.1)
        sys s
      ≡ k (flat ts) sys (record s { trace = queried (format ps) ∷ s.trace })
select_then ps ts k sys s good fits rows =
    rw
      (
        sprintf-eq-ok def_content_size ps sys s fits,
        select_mysql-flat (format ps) ts sys s good rows,
      )
      refl
