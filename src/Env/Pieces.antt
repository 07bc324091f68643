-- ===== src/Env/Pieces.antt =====
-- The rules for the pieces that handlers are made of, and the set of all these rules.
use nest_disk.Base.{
  ℕ, zero, suc, ◌≡◌, refl, ◌∙◌, ap, sym, ◌==◌, ◌&&◌, ◌||◌, ℤ, eq_ℤ, eq_ℤ_iff, Text, Bool, true,
  false, Option, none, some, List, [], ◌∷◌, ◌++◌, Piece, stoi, length, ltb, format, if◌then◌else◌,
  arith,
}
use nest_disk.Env.{
  Server, Row, Out, ok, returned, fault, spent, M, pure, fail, modify, function_call, function_end,
  copy_to, sprintf, number_of, pop_front, bad_number, empty_front,
}
use nest_disk.Mysql.{push_columns, push_rows, select_mysql, updata_mysql, stored}
use nest_disk.Env.Isolation.{
  Allowed, strays, OnlyTo, bind-OnlyTo, option-OnlyTo, list-OnlyTo, pure-OnlyTo, stop-OnlyTo,
  fail-OnlyTo, out_of_fuel-OnlyTo, gets-OnlyTo, answer-OnlyTo, if-OnlyTo, queried-OnlyTo,
  opened-OnlyTo, wrote-OnlyTo, fetched-OnlyTo, sought-OnlyTo, closed-OnlyTo, made_dir-OnlyTo,
  drew-OnlyTo, removed-OnlyTo, asked_stat-OnlyTo, ran-OnlyTo, send_data-OnlyTo,
}

pub modify-OnlyTo :
    (allowed : Allowed) (f : Server → Server)
    → ((s : Server) → (f s).trace ≡ s.trace)
    → OnlyTo allowed (modify f)
modify-OnlyTo allowed f h = record { keeps = λ sys s. ap (strays allowed) (h s) }

function_end-OnlyTo :
    (allowed : Allowed) (r : Out (Unit {0}) × Server)
    → strays allowed (function_end r).1.trace ≡ strays allowed r.1.trace
function_end-OnlyTo allowed (ok a, s) = refl
function_end-OnlyTo allowed (returned, s) = refl
function_end-OnlyTo allowed (fault e, s) = refl
function_end-OnlyTo allowed (spent, s) = refl

pub function_call-OnlyTo :
    (allowed : Allowed) (m : M (Unit {0})) → OnlyTo allowed m → OnlyTo allowed (function_call m)
function_call-OnlyTo allowed m h = record {
  keeps = λ sys s. function_end-OnlyTo allowed (m sys s) ∙ h.keeps sys s;
}

pub copy_to-OnlyTo : (allowed : Allowed) (size : ℕ) (t : Text) → OnlyTo allowed (copy_to size t)
unfolding copy_to
copy_to-OnlyTo allowed size t = search (if-OnlyTo, pure-OnlyTo, fail-OnlyTo)

pub sprintf-OnlyTo :
    (allowed : Allowed) (size : ℕ) (ps : List Piece) → OnlyTo allowed (sprintf size ps)
unfolding sprintf
sprintf-OnlyTo allowed size ps = copy_to-OnlyTo allowed size (format ps)

pub number_of-OnlyTo : (allowed : Allowed) (t : Text) → OnlyTo allowed (number_of t)
unfolding number_of
number_of-OnlyTo allowed t =
    option-OnlyTo allowed (stoi t) (fail bad_number) pure (fail-OnlyTo allowed bad_number)
      (pure-OnlyTo allowed)

pub pop_front-OnlyTo : (allowed : Allowed) (l : List Text) → OnlyTo allowed (pop_front l)
unfolding pop_front
pop_front-OnlyTo allowed [] = fail-OnlyTo allowed empty_front
pop_front-OnlyTo allowed (t ∷ ts) = pure-OnlyTo allowed (t, ts)

push_columns-OnlyTo :
    (allowed : Allowed) (n : ℕ) (l : List Text) (row : Row) → OnlyTo allowed (push_columns n l row)
unfolding push_columns
push_columns-OnlyTo allowed zero l row = search (pure-OnlyTo)
push_columns-OnlyTo allowed (suc n) l [] = search (fail-OnlyTo)
push_columns-OnlyTo allowed (suc n) l (none ∷ row) = search (fail-OnlyTo)
push_columns-OnlyTo allowed (suc n) l (some c ∷ row) =
    push_columns-OnlyTo allowed n (l ++ (c ∷ [])) row

push_rows-OnlyTo :
    (allowed : Allowed) (n : ℕ) (l : List Text) (rows : List Row)
    → OnlyTo allowed (push_rows n l rows)
unfolding push_rows
push_rows-OnlyTo allowed n l [] = search (pure-OnlyTo)
push_rows-OnlyTo allowed n l (row ∷ rows) =
    bind-OnlyTo allowed (push_columns n l row) _ (push_columns-OnlyTo allowed n l row)
      (λ more. push_rows-OnlyTo allowed n more rows)

stored-OnlyTo :
    (allowed : Allowed) (n : ℕ) (l : List Text) (r : Option (List Row))
    → OnlyTo allowed (stored n l r)
stored-OnlyTo allowed n l none = pure-OnlyTo allowed (false, l)
stored-OnlyTo allowed n l (some rows) = search (bind-OnlyTo, push_rows-OnlyTo, pure-OnlyTo)

pub select_mysql-OnlyTo :
    (allowed : Allowed) (sql : Text) (n : ℕ) (l : List Text) → OnlyTo allowed (select_mysql sql n l)
unfolding select_mysql
select_mysql-OnlyTo allowed sql n l =
    search (bind-OnlyTo, queried-OnlyTo, if-OnlyTo, pure-OnlyTo, stored-OnlyTo)

pub updata_mysql-OnlyTo : (allowed : Allowed) (sql : Text) → OnlyTo allowed (updata_mysql sql)
unfolding updata_mysql
updata_mysql-OnlyTo allowed sql = search (bind-OnlyTo, queried-OnlyTo, pure-OnlyTo)

-- The rules for the pieces of all handlers.
pub ruleset pieces = (
  bind-OnlyTo, if-OnlyTo, pure-OnlyTo, stop-OnlyTo, fail-OnlyTo, out_of_fuel-OnlyTo, gets-OnlyTo,
  answer-OnlyTo, option-OnlyTo, list-OnlyTo, opened-OnlyTo, wrote-OnlyTo, fetched-OnlyTo,
  sought-OnlyTo, closed-OnlyTo, made_dir-OnlyTo, drew-OnlyTo, removed-OnlyTo, asked_stat-OnlyTo,
  ran-OnlyTo, send_data-OnlyTo, modify-OnlyTo, refl, function_call-OnlyTo, copy_to-OnlyTo,
  sprintf-OnlyTo, number_of-OnlyTo, pop_front-OnlyTo, select_mysql-OnlyTo, updata_mysql-OnlyTo,
)
