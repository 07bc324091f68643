-- ===== src/Mysql/Faults.antt =====
-- The faults of the queries: none in a buffer.
use nest_disk.Base.{
  ℕ, zero, suc, Text, true, Bool-cases, inl, inr, Option, none, some, List, [], ◌∷◌, ◌++◌,
}
use nest_disk.Env.{Row, overflow, queried, pure}
use nest_disk.Env.Rules.{Avoids, Avoids-bind}
use nest_disk.Mysql.{push_columns, push_rows, stored, select_mysql, updata_mysql}

push_columns-Avoids :
    (n : ℕ) (lst : List Text) (row : Row) → Avoids overflow (push_columns n lst row)
unfolding push_columns
push_columns-Avoids zero lst row sys s = λ e. cc
push_columns-Avoids (suc n) lst [] sys s = λ e. cc
push_columns-Avoids (suc n) lst (none ∷ row) sys s = λ e. cc
push_columns-Avoids (suc n) lst (some c ∷ row) sys s =
    push_columns-Avoids n (lst ++ (c ∷ [])) row sys s

push_rows-Avoids :
    (n : ℕ) (lst : List Text) (rows : List Row) → Avoids overflow (push_rows n lst rows)
unfolding push_rows
push_rows-Avoids n lst [] sys s = λ e. cc
push_rows-Avoids n lst (row ∷ rows) sys s =
    Avoids-bind overflow (push_columns n lst row) (λ l. push_rows n l rows)
      (push_columns-Avoids n lst row) (λ l. push_rows-Avoids n l rows) sys s

stored-Avoids : (n : ℕ) (lst : List Text) (o : Option (List Row)) → Avoids overflow (stored n lst o)
stored-Avoids n lst none sys s = λ e. cc
stored-Avoids n lst (some rows) sys s =
    Avoids-bind overflow (push_rows n lst rows) (λ l. pure (true, l)) (push_rows-Avoids n lst rows)
      (λ l sys s e. cc) sys s

pub select_mysql-Avoids :
    (sql : Text) (n : ℕ) (lst : List Text) → Avoids overflow (select_mysql sql n lst)
unfolding select_mysql
select_mysql-Avoids sql n lst sys s = elim (Bool-cases (sys.mysql_query (queried sql ∷ s.trace))) [
  | inl bad ↦ rw (bad, select_mysql) (λ e. cc)
  | inr good ↦
      rw (good, select_mysql)
        (stored-Avoids n lst (sys.mysql_store_result (queried sql ∷ s.trace)) sys
          (record s { trace = queried sql ∷ s.trace }))
]

pub updata_mysql-Avoids : (sql : Text) → Avoids overflow (updata_mysql sql)
unfolding updata_mysql
updata_mysql-Avoids sql sys s = λ e. cc
