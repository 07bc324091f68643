-- ===== src/Mysql.antt =====
-- src/Mysql.cpp: the queries, on top of the client library. Both run under the connection's mutex.
pub mod Faults
pub mod Rows
use nest_disk.Base.{
  ℕ, zero, suc, Text, Bool, true, false, Option, none, some, List, [], ◌∷◌, ◌++◌, not,
  if◌then◌else◌,
}
use nest_disk.Env.{M, Row, queried, call, pure, fail, null_column, short_row, ◌>>=◌, ok}

-- The first `n` columns of a row are pushed to the list's back.
unfoldable pub push_columns : ℕ → List Text → Row → M (List Text)
push_columns zero lst row = pure lst
push_columns (suc n) lst [] = fail short_row
push_columns (suc n) lst (none ∷ row) = fail null_column
push_columns (suc n) lst (some c ∷ row) = push_columns n (lst ++ (c ∷ [])) row

unfoldable pub push_rows : ℕ → List Text → List Row → M (List Text)
unfolding push_columns
push_rows n lst [] = pure lst
push_rows n lst (row ∷ rows) = do lst' ← push_columns n lst row; push_rows n lst' rows

abbrev pub stored : ℕ → List Text → Option (List Row) → M (Bool × List Text)
stored n lst none = pure (false, lst)
stored n lst (some rows) = do lst' ← push_rows n lst rows; pure (true, lst')

-- The result is the success flag and the list, which the caller's call by reference changes.
unfoldable pub select_mysql : Text → ℕ → List Text → M (Bool × List Text)
select_mysql sql n lst = do
  failed ← call (queried sql) (λ sys t. sys.mysql_query t)
  results ← λ sys s. (ok (sys.mysql_store_result s.trace), s)
  if failed then pure (false, lst) else stored n lst results

unfoldable pub updata_mysql : Text → M Bool
updata_mysql sql = do failed ← call (queried sql) (λ sys t. sys.mysql_query t); pure (not failed)
