-- ===== src/Env/Replies.antt =====
-- How many packets a piece of a handler sends, whatever the system answers.
use nest_disk.Base.{
  ℕ, zero, suc, ◌≡◌, refl, ◌∙◌, ap, ℤ, Text, Bool, true, false, Option, none, some, List, [], ◌∷◌,
  ◌++◌, Piece, stoi, length, ltb, format, if◌then◌else◌, Option-cases, Bool-cases, inl, inr,
}
use nest_disk.Packet.{Packet}
use nest_disk.Env.{
  Sys, Server, Row, Out, ok, returned, fault, spent, M, after, ◌>>=◌, ◌>>◌, pure, stop, fail,
  send_data, copy_to, sprintf, number_of, pop_front, queried, overflow,
}
use nest_disk.Env.Views.{packets}
use nest_disk.Mysql.{push_columns, push_rows, select_mysql, updata_mysql, stored}

-- One more packet than before, to `fd`.
abbrev pub OneMore : ℤ → Server → Server → Type 0
OneMore fd s s' = (p : Packet) × (packets s'.trace ≡ packets s.trace ++ ((fd, p) ∷ []))

-- Nothing is sent if the piece goes on, one packet if it returns; a fault promises nothing.
abbrev pub EarlyOut : {A : Type 0} → ℤ → Server → Out A × Server → Type 0
EarlyOut fd s (ok a, s') = packets s'.trace ≡ packets s.trace
EarlyOut fd s (returned, s') = OneMore fd s s'
EarlyOut fd s (fault e, s') = Unit {0}
EarlyOut fd s (spent, s') = Unit {0}

-- One packet is sent, however the piece ends without a fault.
abbrev pub OnceOut : {A : Type 0} → ℤ → Server → Out A × Server → Type 0
OnceOut fd s (ok a, s') = OneMore fd s s'
OnceOut fd s (returned, s') = OneMore fd s s'
OnceOut fd s (fault e, s') = Unit {0}
OnceOut fd s (spent, s') = Unit {0}

abbrev pub Early : {A : Type 0} → ℤ → M A → Type 0
Early fd m = (sys : Sys) (s : Server) → EarlyOut fd s (m sys s)

abbrev pub Once : {A : Type 0} → ℤ → M A → Type 0
Once fd m = (sys : Sys) (s : Server) → OnceOut fd s (m sys s)

OneMore-from :
    (fd : ℤ) (s t u : Server) → packets t.trace ≡ packets s.trace → OneMore fd t u → OneMore fd s u
OneMore-from fd s t u e (p, h) = (p, h ∙ ap (λ (l : List (ℤ × Packet)). l ++ ((fd, p) ∷ [])) e)

module _ {A : Type 0} (fd : ℤ) where
  EarlyOut-from :
      (s t : Server) (r : Out A × Server)
      → packets t.trace ≡ packets s.trace
      → EarlyOut fd t r
      → EarlyOut fd s r
  EarlyOut-from s t (ok a, u) e h = h ∙ e
  EarlyOut-from s t (returned, u) e h = OneMore-from fd s t u e h
  EarlyOut-from s t (fault d, u) e h = tt
  EarlyOut-from s t (spent, u) e h = tt

  OnceOut-from :
      (s t : Server) (r : Out A × Server)
      → packets t.trace ≡ packets s.trace
      → OnceOut fd t r
      → OnceOut fd s r
  OnceOut-from s t (ok a, u) e h = OneMore-from fd s t u e h
  OnceOut-from s t (returned, u) e h = OneMore-from fd s t u e h
  OnceOut-from s t (fault d, u) e h = tt
  OnceOut-from s t (spent, u) e h = tt

module _ {A B : Type 0} (fd : ℤ) where
  Early-after :
      (s : Server) (r : Out A × Server) (k : A → M B) (sys : Sys)
      → EarlyOut fd s r
      → ((a : A) → Early fd (k a))
      → EarlyOut fd s (after r (λ a t. k a sys t))
  Early-after s (ok a, t) k sys h g = EarlyOut-from fd s t (k a sys t) h (g a sys t)
  Early-after s (returned, t) k sys h g = h
  Early-after s (fault e, t) k sys h g = tt
  Early-after s (spent, t) k sys h g = tt

  Once-after :
      (s : Server) (r : Out A × Server) (k : A → M B) (sys : Sys)
      → EarlyOut fd s r
      → ((a : A) → Once fd (k a))
      → OnceOut fd s (after r (λ a t. k a sys t))
  Once-after s (ok a, t) k sys h g = OnceOut-from fd s t (k a sys t) h (g a sys t)
  Once-after s (returned, t) k sys h g = h
  Once-after s (fault e, t) k sys h g = tt
  Once-after s (spent, t) k sys h g = tt

  pub Early-bind :
      (m : M A) (k : A → M B) → Early fd m → ((a : A) → Early fd (k a)) → Early fd (m >>= k)
  Early-bind m k h g sys s = Early-after s (m sys s) k sys (h sys s) g

  pub Once-bind :
      (m : M A) (k : A → M B) → Early fd m → ((a : A) → Once fd (k a)) → Once fd (m >>= k)
  Once-bind m k h g sys s = Once-after s (m sys s) k sys (h sys s) g

module _ {A : Type 0} (fd : ℤ) where
  pub Early-if : (b : Bool) (m n : M A) → Early fd m → Early fd n → Early fd (if b then m else n)
  Early-if true m n h g = h
  Early-if false m n h g = g

  pub Once-if : (b : Bool) (m n : M A) → Once fd m → Once fd n → Once fd (if b then m else n)
  Once-if true m n h g = h
  Once-if false m n h g = g

-- A packet, and a packet followed by `return`.
pub send_data-Once : (fd : ℤ) (p : Packet) → Once fd (send_data fd p)
unfolding packets
send_data-Once fd p sys s = (p, refl)

pub send_stop-Early : (fd : ℤ) (p : Packet) → Early {A = Unit {0}} fd (send_data fd p >> stop)
unfolding packets
send_stop-Early fd p sys s = (p, refl)

pub send_stop-Once : (fd : ℤ) (p : Packet) → Once {A = Unit {0}} fd (send_data fd p >> stop)
unfolding packets
send_stop-Once fd p sys s = (p, refl)

pub copy_to-Early : (fd : ℤ) (size : ℕ) (t : Text) → Early fd (copy_to size t)
unfolding copy_to
copy_to-Early fd size t =
    Early-if fd (ltb (length t) size) (pure t) (fail overflow) (λ sys s. refl) (λ sys s. tt)

pub sprintf-Early : (fd : ℤ) (size : ℕ) (ps : List Piece) → Early fd (sprintf size ps)
unfolding sprintf
sprintf-Early fd size ps = copy_to-Early fd size (format ps)

pub number_of-Early : (fd : ℤ) (t : Text) → Early fd (number_of t)
unfolding number_of
number_of-Early fd t sys s = elim (Option-cases (stoi t)) [
  | inl p ↦ rw (p, number_of) tt
  | inr (a, p) ↦ rw (p, number_of) refl
]

pub pop_front-Early : (fd : ℤ) (l : List Text) → Early fd (pop_front l)
unfolding pop_front
pop_front-Early fd [] sys s = tt
pop_front-Early fd (t ∷ ts) sys s = refl

push_columns-Early :
    (fd : ℤ) (n : ℕ) (lst : List Text) (row : Row) → Early fd (push_columns n lst row)
unfolding push_columns
push_columns-Early fd zero lst row sys s = refl
push_columns-Early fd (suc n) lst [] sys s = tt
push_columns-Early fd (suc n) lst (none ∷ row) sys s = tt
push_columns-Early fd (suc n) lst (some c ∷ row) sys s =
    push_columns-Early fd n (lst ++ (c ∷ [])) row sys s

push_rows-Early :
    (fd : ℤ) (n : ℕ) (lst : List Text) (rows : List Row) → Early fd (push_rows n lst rows)
unfolding push_rows
push_rows-Early fd n lst [] = λ sys s. refl
push_rows-Early fd n lst (row ∷ rows) =
    Early-bind fd (push_columns n lst row) (λ l. push_rows n l rows)
      (push_columns-Early fd n lst row) (λ l. push_rows-Early fd n l rows)

stored-Early :
    (fd : ℤ) (n : ℕ) (lst : List Text) (o : Option (List Row)) → Early fd (stored n lst o)
stored-Early fd n lst none = λ sys s. refl
stored-Early fd n lst (some rows) =
    Early-bind fd (push_rows n lst rows) (λ l. pure (true, l)) (push_rows-Early fd n lst rows)
      (λ l sys s. refl)

pub select_mysql-Early :
    (fd : ℤ) (sql : Text) (n : ℕ) (lst : List Text) → Early fd (select_mysql sql n lst)
unfolding select_mysql packets
select_mysql-Early fd sql n lst sys s =
    elim (Bool-cases (sys.mysql_query (queried sql ∷ s.trace))) [
      | inl bad ↦ rw (bad, select_mysql) refl
      | inr good ↦
          rw (good, select_mysql)
            (stored-Early fd n lst (sys.mysql_store_result (queried sql ∷ s.trace)) sys
              (record s { trace = queried sql ∷ s.trace }))
    ]

pub updata_mysql-Early : (fd : ℤ) (sql : Text) → Early fd (updata_mysql sql)
unfolding updata_mysql packets
updata_mysql-Early fd sql sys s = refl
