-- ===== src/Env/Rules.antt =====
-- How the pieces of a handler behave: buffers that are large enough, and which faults a piece avoids.
use nest_disk.Base.{
  refl, ℤ, some, ℕ, ◌<◌, ◌≡◌, ◌≢◌, Text, Bool, true, false, List, [], ◌∷◌, length, Piece, format,
  bound, length-format, stoi, arith, if◌then◌else◌, Option-cases, inl, inr,
}
use nest_disk.Env.{
  Sys, Server, Fault, empty_front, bad_number, Out, ok, returned, fault, spent, M, after, ◌>>=◌,
  copy_to, sprintf, number_of, pop_front,
}

-- A text that fits is copied.
pub copy_to-eq-ok :
    (size : ℕ) (t : Text) (sys : Sys) (s : Server)
    → length t < size
    → copy_to size t sys s ≡ (ok t, s)
unfolding copy_to
copy_to-eq-ok size t sys s h = ground arith

pub sprintf-eq-ok :
    (size : ℕ) (ps : List Piece) (sys : Sys) (s : Server)
    → bound ps < size
    → sprintf size ps sys s ≡ (ok (format ps), s)
unfolding sprintf
sprintf-eq-ok size ps sys s h =
    copy_to-eq-ok size (format ps) sys s (omega (arith, length-format ps))

-- A text that is a number is read.
pub number_of-eq-ok :
    (t : Text) (a : ℤ) (sys : Sys) (s : Server) → stoi t ≡ some a → number_of t sys s ≡ (ok a, s)
unfolding number_of
number_of-eq-ok t a sys s e = rw (e, number_of) refl

-- Whatever the system answers, the piece does not end in this fault.
abbrev pub Avoids : {A : Type 0} → Fault → M A → Type 0
Avoids e m = (sys : Sys) (s : Server) → (m sys s).0 ≢ fault e

module _ {A B : Type 0} where
  Avoids-after :
      (e : Fault) (r : Out A × Server) (k : A → M B) (sys : Sys)
      → r.0 ≢ fault e
      → ((a : A) → Avoids e (k a))
      → (after r (λ a t. k a sys t)).0 ≢ fault e
  Avoids-after e (ok a, s) k sys h g = g a sys s
  Avoids-after e (returned, s) k sys h g = λ p. cc
  Avoids-after e (fault d, s) k sys h g = λ p. h (cc)
  Avoids-after e (spent, s) k sys h g = λ p. cc

  pub Avoids-bind :
      (e : Fault) (m : M A) (k : A → M B)
      → Avoids e m
      → ((a : A) → Avoids e (k a))
      → Avoids e (m >>= k)
  Avoids-bind e m k h g sys s = Avoids-after e (m sys s) k sys (h sys s) g

-- The rest of a handler after a `sprintf` into a buffer that is large enough.
pub Avoids-sprintf :
    {B : Type 0} (e : Fault) (size : ℕ) (ps : List Piece) (k : Text → M B)
    → bound ps < size
    → Avoids e (k (format ps))
    → Avoids e (sprintf size ps >>= k)
Avoids-sprintf e size ps k h g sys s = rw (sprintf-eq-ok size ps sys s h) (g sys s)

pub Avoids-copy_to :
    {B : Type 0} (e : Fault) (size : ℕ) (t : Text) (k : Text → M B)
    → length t < size
    → Avoids e (k t)
    → Avoids e (copy_to size t >>= k)
Avoids-copy_to e size t k h g sys s = rw (copy_to-eq-ok size t sys s h) (g sys s)

pub Avoids-if :
    {B : Type 0} (e : Fault) (b : Bool) (m n : M B)
    → Avoids e m
    → Avoids e n
    → Avoids e (if b then m else n)
Avoids-if e true m n h g = h
Avoids-if e false m n h g = g

pub number_of-Avoids : (e : Fault) (t : Text) → e ≢ bad_number → Avoids e (number_of t)
unfolding number_of
number_of-Avoids e t h sys s = elim (Option-cases (stoi t)) [
  | inl p ↦ rw (p, number_of) (λ q. h (cc))
  | inr (a, p) ↦ rw (p, number_of) (λ q. cc)
]

pub pop_front-Avoids : (e : Fault) (l : List Text) → e ≢ empty_front → Avoids e (pop_front l)
unfolding pop_front
pop_front-Avoids e [] h sys s = λ q. h (cc)
pop_front-Avoids e (t ∷ ts) h sys s = λ q. cc
