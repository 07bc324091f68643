-- ===== src/Env/Isolation.antt =====
-- What a piece of a handler sends, and to whom.
use nest_disk.Base.{
  ℕ, ◌≡◌, refl, ◌∙◌, ap, sym, ◌==◌, ◌&&◌, ◌||◌, ℤ, eq_ℤ, eq_ℤ_iff, Text, Bool, true, false, Option,
  none, some, List, [], ◌∷◌, if◌then◌else◌, arith,
}
use nest_disk.Packet.{Packet, packet_type}
use nest_disk.Env.{
  Sys, Server, Out, Trace, sent, ok, returned, fault, spent, M, Fault, after, ◌>>=◌, pure, stop,
  fail, gets, call, out_of_fuel, send_data, queried, opened, wrote, fetched, sought, closed,
  made_dir, drew, removed, asked_stat, ran, OpenMode, Whence,
}

-- Which packets may be sent to which descriptor.
abbrev pub Allowed : Type 0
Allowed = ℤ → Packet → Bool

abbrev pub has : List ℕ → ℕ → Bool
has [] n = false
has (k ∷ ks) n = k == n || has ks n

-- Packets of these types, to this descriptor.
unfoldable pub to : ℤ → List ℕ → Allowed
to fd types g p = eq_ℤ g fd && has types (packet_type p)

-- The packets that were sent although they may not be, newest first.
unfoldable pub strays : Allowed → Trace → List (ℤ × Packet)
strays allowed [] = []
strays allowed (sent g p ∷ t) =
    let rest = strays allowed t in if allowed g p then rest else (g, p) ∷ rest
strays allowed (_ ∷ t) = strays allowed t

-- Whatever the system answers and however the piece ends, it sends nothing but what is allowed.
pub record OnlyTo {A : Type 0} (allowed : Allowed) (m : M A) : Type 0 where
  pub keeps : (sys : Sys) (s : Server) → strays allowed (m sys s).1.trace ≡ strays allowed s.trace

module _ {A B : Type 0} (allowed : Allowed) where
  after-OnlyTo :
      (r : Out A × Server) (k : A → M B) (sys : Sys)
      → ((a : A) → OnlyTo allowed (k a))
      → strays allowed (after r (λ a t. k a sys t)).1.trace ≡ strays allowed r.1.trace
  after-OnlyTo (ok a, t) k sys h = (h a).keeps sys t
  after-OnlyTo (returned, t) k sys h = refl
  after-OnlyTo (fault e, t) k sys h = refl
  after-OnlyTo (spent, t) k sys h = refl

  pub bind-OnlyTo :
      (m : M A) (k : A → M B)
      → OnlyTo allowed m
      → ((a : A) → OnlyTo allowed (k a))
      → OnlyTo allowed (m >>= k)
  bind-OnlyTo m k h g = record { keeps = λ sys s. after-OnlyTo (m sys s) k sys g ∙ h.keeps sys s }

  pub option-OnlyTo :
      (o : Option A) (m : M B) (k : A → M B)
      → OnlyTo allowed m
      → ((a : A) → OnlyTo allowed (k a))
      → OnlyTo allowed (elim o [ none ↦ m | some a ↦ k a ])
  option-OnlyTo none m k h g = h
  option-OnlyTo (some a) m k h g = g a

  pub list-OnlyTo :
      (l : List A) (m : M B) (k : A → List A → M B)
      → OnlyTo allowed m
      → ((a : A) (rest : List A) → OnlyTo allowed (k a rest))
      → OnlyTo allowed (elim l [ [] ↦ m | a ∷ rest ↦ k a rest ])
  list-OnlyTo [] m k h g = h
  list-OnlyTo (a ∷ rest) m k h g = g a rest

module _ {A : Type 0} (allowed : Allowed) where
  pub pure-OnlyTo : (a : A) → OnlyTo allowed (pure a)
  pure-OnlyTo a = record { keeps = λ sys s. refl }

  pub stop-OnlyTo : OnlyTo {A = A} allowed stop
  stop-OnlyTo = record { keeps = λ sys s. refl }

  pub fail-OnlyTo : (e : Fault) → OnlyTo {A = A} allowed (fail e)
  fail-OnlyTo e = record { keeps = λ sys s. refl }

  pub out_of_fuel-OnlyTo : OnlyTo {A = A} allowed out_of_fuel
  out_of_fuel-OnlyTo = record { keeps = λ sys s. refl }

  pub gets-OnlyTo : (f : Server → A) → OnlyTo allowed (gets f)
  gets-OnlyTo f = record { keeps = λ sys s. refl }

  -- An answer that is looked at again.
  pub answer-OnlyTo : (f : Sys → Trace → A) → OnlyTo allowed (λ sys s. (ok (f sys s.trace), s))
  answer-OnlyTo f = record { keeps = λ sys s. refl }

  pub if-OnlyTo :
      (b : Bool) (m n : M A)
      → OnlyTo allowed m
      → OnlyTo allowed n
      → OnlyTo allowed (if b then m else n)
  if-OnlyTo true m n h g = h
  if-OnlyTo false m n h g = g

  -- The calls other than `send`.
  module _ (f : Sys → Trace → A) where
    pub queried-OnlyTo : (q : Text) → OnlyTo allowed (call (queried q) f)
    unfolding strays
    queried-OnlyTo q = record { keeps = λ sys s. refl }

    pub opened-OnlyTo : (path : Text) (mode : OpenMode) → OnlyTo allowed (call (opened path mode) f)
    unfolding strays
    opened-OnlyTo path mode = record { keeps = λ sys s. refl }

    pub wrote-OnlyTo : (g : ℤ) (b : Text) → OnlyTo allowed (call (wrote g b) f)
    unfolding strays
    wrote-OnlyTo g b = record { keeps = λ sys s. refl }

    pub fetched-OnlyTo : (g : ℤ) (n : ℕ) → OnlyTo allowed (call (fetched g n) f)
    unfolding strays
    fetched-OnlyTo g n = record { keeps = λ sys s. refl }

    pub sought-OnlyTo : (g offset : ℤ) (w : Whence) → OnlyTo allowed (call (sought g offset w) f)
    unfolding strays
    sought-OnlyTo g offset w = record { keeps = λ sys s. refl }

    pub closed-OnlyTo : (g : ℤ) → OnlyTo allowed (call (closed g) f)
    unfolding strays
    closed-OnlyTo g = record { keeps = λ sys s. refl }

    pub made_dir-OnlyTo : (path : Text) → OnlyTo allowed (call (made_dir path) f)
    unfolding strays
    made_dir-OnlyTo path = record { keeps = λ sys s. refl }

    pub drew-OnlyTo : OnlyTo allowed (call drew f)
    unfolding strays
    drew-OnlyTo = record { keeps = λ sys s. refl }

    pub removed-OnlyTo : (path : Text) → OnlyTo allowed (call (removed path) f)
    unfolding strays
    removed-OnlyTo path = record { keeps = λ sys s. refl }

    pub asked_stat-OnlyTo : (path : Text) → OnlyTo allowed (call (asked_stat path) f)
    unfolding strays
    asked_stat-OnlyTo path = record { keeps = λ sys s. refl }

    pub ran-OnlyTo : (c : Text) → OnlyTo allowed (call (ran c) f)
    unfolding strays
    ran-OnlyTo c = record { keeps = λ sys s. refl }

pub send_data-OnlyTo :
    (fd : ℤ) (types : List ℕ) (p : Packet)
    → has types (packet_type p) ≡ true
    → OnlyTo (to fd types) (send_data fd p)
unfolding strays to
send_data-OnlyTo fd types p h = record { keeps = λ sys s. ground (arith, eq_ℤ_iff fd fd) }

-- What a larger rule allows.
narrowed : Allowed → List (ℤ × Packet) → List (ℤ × Packet)
narrowed allowed [] = []
narrowed allowed ((g, p) ∷ l) =
    let rest = narrowed allowed l in if allowed g p then rest else (g, p) ∷ rest

module _ (small large : Allowed)
    (inside : (g : ℤ) (p : Packet) → small g p ≡ true → large g p ≡ true) where
  strays-narrowed : (t : Trace) → strays large t ≡ narrowed large (strays small t)
  unfolding strays narrowed
  strays-narrowed [] = refl
  strays-narrowed (sent g p ∷ t) = ground (arith, strays-narrowed t, inside g p)
  strays-narrowed (_ ∷ t) = strays-narrowed t

  pub OnlyTo-mono : {A : Type 0} (m : M A) → OnlyTo small m → OnlyTo large m
  OnlyTo-mono m h = record {
    keeps = λ sys s.
        strays-narrowed (m sys s).1.trace
        ∙ ap (narrowed large) (h.keeps sys s)
        ∙ sym (strays-narrowed s.trace);
  }
