-- ===== src/Net/Loop/Descriptors.antt =====
-- Changes of one descriptor or one event structure, and what they leave as it is.
use nest_disk.Base.{
  ◌≡◌, ◌≢◌, ◌∙◌, ap, sym, ℤ, eq_ℤ, eq_ℤ_iff, Bool-cases, inl, inr, Option, none, some, [], arith,
}
use nest_disk.MyMap.{MyMap, find, insert, erase, find-insert, find-erase}
use nest_disk.Net.Event.{Event}
use nest_disk.Net.Loop.{Watch, Sock, Net}
use nest_disk.Net.Loop.Life.{
  uses, Life, gone, idle, unregistered, unarmed, busy, watch_in, Owns, Agrees, Inv, SameSocks,
  Inv-by, Agrees-frame,
}

module _ {V : Type 0} where
  pub find_new : (k : ℤ) (v : V) (m : MyMap V) → find k (insert k v m) ≡ some v
  find_new k v m = ground (arith, find-insert k k v m, eq_ℤ_iff k k)

  pub find_old : (k j : ℤ) (v : V) (m : MyMap V) → k ≢ j → find j (insert k v m) ≡ find j m
  find_old k j v m h = ground (arith, find-insert k j v m, eq_ℤ_iff k j)

  pub find_erased : (k : ℤ) (m : MyMap V) → find k (erase k m) ≡ none
  find_erased k m = ground (arith, find-erase k k m, eq_ℤ_iff k k)

  pub find_kept : (k j : ℤ) (m : MyMap V) → k ≢ j → find j (erase k m) ≡ find j m
  find_kept k j m h = ground (arith, find-erase k j m, eq_ℤ_iff k j)

  -- What is found behind an `erase` was there before, under another key.
  pub find_behind :
      (k j : ℤ) (v : V) (m : MyMap V) → find j (erase k m) ≡ some v → (find j m ≡ some v) × (k ≢ j)
  find_behind k j v m h =
      (ground (arith, find-erase k j m), λ e. ground (arith, find-erase k j m, eq_ℤ_iff k j))

abbrev pub owner_of : ℤ → Option Sock → ℤ
owner_of p none = p
owner_of p (some k) = k.owner

-- Two structures have different descriptors while both are open.
pub other_fd :
    (socks : MyMap Sock) (fd p gd q : ℤ) (w x : Watch)
    → find fd socks ≡ some (record { owner = p; watch = w })
    → find gd socks ≡ some (record { owner = q; watch = x })
    → p ≢ q
    → fd ≢ gd
other_fd socks fd p gd q w x a b h e =
    h (ap (owner_of p) (sym a ∙ ap (λ (f : ℤ). find f socks) e ∙ b))

-- An address without a structure is not in use, and has no descriptor.
pub unused :
    (s : Net) (p : ℤ) (l : Life) → find p s.heap ≡ none → Agrees s p l → uses p s.tasks ≡ []
unused s p gone e (us, o, ex) = us
unused s p idle e (us, o, ex) = us
unused s p unregistered e (us, o, ex) = us
unused s p unarmed e (us, o, ex) = us
unused s p (busy ph) e (us, o, ex) = absurd (ground (arith, ex.1))

abbrev pub event_or : Event → Option Event → Event
event_or d none = d
event_or d (some ev) = ev

-- The only descriptor of a structure.
pub only_fd :
    (s : Net) (p gd : ℤ) (l : Life) (ev : Event) (w : Watch)
    → Owns s p l
    → find p s.heap ≡ some ev
    → find gd s.socks ≡ some (record { owner = p; watch = w })
    → ev.fd ≡ gd
only_fd s p gd l ev w o at there =
    let own = o gd w there in
    ap (λ (r : Option Event). (event_or ev r).fd) (sym at ∙ own.0.1) ∙ own.0.2

-- A descriptor that is set leaves those of other structures.
pub set-SameSocks :
    (s t : Net) (fd : ℤ) (k : Sock) (q : ℤ)
    → t.socks ≡ insert fd k s.socks
    → k.owner ≢ q
    → ((x : Watch) → find fd s.socks ≢ some (record { owner = q; watch = x }))
    → SameSocks s t q
set-SameSocks s t fd k q e h g gd x = (
  λ there.
      ap (λ (m : MyMap Sock). find gd m) e
      ∙ find_old fd gd k s.socks (λ same. g x (ap (λ (f : ℤ). find f s.socks) same ∙ there))
      ∙ there,
  λ there. elim (Bool-cases (eq_ℤ fd gd)) [
    | inl same ↦ absurd (h (ap (owner_of q) (set_here gd there (ground (arith, eq_ℤ_iff fd gd)))))
    | inr differ ↦
        sym (find_old fd gd k s.socks (λ same. ground (arith, eq_ℤ_iff fd gd)))
        ∙ ap (λ (m : MyMap Sock). find gd m) (sym e)
        ∙ there
  ],
)
  where
    set_here :
        (gd : ℤ)
        → find gd t.socks ≡ some (record { owner = q; watch = x })
        → fd ≡ gd
        → some k ≡ some (record { owner = q; watch = x })
    set_here gd there same =
        sym (find_new fd k s.socks)
        ∙ ap (λ (m : MyMap Sock). find fd m) (sym e)
        ∙ ap (λ (f : ℤ). find f t.socks) same
        ∙ there

pub erase-SameSocks :
    (s t : Net) (fd q : ℤ)
    → t.socks ≡ erase fd s.socks
    → ((x : Watch) → find fd s.socks ≢ some (record { owner = q; watch = x }))
    → SameSocks s t q
erase-SameSocks s t fd q e g gd x = (
  λ there.
      ap (λ (m : MyMap Sock). find gd m) e
      ∙ find_kept fd gd s.socks (λ same. g x (ap (λ (f : ℤ). find f s.socks) same ∙ there))
      ∙ there,
  λ there. (find_behind fd gd _ s.socks (ap (λ (m : MyMap Sock). find gd m) (sym e) ∙ there)).0,
)

-- The structure whose descriptor is set owns that one only.
pub set-Owns :
    (s t : Net) (fd p : ℤ) (w : Watch) (l : Life) (ev : Event)
    → t.socks ≡ insert fd (record { owner = p; watch = w }) s.socks
    → find p t.heap ≡ some ev
    → ev.fd ≡ fd
    → watch_in l ≡ some w
    → ((gd : ℤ) (x : Watch) → find gd s.socks ≡ some (record { owner = p; watch = x }) → fd ≡ gd)
    → Owns t p l
set-Owns s t fd p w l ev e at own watch only gd x there = elim (Bool-cases (eq_ℤ fd gd)) [
  | inl same ↦ (
    (ev, at, own ∙ ground (arith, eq_ℤ_iff fd gd)),
    watch
        ∙ ap watch_or (
            sym (find_new fd (record { owner = p; watch = w }) s.socks)
            ∙ ap (λ (m : MyMap Sock). find fd m) (sym e)
            ∙ ap (λ (f : ℤ). find f t.socks) (ground (arith, eq_ℤ_iff fd gd))
            ∙ there),
  )
  | inr differ ↦ absurd (
      ground (
        arith,
        eq_ℤ_iff fd gd,
        only gd x (
            sym (find_old fd gd _ s.socks (λ same. ground (arith, eq_ℤ_iff fd gd)))
            ∙ ap (λ (m : MyMap Sock). find gd m) (sym e)
            ∙ there),
      ))
]
  where
    watch_or : Option Sock → Option Watch
    watch_or none = none
    watch_or (some k) = some k.watch

-- A state whose change touches one structure only.
pub change_one :
    (s t : Net) (p : ℤ) (l : Life)
    → Inv s
    → t.listenfd ≡ s.listenfd
    → Agrees t p l
    → ((q : ℤ) → p ≢ q → uses q t.tasks ≡ uses q s.tasks)
    → ((q : ℤ) → p ≢ q → find q t.heap ≡ find q s.heap)
    → ((q : ℤ) → p ≢ q → SameSocks s t q)
    → Inv t
change_one s t p l inv same a us heap socks = Inv-by p t l a (λ q h.
    ((inv q).0, Agrees-frame s t q (inv q).0 (us q h) (heap q h) same (socks q h) (inv q).1))
