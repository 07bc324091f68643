-- ===== src/Net/Loop/Life.antt =====
-- The life of a connection's event structure: where it is in use, and what the kernel knows of it.
use nest_disk.Base.{
  ℕ, ◌≡◌, ◌≢◌, refl, ◌∙◌, ap, sym, subst, ℤ, eq_ℤ, eq_ℤ_iff, Bool-cases, Option, none, some, List,
  [], ◌∷◌, ◌++◌, ◌↔◌, inl, inr, arith, if◌then◌else◌,
}
use nest_disk.MyMap.{MyMap, find}
use nest_disk.Net.Event.{Event}
use nest_disk.Net.Loop.{
  client_events, Watch, unwatched, armed, disarmed, Sock, Phase, reported, queued, receiving,
  handed_over, unlisted, Net,
}

-- Where an event structure is in use.
unfoldable pub uses : ℤ → List (ℤ × Phase) → List Phase
uses p [] = []
uses p ((q, ph) ∷ ts) = let rest = uses p ts in if eq_ℤ q p then ph ∷ rest else rest

pub uses-append : (p : ℤ) (a b : List (ℤ × Phase)) → uses p (a ++ b) ≡ uses p a ++ uses p b
unfolding uses
uses-append p [] b = refl
uses-append p ((q, ph) ∷ a) b = ground (arith, uses-append p a b)

-- Its life: deleted or never made, armed, stranded by a registration that failed, the first one or a
-- later one, or in use.
pub data Life : Type 0 where
  gone : Life
  idle : Life
  unregistered unarmed : Life
  busy : Phase → Life

abbrev pub uses_of : Life → List Phase
uses_of gone = []
uses_of idle = []
uses_of unregistered = []
uses_of unarmed = []
uses_of (busy ph) = ph ∷ []

-- `status`, and what epoll does with the descriptor as long as it is open.
abbrev pub status_of : Phase → ℕ
status_of reported = 1
status_of queued = 1
status_of receiving = 1
status_of handed_over = 1
status_of _ = 0

abbrev pub watch_of : Phase → Option Watch
watch_of reported = some (disarmed client_events)
watch_of queued = some (disarmed client_events)
watch_of receiving = some (disarmed client_events)
watch_of handed_over = some (disarmed client_events)
watch_of unlisted = some unwatched
watch_of _ = none

abbrev pub HasSock : MyMap Sock → ℤ → ℤ → Option Watch → Type 0
HasSock socks fd p none = Unit {0}
HasSock socks fd p (some w) = find fd socks ≡ some (record { owner = p; watch = w })

-- A structure that exists, with its fields and its descriptor.
abbrev pub Lives : Net → ℤ → ℕ → Option Watch → Type 0
Lives s p status w =
    (ev : Event) × (find p s.heap ≡ some ev)
    × (ev.status ≡ status)
    × (ev.events ≡ client_events)
    × (ev.fd ≢ s.listenfd)
    × HasSock s.socks ev.fd p w

abbrev pub Exists : Net → ℤ → Life → Type 0
Exists s p gone = find p s.heap ≡ none
Exists s p idle = Lives s p 1 (some (armed client_events))
Exists s p unregistered = Lives s p 1 (some unwatched)
Exists s p unarmed = Lives s p 1 (some (disarmed client_events))
Exists s p (busy ph) = Lives s p (status_of ph) (watch_of ph)

abbrev pub watch_in : Life → Option Watch
watch_in gone = none
watch_in idle = some (armed client_events)
watch_in unregistered = some unwatched
watch_in unarmed = some (disarmed client_events)
watch_in (busy ph) = watch_of ph

-- The only descriptor that was opened for it, if one is open, is its own.
abbrev pub Owns : Net → ℤ → Life → Type 0
Owns s p l =
    (fd : ℤ) (w : Watch)
    → find fd s.socks ≡ some (record { owner = p; watch = w })
    → ((ev : Event) × (find p s.heap ≡ some ev) × (ev.fd ≡ fd)) × (watch_in l ≡ some w)

abbrev pub Agrees : Net → ℤ → Life → Type 0
Agrees s p l = (uses p s.tasks ≡ uses_of l) × Owns s p l × Exists s p l

-- The state of another structure stays as it is.
HasSock-frame :
    (a b : MyMap Sock) (fd p : ℤ) (w : Option Watch)
    → ((x : Watch)
        → find fd a ≡ some (record { owner = p; watch = x })
        → find fd b ≡ some (record { owner = p; watch = x }))
    → HasSock a fd p w
    → HasSock b fd p w
HasSock-frame a b fd p none h g = tt
HasSock-frame a b fd p (some w) h g = h w g

abbrev pub SameSocks : Net → Net → ℤ → Type 0
SameSocks s t p =
    (fd : ℤ) (x : Watch)
    → (find fd s.socks ≡ some (record { owner = p; watch = x }))
      ↔ (find fd t.socks ≡ some (record { owner = p; watch = x }))

pub Lives-frame :
    (s t : Net) (p : ℤ) (status : ℕ) (w : Option Watch)
    → find p t.heap ≡ find p s.heap
    → t.listenfd ≡ s.listenfd
    → SameSocks s t p
    → Lives s p status w
    → Lives t p status w
Lives-frame s t p status w e l h (ev, at, st, evs, other, sock) = (
  ev,
  e ∙ at,
  st,
  evs,
  λ q. other (q ∙ l),
  HasSock-frame s.socks t.socks ev.fd p w (λ x. (h ev.fd x).0) sock,
)

Owns-frame :
    (s t : Net) (p : ℤ) (l : Life)
    → find p t.heap ≡ find p s.heap
    → SameSocks s t p
    → Owns s p l
    → Owns t p l
Owns-frame s t p l e h o fd w at =
    let own = o fd w ((h fd w).1 at) in ((own.0.0, e ∙ own.0.1, own.0.2), own.1)

pub Agrees-frame :
    (s t : Net) (p : ℤ) (l : Life)
    → uses p t.tasks ≡ uses p s.tasks
    → find p t.heap ≡ find p s.heap
    → t.listenfd ≡ s.listenfd
    → SameSocks s t p
    → Agrees s p l
    → Agrees t p l
Agrees-frame s t p gone u e q h (us, o, ex) = (u ∙ us, Owns-frame s t p gone e h o, e ∙ ex)
Agrees-frame s t p idle u e q h (us, o, ex) =
    (u ∙ us, Owns-frame s t p idle e h o, Lives-frame s t p 1 (some (armed client_events)) e q h ex)
Agrees-frame s t p unregistered u e q h (us, o, ex) =
    (u ∙ us, Owns-frame s t p unregistered e h o, Lives-frame s t p 1 (some unwatched) e q h ex)
Agrees-frame s t p unarmed u e q h (us, o, ex) = (
  u ∙ us,
  Owns-frame s t p unarmed e h o,
  Lives-frame s t p 1 (some (disarmed client_events)) e q h ex,
)
Agrees-frame s t p (busy ph) u e q h (us, o, ex) = (
  u ∙ us,
  Owns-frame s t p (busy ph) e h o,
  Lives-frame s t p (status_of ph) (watch_of ph) e q h ex,
)

-- Every address has a life.
abbrev pub Inv : Net → Type 0
Inv s = (p : ℤ) → (l : Life) × Agrees s p l

pub Inv-by :
    (p : ℤ) (t : Net) (l : Life)
    → Agrees t p l
    → ((q : ℤ) → p ≢ q → (k : Life) × Agrees t q k)
    → Inv t
Inv-by p t l a others q = elim (Bool-cases (eq_ℤ p q)) [
  | inl e ↦ subst (λ (x : ℤ). (k : Life) × Agrees t x k) (ground (arith, eq_ℤ_iff p q)) (l, a)
  | inr e ↦ others q (λ h. ground (arith, eq_ℤ_iff p q))
]

-- A list that is that of a life and has an element has this one only.
only_use :
    (l : Life) (a b : List Phase) (ph : Phase)
    → a ++ (ph ∷ b) ≡ uses_of l
    → (a ≡ []) × (b ≡ []) × (l ≡ busy ph)
only_use gone [] b ph e = absurd (cc)
only_use gone (x ∷ a) b ph e = absurd (cc)
only_use idle [] b ph e = absurd (cc)
only_use idle (x ∷ a) b ph e = absurd (cc)
only_use unregistered [] b ph e = absurd (cc)
only_use unregistered (x ∷ a) b ph e = absurd (cc)
only_use unarmed [] b ph e = absurd (cc)
only_use unarmed (x ∷ a) b ph e = absurd (cc)
only_use (busy k) [] b ph e = ground arith
only_use (busy k) (x ∷ []) b ph e = absurd (ground arith)
only_use (busy k) (x ∷ y ∷ a) b ph e = absurd (ground arith)

pub uses_self : (p : ℤ) (ph : Phase) (b : List (ℤ × Phase)) → uses p ((p, ph) ∷ b) ≡ ph ∷ uses p b
unfolding uses
uses_self p ph b = ground (arith, eq_ℤ_iff p p)

pub uses_other :
    (p q : ℤ) (ph : Phase) (b : List (ℤ × Phase)) → p ≢ q → uses q ((p, ph) ∷ b) ≡ uses q b
unfolding uses
uses_other p q ph b h = ground (arith, eq_ℤ_iff p q)

-- A task of an address is its only use, whatever else the list holds.
module _ (s : Net) (p : ℤ) (ph : Phase) (before after : List (ℤ × Phase))
    (at : s.tasks ≡ before ++ ((p, ph) ∷ after)) where
  pub uses_at : uses p s.tasks ≡ uses p before ++ (ph ∷ uses p after)
  uses_at =
      ap (uses p) at
      ∙ uses-append p before ((p, ph) ∷ after)
      ∙ ap (λ (l : List Phase). uses p before ++ l) (uses_self p ph after)

  pub busy_at :
      Inv s
      → (Owns s p (busy ph) × Exists s p (busy ph)) × (uses p before ≡ []) × (uses p after ≡ [])
  busy_at inv =
      let l = (inv p).0 in
      let only = only_use l (uses p before) (uses p after) ph (sym uses_at ∙ (inv p).1.0) in
      (
        subst (λ (k : Life). Owns s p k × Exists s p k) only.2 ((inv p).1.1, (inv p).1.2),
        only.0,
        only.1,
      )

  pub uses_moved : (to : Phase) → Inv s → uses p (before ++ ((p, to) ∷ after)) ≡ to ∷ []
  uses_moved to inv =
      uses-append p before ((p, to) ∷ after)
      ∙ ap (λ (l : List Phase). uses p before ++ l) (uses_self p to after)
      ∙ ground (arith, busy_at inv)

  pub uses_removed : Inv s → uses p (before ++ after) ≡ []
  uses_removed inv = uses-append p before after ∙ ground (arith, busy_at inv)

  pub moved_other :
      (to : Phase) (q : ℤ) → p ≢ q → uses q (before ++ ((p, to) ∷ after)) ≡ uses q s.tasks
  moved_other to q h =
      uses-append q before ((p, to) ∷ after)
      ∙ ap (λ (l : List Phase). uses q before ++ l)
          (uses_other p q to after h ∙ sym (uses_other p q ph after h))
      ∙ sym (uses-append q before ((p, ph) ∷ after))
      ∙ sym (ap (uses q) at)

  pub removed_other : (q : ℤ) → p ≢ q → uses q (before ++ after) ≡ uses q s.tasks
  removed_other q h =
      uses-append q before after
      ∙ ap (λ (l : List Phase). uses q before ++ l) (sym (uses_other p q ph after h))
      ∙ sym (uses-append q before ((p, ph) ∷ after))
      ∙ sym (ap (uses q) at)
