-- ===== src/Pool/Ring.antt =====
-- The task ring of `pool_t` as a bounded queue of tasks, oldest first.
use native.Mathlib.Nat.{mod-add-mod, mod-eq_of_lt, mod-eq-sub-mod, mod-lt}
use native.Mathlib.Decide.{dec_lt}
use nest_disk.Base.{
  ◌⊎◌, inl, inr, ℕ, suc, zero, ◌+◌, ◌-◌, ◌%◌, ◌≤◌, ◌<◌, ◌≡◌, ◌≢◌, refl, sym, ap, ◌∙◌, Option, none,
  some, List, [], ◌∷◌, ◌++◌, length, set, arith, length-set, length-append, get_elem?-set_self,
  get_elem?-set_ne,
}
use nest_disk.Pool.{Pool, slot, enqueue, dequeue, replicate, init}

module _ {T : Type 0} where
  -- The slots from index `h` on, going round at `cap`, hold these tasks.
  abbrev pub Holds : List (Option T) → ℕ → ℕ → List T → Type 0
  Holds q cap h [] = Unit {0}
  Holds q cap h (t ∷ ts) = (slot q h ≡ some t) × Holds q cap ((h + 1) % cap) ts

  -- The ring of `p` stands for the queue `ts`.
  pub record Represents (p : Pool T) (ts : List T) : Type 0 where
    pub room : 0 < p.queue_max
    pub storage : length p.queue_task ≡ p.queue_max
    pub counted : p.queue_cur ≡ length ts
    pub bounded : p.queue_cur ≤ p.queue_max
    pub rear_in : p.queue_rear < p.queue_max
    pub front_at : p.queue_front ≡ (p.queue_rear + p.queue_cur) % p.queue_max
    pub holds : Holds p.queue_task p.queue_max p.queue_rear ts

  slot-set_self :
      (q : List (Option T)) (i : ℕ) (t : T) → i < length q → slot (set q i (some t)) i ≡ some t
  slot-set_self q i t h = rw (slot, get_elem?-set_self q i (some t) h)

  slot-set_ne :
      (q : List (Option T)) (i j : ℕ) (o : Option T) → i ≢ j → slot (set q i o) j ≡ slot q j
  slot-set_ne q i j o h = rw (slot, get_elem?-set_ne q i j o h)

pub length-replicate {ℓ} : {A : Type ℓ} (n : ℕ) (a : A) → length (replicate n a) ≡ n
length-replicate zero a = refl
length-replicate (suc n) a = ap suc (length-replicate n a)

mod_same : {a b : ℕ} (m : ℕ) → a ≡ b → a % m ≡ b % m
mod_same m e = ap (λ (k : ℕ). k % m) e

-- An index below twice the size goes round at most once.
mod_once : (m n : ℕ) → n < m + m → (n < m) × (n % m ≡ n) ⊎ (m ≤ n) × (n % m ≡ n - m)
mod_once m n h = elim (dec_lt n m) [
  | yes below ↦ inl (below, mod-eq_of_lt below)
  | no above ↦ inr (omega arith, mod-eq-sub-mod (omega arith) ∙ mod-eq_of_lt (omega arith))
]

-- Fewer than `cap` steps from `h` do not come back to `h`.
add-mod-ne : (cap h k : ℕ) → h < cap → suc k < cap → (h + suc k) % cap ≢ h
add-mod-ne cap h k hh hk same = elim (mod_once cap (h + suc k) (omega arith)) [
  | inl stays ↦ omega arith
  | inr wraps ↦ omega arith
]

add_suc-mod : (cap h n : ℕ) → ((h + 1) % cap + n) % cap ≡ (h + suc n) % cap
add_suc-mod cap h n = rw (mod-add-mod (h + 1) cap n) (mod_same _ (omega arith))

module _ {T : Type 0} where
  Holds-append :
      (q : List (Option T)) (cap h i : ℕ) (ts : List T) (t : T)
      → length q ≡ cap
      → h < cap
      → length ts < cap
      → i ≡ (h + length ts) % cap
      → Holds q cap h ts
      → Holds (set q i (some t)) cap h (ts ++ (t ∷ []))
  Holds-append q cap h i [] t e hh room at held =
      let here : i ≡ h = at ∙ mod_same _ (omega arith) ∙ mod-eq_of_lt hh in
      rw (here, slot-set_self q h t (omega arith)) (refl, tt)
  Holds-append q cap h i (u ∷ ts) t e hh room at held = (
    slot-set_ne q i h (some t) (λ same. add-mod-ne cap h (length ts) hh room (sym at ∙ same))
        ∙ held.0,
    Holds-append q cap ((h + 1) % cap) i ts t e (omega arith) (omega arith)
        (at ∙ sym (add_suc-mod cap h (length ts))) held.1,
  )

  -- A pool that has just been set up holds no task.
  pub init-Represents :
      (max min que_max : ℕ) → 0 < que_max → Represents (init {T = T} max min que_max) []
  unfolding init
  init-Represents max min que_max h = record {
    room = h;
    storage = length-replicate que_max none;
    counted = refl;
    bounded = omega arith;
    rear_in = h;
    front_at = sym (mod-eq_of_lt h);
    holds = tt;
  }

  -- The queue does not depend on the thread counters and thread ids.
  pub with_counters-Represents :
      (p : Pool T) (ts : List T) (alive busy waiting : ℕ) (ids : List ℕ)
      → Represents p ts
      → Represents
          (record p { thread_alive = alive; thread_busy = busy; thread_wait = waiting; tids = ids })
          ts
  with_counters-Represents p ts alive busy waiting ids r = record {
    room = r.room;
    storage = r.storage;
    counted = r.counted;
    bounded = r.bounded;
    rear_in = r.rear_in;
    front_at = r.front_at;
    holds = r.holds;
  }

  -- With room and the pool open, `Producer_add` puts the task behind all others.
  pub enqueue-Represents :
      (p : Pool T) (ts : List T) (t : T)
      → Represents p ts
      → p.queue_cur < p.queue_max
      → Represents (enqueue p t) (ts ++ (t ∷ []))
  unfolding enqueue
  enqueue-Represents p ts t r h = record {
    room = r.room;
    storage = length-set p.queue_task p.queue_front (some t) ∙ r.storage;
    counted = omega (arith, length-append ts (t ∷ []), r.counted);
    bounded = omega arith;
    rear_in = r.rear_in;
    front_at =
        ap (λ (k : ℕ). (k + 1) % p.queue_max) r.front_at
        ∙ mod-add-mod (p.queue_rear + p.queue_cur) p.queue_max 1
        ∙ mod_same _ (omega arith);
    holds =
        Holds-append p.queue_task p.queue_max p.queue_rear p.queue_front ts t r.storage r.rear_in
          (omega (arith, r.counted))
          (r.front_at ∙ ap (λ (k : ℕ). (p.queue_rear + k) % p.queue_max) r.counted) r.holds;
  }

  -- Taking a task out of a pool that holds one takes the oldest, and leaves the rest.
  pub dequeue-Represents :
      (p : Pool T) (t : T) (ts : List T)
      → Represents p (t ∷ ts)
      → (slot p.queue_task p.queue_rear ≡ some t) × Represents (dequeue p) ts
  unfolding dequeue
  dequeue-Represents p t ts r = (
    r.holds.0,
    record {
      room = r.room;
      storage = r.storage;
      counted = omega (arith, r.counted);
      bounded = omega (arith, r.bounded);
      rear_in = mod-lt _ r.room;
      front_at =
          r.front_at
          ∙ mod_same _ (omega (arith, r.counted))
          ∙ sym (mod-add-mod (p.queue_rear + 1) p.queue_max (p.queue_cur - 1));
      holds = r.holds.1;
    },
  )
