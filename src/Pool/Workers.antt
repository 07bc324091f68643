-- ===== src/Pool/Workers.antt =====
-- The pool and its threads as a step relation: any interleaving of producers, workers and the
-- manager. A worker is `ready` before it locks, asleep on `not_empty`, `woken` by a signal, running
-- a task, or gone.
pub mod Counting
pub mod Invariant
pub mod Wakeup
use nest_disk.Base.{
  ℕ, suc, zero, ◌+◌, ◌-◌, ◌*◌, ◌≤◌, ◌<◌, ◌≡◌, refl, ap, ◌∙◌, Bool, true, false, Option, none, some,
  List, [], ◌∷◌, ◌++◌, get_elem?, set, arith, ◌⊎◌, inl, inr,
}
use nest_disk.Pool.{
  Pool, queued, waits, closes, retires, takes, producer_add, enqueue, custom, dequeue, retire,
  finish, spawn, Start, started, failed, claim, def_count, init, start_threads, pool_create,
  replicate,
}
use nest_disk.Pool.Ring.{Represents, with_counters-Represents, init-Represents}
use nest_disk.Pool.Refine.{producer_add-Adds, custom-Takes}

pub data Worker (T : Type 0) : Type 0 where
  ready : Worker T
  asleep : Worker T
  woken : Worker T
  running : T → Worker T
  gone : Worker T

pub record System (T : Type 0) : Type 0 where
  pub pool : Pool T
  pub workers : List (Worker T)
  -- How many times `pthread_create` has failed for the manager, which counts a thread all the same.
  pub unborn : ℕ

module _ {T : Type 0} where
  -- `pthread_cond_signal`: one sleeper wakes, if there is one.
  pub data Signal (ws : List (Worker T)) : List (Worker T) → Type 0 where
    wakes : (i : ℕ) → get_elem? ws i ≡ some asleep → Signal ws (set ws i woken)
    lost : ((i : ℕ) → ¬ (get_elem? ws i ≡ some asleep)) → Signal ws ws

  -- A worker that is about to look at the queue under the lock.
  abbrev pub Enters : Worker T → Type 0
  Enters ready = Unit {0}
  Enters woken = Unit {0}
  Enters _ = ⊥

  pub data Step (s : System T) : System T → Type 0 where
    produce :
        (t : T) (p : Pool T) (ws : List (Worker T))
        → producer_add s.pool t ≡ queued p
        → Signal s.workers ws
        → Step s (record s { pool = p; workers = ws })
    sleep :
        (i : ℕ) (w : Worker T)
        → get_elem? s.workers i ≡ some w
        → Enters w
        → custom s.pool ≡ waits
        → Step s (record s { pool = s.pool; workers = set s.workers i asleep })
    close :
        (i : ℕ) (w : Worker T)
        → get_elem? s.workers i ≡ some w
        → Enters w
        → custom s.pool ≡ closes
        → Step s (record s { pool = s.pool; workers = set s.workers i gone })
    leave :
        (i : ℕ) (w : Worker T) (p : Pool T)
        → get_elem? s.workers i ≡ some w
        → Enters w
        → custom s.pool ≡ retires p
        → Step s (record s { pool = p; workers = set s.workers i gone })
    begin :
        (i : ℕ) (w : Worker T) (t : T) (p : Pool T)
        → get_elem? s.workers i ≡ some w
        → Enters w
        → custom s.pool ≡ takes (some t) p
        → Step s (record s { pool = p; workers = set s.workers i (running t) })
    done :
        (i : ℕ) (t : T)
        → get_elem? s.workers i ≡ some (running t)
        → Step s (record s { pool = finish s.pool; workers = set s.workers i ready })
    -- A spurious wake-up, which POSIX allows.
    spurious :
        (i : ℕ)
        → get_elem? s.workers i ≡ some asleep
        → Step s (record s { pool = s.pool; workers = set s.workers i woken })
    -- The manager starts a thread in a slot that it claimed,
    grow :
        (alive? : ℕ → Bool) (new : ℕ) (us : List ℕ)
        → claim alive? new s.pool.tids ≡ some us
        → Step s
            (record s { pool = spawn alive? (started new) s.pool; workers = ready ∷ s.workers })
    -- or the call fails.
    grow_fails :
        (alive? : ℕ → Bool) (any : ℕ) (us : List ℕ)
        → claim alive? any s.pool.tids ≡ some us
        → Step s (record s { pool = spawn alive? (failed any) s.pool; unborn = s.unborn + 1 })
    shrink :
        Step s (record s { pool = record s.pool { thread_wait = def_count }; workers = s.workers })

  pub data Reach (s : System T) : System T → Type 0 where
    here : Reach s s
    next : {t u : System T} → Reach s t → Step t u → Reach s u

  -- How many workers have a given weight.
  abbrev pub total : (Worker T → ℕ) → List (Worker T) → ℕ
  total f [] = 0
  total f (w ∷ ws) = f w + total f ws

  abbrev pub lives : Worker T → ℕ
  lives gone = 0
  lives _ = 1

  abbrev pub runs : Worker T → ℕ
  runs (running t) = 1
  runs _ = 0
