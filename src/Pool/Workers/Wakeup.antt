-- ===== src/Pool/Workers/Wakeup.antt =====
-- A wake-up that is lost when a worker retires.
use nest_disk.Base.{
  ℕ, suc, zero, ◌<◌, ◌≡◌, refl, ap, true, some, List, [], ◌∷◌, get_elem?, set, arith,
}
use nest_disk.Pool.{Pool, queued, retires, producer_add, enqueue, custom, retire}
use nest_disk.Pool.Ring.{Represents, enqueue-Represents}
use nest_disk.Pool.Refine.{retire-Represents}
use nest_disk.Pool.Workers.{
  Worker, asleep, woken, gone, System, wakes, produce, leave, Reach, here, next,
}

module _ {T : Type 0} where
  -- No worker will look at the queue before it is signalled.
  abbrev pub Idle : Worker T → Type 0
  Idle asleep = Unit {0}
  Idle gone = Unit {0}
  Idle _ = ⊥

  abbrev pub AllIdle : List (Worker T) → Type 0
  AllIdle [] = Unit {0}
  AllIdle (w ∷ ws) = Idle w × AllIdle ws

  set-AllIdle :
      (ws : List (Worker T)) (i : ℕ) (w : Worker T) → Idle w → AllIdle ws → AllIdle (set ws i w)
  set-AllIdle [] i w h a = tt
  set-AllIdle (x ∷ ws) zero w h a = (h, a.1)
  set-AllIdle (x ∷ ws) (suc i) w h a = (a.0, set-AllIdle ws i w h a.1)

  set-set : (ws : List (Worker T)) (i : ℕ) (v w : Worker T) → set (set ws i v) i w ≡ set ws i w
  set-set [] i v w = refl
  set-set (x ∷ ws) zero v w = refl
  set-set (x ∷ ws) (suc i) v w = ap (λ l. x ∷ l) (set-set ws i v w)

  get_elem?-set_at :
      (ws : List (Worker T)) (i : ℕ) (v w : Worker T)
      → get_elem? ws i ≡ some v
      → get_elem? (set ws i w) i ≡ some w
  get_elem?-set_at [] i v w e = cc
  get_elem?-set_at (x ∷ ws) zero v w e = refl
  get_elem?-set_at (x ∷ ws) (suc i) v w e = get_elem?-set_at ws i v w e

  queued_alone :
      (p : Pool T) (t : T)
      → p.thread_shutdown ≡ true
      → Represents p []
      → producer_add p t ≡ queued (enqueue p t)
  unfolding producer_add
  queued_alone p t opened r = ground (arith, r.counted, r.room)

  retires_first :
      (p : Pool T) (t : T)
      → p.thread_shutdown ≡ true
      → 0 < p.thread_wait
      → p.thread_min < p.thread_alive
      → custom (enqueue p t) ≡ retires (retire (enqueue p t))
  unfolding custom enqueue
  retires_first p t opened wanted more = ground arith

  -- With the queue empty, all workers asleep or gone, a retirement asked for and more workers alive
  -- than the minimum, a task can be added and then be left in the queue with all workers asleep or
  -- gone: the one worker that the producer woke retires, and nobody passes its signal on.
  pub lost_wakeup :
      (s : System T) (t : T) (i : ℕ)
      → Represents s.pool []
      → s.pool.thread_shutdown ≡ true
      → 0 < s.pool.thread_wait
      → s.pool.thread_min < s.pool.thread_alive
      → AllIdle s.workers
      → get_elem? s.workers i ≡ some asleep
      → (u : System T) × Reach s u × Represents u.pool (t ∷ []) × AllIdle u.workers
  lost_wakeup s t i r opened wanted more idle at = (
    record s { pool = retire (enqueue s.pool t); workers = set (set s.workers i woken) i gone },
    next (next here (produce t _ _ (queued_alone s.pool t opened r) (wakes i at))) (
        leave i woken _ (get_elem?-set_at s.workers i asleep woken at) tt
          (retires_first s.pool t opened wanted more)),
    retire-Represents (enqueue s.pool t) (t ∷ [])
        (enqueue-Represents s.pool [] t r (omega (arith, r.counted, r.room))),
    rw (set-set s.workers i woken gone) (set-AllIdle s.workers i gone tt idle),
  )
