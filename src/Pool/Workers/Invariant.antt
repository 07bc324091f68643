-- ===== src/Pool/Workers/Invariant.antt =====
-- What holds in every state of the pool and its threads.
use nest_disk.Base.{
  ℕ, suc, zero, ◌+◌, ◌*◌, ◌≤◌, ◌<◌, ◌≡◌, refl, ◌∙◌, true, Option, some, List, [], ◌∷◌, ◌++◌, set,
  arith,
}
use nest_disk.Pool.{
  Pool, queued, closes, retires, takes, producer_add, custom, finish, spawn, init, start_threads,
  pool_create, replicate,
}
use nest_disk.Pool.Ring.{Represents, with_counters-Represents, init-Represents}
use nest_disk.Pool.Refine.{producer_add-Adds, custom-Takes}
use nest_disk.Pool.Workers.{
  Worker, ready, asleep, woken, running, gone, System, Step, produce, sleep, close, leave, begin,
  done, spurious, grow, grow_fails, shrink, Reach, here, next, total, lives, runs,
}
use nest_disk.Pool.Workers.Counting.{
  total-set, total_mono, runs-le-lives, Enters-weights, Signal-total, producer_add-counters,
  custom-retires, custom-takes,
}

add_assoc_one : (a n : ℕ) → a + 1 + n ≡ a + suc n
add_assoc_one a n = omega arith

module _ {T : Type 0} where
  -- The pool is open, its counters are the numbers of threads, and the ring holds a queue.
  pub record Inv (s : System T) : Type 0 where
    pub opened : s.pool.thread_shutdown ≡ true
    pub alive : s.pool.thread_alive ≡ total lives s.workers + s.unborn
    pub busy : s.pool.thread_busy ≡ total runs s.workers
    pub queue : (ts : List T) × Represents s.pool ts

  -- The queue that is left after a worker's pass, and after an addition.
  retires-queue :
      (p q : Pool T) (ts : List T) → Represents p ts → custom p ≡ retires q → Represents q ts
  retires-queue p q ts r e = (rw e at (custom-Takes p ts r)).4

  takes-queue :
      (p q : Pool T) (o : Option T) (ts : List T)
      → Represents p ts
      → custom p ≡ takes o q
      → (us : List T) × Represents q us
  takes-queue p q o ts r e = let h = rw e at (custom-Takes p ts r) in (h.1.1, h.1.4)

  queued-queue :
      (p q : Pool T) (t : T) (ts : List T)
      → Represents p ts
      → producer_add p t ≡ queued q
      → Represents q (ts ++ (t ∷ []))
  queued-queue p q t ts r e = (rw e at (producer_add-Adds p ts t r)).2

  not-closes :
      (p : Pool T) (ts : List T)
      → Represents p ts
      → p.thread_shutdown ≡ true
      → ¬ (custom p ≡ closes)
  not-closes p ts r opened e = let h = rw e at (custom-Takes p ts r) in cc (h, opened)

  Step-Inv : {s u : System T} → Step s u → Inv s → Inv u
  unfolding finish spawn
  Step-Inv {s} (produce t p ws e sig) v = record {
    opened = (producer_add-counters s.pool p t e).2 ∙ v.opened;
    alive = omega (arith, producer_add-counters s.pool p t e, Signal-total lives refl sig, v.alive);
    busy = omega (arith, producer_add-counters s.pool p t e, Signal-total runs refl sig, v.busy);
    queue = (v.queue.0 ++ (t ∷ []), queued-queue s.pool p t v.queue.0 v.queue.1 e);
  }
  Step-Inv {s} (sleep i w at en e) v = record {
    opened = v.opened;
    alive = omega (arith, total-set lives s.workers i w asleep at, Enters-weights w en, v.alive);
    busy = omega (arith, total-set runs s.workers i w asleep at, Enters-weights w en, v.busy);
    queue = v.queue;
  }
  Step-Inv {s} (close i w at en e) v = absurd (not-closes s.pool v.queue.0 v.queue.1 v.opened e)
  Step-Inv {s} (leave i w p at en e) v = record {
    opened = (custom-retires s.pool p e).2 ∙ v.opened;
    alive = omega (
      arith,
      total-set lives s.workers i w gone at,
      Enters-weights w en,
      v.alive,
      custom-retires s.pool p e,
    );
    busy = omega (
      arith,
      total-set runs s.workers i w gone at,
      Enters-weights w en,
      v.busy,
      custom-retires s.pool p e,
    );
    queue = (v.queue.0, retires-queue s.pool p v.queue.0 v.queue.1 e);
  }
  Step-Inv {s} (begin i w t p at en e) v = record {
    opened = (custom-takes s.pool p (some t) e).2 ∙ v.opened;
    alive = omega (
      arith,
      total-set lives s.workers i w (running t) at,
      Enters-weights w en,
      v.alive,
      custom-takes s.pool p (some t) e,
    );
    busy = omega (
      arith,
      total-set runs s.workers i w (running t) at,
      Enters-weights w en,
      v.busy,
      custom-takes s.pool p (some t) e,
    );
    queue = takes-queue s.pool p (some t) v.queue.0 v.queue.1 e;
  }
  Step-Inv {s} (done i t at) v = record {
    opened = v.opened;
    alive = omega (arith, total-set lives s.workers i (running t) ready at, v.alive);
    busy = omega (arith, total-set runs s.workers i (running t) ready at, v.busy);
    queue = (v.queue.0, with_counters-Represents s.pool v.queue.0 _ _ _ _ v.queue.1);
  }
  Step-Inv {s} (spurious i at) v = record {
    opened = v.opened;
    alive = omega (arith, total-set lives s.workers i asleep woken at, v.alive);
    busy = omega (arith, total-set runs s.workers i asleep woken at, v.busy);
    queue = v.queue;
  }
  Step-Inv {s} (grow alive? new us e) v =
      rw (e, spawn)
        (record {
          opened = v.opened;
          alive = omega (arith, v.alive);
          busy = omega (arith, v.busy);
          queue = (v.queue.0, with_counters-Represents s.pool v.queue.0 _ _ _ _ v.queue.1);
        })
  Step-Inv {s} (grow_fails alive? any us e) v =
      rw (e, spawn)
        (record {
          opened = v.opened;
          alive = omega (arith, v.alive);
          busy = omega (arith, v.busy);
          queue = (v.queue.0, with_counters-Represents s.pool v.queue.0 _ _ _ _ v.queue.1);
        })
  Step-Inv shrink v = record {
    opened = v.opened;
    alive = v.alive;
    busy = v.busy;
    queue = (v.queue.0, with_counters-Represents _ v.queue.0 _ _ _ _ v.queue.1);
  }

  Reach-Inv : {s u : System T} → Reach s u → Inv s → Inv u
  Reach-Inv here v = v
  Reach-Inv (next r st) v = Step-Inv st (Reach-Inv r v)

  pub start_threads-lem :
      (fresh : ℕ → ℕ) (i n : ℕ) (p : Pool T) (ts : List T)
      → Represents p ts
      → Represents (start_threads fresh i n p) ts
        × ((start_threads fresh i n p).thread_alive ≡ p.thread_alive + n)
        × ((start_threads fresh i n p).thread_busy ≡ p.thread_busy)
        × ((start_threads fresh i n p).thread_shutdown ≡ p.thread_shutdown)
  unfolding start_threads
  start_threads-lem fresh i zero p ts r = (r, omega arith, refl, refl)
  start_threads-lem fresh i (suc n) p ts r =
      let h =
        start_threads-lem fresh (i + 1) n
          (record p { tids = set p.tids i (fresh i); thread_alive = p.thread_alive + 1 }) ts
          (with_counters-Represents p ts _ _ _ _ r) in
      (h.0, h.1 ∙ add_assoc_one p.thread_alive n, h.2, h.3)

  total-ready : (f : Worker T → ℕ) (n : ℕ) → total f (replicate n ready) ≡ n * f ready
  total-ready f zero = omega arith
  total-ready f (suc n) = grind (arith, total-ready f n)

  -- The pool that `Pool_create` sets up, with its first threads about to lock.
  unfoldable pub new_system : (ℕ → ℕ) → ℕ → ℕ → ℕ → System T
  new_system fresh max min que_max = record {
    pool = pool_create fresh max min que_max;
    workers = replicate min ready;
    unborn = 0;
  }

  new_system-Inv :
      (fresh : ℕ → ℕ) (max min que_max : ℕ) → 0 < que_max → Inv (new_system fresh max min que_max)
  unfolding new_system pool_create init
  new_system-Inv fresh max min que_max h =
      let e =
        start_threads-lem fresh 0 min (init max min que_max) []
          (init-Represents max min que_max h) in
      record {
        opened = e.3;
        alive = omega (arith, e.1, total-ready lives min);
        busy = omega (arith, e.2, total-ready runs min);
        queue = ([], e.0);
      }

  -- In every state that a pool with a queue of at least one slot reaches, under any interleaving of
  -- producers, workers and the manager, the pool is open, `thread_alive` is the number of workers
  -- that have not ended and of the manager's calls of `pthread_create` that failed, `thread_busy` is
  -- the number of workers that run a task and is no larger, and the ring stands for a queue of at
  -- most `queue_max` tasks.
  pub Reach-counters :
      (fresh : ℕ → ℕ) (max min que_max : ℕ) (s : System T)
      → 0 < que_max
      → Reach (new_system fresh max min que_max) s
      → (s.pool.thread_shutdown ≡ true)
        × (s.pool.thread_alive ≡ total lives s.workers + s.unborn)
        × (s.pool.thread_busy ≡ total runs s.workers)
        × (s.pool.thread_busy ≤ s.pool.thread_alive)
        × ((ts : List T) × Represents s.pool ts)
  Reach-counters fresh max min que_max s h r =
      let v = Reach-Inv r (new_system-Inv fresh max min que_max h) in
      (
        v.opened,
        v.alive,
        v.busy,
        omega (arith, v.alive, v.busy, total_mono runs lives runs-le-lives s.workers),
        v.queue,
      )
