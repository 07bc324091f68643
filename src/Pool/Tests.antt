-- ===== src/Pool/Tests.antt =====
-- The pool's theorems at small pools, with numbers for tasks.
use nest_disk.Base.{
  ◌+◌, ◌<◌, ◌==◌, false, if◌then◌else◌, ℕ, zero, suc, ◌≤◌, ◌≡◌, ◌≢◌, refl, ℤ, pos, negsuc, true,
  some, List, [], ◌∷◌, length, get_elem?, arith,
}
use nest_disk.Pool.{
  Start, started, Pool, init, enqueue, dequeue, producer_add, custom, pool_create, start_threads,
  manager, if_thread_alive,
}
use nest_disk.Pool.Ring.{Represents, init-Represents, enqueue-Represents, with_counters-Represents}
use nest_disk.Pool.Refine.{Op, add, pass, serve, fresh, InOrder, serve_fifo}
use nest_disk.Pool.Workers.{
  Worker, ready, asleep, running, System, Reach, here, next, produce, begin, lost, total, lives,
  runs,
}
use nest_disk.Pool.Workers.Invariant.{new_system, Reach-counters}
use nest_disk.Pool.Workers.Wakeup.{AllIdle, lost_wakeup}
use nest_disk.Pool.Create.{PoolCalls, create_pool, returns, create_pool-first}
use nest_disk.Pool.Manager.{IsSized, used, manager_bounded, manager_stuck}

abbrev two_tasks : Pool ℕ
two_tasks = enqueue (enqueue (init 4 2 3) 7) 8

two_tasks-Represents : Represents two_tasks (7 ∷ 8 ∷ [])
unfolding init enqueue
two_tasks-Represents =
    enqueue-Represents (enqueue (init 4 2 3) 7) (7 ∷ []) 8
      (enqueue-Represents (init 4 2 3) [] 7 (init-Represents 4 2 3 (omega arith)) (omega arith))
      (omega arith)

abbrev some_ops : List (Op ℕ)
some_ops = add 7 ∷ add 8 ∷ pass ∷ add 9 ∷ pass ∷ []

serve_fifo_example : InOrder (serve (fresh 4 2 1) some_ops)
serve_fifo_example = serve_fifo 4 2 1 some_ops (omega arith)

-- A producer has queued a task, and the first of two workers has taken it.
abbrev one_busy : System ℕ
one_busy = record {
  pool = dequeue (enqueue (pool_create suc 4 2 3) 7);
  workers = running 7 ∷ ready ∷ [];
  unborn = 0;
}

abbrev two_ready : List (Worker ℕ)
two_ready = ready ∷ ready ∷ []

none_asleep : (i : ℕ) → ¬ (get_elem? two_ready i ≡ some asleep)
none_asleep zero e = cc
none_asleep (suc zero) e = cc
none_asleep (suc (suc i)) e = cc

one_busy-Reach : Reach (new_system suc 4 2 3) one_busy
unfolding new_system pool_create init start_threads producer_add enqueue custom dequeue
one_busy-Reach =
    next
      (next here (produce 7 (enqueue (pool_create suc 4 2 3) 7) two_ready refl (lost none_asleep)))
      (begin 0 ready 7 (dequeue (enqueue (pool_create suc 4 2 3) 7)) refl tt refl)

Reach-counters_example :
    (one_busy.pool.thread_shutdown ≡ true)
    × (one_busy.pool.thread_alive ≡ total lives one_busy.workers + one_busy.unborn)
    × (one_busy.pool.thread_busy ≡ total runs one_busy.workers)
    × (one_busy.pool.thread_busy ≤ one_busy.pool.thread_alive)
    × ((ts : List ℕ) × Represents one_busy.pool ts)
Reach-counters_example = Reach-counters suc 4 2 3 one_busy (omega arith) one_busy-Reach

-- Two workers more than the minimum, all asleep, after a manager's round that wants some gone.
abbrev calm : System ℕ
calm = record {
  pool = record (init 4 2 3) { thread_alive = 4; thread_wait = 10 };
  workers = asleep ∷ asleep ∷ asleep ∷ asleep ∷ [];
  unborn = 0;
}

calm-Represents : Represents calm.pool []
calm-Represents =
    with_counters-Represents (init 4 2 3) [] _ _ _ _ (init-Represents 4 2 3 (omega arith))

lost_wakeup_example : (u : System ℕ) × Reach calm u × Represents u.pool (7 ∷ []) × AllIdle u.workers
unfolding init
lost_wakeup_example =
    lost_wakeup calm 7 2 calm-Represents refl (omega arith) (omega arith) (tt, (tt, (tt, (tt, tt))))
      refl

abbrev kill : ℕ → ℤ
kill t = pos 3

abbrev no_errno : ℕ → ℕ
no_errno t = 0

kill_ne : (t : ℕ) → kill t ≢ negsuc 0
kill_ne t e = cc

abbrev all_start : ℕ → Start
all_start j = started (suc j)

abbrev small : Pool ℕ
small = pool_create suc 4 2 3

small-IsSized : IsSized small
unfolding pool_create init start_threads used
small-IsSized = record { slots = refl; threads = omega arith }

manager_bounded_example :
    let q = manager (λ t. if_thread_alive (kill t) (no_errno t)) all_start 2 3 2 small in
    IsSized q × (q.thread_alive ≤ small.thread_max)
manager_bounded_example =
    manager_bounded kill no_errno kill_ne all_start 2 3 2 small (λ j e. cc) small-IsSized

-- Both slots have been used, one thread is left.
abbrev worn : Pool ℕ
worn = record (pool_create suc 2 2 3) { thread_alive = 1 }

worn-used : used worn.tids ≡ length worn.tids
unfolding pool_create init start_threads used
worn-used = refl

manager_stuck_example :
    let q = manager (λ t. if_thread_alive (kill t) (no_errno t)) all_start 1 3 1 worn in
    (q.thread_alive ≡ worn.thread_alive) × (q.tids ≡ worn.tids)
manager_stuck_example = manager_stuck kill no_errno kill_ne all_start 1 3 1 worn worn-used

-- The second thread cannot be started.
abbrev second_fails : PoolCalls
second_fails = record {
  inits = true;
  malloc_tids = true;
  malloc_queue = true;
  pthread_create = λ j. if j == 1 then 11 else 0;
}

before_second : (j : ℕ) → j < 1 → second_fails.pthread_create j ≡ 0
before_second zero h = refl
before_second (suc j) h = absurd (omega arith)

create_pool-first_example :
    (p : Pool ℕ) × (create_pool second_fails suc 4 2 3 ≡ returns false p)
    × (p.thread_alive ≡ 1)
    × (p.thread_shutdown ≡ true)
    × Represents p []
create_pool-first_example =
    create_pool-first second_fails suc 4 2 3 1 (omega arith) before_second (λ h. omega arith)
