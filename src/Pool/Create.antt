-- ===== src/Pool/Create.antt =====
-- src/Thread_pool.cpp, `Pool_create` and the constructor of `pool_t`, over what the calls of the system
-- return; src/err_str.cpp ends the process.
use nest_disk.Base.{
  ℕ, zero, suc, ◌+◌, ◌≤◌, ◌<◌, ◌≡◌, sym, ap, subst, ◌∙◌, ◌&&◌, Bool, true, false, not, ◌||◌, [],
  ltb, arith, if◌then◌else◌, set,
}
use nest_disk.Pool.{Pool, init, start_threads}
use nest_disk.Pool.Ring.{Represents, init-Represents}
use nest_disk.Pool.Workers.Invariant.{start_threads-lem}

-- Whether the lock and the conditions can be made, whether `malloc` gives the arrays of thread ids and of
-- tasks, and what each `pthread_create` returns: 0, or the number of an error.
pub record PoolCalls : Type 0 where
  pub inits : Bool
  pub malloc_tids : Bool
  pub malloc_queue : Bool
  pub pthread_create : ℕ → ℕ

-- The process ends, or `Pool_create` returns and leaves a pool behind.
pub data Created (T : Type 0) : Type 0 where
  exits : Created T
  returns : Bool → Pool T → Created T

add-zero : (n : ℕ) → n + 0 ≡ n
add-zero n = omega arith

zero-add : (n : ℕ) → 0 + n ≡ n
zero-add n = omega arith

add_one : (i j : ℕ) → i + 1 + j ≡ i + suc j
add_one i j = omega arith

module _ {T : Type 0} where
  -- The first `for`, from the thread `i` on, and the manager behind the last thread. There are to be as
  -- many slots as threads: where there are fewer, the code writes past the array, and `set` changes
  -- nothing. The server asks for 10 threads and 200 slots.
  pub create_threads : PoolCalls → (ℕ → ℕ) → ℕ → ℕ → Pool T → Created T
  create_threads calls fresh i zero p = returns (not (ltb 0 (calls.pthread_create i))) p
  create_threads calls fresh i (suc n) p =
      let rest =
        create_threads calls fresh (i + 1) n
          (record p { tids = set p.tids i (fresh i); thread_alive = p.thread_alive + 1 }) in
      if ltb 0 (calls.pthread_create i) then returns false p else rest

  pub create_pool : PoolCalls → (ℕ → ℕ) → ℕ → ℕ → ℕ → Created T
  unfolding create_threads
  create_pool calls fresh max min que_max =
      if not calls.inits || not calls.malloc_tids || not calls.malloc_queue
      then exits
      else create_threads calls fresh 0 min (init max min que_max)

  -- The calls up to the first that fails.
  create_threads-first :
      (calls : PoolCalls) (fresh : ℕ → ℕ) (i n first : ℕ) (p : Pool T)
      → ((j : ℕ) → j < first → calls.pthread_create (i + j) ≡ 0)
      → (first ≤ n → 0 < calls.pthread_create (i + first))
      → create_threads calls fresh i n p
        ≡ returns (ltb n first) (start_threads fresh i (if ltb n first then n else first) p)
  unfolding create_threads start_threads
  create_threads-first calls fresh i zero zero p good bad =
      ground (arith, bad (omega arith), ap calls.pthread_create (add-zero i))
  create_threads-first calls fresh i (suc n) zero p good bad =
      ground (arith, bad (omega arith), ap calls.pthread_create (add-zero i))
  create_threads-first calls fresh i zero (suc first) p good bad =
      ground (arith, good 0 (omega arith), ap calls.pthread_create (add-zero i))
  create_threads-first calls fresh i (suc n) (suc first) p good bad =
      let q = record p { tids = set p.tids i (fresh i); thread_alive = p.thread_alive + 1 } in
      let ih =
        create_threads-first calls fresh (i + 1) n first q
          (λ j h. ap calls.pthread_create (add_one i j) ∙ good (suc j) (omega arith))
          (λ h.
            subst (λ (k : ℕ). 0 < calls.pthread_create k) (sym (add_one i first))
              (bad (omega arith))) in
      ground (arith, ih, good 0 (omega arith), ap calls.pthread_create (add-zero i))

  -- Some first call for a thread fails, or none of the calls for the workers and the manager does, and
  -- the queue has at least one slot: if the lock, the conditions and the arrays can be made, then
  -- `Pool_create` returns true exactly if all these calls succeed, and the pool that it leaves is open,
  -- holds no task, and counts as alive the threads that were started before the first failure; if
  -- they cannot be made, the process ends.
  pub create_pool-first :
      (calls : PoolCalls) (fresh : ℕ → ℕ) (max min que_max first : ℕ)
      → 0 < que_max
      → ((j : ℕ) → j < first → calls.pthread_create j ≡ 0)
      → (first ≤ min → 0 < calls.pthread_create first)
      → let made = calls.inits && calls.malloc_tids && calls.malloc_queue in
        (p : Pool T) × (create_pool calls fresh max min que_max
          ≡ (if made then returns (ltb min first) p else exits))
        × (p.thread_alive ≡ (if ltb min first then min else first))
        × (p.thread_shutdown ≡ true)
        × Represents p []
  unfolding create_pool
  create_pool-first calls fresh max min que_max first room good bad =
      let n = if ltb min first then min else first in
      let h =
        start_threads-lem {T = T} fresh 0 n (init max min que_max) []
          (init-Represents max min que_max room) in
      let e =
        create_threads-first calls fresh 0 min first (init max min que_max)
          (λ j lt. ap calls.pthread_create (zero-add j) ∙ good j lt)
          (λ le. subst (λ (k : ℕ). 0 < calls.pthread_create k) (sym (zero-add first)) (bad le)) in
      (
        start_threads fresh 0 n (init max min que_max),
        ground (arith, e),
        unfold init in h.1 ∙ zero-add n,
        unfold init in h.3,
        h.0,
      )
