-- ===== src/Pool.antt =====
-- include/Thread_pool.h and src/Thread_pool.cpp: the bounded task ring, the workers' critical
-- sections and the manager's decisions. `T` is a task, a function pointer with its argument.
-- The mutex makes each critical section one step; a wait on a condition variable is an outcome of
-- its own. Counters that the code only counts up from 0 are natural numbers.
pub mod Ring
pub mod Refine
pub mod Workers
pub mod Manager
pub mod Create
mod Tests
use nest_disk.Base.{
  ℕ, suc, zero, ◌+◌, ◌-◌, ◌*◌, ◌%◌, Bool, true, false, ◌&&◌, ◌||◌, Option, none, some, List, [],
  ◌∷◌, get_elem?, set, ltb, leb, ◌==◌, if◌then◌else◌, ℤ, negsuc, eq_ℤ,
}

-- `pool_t`. A slot of `queue_task` is `none` until a task has been written to it, and a slot of
-- `tids` is 0 until a thread has been started in it.
pub record Pool (T : Type 0) : Type 0 where
  pub thread_max : ℕ
  pub thread_min : ℕ
  pub thread_alive : ℕ
  pub thread_busy : ℕ
  pub thread_shutdown : Bool
  pub thread_wait : ℕ
  pub queue_max : ℕ
  pub queue_cur : ℕ
  pub queue_front : ℕ
  pub queue_rear : ℕ
  pub queue_task : List (Option T)
  pub tids : List ℕ

abbrev pub replicate {ℓ} : {A : Type ℓ} → ℕ → A → List A
replicate zero a = []
replicate (suc n) a = a ∷ replicate n a

-- The constructor: `thread_shutdown` is TRUE while the pool runs.
pub init : {T : Type 0} → ℕ → ℕ → ℕ → Pool T
init max min que_max = record {
  thread_max = max;
  thread_min = min;
  thread_alive = 0;
  thread_busy = 0;
  thread_shutdown = true;
  thread_wait = 0;
  queue_max = que_max;
  queue_cur = 0;
  queue_front = 0;
  queue_rear = 0;
  queue_task = replicate que_max none;
  tids = replicate max 0;
}

-- What one pass of `Producer_add` comes to: it waits on `not_full`, it returns -1, or it has
-- queued the task, signals `not_empty` and returns 0.
pub data Added (T : Type 0) : Type 0 where
  blocks : Added T
  refused : Added T
  queued : Pool T → Added T

-- The assignments under the lock once there is room.
pub enqueue : {T : Type 0} → Pool T → T → Pool T
enqueue p t = record p {
  queue_task = set p.queue_task p.queue_front (some t);
  queue_front = (p.queue_front + 1) % p.queue_max;
  queue_cur = p.queue_cur + 1;
}

pub producer_add : {T : Type 0} → Pool T → T → Added T
unfolding enqueue
producer_add p t =
    if p.queue_cur == p.queue_max && p.thread_shutdown
    then blocks
    else if p.thread_shutdown
    then queued (enqueue p t)
    else refused

-- What one pass of `Custom` under the lock comes to: it waits on `not_empty`, the thread ends
-- because the pool is closed, the thread retires, or it leaves with a task to run. A slot that was
-- never written has no task: the code would call a garbage pointer.
pub data Taken (T : Type 0) : Type 0 where
  waits : Taken T
  closes : Taken T
  retires : Pool T → Taken T
  takes : Option T → Pool T → Taken T

abbrev pub slot : {T : Type 0} → List (Option T) → ℕ → Option T
slot q i = elim (get_elem? q i) [ none ↦ none | some o ↦ o ]

pub dequeue : {T : Type 0} → Pool T → Pool T
dequeue p = record p {
  queue_rear = (p.queue_rear + 1) % p.queue_max;
  queue_cur = p.queue_cur - 1;
  thread_busy = p.thread_busy + 1;
}

pub retire : {T : Type 0} → Pool T → Pool T
retire p = record p { thread_wait = p.thread_wait - 1; thread_alive = p.thread_alive - 1 }

pub custom : {T : Type 0} → Pool T → Taken T
unfolding dequeue retire
custom p =
    if p.queue_cur == 0 && p.thread_shutdown
    then waits
    else if p.thread_shutdown
    then (if ltb 0 p.thread_wait && ltb p.thread_min p.thread_alive
        then retires (retire p)
        else takes (slot p.queue_task p.queue_rear) (dequeue p))
    else closes

-- The second critical section of `Custom`, after the task has run.
pub finish : {T : Type 0} → Pool T → Pool T
finish p = record p { thread_busy = p.thread_busy - 1 }

-- `if_thread_alive`, over what `pthread_kill(tid, 0)` returns and `errno` then holds.
abbrev pub esrch : ℕ
esrch = 3

pub if_thread_alive : ℤ → ℕ → Bool
if_thread_alive returned errno =
    if eq_ℤ returned (negsuc 0) then (if errno == esrch then false else true) else true

-- The differences of thread counts are moved to the other side of each comparison. `Manager`
-- compares `(float)busy / alive * 100 >= 80`; for thread counts, which stay far below 2 ^ 20, the
-- float test is the exact one. No worker alive makes the quotient no number or infinite.
pub grows : ℕ → ℕ → ℕ → ℕ → Bool
grows thread_max cur busy alive =
    (ltb alive (cur + busy) || (if alive == 0 then ltb 0 busy else leb (4 * alive) (5 * busy)))
    && ltb alive thread_max

pub shrinks : ℕ → ℕ → ℕ → Bool
shrinks thread_min busy alive = ltb (busy * 2 + busy) alive && ltb thread_min alive

-- The first slot of `tids` that is 0 or whose thread is gone takes the new thread's id.
pub claim : (ℕ → Bool) → ℕ → List ℕ → Option (List ℕ)
claim alive? new [] = none
claim alive? new (t ∷ ts) =
    if t == 0 || not_alive
    then some (new ∷ ts)
    else elim (claim alive? new ts) [ none ↦ none | some us ↦ some (t ∷ us) ]
  where
    not_alive : Bool
    not_alive = if alive? t then false else true

-- What a `pthread_create` does: it starts a thread with an id, or fails, and then the slot holds
-- anything.
pub data Start : Type 0 where
  started failed : ℕ → Start

-- What the slot holds behind the call.
abbrev pub left_in : Start → ℕ
left_in (started id) = id
left_in (failed any) = any

-- One round of the outer `for`: a slot that is found is used, and `thread_alive` grows, whether the
-- thread could be started or not.
pub spawn : {T : Type 0} → (ℕ → Bool) → Start → Pool T → Pool T
unfolding claim
spawn alive? new p = elim (claim alive? (left_in new) p.tids) [
  | none ↦ p
  | some us ↦ record p { tids = us; thread_alive = p.thread_alive + 1 }
]

-- `fresh j` is what the `pthread_create` of round `j` does.
pub spawn_all : {T : Type 0} → (ℕ → Bool) → (ℕ → Start) → ℕ → Pool T → Pool T
unfolding spawn
spawn_all alive? fresh zero p = p
spawn_all alive? fresh (suc j) p = spawn_all alive? fresh j (spawn alive? (fresh j) p)

-- `_DEF_COUNT`.
abbrev pub def_count : ℕ
def_count = 10

-- One round of `Manager`, on the numbers that it read under the lock.
pub manager : {T : Type 0} → (ℕ → Bool) → (ℕ → Start) → ℕ → ℕ → ℕ → Pool T → Pool T
manager alive? fresh alive cur busy p =
    let grown =
      if grows p.thread_max cur busy alive then spawn_all alive? fresh p.thread_min p else p in
    if shrinks p.thread_min busy alive then record grown { thread_wait = def_count } else grown

-- `Pool_create` where every `pthread_create` succeeds: thread `i` goes into slot `i`.
pub start_threads : {T : Type 0} → (ℕ → ℕ) → ℕ → ℕ → Pool T → Pool T
start_threads fresh i zero p = p
start_threads fresh i (suc n) p =
    start_threads fresh (i + 1) n
      (record p { tids = set p.tids i (fresh i); thread_alive = p.thread_alive + 1 })

pub pool_create : {T : Type 0} → (ℕ → ℕ) → ℕ → ℕ → ℕ → Pool T
unfolding init start_threads
pool_create fresh max min que_max = start_threads fresh 0 min (init max min que_max)
