-- ===== src/Pool/Refine.antt =====
-- `Producer_add` and `Custom` against a bounded first-in first-out queue of tasks.
use nest_disk.Base.{
  ℕ, ◌+◌, ◌<◌, ◌≡◌, ◌≢◌, refl, sym, ap, ◌∙◌, true, false, Option, some, List, [], ◌∷◌, ◌++◌, length,
  map, arith,
}
use mathlib.Core.List.{append_assoc, map-append}
use nest_disk.Pool.{
  Pool, Added, blocks, refused, queued, Taken, waits, closes, retires, takes, slot, producer_add,
  custom, retire, init,
}
use nest_disk.Pool.Ring.{
  Represents, with_counters-Represents, enqueue-Represents, dequeue-Represents, init-Represents,
}

module _ {T : Type 0} where
  -- What each outcome of `producer_add p t` says of the queue `ts` that `p` stands for.
  abbrev pub Adds : Pool T → List T → T → Added T → Type 0
  Adds p ts t blocks = (p.thread_shutdown ≡ true) × (length ts ≡ p.queue_max)
  Adds p ts t refused = p.thread_shutdown ≡ false
  Adds p ts t (queued q) =
      (p.thread_shutdown ≡ true) × (length ts < p.queue_max) × Represents q (ts ++ (t ∷ []))

  -- What each outcome of `custom p` says of that queue.
  abbrev pub Takes : Pool T → List T → Taken T → Type 0
  Takes p ts waits = (p.thread_shutdown ≡ true) × (ts ≡ [])
  Takes p ts closes = p.thread_shutdown ≡ false
  Takes p ts (retires q) =
      (p.thread_shutdown ≡ true)
      × (p.thread_min < p.thread_alive)
      × (q.thread_alive + 1 ≡ p.thread_alive)
      × (ts ≢ [])
      × Represents q ts
  Takes p ts (takes o q) =
      (p.thread_shutdown ≡ true)
      × ((t : T) × (us : List T) × (ts ≡ t ∷ us) × (o ≡ some t) × Represents q us)

  -- Adding a task to a pool that stands for a queue is refused exactly when the pool is closed; in an
  -- open pool it waits exactly when the queue is full, and otherwise puts the task at the end of it.
  pub producer_add-Adds :
      (p : Pool T) (ts : List T) (t : T) → Represents p ts → Adds p ts t (producer_add p t)
  unfolding producer_add
  producer_add-Adds p ts t r = ground (arith, enqueue-Represents p ts t r)

  pub retire-Represents : (p : Pool T) (ts : List T) → Represents p ts → Represents (retire p) ts
  unfolding retire
  retire-Represents p ts r = with_counters-Represents p ts _ _ _ _ r

  -- A worker's pass over a pool that stands for a queue ends the worker exactly when the pool is closed;
  -- in an open pool it waits exactly when the queue is empty, and otherwise takes the oldest task of the
  -- queue or retires, which happens only with more workers alive than the minimum and leaves the queue
  -- as it was. The slot that is read always holds a task.
  pub custom-Takes : (p : Pool T) (ts : List T) → Represents p ts → Takes p ts (custom p)
  unfolding custom retire
  custom-Takes p [] r = ground (arith, r.counted)
  custom-Takes p (t ∷ ts) r =
      ground (arith, r.counted, dequeue-Represents p t ts r, retire-Represents p (t ∷ ts) r)

-- A history of a pool: tasks that clients add, and passes of workers.
pub data Op (T : Type 0) : Type 0 where
  add : T → Op T
  pass : Op T

-- The pool, the tasks that it accepted and the tasks that workers left with, oldest first.
pub record History (T : Type 0) : Type 0 where
  pub pool : Pool T
  pub accepted : List T
  pub started : List (Option T)

module _ {T : Type 0} where
  after_add : History T → T → Added T → History T
  after_add h t blocks = h
  after_add h t refused = h
  after_add h t (queued q) = record {
    pool = q;
    accepted = h.accepted ++ (t ∷ []);
    started = h.started;
  }

  after_pass : History T → Taken T → History T
  after_pass h waits = h
  after_pass h closes = h
  after_pass h (retires q) = record h { pool = q }
  after_pass h (takes o q) = record {
    pool = q;
    accepted = h.accepted;
    started = h.started ++ (o ∷ []);
  }

  step : History T → Op T → History T
  unfolding after_add after_pass
  step h (add t) = after_add h t (producer_add h.pool t)
  step h pass = after_pass h (custom h.pool)

  pub serve : History T → List (Op T) → History T
  unfolding step
  serve h [] = h
  serve h (o ∷ os) = serve (step h o) os

  -- The queued tasks are those that were accepted and not yet started, in order.
  abbrev pub InOrder : History T → Type 0
  InOrder h =
      (ts : List T) × Represents h.pool ts × (h.started ++ map some ts ≡ map some h.accepted)

  after_add-InOrder :
      (h : History T) (t : T) (a : Added T) (ts : List T)
      → Represents h.pool ts
      → h.started ++ map some ts ≡ map some h.accepted
      → Adds h.pool ts t a
      → InOrder (after_add h t a)
  unfolding after_add
  after_add-InOrder h t blocks ts r e o = (ts, r, e)
  after_add-InOrder h t refused ts r e o = (ts, r, e)
  after_add-InOrder h t (queued q) ts r e o = (ts ++ (t ∷ []), o.2, after)
    where
      after : h.started ++ map some (ts ++ (t ∷ [])) ≡ map some (h.accepted ++ (t ∷ []))
      after = simp map-append (
          sym (append_assoc h.started (map some ts) (some t ∷ []))
          ∙ ap (λ (l : List (Option T)). l ++ (some t ∷ [])) e)

  after_pass-InOrder :
      (h : History T) (a : Taken T) (ts : List T)
      → Represents h.pool ts
      → h.started ++ map some ts ≡ map some h.accepted
      → Takes h.pool ts a
      → InOrder (after_pass h a)
  unfolding after_pass
  after_pass-InOrder h waits ts r e o = (ts, r, e)
  after_pass-InOrder h closes ts r e o = (ts, r, e)
  after_pass-InOrder h (retires q) ts r e o = (ts, o.4, e)
  after_pass-InOrder h (takes slot q) ts r e o = (o.1.1, o.1.4, after)
    where
      after : (h.started ++ (slot ∷ [])) ++ map some o.1.1 ≡ map some h.accepted
      after =
          append_assoc h.started (slot ∷ []) (map some o.1.1)
          ∙ ap (λ (l : List (Option T)). h.started ++ l)
              (ap (λ (s : Option T). s ∷ map some o.1.1) o.1.3 ∙ ap (map some) (sym o.1.2))
          ∙ e

  step-InOrder : (h : History T) (o : Op T) → InOrder h → InOrder (step h o)
  unfolding step
  step-InOrder h (add t) (ts, r, e) =
      after_add-InOrder h t _ ts r e (producer_add-Adds h.pool ts t r)
  step-InOrder h pass (ts, r, e) = after_pass-InOrder h _ ts r e (custom-Takes h.pool ts r)

  serve-InOrder : (h : History T) (os : List (Op T)) → InOrder h → InOrder (serve h os)
  unfolding serve
  serve-InOrder h [] i = i
  serve-InOrder h (o ∷ os) i = serve-InOrder (step h o) os (step-InOrder h o i)

  abbrev pub fresh : ℕ → ℕ → ℕ → History T
  fresh max min que_max = record { pool = init max min que_max; accepted = []; started = [] }

  -- In every history of a new pool with a queue of at least one slot, the tasks that workers have
  -- left with, followed by the tasks still queued, are the tasks that were accepted, in that order.
  pub serve_fifo :
      (max min que_max : ℕ) (os : List (Op T))
      → 0 < que_max
      → InOrder (serve (fresh max min que_max) os)
  serve_fifo max min que_max os h =
      serve-InOrder (fresh max min que_max) os ([], init-Represents max min que_max h, refl)
