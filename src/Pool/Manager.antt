-- ===== src/Pool/Manager.antt =====
-- The manager's decisions: how far the pool grows and when it stops growing.
use nest_disk.Base.{
  ℕ, suc, zero, ◌+◌, ◌≤◌, ◌≡◌, ◌≢◌, refl, ◌∙◌, subst, Bool, true, false, none, some, List, [], ◌∷◌,
  length, arith, ℤ, negsuc, eq_ℤ_iff, if◌then◌else◌, ◌==◌, inl, inr, Option-cases,
}
use nest_disk.Pool.{
  Pool, Start, started, failed, left_in, if_thread_alive, claim, spawn, spawn_all, manager, grows,
  shrinks, def_count,
}

-- `pthread_kill` reports an error by its result and never returns -1; `if_thread_alive` waits for
-- -1, so it calls every thread alive.
if_thread_alive_always :
    (returned : ℤ) (errno : ℕ) → returned ≢ negsuc 0 → if_thread_alive returned errno ≡ true
unfolding if_thread_alive
if_thread_alive_always returned errno h = ground (arith, eq_ℤ_iff returned (negsuc 0))

-- The call starts a thread, and ids are not 0.
abbrev pub Starts : Start → Type 0
Starts (started id) = id ≢ 0
Starts (failed any) = ⊥

Starts-left_in : (c : Start) → Starts c → left_in c ≢ 0
Starts-left_in (started id) h = h
Starts-left_in (failed any) h = absurd h

-- How many slots have had a thread.
unfoldable pub used : List ℕ → ℕ
used [] = 0
used (t ∷ ts) = if t == 0 then used ts else suc (used ts)

used-le-length : (ts : List ℕ) → used ts ≤ length ts
unfolding used
used-le-length [] = omega arith
used-le-length (t ∷ ts) = ground (arith, used-le-length ts)

module _ (alive? : ℕ → Bool) (always : (t : ℕ) → alive? t ≡ true) where
  claim-used :
      (new : ℕ) (ts us : List ℕ)
      → new ≢ 0
      → claim alive? new ts ≡ some us
      → (used us ≡ used ts + 1) × (length us ≡ length ts)
  unfolding claim used
  claim-used new [] us h e = cc
  claim-used new (t ∷ ts) us h e = elim (Option-cases (claim alive? new ts)) [
    | inl out ↦ ground (arith, always t)
    | inr (vs, found) ↦ ground (arith, always t, claim-used new ts vs h found)
  ]

  claim_full : (new : ℕ) (ts : List ℕ) → used ts ≡ length ts → claim alive? new ts ≡ none
  unfolding claim used
  claim_full new [] e = refl
  claim_full new (t ∷ ts) e = ground (arith, always t, claim_full new ts, used-le-length ts)

module _ {T : Type 0} where
  -- There is a slot for each thread that may be alive, and a thread for each alive one.
  pub record IsSized (p : Pool T) : Type 0 where
    pub slots : length p.tids ≡ p.thread_max
    pub threads : p.thread_alive ≤ used p.tids

module _ {T : Type 0} (alive? : ℕ → Bool) (always : (t : ℕ) → alive? t ≡ true) where
  spawn-IsSized :
      (new : Start) (p : Pool T)
      → left_in new ≢ 0
      → IsSized p
      → IsSized (spawn alive? new p) × ((spawn alive? new p).thread_max ≡ p.thread_max)
  unfolding spawn
  spawn-IsSized new p h v = elim (Option-cases (claim alive? (left_in new) p.tids)) [
    | inl out ↦ rw (out, spawn) (v, refl)
    | inr (us, found) ↦
        rw (found, spawn)
          (
            record {
              slots =
                  omega (arith, claim-used alive? always (left_in new) p.tids us h found, v.slots);
              threads =
                  omega
                    (arith, claim-used alive? always (left_in new) p.tids us h found, v.threads);
            },
            refl,
          )
  ]

  spawn_all-IsSized :
      (fresh : ℕ → Start) (n : ℕ) (p : Pool T)
      → ((j : ℕ) → left_in (fresh j) ≢ 0)
      → IsSized p
      → IsSized (spawn_all alive? fresh n p)
        × ((spawn_all alive? fresh n p).thread_max ≡ p.thread_max)
  unfolding spawn_all
  spawn_all-IsSized fresh zero p h v = (v, refl)
  spawn_all-IsSized fresh (suc j) p h v =
      let s = spawn-IsSized (fresh j) p (h j) v in
      let r = spawn_all-IsSized fresh j (spawn alive? (fresh j) p) h s.0 in (r.0, r.1 ∙ s.1)

  spawn_all_full :
      (fresh : ℕ → Start) (n : ℕ) (p : Pool T)
      → used p.tids ≡ length p.tids
      → spawn_all alive? fresh n p ≡ p
  unfolding spawn_all spawn
  spawn_all_full fresh zero p e = refl
  spawn_all_full fresh (suc j) p e =
      rw (claim_full alive? always (left_in (fresh j)) p.tids e, spawn) (spawn_all_full fresh j p e)

  grown-IsSized :
      (fresh : ℕ → Start) (b : Bool) (p : Pool T)
      → ((j : ℕ) → left_in (fresh j) ≢ 0)
      → IsSized p
      → IsSized (if b then spawn_all alive? fresh p.thread_min p else p)
        × ((if b then spawn_all alive? fresh p.thread_min p else p).thread_max ≡ p.thread_max)
  grown-IsSized fresh true p h v = spawn_all-IsSized fresh p.thread_min p h v
  grown-IsSized fresh false p h v = (v, refl)

  grown_full :
      (fresh : ℕ → Start) (b : Bool) (p : Pool T)
      → used p.tids ≡ length p.tids
      → (if b then spawn_all alive? fresh p.thread_min p else p) ≡ p
  grown_full fresh true p e = spawn_all_full fresh p.thread_min p e
  grown_full fresh false p e = refl

module _ {T : Type 0} where
  -- The manager's last assignment, on whichever branch.
  shrunk : (b : Bool) (p : Pool T) → Pool T
  shrunk b p = if b then record p { thread_wait = def_count } else p

  shrunk-same :
      (b : Bool) (p : Pool T)
      → ((shrunk b p).thread_alive ≡ p.thread_alive)
        × ((shrunk b p).tids ≡ p.tids)
        × ((shrunk b p).thread_max ≡ p.thread_max)
  unfolding shrunk
  shrunk-same true p = (refl, refl, refl)
  shrunk-same false p = (refl, refl, refl)

  shrunk-IsSized : (b : Bool) (p : Pool T) → IsSized p → IsSized (shrunk b p)
  unfolding shrunk
  shrunk-IsSized true p v = record { slots = v.slots; threads = v.threads }
  shrunk-IsSized false p v = v

  alive-le-max : (p : Pool T) → IsSized p → p.thread_alive ≤ p.thread_max
  alive-le-max p v = omega (arith, v.slots, v.threads, used-le-length p.tids)

module _ (kill : ℕ → ℤ) (errno : ℕ → ℕ) (kill_ne : (t : ℕ) → kill t ≢ negsuc 0) where
  always_alive : (t : ℕ) → if_thread_alive (kill t) (errno t) ≡ true
  always_alive t = if_thread_alive_always (kill t) (errno t) (kill_ne t)

module _ {T : Type 0} (kill : ℕ → ℤ) (errno : ℕ → ℕ) (kill_ne : (t : ℕ) → kill t ≢ negsuc 0) where
  -- Where `pthread_kill` never returns -1, every `pthread_create` of the round starts a thread and
  -- thread ids are not 0, a round of the manager, on whatever counts it read, keeps a pool that has
  -- `thread_max` slots and counts no more threads alive than slots are in use in that state; so no
  -- more than `thread_max` threads are ever counted alive.
  pub manager_bounded :
      (fresh : ℕ → Start) (alive cur busy : ℕ) (p : Pool T)
      → ((j : ℕ) → Starts (fresh j))
      → IsSized p
      → let q = manager (λ t. if_thread_alive (kill t) (errno t)) fresh alive cur busy p in
        IsSized q × (q.thread_alive ≤ p.thread_max)
  unfolding manager shrunk
  manager_bounded fresh alive cur busy p h v =
      let alive? = λ (t : ℕ). if_thread_alive (kill t) (errno t) in
      let g =
        grown-IsSized alive? (always_alive kill errno kill_ne) fresh
          (grows p.thread_max cur busy alive) p (λ j. Starts-left_in (fresh j) (h j)) v in
      let q =
        if grows p.thread_max cur busy alive then spawn_all alive? fresh p.thread_min p else p in
      let b = shrinks p.thread_min busy alive in
      let s = shrunk-IsSized b q g.0 in
      (
        s,
        subst (λ (n : ℕ). (shrunk b q).thread_alive ≤ n) ((shrunk-same b q).2 ∙ g.1)
            (alive-le-max (shrunk b q) s),
      )

  -- Where `pthread_kill` never returns -1, a round of the manager starts no thread once every slot
  -- has been used, however few threads are alive: a slot whose thread ended is never used again.
  pub manager_stuck :
      (fresh : ℕ → Start) (alive cur busy : ℕ) (p : Pool T)
      → used p.tids ≡ length p.tids
      → let q = manager (λ t. if_thread_alive (kill t) (errno t)) fresh alive cur busy p in
        (q.thread_alive ≡ p.thread_alive) × (q.tids ≡ p.tids)
  unfolding manager shrunk
  manager_stuck fresh alive cur busy p e =
      let alive? = λ (t : ℕ). if_thread_alive (kill t) (errno t) in
      let b = shrinks p.thread_min busy alive in
      rw
        (grown_full alive? (always_alive kill errno kill_ne) fresh
          (grows p.thread_max cur busy alive) p e)
        ((shrunk-same b p).0, (shrunk-same b p).1)
