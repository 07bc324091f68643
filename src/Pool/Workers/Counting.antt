-- ===== src/Pool/Workers/Counting.antt =====
-- How the numbers of threads change, and the counters of the pool with them.
use nest_disk.Base.{
  ℕ, suc, zero, ◌+◌, ◌≤◌, ◌≡◌, refl, Option, some, List, [], ◌∷◌, get_elem?, set, arith,
}
use nest_disk.Pool.{Pool, queued, retires, takes, producer_add, custom}
use nest_disk.Pool.Workers.{
  Worker, ready, asleep, woken, running, gone, Signal, wakes, lost, Enters, total, lives, runs,
}

module _ {T : Type 0} where
  pub total-set :
      (f : Worker T → ℕ) (ws : List (Worker T)) (i : ℕ) (w v : Worker T)
      → get_elem? ws i ≡ some w
      → total f (set ws i v) + f w ≡ total f ws + f v
  total-set f [] i w v e = ground arith
  total-set f (x ∷ ws) zero w v e = ground arith
  total-set f (x ∷ ws) (suc i) w v e = omega (arith, total-set f ws i w v e)

  pub total_mono :
      (f g : Worker T → ℕ)
      → ((w : Worker T) → f w ≤ g w)
      → (ws : List (Worker T)) → total f ws ≤ total g ws
  total_mono f g h [] = omega arith
  total_mono f g h (w ∷ ws) = omega (arith, h w, total_mono f g h ws)

  pub runs-le-lives : (w : Worker T) → runs w ≤ lives w
  runs-le-lives ready = omega arith
  runs-le-lives asleep = omega arith
  runs-le-lives woken = omega arith
  runs-le-lives (running t) = omega arith
  runs-le-lives gone = omega arith

  pub Enters-weights : (w : Worker T) → Enters w → (lives w ≡ 1) × (runs w ≡ 0)
  Enters-weights ready h = (refl, refl)
  Enters-weights woken h = (refl, refl)
  Enters-weights asleep h = absurd h
  Enters-weights (running t) h = absurd h
  Enters-weights gone h = absurd h

  pub Signal-total :
      (f : Worker T → ℕ) {ws vs : List (Worker T)}
      → f asleep ≡ f woken
      → Signal ws vs
      → total f vs ≡ total f ws
  Signal-total f {ws} e (wakes i at) = omega (arith, total-set f ws i asleep woken at)
  Signal-total f e (lost h) = refl

  pub producer_add-counters :
      (p q : Pool T) (t : T)
      → producer_add p t ≡ queued q
      → (q.thread_alive ≡ p.thread_alive)
        × (q.thread_busy ≡ p.thread_busy)
        × (q.thread_shutdown ≡ p.thread_shutdown)
  unfolding producer_add
  producer_add-counters p q t e = ground arith

  pub custom-retires :
      (p q : Pool T)
      → custom p ≡ retires q
      → (q.thread_alive + 1 ≡ p.thread_alive)
        × (q.thread_busy ≡ p.thread_busy)
        × (q.thread_shutdown ≡ p.thread_shutdown)
  unfolding custom
  custom-retires p q e = ground arith

  pub custom-takes :
      (p q : Pool T) (o : Option T)
      → custom p ≡ takes o q
      → (q.thread_alive ≡ p.thread_alive)
        × (q.thread_busy ≡ p.thread_busy + 1)
        × (q.thread_shutdown ≡ p.thread_shutdown)
  unfolding custom
  custom-takes p q o e = ground arith
