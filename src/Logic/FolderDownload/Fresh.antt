-- ===== src/Logic/FolderDownload/Fresh.antt =====
-- The timestamp for the next entry of a folder.
use nest_disk.Base.{
  InInt, ℕ, zero, suc, ◌<◌, ◌≤◌, ◌≡◌, ◌≢◌, refl, ◌∙◌, ap, sym, subst, ℤ, pos, negsuc, ◌+ℤ◌,
  to_int_of_InInt, int_laws, eq_ℤ_iff, Option-cases, none, some, inl, inr, [], ◌∷◌, length, arith,
}
use nest_disk.MyMap.{MyMap, find, erase, find-erase}
use nest_disk.Env.{Sys, Server, Out, ok}
use nest_disk.Logic.{session_key}
use nest_disk.Logic.Sessions.{session_key-ne}
use nest_disk.Logic.FolderDownload.{fresh_timestamp, next_timestamp}

module _ {V : Type 0} where
  length-erase : (k : ℤ) (m : MyMap V) → length (erase k m) ≤ length m
  unfolding erase
  length-erase k [] = omega arith
  length-erase k ((j, v) ∷ m) = ground (arith, length-erase k m)

  length-erase_found :
      (k : ℤ) (v : V) (m : MyMap V) → find k m ≡ some v → length (erase k m) < length m
  unfolding erase find
  length-erase_found k v [] h = cc
  length-erase_found k v ((j, w) ∷ m) h = ground (arith, length-erase k m, length-erase_found k v m)

pub add_next : (t : ℤ) (k : ℕ) → (t +ℤ pos 1) +ℤ pos k ≡ t +ℤ pos (suc k)
add_next t k = omega int_laws

-- Between the first and the last of them, all timestamps are of type `int`.
pub InInt-between : (t : ℤ) (k n : ℕ) → k ≤ n → InInt t → InInt (t +ℤ pos n) → InInt (t +ℤ pos k)
unfolding ◌+ℤ◌
InInt-between (pos p) k n h a b = ground arith
InInt-between (negsuc p) k n h a b = ground arith

pub next_timestamp-eq :
    (t : ℤ) (n : ℕ) → InInt t → InInt (t +ℤ pos (suc n)) → next_timestamp t ≡ t +ℤ pos 1
next_timestamp-eq t n a b =
    to_int_of_InInt (t +ℤ pos 1) (InInt-between t 1 (suc n) (omega arith) a b)

-- The timestamp `k` after `t` has no transfer, and those before it have one.
abbrev pub FirstFree : {V : Type 0} → ℤ → ℤ → MyMap V → ℕ → Type 0
FirstFree u t m k =
    (find (session_key u (t +ℤ pos k)) m ≡ none)
    × ((j : ℕ) → j < k → find (session_key u (t +ℤ pos j)) m ≢ none)

add_zero : (t : ℤ) → t +ℤ pos 0 ≡ t
add_zero t = omega int_laws

add_injective : (t : ℤ) (j k : ℕ) → j ≢ k → t +ℤ pos j ≢ t +ℤ pos k
unfolding ◌+ℤ◌
add_injective (pos p) j k h e = ground arith
add_injective (negsuc p) j k h e = ground arith

module _ {V : Type 0} where
  find-erase_other : (k j : ℤ) (m : MyMap V) → k ≢ j → find j (erase k m) ≡ find j m
  find-erase_other k j m h = ground (arith, find-erase k j m, eq_ℤ_iff k j)

  find-erase-none : (k j : ℤ) (m : MyMap V) → find j m ≡ none → find j (erase k m) ≡ none
  find-erase-none k j m h = ground (arith, find-erase k j m)

  -- The search over the map without the entry at `t`, from the next timestamp on.
  FirstFree-next :
      (u t : ℤ) (n k : ℕ) (m : MyMap V)
      → InInt t
      → InInt (t +ℤ pos (suc n))
      → k < n
      → find (session_key u t) m ≢ none
      → FirstFree u (t +ℤ pos 1) (erase (session_key u t) m) k
      → FirstFree u t m (suc k)
  FirstFree-next u t n k m a b lt here (free, taken) = (after, before)
    where
      other : session_key u (t +ℤ pos 0) ≢ session_key u (t +ℤ pos (suc k))
      other =
          session_key-ne u (t +ℤ pos 0) (t +ℤ pos (suc k))
            (InInt-between t 0 (suc n) (omega arith) a b)
            (InInt-between t (suc k) (suc n) (omega arith) a b)
            (add_injective t 0 (suc k) (omega arith))

      after : find (session_key u (t +ℤ pos (suc k))) m ≡ none
      after =
          sym (
            find-erase_other (session_key u t) (session_key u (t +ℤ pos (suc k))) m
              (λ e. other (ap (session_key u) (add_zero t) ∙ e)))
          ∙ ap (λ (x : ℤ). find (session_key u x) (erase (session_key u t) m)) (sym (add_next t k))
          ∙ free

      before : (j : ℕ) → j < suc k → find (session_key u (t +ℤ pos j)) m ≢ none
      before zero l e = here (ap (λ (x : ℤ). find (session_key u x) m) (sym (add_zero t)) ∙ e)
      before (suc j) l e = taken j (omega arith) (
          find-erase-none (session_key u t) (session_key u ((t +ℤ pos 1) +ℤ pos j)) m
            (ap (λ (x : ℤ). find (session_key u x) m) (add_next t j) ∙ e))

  first_free :
      (n : ℕ) (u t : ℤ) (m : MyMap V)
      → length m < n
      → InInt t
      → InInt (t +ℤ pos n)
      → (k : ℕ) × (k < n) × FirstFree u t m k
  first_free zero u t m h a b = absurd (omega arith)
  first_free (suc n) u t m h a b = elim (Option-cases (find (session_key u t) m)) [
    | inl free ↦ (
      0,
      omega arith,
      (ap (λ (x : ℤ). find (session_key u x) m) (add_zero t) ∙ free, λ j l. absurd (omega arith)),
    )
    | inr (v, here) ↦
        let rest =
          first_free n u (t +ℤ pos 1) (erase (session_key u t) m)
            (omega (arith, length-erase_found (session_key u t) v m here))
            (InInt-between t 1 (suc n) (omega arith) a b) (subst InInt (sym (add_next t n)) b) in
        (
          suc rest.0,
          omega (arith, rest.1),
          FirstFree-next u t n rest.0 m a b rest.1 (λ e. cc) rest.2,
        )
  ]

abbrev found_at : ℤ → Server → Out ℤ × Server
found_at x s = (ok x, s)

fresh_timestamp-first :
    (k n : ℕ) (u t : ℤ) (sys : Sys) (s : Server)
    → k < n
    → InInt t
    → InInt (t +ℤ pos n)
    → FirstFree u t s.files k
    → fresh_timestamp n u t sys s ≡ (ok (t +ℤ pos k), s)
unfolding fresh_timestamp
fresh_timestamp-first k zero u t sys s lt a b free = absurd (omega arith)
fresh_timestamp-first zero (suc n) u t sys s lt a b free =
    rw
      (
        fresh_timestamp,
        ap (λ (x : ℤ). find (session_key u x) s.files) (sym (add_zero t)) ∙ free.0,
        add_zero t,
      )
      refl
fresh_timestamp-first (suc k) (suc n) u t sys s lt a b free =
    elim (Option-cases (find (session_key u t) s.files)) [
      | inl none_here ↦ absurd (
          free.1 0 (omega arith)
            (ap (λ (x : ℤ). find (session_key u x) s.files) (add_zero t) ∙ none_here))
      | inr (v, here) ↦
          rw (fresh_timestamp, here, next_timestamp-eq t n a b)
            (fresh_timestamp-first k n u (t +ℤ pos 1) sys s (omega arith)
                (InInt-between t 1 (suc n) (omega arith) a b) (subst InInt (sym (add_next t n)) b)
                (
                  ap (λ (x : ℤ). find (session_key u x) s.files) (add_next t k) ∙ free.0,
                  λ j l e.
                      free.1 (suc j) (omega arith)
                        (ap (λ (x : ℤ). find (session_key u x) s.files) (sym (add_next t j)) ∙ e),
                )
              ∙ ap (λ (x : ℤ). found_at x s) (add_next t k))
    ]

-- With more look-ups allowed than there are transfers, and as many timestamps of type `int` ahead, the
-- search ends: its result is the first timestamp from `t` on under which the user has no transfer, and
-- it changes nothing.
pub fresh_timestamp-free :
    (fuel : ℕ) (u t : ℤ) (sys : Sys) (s : Server)
    → length s.files < fuel
    → InInt t
    → InInt (t +ℤ pos fuel)
    → (k : ℕ) × (k < fuel)
      × (fresh_timestamp fuel u t sys s ≡ (ok (t +ℤ pos k), s))
      × FirstFree u t s.files k
fresh_timestamp-free fuel u t sys s h a b =
    let first = first_free fuel u t s.files h a b in
    (first.0, first.1, fresh_timestamp-first first.0 fuel u t sys s first.1 a b first.2, first.2)
