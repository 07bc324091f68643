-- ===== src/MyMap.antt =====
-- include/block_epoll_net.h, `MyMap`: a map with `int` keys whose operations are atomic. The order
-- of `std::map` shows in none of them, so the entries are a list.
pub mod History
mod Tests
use nest_disk.Base.{
  Bool, true, false, ◌≡◌, refl, List, [], ◌∷◌, Option, none, some, arith, ℤ, eq_ℤ, eq_ℤ_iff,
  if◌then◌else◌,
}

abbrev pub MyMap : Type 0 → Type 0
MyMap V = List (ℤ × V)

module _ {V : Type 0} where
  unfoldable pub find : ℤ → MyMap V → Option V
  find k [] = none
  find k ((j, v) ∷ m) = if eq_ℤ j k then some v else find k m

  -- `m_map[k] = v`.
  unfoldable pub insert : ℤ → V → MyMap V → MyMap V
  insert k v [] = (k, v) ∷ []
  insert k v ((j, w) ∷ m) = if eq_ℤ j k then (k, v) ∷ m else (j, w) ∷ insert k v m

  unfoldable pub erase : ℤ → MyMap V → MyMap V
  erase k [] = []
  erase k ((j, w) ∷ m) = let rest = erase k m in if eq_ℤ j k then rest else (j, w) ∷ rest

  unfoldable pub is_exist : ℤ → MyMap V → Bool
  unfolding find
  is_exist k m = elim (find k m) [ none ↦ false | some _ ↦ true ]

  pub find-insert :
      (k j : ℤ) (v : V) (m : MyMap V)
      → find j (insert k v m) ≡ (if eq_ℤ k j then some v else find j m)
  unfolding find insert
  find-insert k j v [] = refl
  find-insert k j v ((i, w) ∷ m) =
      ground (arith, eq_ℤ_iff k j, eq_ℤ_iff i k, eq_ℤ_iff i j, find-insert k j v m)

  pub find-erase :
      (k j : ℤ) (m : MyMap V) → find j (erase k m) ≡ (if eq_ℤ k j then none else find j m)
  unfolding find erase
  find-erase k j [] = ground arith
  find-erase k j ((i, w) ∷ m) =
      ground (arith, eq_ℤ_iff k j, eq_ℤ_iff i k, eq_ℤ_iff i j, find-erase k j m)

  pub is_exist-insert : (k : ℤ) (v : V) (m : MyMap V) → is_exist k (insert k v m) ≡ true
  unfolding is_exist
  is_exist-insert k v m = ground (arith, find-insert k k v m, eq_ℤ_iff k k)
