-- ===== src/MyMap/History.antt =====
-- include/block_epoll_net.h, `MyMap`: what a sequence of its operations answers. The lock puts the
-- operations of all threads into one sequence.
use nest_disk.Base.{
  ◌≡◌, refl, ap, ◌∙◌, ℤ, eq_ℤ, Bool, true, false, Option, none, some, List, [], ◌∷◌, arith,
  if◌then◌else◌,
}
use nest_disk.MyMap.{MyMap, find, insert, erase, is_exist, find-insert, find-erase}

pub data Op (V : Type 0) : Type 0 where
  finds : ℤ → Op V
  inserts : ℤ → V → Op V
  erases : ℤ → Op V
  asks : ℤ → Op V

-- `find` gives a value or false, `IsExist` a Boolean, and the others nothing.
pub data Answer (V : Type 0) : Type 0 where
  value : Option V → Answer V
  present : Bool → Answer V
  silent : Answer V

module _ {V : Type 0} where
  pub answers : List (Op V) → MyMap V → List (Answer V)
  answers [] m = []
  answers (finds k ∷ ops) m = value (find k m) ∷ answers ops m
  answers (inserts k v ∷ ops) m = silent ∷ answers ops (insert k v m)
  answers (erases k ∷ ops) m = silent ∷ answers ops (erase k m)
  answers (asks k ∷ ops) m = present (is_exist k m) ∷ answers ops m

  -- A function from keys to values, changed at one key.
  abbrev pub update : ℤ → Option V → (ℤ → Option V) → ℤ → Option V
  update k o f j = if eq_ℤ k j then o else f j

  abbrev pub is_some : Option V → Bool
  is_some none = false
  is_some (some v) = true

  -- The same sequence on such a function.
  pub expected : List (Op V) → (ℤ → Option V) → List (Answer V)
  expected [] f = []
  expected (finds k ∷ ops) f = value (f k) ∷ expected ops f
  expected (inserts k v ∷ ops) f = silent ∷ expected ops (update k (some v) f)
  expected (erases k ∷ ops) f = silent ∷ expected ops (update k none f)
  expected (asks k ∷ ops) f = present (is_some (f k)) ∷ expected ops f

  is_exist-find : (k : ℤ) (m : MyMap V) → is_exist k m ≡ is_some (find k m)
  unfolding is_exist
  is_exist-find k m = ground arith

  answers-view :
      (ops : List (Op V)) (m : MyMap V) (f : ℤ → Option V)
      → ((k : ℤ) → find k m ≡ f k)
      → answers ops m ≡ expected ops f
  unfolding answers expected
  answers-view [] m f h = refl
  answers-view (finds k ∷ ops) m f h = rw (h k, answers-view ops m f h) refl
  answers-view (inserts k v ∷ ops) m f h =
      ap (λ (l : List (Answer V)). silent ∷ l)
        (answers-view ops (insert k v m) (update k (some v) f)
          (λ j. find-insert k j v m ∙ ap (λ (o : Option V). if eq_ℤ k j then some v else o) (h j)))
  answers-view (erases k ∷ ops) m f h =
      ap (λ (l : List (Answer V)). silent ∷ l)
        (answers-view ops (erase k m) (update k none f)
          (λ j. find-erase k j m ∙ ap (λ (o : Option V). if eq_ℤ k j then none else o) (h j)))
  answers-view (asks k ∷ ops) m f h = rw (is_exist-find k m, h k, answers-view ops m f h) refl

  -- Whatever operations are called one after the other on a new `MyMap`, each gives the answer that a
  -- function from keys to optional values gives, which an insertion changes to the value at its key
  -- and an erasure to none, and nothing else changes.
  pub answers-expected : (ops : List (Op V)) → answers ops [] ≡ expected ops (λ k. none)
  unfolding find
  answers-expected ops = answers-view ops [] (λ k. none) (λ k. refl)
