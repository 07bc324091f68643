-- ===== src/MyMap/Tests.antt =====
-- A map of texts under a sequence of operations.
use nest_disk.Base.{none, ◌≡◌, pos, Text, List, [], ◌∷◌}
use nest_disk.MyMap.History.{Op, finds, inserts, erases, asks, answers, expected, answers-expected}

abbrev some_ops : List (Op Text)
some_ops =
    inserts (pos 1) (97 ∷ [])
    ∷ inserts (pos 1) (98 ∷ [])
    ∷ finds (pos 1)
    ∷ erases (pos 1)
    ∷ asks (pos 1)
    ∷ []

answers-expected_example : answers some_ops [] ≡ expected some_ops (λ k. none)
answers-expected_example = answers-expected some_ops
