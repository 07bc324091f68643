-- ===== src/Net/Tests.antt =====
-- Framing, and a descriptor's registration, at concrete bytes and calls.
mod Connections
use nest_disk.Base.{
  ℕ, zero, suc, Bool, true, false, ◌≡◌, refl, pos, Text, List, [], ◌∷◌, ◌++◌, arith,
}
use nest_disk.Net.Frame.{le_bytes, send_data, delivered, recv_task}
use nest_disk.Net.Frame.Trip.{join, recv_task-send_data, recv_task_truncated}
use nest_disk.Net.Event.{add, del, act, Tracked, InStep, eventset, act-Tracked}

abbrev payload : Text
payload = 104 ∷ 101 ∷ 108 ∷ 108 ∷ 111 ∷ []

-- Two calls for five bytes.
abbrev parts : List Text
parts = (104 ∷ 101 ∷ []) ∷ (108 ∷ 108 ∷ 111 ∷ []) ∷ []

abbrev rest : List Text
rest = (1 ∷ []) ∷ []

framed : le_bytes 5 ++ join parts ≡ send_data payload 5
unfolding send_data
framed = refl

recv_task_truncated_example :
    recv_task (le_bytes 9 ∷ (parts ++ ([] ∷ rest))) ≡ delivered payload rest
recv_task_truncated_example = recv_task_truncated 9 parts rest (omega arith) tt (omega arith)

-- The kernel lacks the resources for the first call, and for no other.
abbrev at_first : ℕ → Bool
at_first zero = true
at_first (suc n) = false

act-Tracked_example :
    Tracked at_first (act (eventset (pos 7) (pos 3)) (add 1 ∷ add 4 ∷ del ∷ del ∷ add 1 ∷ []))
    × (((n : ℕ) → at_first n ≡ false)
        → InStep at_first (act (eventset (pos 7) (pos 3)) (add 1 ∷ add 4 ∷ del ∷ del ∷ add 1 ∷ [])))
act-Tracked_example = act-Tracked at_first (pos 7) (pos 3) (add 1 ∷ add 4 ∷ del ∷ del ∷ add 1 ∷ [])
