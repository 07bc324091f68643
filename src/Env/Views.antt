-- ===== src/Env/Views.antt =====
-- What a trace shows: the bytes written to a descriptor, the packets sent, the statements executed.
use nest_disk.Base.{ℤ, eq_ℤ, Text, List, [], ◌∷◌, ◌++◌, if◌then◌else◌}
use nest_disk.Packet.{Packet}
use nest_disk.Env.{Trace, wrote, sent, queried}

-- The bytes that were handed to `write` for a descriptor, in order, oldest call first.
unfoldable pub written : ℤ → Trace → Text
written fd [] = []
written fd (wrote g b ∷ t) = if eq_ℤ g fd then written fd t ++ b else written fd t
written fd (_ ∷ t) = written fd t

-- The packets that went out, and the statements that were executed, oldest first.
unfoldable pub packets : Trace → List (ℤ × Packet)
packets [] = []
packets (sent fd p ∷ t) = packets t ++ ((fd, p) ∷ [])
packets (_ ∷ t) = packets t

unfoldable pub statements : Trace → List Text
statements [] = []
statements (queried q ∷ t) = statements t ++ (q ∷ [])
statements (_ ∷ t) = statements t
