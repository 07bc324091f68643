-- ===== src/Logic/Sessions.antt =====
-- The keys of the transfer map: `user_time` cut down to `int`.
use nest_disk.Base.{
  ℕ, ℤ, pos, pos_part, neg_part, ◌+ℤ◌, ◌*ℤ◌, InInt, to_int, ◌<◌, low32, signed32, ◌+◌, ◌*◌, ◌%◌,
  ◌^◌, ◌≡◌, ◌≢◌, ap, arith, int_laws,
}
use nest_disk.Logic.{user_time, session_key}

user_time_parts :
    (u t : ℤ)
    → pos_part (user_time u t) + neg_part t + 1000000000 * neg_part u
      ≡ neg_part (user_time u t) + pos_part t + 1000000000 * pos_part u
unfolding user_time ◌+ℤ◌ ◌*ℤ◌
user_time_parts u t = ground arith

low32-lt : (a : ℤ) → low32 a < 2 ^ 32
unfolding low32
low32-lt a = omega arith

-- The pattern differs from the integer by a multiple of 2 ^ 32.
low32_parts : (a : ℤ) → (low32 a + neg_part a) % 2 ^ 32 ≡ pos_part a % 2 ^ 32
unfolding low32
low32_parts a = omega arith

signed32-injective : (a b : ℕ) → a < 2 ^ 32 → b < 2 ^ 32 → signed32 a ≡ signed32 b → a ≡ b
signed32-injective a b h k e = ground arith

session_key-injective : (u s t : ℤ) → InInt s → InInt t → session_key u s ≡ session_key u t → s ≡ t
unfolding session_key to_int
session_key-injective u s t hs ht e = omega (
  int_laws,
  signed32-injective (low32 (user_time u s)) (low32 (user_time u t)) (low32-lt (user_time u s))
      (low32-lt (user_time u t)) e,
  user_time_parts u s,
  user_time_parts u t,
  low32_parts (user_time u s),
  low32_parts (user_time u t),
)

-- Two transfers of one user whose timestamps are different `int`s have different keys.
pub session_key-ne : (u s t : ℤ) → InInt s → InInt t → s ≢ t → session_key u s ≢ session_key u t
session_key-ne u s t hs ht h e = h (session_key-injective u s t hs ht e)

-- A user and the one whose id is 2 ^ 23 higher have the same key at every timestamp.
session_key_collides : (n : ℕ) (t : ℤ) → session_key (pos (n + 8388608)) t ≡ session_key (pos n) t
unfolding session_key to_int
session_key_collides n t = ap signed32 (
    omega (
      arith,
      user_time_parts (pos (n + 8388608)) t,
      user_time_parts (pos n) t,
      low32_parts (user_time (pos (n + 8388608)) t),
      low32_parts (user_time (pos n) t),
    ))
