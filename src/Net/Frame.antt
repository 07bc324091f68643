-- ===== src/Net/Frame.antt =====
-- `SendData` and `recv_task`: a packet goes over the socket behind its size, four bytes, low byte
-- first. What `read` and `recv` return is a list of byte strings, one for each call; an empty one is
-- a result of 0 or less. The list's end is a call that has not returned.
pub mod Trip
use nest_disk.Base.{
  ℕ, zero, suc, ◌+◌, ◌-◌, ◌*◌, ◌/◌, ◌%◌, ◌^◌, Text, List, [], ◌∷◌, ◌++◌, length, take, ltb,
  if◌then◌else◌,
}

-- The four bytes of an `int` that is not negative.
unfoldable pub le_bytes : ℕ → Text
le_bytes n = (n % 256) ∷ (n / 256 % 256) ∷ (n / 65536 % 256) ∷ (n / 16777216 % 256) ∷ []

-- The number whose low bytes these are. `nPackSize` starts at 0, so bytes that did not come are 0.
unfoldable pub from_le : Text → ℕ
from_le [] = 0
from_le (b ∷ bs) = b + 256 * from_le bs

-- The buffer that `SendData` hands to `send`.
unfoldable pub send_data : Text → ℕ → Text
send_data szbuf nlen = le_bytes nlen ++ take nlen szbuf

pub data Received : Type 0 where
  -- The header could not be read: the connection is closed and its event freed.
  hung_up : Received
  -- A call has not returned.
  waiting : Received
  -- `new char[n]` with a negative size throws.
  bad_size : Received
  -- A buffer goes to the thread pool; the calls that follow are those of later tasks.
  delivered : Text → List Text → Received

-- `while (nPackSize)`, with the bytes stored so far.
unfoldable pub recv_loop : ℕ → Text → List Text → Received
recv_loop zero buf results = delivered buf results
recv_loop (suc n) buf [] = waiting
recv_loop (suc n) buf ([] ∷ results) = delivered buf results
recv_loop (suc n) buf ((b ∷ bs) ∷ results) =
    recv_loop (suc n - length (b ∷ bs)) (buf ++ (b ∷ bs)) results

unfoldable pub recv_task : List Text → Received
recv_task [] = waiting
recv_task ([] ∷ results) = hung_up
recv_task ((b ∷ bs) ∷ results) =
    if ltb (from_le (b ∷ bs)) (2 ^ 31) then recv_loop (from_le (b ∷ bs)) [] results else bad_size
