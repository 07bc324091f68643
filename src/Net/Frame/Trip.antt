-- ===== src/Net/Frame/Trip.antt =====
-- What comes out of `recv_task` for what `SendData` put in.
use nest_disk.Base.{
  ℕ, zero, suc, ◌-◌, ◌^◌, ◌<◌, ◌≡◌, refl, sym, ap, ◌∙◌, Text, List, [], ◌∷◌, ◌++◌, length, take,
  drop, arith, length-append, take-append_exact, drop-append_exact,
}
use mathlib.Core.List.{append-nil, append_assoc}
use nest_disk.Net.Frame.{le_bytes, from_le, send_data, delivered, recv_loop, recv_task}

-- Every call returned something.
abbrev pub AllNonempty : List Text → Type 0
AllNonempty [] = Unit {0}
AllNonempty ([] ∷ ts) = ⊥
AllNonempty ((b ∷ bs) ∷ ts) = AllNonempty ts

abbrev pub join : List Text → Text
join [] = []
join (t ∷ ts) = t ++ join ts

pub from_le-le_bytes : (n : ℕ) → n < 2 ^ 32 → from_le (le_bytes n) ≡ n
unfolding from_le le_bytes
from_le-le_bytes n h = omega arith

-- The loop stores what the calls return, until the size is reached.
recv_loop-join :
    (n : ℕ) (buf : Text) (parts rest : List Text)
    → AllNonempty parts
    → n ≡ length (join parts)
    → recv_loop n buf (parts ++ rest) ≡ delivered (buf ++ join parts) rest
unfolding recv_loop
recv_loop-join zero buf [] rest a e = ap (λ (t : Text). delivered t rest) (sym (append-nil buf))
recv_loop-join (suc n) buf [] rest a e = absurd (omega arith)
recv_loop-join n buf ([] ∷ parts) rest a e = absurd a
recv_loop-join zero buf ((b ∷ bs) ∷ parts) rest a e = absurd (omega arith)
recv_loop-join (suc n) buf ((b ∷ bs) ∷ parts) rest a e =
    recv_loop-join (suc n - length (b ∷ bs)) (buf ++ (b ∷ bs)) parts rest a
      (omega (arith, length-append (b ∷ bs) (join parts)))
    ∙ ap (λ (t : Text). delivered t rest) (append_assoc buf (b ∷ bs) (join parts))

-- A connection that breaks inside a packet.
recv_loop_broken :
    (n : ℕ) (buf : Text) (parts rest : List Text)
    → AllNonempty parts
    → length (join parts) < n
    → recv_loop n buf (parts ++ ([] ∷ rest)) ≡ delivered (buf ++ join parts) rest
unfolding recv_loop
recv_loop_broken zero buf parts rest a h = absurd (omega arith)
recv_loop_broken (suc n) buf [] rest a h =
    ap (λ (t : Text). delivered t rest) (sym (append-nil buf))
recv_loop_broken (suc n) buf ([] ∷ parts) rest a h = absurd a
recv_loop_broken (suc n) buf ((b ∷ bs) ∷ parts) rest a h =
    recv_loop_broken (suc n - length (b ∷ bs)) (buf ++ (b ∷ bs)) parts rest a
      (omega (arith, length-append (b ∷ bs) (join parts)))
    ∙ ap (λ (t : Text). delivered t rest) (append_assoc buf (b ∷ bs) (join parts))

recv_task_header :
    (n : ℕ) (results : List Text)
    → n < 2 ^ 31
    → recv_task (le_bytes n ∷ results) ≡ recv_loop n [] results
unfolding recv_task le_bytes
recv_task_header n results h = ground (arith, from_le-le_bytes n)

pub length-le_bytes : (n : ℕ) → length (le_bytes n) ≡ 4
unfolding le_bytes
length-le_bytes n = refl

take_all : (n : ℕ) (t : Text) → n ≡ length t → take n t ≡ t
take_all n t e = ap (take n) (sym (append-nil t)) ∙ take-append_exact n t [] e

-- A packet of fewer than 2 ^ 31 bytes that `SendData` frames is delivered by `recv_task`, whole and
-- unchanged, however the bytes behind the header are cut into calls that each return something; the
-- calls that follow are left for the next task.
pub recv_task-send_data :
    (payload header : Text) (parts rest : List Text)
    → length payload < 2 ^ 31
    → length header ≡ 4
    → AllNonempty parts
    → header ++ join parts ≡ send_data payload (length payload)
    → recv_task (header ∷ (parts ++ rest)) ≡ delivered payload rest
unfolding send_data
recv_task-send_data payload header parts rest small four a e =
    rw (at_header, recv_task_header (length payload) (parts ++ rest) small)
      (recv_loop-join (length payload) [] parts rest a (ap length (sym at_parts))
        ∙ ap (λ (t : Text). delivered t rest) at_parts)
  where
    at_header : header ≡ le_bytes (length payload)
    at_header =
        sym (take-append_exact 4 header (join parts) (sym four))
        ∙ ap (take 4) e
        ∙ take-append_exact 4 (le_bytes (length payload)) _ (sym (length-le_bytes (length payload)))

    at_parts : join parts ≡ payload
    at_parts =
        sym (drop-append_exact 4 header (join parts) (sym four))
        ∙ ap (drop 4) e
        ∙ drop-append_exact 4 (le_bytes (length payload)) _ (sym (length-le_bytes (length payload)))
        ∙ take_all (length payload) payload refl

-- When the connection breaks inside a packet of fewer than 2 ^ 31 bytes, the bytes that came so far
-- are delivered as if they were the packet.
pub recv_task_truncated :
    (n : ℕ) (parts rest : List Text)
    → n < 2 ^ 31
    → AllNonempty parts
    → length (join parts) < n
    → recv_task (le_bytes n ∷ (parts ++ ([] ∷ rest))) ≡ delivered (join parts) rest
recv_task_truncated n parts rest small a h =
    recv_task_header n (parts ++ ([] ∷ rest)) small ∙ recv_loop_broken n [] parts rest a h
