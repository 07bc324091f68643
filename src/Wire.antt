-- ===== src/Wire.antt =====
-- The bytes of packets. The structures of include/packdef.h are made of `int`s, four bytes each with
-- the low byte first, and of `char` arrays whose sizes are multiples of four, so that no field is
-- padded; the code casts a packet's bytes to them. A text is what the string functions see that the
-- code calls on an array: the bytes up to the next NUL, in the array or behind it. `none` stands for
-- a packet that ends before the field does: the code reads on behind its buffer.
pub mod Read
pub mod Print
pub mod Trip
pub mod Serve
pub mod Stream
mod Tests
use nest_disk.Base.{
  ℕ, zero, suc, ◌+◌, ◌-◌, ◌*◌, ◌%◌, ◌^◌, ◌<◌, ◌≡◌, ◌≢◌, refl, ap, ◌∙◌, ℤ, pos, negsuc, InInt, low32,
  signed32, Text, Option, none, some, List, [], ◌∷◌, ◌++◌, length, take, drop, ltb, ◌==◌,
  if◌then◌else◌, arith, take-append_exact, drop-append_exact, length-append,
}
use mathlib.Core.List.{append-nil, append_assoc}
use nest_disk.Net.Frame.{le_bytes, from_le}
use nest_disk.Net.Frame.Trip.{from_le-le_bytes, length-le_bytes}

infixl 5 ◌>>=◌
abbrev pub ◌>>=◌ : {A B : Type 0} → Option A → (A → Option B) → Option B
none >>= f = none
some a >>= f = f a

-- An `int` field, and the bytes behind it.
unfoldable pub int32 : Text → Option (ℤ × Text)
int32 b = if ltb (length b) 4 then none else some (signed32 (from_le (take 4 b)), drop 4 b)

-- The bytes up to the first NUL.
unfoldable pub c_string : Text → Option Text
c_string [] = none
c_string (b ∷ bs) = if b == 0 then some [] else (c_string bs >>= λ t. some (b ∷ t))

-- An array of `n` bytes that the code reads as a string.
unfoldable pub chars : ℕ → Text → Option (Text × Text)
unfolding c_string
chars n b = c_string b >>= λ t. some (t, drop n b)

-- An array of `n` bytes that the code reads as such.
unfoldable pub bytes : ℕ → Text → Option (Text × Text)
bytes n b = if ltb (length b) n then none else some (take n b, drop n b)

-- The `int`s of an array at the packet's end.
unfoldable pub int_array : Text → List ℤ
int_array (b0 ∷ b1 ∷ b2 ∷ b3 ∷ bs) = signed32 (from_le (b0 ∷ b1 ∷ b2 ∷ b3 ∷ [])) ∷ int_array bs
int_array _ = []

-- What a client puts into the fields.
unfoldable pub int_bytes : ℤ → Text
int_bytes z = le_bytes (low32 z)

abbrev pub zeros : ℕ → Text
zeros zero = []
zeros (suc n) = 0 ∷ zeros n

unfoldable pub padded : ℕ → Text → Text
padded n t = t ++ zeros (n - length t)

unfoldable pub array_bytes : List ℤ → Text
unfolding int_bytes
array_bytes [] = []
array_bytes (z ∷ zs) = int_bytes z ++ array_bytes zs

abbrev pub NoNul : Text → Type 0
NoNul [] = Unit {0}
NoNul (b ∷ bs) = (b ≢ 0) × NoNul bs

-- A text without NUL that leaves room for one.
abbrev pub Fits : ℕ → Text → Type 0
Fits n t = (length t < n) × NoNul t

abbrev pub AllInInt : List ℤ → Type 0
AllInInt [] = Unit {0}
AllInInt (z ∷ zs) = InInt z × AllInInt zs

signed32-low32 : (z : ℤ) → InInt z → signed32 (low32 z) ≡ z
unfolding low32
signed32-low32 (pos n) h = ground arith
signed32-low32 (negsuc n) h = ground arith

low32-lt : (z : ℤ) → low32 z < 2 ^ 32
unfolding low32
low32-lt z = omega arith

from_le-int_bytes : (z : ℤ) → InInt z → signed32 (from_le (int_bytes z)) ≡ z
unfolding int_bytes
from_le-int_bytes z h = ap signed32 (from_le-le_bytes (low32 z) (low32-lt z)) ∙ signed32-low32 z h

length-int_bytes : (z : ℤ) → length (int_bytes z) ≡ 4
unfolding int_bytes
length-int_bytes z = length-le_bytes (low32 z)

pub int32-int_bytes : (z : ℤ) (rest : Text) → InInt z → int32 (int_bytes z ++ rest) ≡ some (z, rest)
unfolding int32
int32-int_bytes z rest h = ground (
  arith,
  length-append (int_bytes z) rest,
  length-int_bytes z,
  take-append_exact 4 (int_bytes z) rest,
  drop-append_exact 4 (int_bytes z) rest,
  from_le-int_bytes z,
)

c_string-nul : (t rest : Text) → NoNul t → c_string (t ++ (0 ∷ rest)) ≡ some t
unfolding c_string
c_string-nul [] rest h = refl
c_string-nul (b ∷ bs) rest h = ground (arith, c_string-nul bs rest h.1)

length-zeros : (n : ℕ) → length (zeros n) ≡ n
length-zeros zero = refl
length-zeros (suc n) = ap suc (length-zeros n)

padded-nul : (n : ℕ) (t : Text) → length t < n → padded n t ≡ t ++ (0 ∷ zeros (n - length t - 1))
unfolding padded
padded-nul n t h =
    ap (λ (k : ℕ). t ++ zeros k) (let e : n - length t ≡ suc (n - length t - 1) = omega arith in e)

length-padded : (n : ℕ) (t : Text) → length t < n → length (padded n t) ≡ n
unfolding padded
length-padded n t h =
    omega (arith, length-append t (zeros (n - length t)), length-zeros (n - length t))

c_string-padded : (n : ℕ) (t rest : Text) → Fits n t → c_string (padded n t ++ rest) ≡ some t
c_string-padded n t rest h =
    ap (λ (u : Text). c_string (u ++ rest)) (padded-nul n t h.0)
    ∙ ap c_string (append_assoc t (0 ∷ zeros (n - length t - 1)) rest)
    ∙ c_string-nul t (zeros (n - length t - 1) ++ rest) h.1

pub chars-padded :
    (n : ℕ) (t rest : Text) → Fits n t → chars n (padded n t ++ rest) ≡ some (t, rest)
unfolding chars
chars-padded n t rest h = rw (c_string-padded n t rest h) (
    ap (λ (u : Text). some (t, u))
      (drop-append_exact n (padded n t) rest (omega (arith, length-padded n t h.0))))

pub bytes-append : (n : ℕ) (t rest : Text) → length t ≡ n → bytes n (t ++ rest) ≡ some (t, rest)
unfolding bytes
bytes-append n t rest h =
    ground (arith, length-append t rest, take-append_exact n t rest, drop-append_exact n t rest)

int_array-cons :
    (z : ℤ) (rest : Text) → InInt z → int_array (int_bytes z ++ rest) ≡ z ∷ int_array rest
unfolding int_array int_bytes le_bytes
int_array-cons z rest h = ap (λ (y : ℤ). y ∷ int_array rest) (from_le-int_bytes z h)

int_array-nested : (zs : List ℤ) → AllInInt zs → int_array (array_bytes zs) ≡ zs
unfolding array_bytes int_array
int_array-nested [] h = refl
int_array-nested (z ∷ zs) h =
    int_array-cons z (array_bytes zs) h.0 ∙ ap (λ (l : List ℤ). z ∷ l) (int_array-nested zs h.1)

pub int_array-array_bytes : (zs : List ℤ) → AllInInt zs → int_array (array_bytes zs ++ []) ≡ zs
int_array-array_bytes zs h = ap int_array (append-nil (array_bytes zs)) ∙ int_array-nested zs h
