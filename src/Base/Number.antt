-- ===== src/Base/Number.antt =====
-- `std::stoi`, and that it reads back what `%d` prints.
use Prim.Native.Nat.{ℕ, zero, suc, ◌+◌, ◌-◌, ◌*◌, ◌/◌, ◌%◌, ◌^◌, ◌<◌}
use native.Mathlib.Nat.{pow-suc}
use mathlib.Core.Path.{◌≡◌, refl}
use mathlib.Core.Logic.{◌≢◌}
use mathlib.Core.Bool.{Bool, true, ◌&&◌, ◌||◌}
use mathlib.Core.List.{[], ◌∷◌, ◌++◌}
use mathlib.Core.Option.{Option, none, some}
use native.Mathlib.Omega.{arith}
use nest_disk.Base.Tests.{leb, ◌==◌, if◌then◌else◌}
use nest_disk.Base.Int.{ℤ, pos, negsuc, InInt}
use nest_disk.Base.Strings.{Text, digits_of, decimal}

-- `isspace`.
abbrev is_space : ℕ → Bool
is_space c = c == 32 || leb 9 c && leb c 13

abbrev pub is_digit : ℕ → Bool
is_digit c = leb b'0' c && leb c b'9'

skip_spaces : Text → Text
skip_spaces [] = []
skip_spaces (c ∷ cs) = if is_space c then skip_spaces cs else c ∷ cs

read_digits : ℕ → Text → ℕ
read_digits acc [] = acc
read_digits acc (c ∷ cs) =
    let more = read_digits (acc * 10 + (c - 48)) cs in if is_digit c then more else acc

-- The number at the head of a text; `none` where no digit stands there.
magnitude : Text → Option ℕ
unfolding read_digits
magnitude [] = none
magnitude (c ∷ cs) = if is_digit c then some (read_digits 0 (c ∷ cs)) else none

-- A result that `int` does not hold is the exception `out_of_range`.
abbrev checked_pos : Option ℕ → Option ℤ
checked_pos none = none
checked_pos (some n) = if leb n (2 ^ 31 - 1) then some (pos n) else none

abbrev negate : ℕ → ℤ
negate zero = pos 0
negate (suc n) = negsuc n

abbrev checked_neg : Option ℕ → Option ℤ
checked_neg none = none
checked_neg (some n) = if leb n (2 ^ 31) then some (negate n) else none

read_signed : Text → Option ℤ
unfolding magnitude
read_signed [] = none
read_signed (c ∷ cs) =
    if c == b'-'
    then checked_neg (magnitude cs)
    else if c == b'+'
    then checked_pos (magnitude cs)
    else checked_pos (magnitude (c ∷ cs))

-- `none` is an exception: no digits, or out of range.
unfoldable pub stoi : Text → Option ℤ
unfolding read_signed skip_spaces
stoi t = read_signed (skip_spaces t)

-- Only digits, and at least one.
abbrev AllDigits : Text → Type 0
AllDigits [] = Unit {0}
AllDigits (c ∷ cs) = (is_digit c ≡ true) × AllDigits cs

AllDigits-append : (xs ys : Text) → AllDigits xs → AllDigits ys → AllDigits (xs ++ ys)
AllDigits-append [] ys h k = k
AllDigits-append (x ∷ xs) ys h k = (h.0, AllDigits-append xs ys h.1 k)

digits_of-AllDigits : (fuel n : ℕ) → AllDigits (digits_of fuel n)
unfolding digits_of
digits_of-AllDigits zero n = tt
digits_of-AllDigits (suc fuel) n = ground (
  arith,
  AllDigits-append (digits_of fuel (n / 10)) ((48 + n % 10) ∷ [])
      (digits_of-AllDigits fuel (n / 10)),
)

read_digits-append :
    (xs : Text) (acc d : ℕ)
    → AllDigits xs
    → d < 10
    → read_digits acc (xs ++ ((48 + d) ∷ [])) ≡ read_digits acc xs * 10 + d
unfolding read_digits
read_digits-append [] acc d h k = ground arith
read_digits-append (x ∷ xs) acc d h k =
    ground (arith, read_digits-append xs (acc * 10 + (x - 48)) d h.1 k)

read_digits-digits_of : (fuel n : ℕ) → n < 10 ^ fuel → read_digits 0 (digits_of fuel n) ≡ n
unfolding digits_of read_digits
read_digits-digits_of zero n h = omega arith
read_digits-digits_of (suc fuel) n h = ground (
  arith,
  pow-suc 10 fuel,
  read_digits-digits_of fuel (n / 10),
  read_digits-append (digits_of fuel (n / 10)) 0 (n % 10) (digits_of-AllDigits fuel (n / 10)),
)

append_one-ne-nil : (xs : Text) (c : ℕ) → xs ++ (c ∷ []) ≢ []
append_one-ne-nil [] c e = cc
append_one-ne-nil (x ∷ xs) c e = cc

digits_of-ne-nil : (fuel n : ℕ) → digits_of (suc fuel) n ≢ []
unfolding digits_of
digits_of-ne-nil fuel n e =
    ground (arith, append_one-ne-nil (digits_of fuel (n / 10)) (48 + n % 10))

magnitude-AllDigits : (t : Text) → AllDigits t → t ≢ [] → magnitude t ≡ some (read_digits 0 t)
unfolding magnitude
magnitude-AllDigits [] d h = absurd (h refl)
magnitude-AllDigits (c ∷ cs) d h = ground arith

stoi-AllDigits : (t : Text) → AllDigits t → t ≢ [] → stoi t ≡ checked_pos (some (read_digits 0 t))
unfolding stoi
stoi-AllDigits [] d h = absurd (h refl)
stoi-AllDigits (c ∷ cs) d h = ground arith

stoi-minus : (t : Text) → stoi (b'-' ∷ t) ≡ checked_neg (magnitude t)
unfolding stoi
stoi-minus t = refl

-- `stoi` reads back every `int` that `%d` prints.
pub stoi-decimal : (a : ℤ) → InInt a → stoi (decimal a) ≡ some a
unfolding decimal
stoi-decimal (pos n) h =
    rw
      (
        stoi-AllDigits _ (digits_of-AllDigits 10 n) (digits_of-ne-nil 9 n),
        read_digits-digits_of 10 n (omega arith),
      )
      (ground arith)
stoi-decimal (negsuc n) h = ground (
  arith,
  stoi-minus (digits_of 10 (n + 1)),
  magnitude-AllDigits _ (digits_of-AllDigits 10 (n + 1)) (digits_of-ne-nil 9 (n + 1)),
  read_digits-digits_of 10 (n + 1),
)
