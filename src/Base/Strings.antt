-- ===== src/Base/Strings.antt =====
-- Byte strings (`std::string` and NUL-terminated arrays), `sprintf` with `%s` and `%d`, `stoi`.
use Prim.Native.Nat.{ℕ, zero, suc, ◌+◌, ◌/◌, ◌%◌, ◌≤◌}
use Prim.Native.Char.{code}
use Prim.Native.String.{String}
use mathlib.Core.Path.{◌≡◌, refl}
use mathlib.Core.Logic.{◌↔◌}
use mathlib.Core.Bool.{Bool, true, false, ◌&&◌}
use mathlib.Core.List.{List, [], ◌∷◌, ◌++◌}
use native.Mathlib.Omega.{arith}
use nest_disk.Base.Tests.{ltb, ◌==◌, if◌then◌else◌}
use nest_disk.Base.Lists.{length, length-append}
use nest_disk.Base.Int.{ℤ, pos, negsuc}

abbrev pub Text : Type 0
Text = List ℕ

unfoldable pub codes : String → Text
codes String.[] = []
codes (String.◌∷◌ c s) = code c ∷ codes s

-- `==` of two strings.
unfoldable pub text_eq : Text → Text → Bool
text_eq [] [] = true
text_eq [] (y ∷ ys) = false
text_eq (x ∷ xs) [] = false
text_eq (x ∷ xs) (y ∷ ys) = x == y && text_eq xs ys

text_eq_sound : (a b : Text) → text_eq a b ≡ true → a ≡ b
unfolding text_eq
text_eq_sound [] [] h = refl
text_eq_sound [] (y ∷ ys) h = ground arith
text_eq_sound (x ∷ xs) [] h = ground arith
text_eq_sound (x ∷ xs) (y ∷ ys) h = ground (arith, text_eq_sound xs ys)

pub text_eq_self : (a : Text) → text_eq a a ≡ true
unfolding text_eq
text_eq_self [] = refl
text_eq_self (x ∷ xs) = ground (arith, text_eq_self xs)

pub text_eq_iff : (a b : Text) → (text_eq a b ≡ true) ↔ (a ≡ b)
text_eq_iff a b = (text_eq_sound a b, λ e. ground (arith, text_eq_self a))

-- The decimal digits of a number below 10 ^ fuel; an `int` has ten at most.
unfoldable pub digits_of : ℕ → ℕ → Text
digits_of zero n = []
digits_of (suc fuel) n =
    let more = digits_of fuel (n / 10) in
    if ltb n 10 then (48 + n) ∷ [] else more ++ ((48 + n % 10) ∷ [])

-- `%d`.
unfoldable pub decimal : ℤ → Text
decimal (pos n) = digits_of 10 n
decimal (negsuc n) = b'-' ∷ digits_of 10 (n + 1)

pub length-digits_of : (fuel n : ℕ) → length (digits_of fuel n) ≤ fuel
unfolding digits_of
length-digits_of zero n = omega arith
length-digits_of (suc fuel) n = ground (
  arith,
  length-digits_of fuel (n / 10),
  length-append (digits_of fuel (n / 10)) ((48 + n % 10) ∷ []),
)

pub length-decimal : (a : ℤ) → length (decimal a) ≤ 11
unfolding decimal
length-decimal (pos n) = omega (arith, length-digits_of 10 n)
length-decimal (negsuc n) = omega (arith, length-digits_of 10 (n + 1))

-- One piece of a format: literal text, `%s` or `%d`.
pub data Piece : Type 0 where
  lit : String → Piece
  str : Text → Piece
  int : ℤ → Piece

unfoldable pub piece : Piece → Text
piece (lit s) = codes s
piece (str t) = t
piece (int a) = decimal a

-- The text that `sprintf` writes, without the closing NUL.
unfoldable pub format : List Piece → Text
unfolding piece
format [] = []
format (p ∷ ps) = piece p ++ format ps

-- A bound of the length of what is formatted.
abbrev pub bound : List Piece → ℕ
bound [] = 0
bound (lit s ∷ ps) = length (codes s) + bound ps
bound (str t ∷ ps) = length t + bound ps
bound (int a ∷ ps) = 11 + bound ps

pub length-format : (ps : List Piece) → length (format ps) ≤ bound ps
unfolding format
length-format [] = omega arith
length-format (lit s ∷ ps) = omega (arith, length-append (codes s) (format ps), length-format ps)
length-format (str t ∷ ps) = omega (arith, length-append t (format ps), length-format ps)
length-format (int a ∷ ps) =
    omega (arith, length-append (decimal a) (format ps), length-decimal a, length-format ps)
