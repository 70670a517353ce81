-- ===== src/Base/Int.antt =====
-- BigInt values: integers as a sign and a natural number, their sum and order, and the reading of a
-- text by `BigInt(text)`.
use Prim.Native.Nat.{ℕ, zero, suc, ◌+◌, ◌-◌, ◌*◌, ◌/◌, ◌≤◌}
use Prim.Native.String.{String}
use mathlib.Core.Path.{◌≡◌, refl}
use mathlib.Core.Bool.{Bool, ◌&&◌, ◌||◌}
use mathlib.Core.Option
use mathlib.Core.Option.{Option, none, some}
use mathlib.Core.List.{List, [], ◌∷◌, reverse}
use native.Mathlib.Omega.{arith}
use blockrun_multiversx_plat.Base.Tests.{ltb, leb, same_ℕ, if◌then◌else◌}
use blockrun_multiversx_plat.Base.Text.{units, ◌<>◌, show_ℕ}
use blockrun_multiversx_plat.Base.Thrown.{Thrown, ok, err, or_throw}

-- `negsuc n` is -(n + 1).
pub data ℤ : Type 0 where
  pos : ℕ → ℤ
  negsuc : ℕ → ℤ

abbrev pub pos_part : ℤ → ℕ
pos_part (pos n) = n
pos_part (negsuc n) = 0

abbrev pub neg_part : ℤ → ℕ
neg_part (pos n) = 0
neg_part (negsuc n) = suc n

abbrev pub sub_ℕ : ℕ → ℕ → ℤ
sub_ℕ a b = if leb b a then pos (a - b) else negsuc (b - a - 1)

infixl 65 ◌+ℤ◌
unfoldable pub ◌+ℤ◌ : ℤ → ℤ → ℤ
a +ℤ b = sub_ℕ (pos_part a + pos_part b) (neg_part a + neg_part b)

infix 50 ◌≤ℤ◌
abbrev pub ◌≤ℤ◌ : ℤ → ℤ → Type 0
a ≤ℤ b = pos_part a + neg_part b ≤ pos_part b + neg_part a

-- `a < b` on BigInt values.
abbrev pub ltb_ℤ : ℤ → ℤ → Bool
ltb_ℤ a b = ltb (pos_part a + neg_part b) (pos_part b + neg_part a)

pub +ℤ_assoc : (a b c : ℤ) → (a +ℤ b) +ℤ c ≡ a +ℤ (b +ℤ c)
unfolding ◌+ℤ◌
+ℤ_assoc a b c = ground arith

pub +ℤ_comm : (a b : ℤ) → a +ℤ b ≡ b +ℤ a
unfolding ◌+ℤ◌
+ℤ_comm a b = ground arith

pub zero-+ℤ : (a : ℤ) → pos 0 +ℤ a ≡ a
unfolding ◌+ℤ◌
zero-+ℤ a = ground arith

abbrev pub is_space : ℕ → Bool
is_space c =
    (leb 9 c && leb c 13)
    || same_ℕ c 32
    || same_ℕ c 0xA0
    || same_ℕ c 0x1680
    || (leb 0x2000 c && leb c 0x200A)
    || same_ℕ c 0x2028
    || same_ℕ c 0x2029
    || same_ℕ c 0x202F
    || same_ℕ c 0x205F
    || same_ℕ c 0x3000
    || same_ℕ c 0xFEFF

abbrev pub skip_spaces : List ℕ → List ℕ
skip_spaces [] = []
skip_spaces (c ∷ s) = let rest = skip_spaces s in if is_space c then rest else c ∷ s

-- `s.trim()`
unfoldable pub trim : List ℕ → List ℕ
trim s = reverse (skip_spaces (reverse (skip_spaces s)))

abbrev pub digit_value : ℕ → ℕ
digit_value c =
    if leb b'0' c && leb c b'9'
    then c - 48
    else if leb b'a' c && leb c b'z'
    then c - 87
    else if leb b'A' c && leb c b'Z'
    then c - 55
    else 36

-- Every character must be a digit of the base.
abbrev pub read_digits : ℕ → ℕ → List ℕ → Option ℕ
read_digits base acc [] = some acc
read_digits base acc (c ∷ s) =
    let rest = read_digits base (acc * base + digit_value c) s in
    if ltb (digit_value c) base then rest else none

abbrev pub read_digits_some : ℕ → List ℕ → Option ℕ
read_digits_some base [] = none
read_digits_some base (c ∷ s) = read_digits base 0 (c ∷ s)

abbrev pub negate : ℕ → ℤ
negate zero = pos 0
negate (suc n) = negsuc n

-- A literal behind a leading zero: a base prefix, or a decimal number.
abbrev pub read_zero : List ℕ → Option ℕ
read_zero [] = some 0
read_zero (c ∷ s) =
    if same_ℕ c b'x' || same_ℕ c b'X'
    then read_digits_some 16 s
    else if same_ℕ c b'o' || same_ℕ c b'O'
    then read_digits_some 8 s
    else if same_ℕ c b'b' || same_ℕ c b'B'
    then read_digits_some 2 s
    else read_digits 10 0 (c ∷ s)

abbrev pub read_integer : List ℕ → Option ℤ
read_integer [] = some (pos 0)
read_integer (c ∷ s) =
    if same_ℕ c b'-'
    then Option.map negate (read_digits_some 10 s)
    else if same_ℕ c b'+'
    then Option.map pos (read_digits_some 10 s)
    else if same_ℕ c b'0'
    then Option.map pos (read_zero s)
    else Option.map pos (read_digits 10 0 (c ∷ s))

unfoldable pub big_int_units : List ℕ → Thrown ℤ
unfolding trim
big_int_units s = or_throw (read_integer (trim s)) "Cannot convert to a BigInt"

-- `BigInt(text)`, which throws a `SyntaxError` where the text is no integer.
unfoldable pub big_int : String → Thrown ℤ
unfolding big_int_units
big_int text = big_int_units (units text)

big_int_tests :
    (big_int "1000" ≡ ok (pos 1000))
    × (big_int "" ≡ ok (pos 0))
    × (big_int " -12 " ≡ ok (negsuc 11))
    × (big_int "0x1f" ≡ ok (pos 31))
    × (big_int "1e3" ≡ err "Cannot convert to a BigInt")
unfolding big_int
big_int_tests = (refl, refl, refl, refl, refl)

-- `toString()` of an integer.
abbrev pub show_ℤ : ℤ → String
show_ℤ (pos n) = show_ℕ n
show_ℤ (negsuc n) = "-" <> show_ℕ (suc n)

-- `Math.round(n / d)` of natural numbers, which rounds halves up.
unfoldable pub round_div : ℕ → ℕ → ℕ
round_div n d = (2 * n + d) / (2 * d)
