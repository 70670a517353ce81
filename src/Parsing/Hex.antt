-- ===== src/Parsing/Hex.antt =====
-- Hexadecimal numbers as src/utils/data_parser.ts writes and reads them, and the splitting of what it
-- joins.
use blockrun_multiversx_plat.Base.{
  ℕ, zero, suc, ◌+◌, ◌*◌, ◌/◌, ◌%◌, ◌≤◌, ◌<◌, ◌≡◌, refl, sym, ap, ◌∙◌, subst, ◌⊎◌, inl, inr, false,
  none, some, List, [], ◌∷◌, arith, ltb, same_ℕ, if◌then◌else◌, ℕ_key, text_key, Bool-cases,
  if_both,
}
use blockrun_multiversx_plat.Base.Thrown.{ok, or_throw}
use blockrun_multiversx_plat.Base.Lists.{length, All, All-append}
use blockrun_multiversx_plat.Base.Text.{units_key}
use blockrun_multiversx_plat.Base.Int.{
  pos, is_space, skip_spaces, trim, digit_value, read_digits, read_integer, big_int_units,
}
use blockrun_multiversx_plat.Parsing.Defs.{hex_amount}
use blockrun_multiversx_plat.Parsing.Build.{hex_digit, hex_from, show_hex, even_hex}
use mathlib.Core.Option
use mathlib.Core.List.{reverse, reverse-cons, reverse-reverse}

hex_digit-value : (n : ℕ) → n < 16 → digit_value (hex_digit n) ≡ n
hex_digit-value n h = ground (arith, h)

-- The units of digits and small letters.
plain_unit :
    (c : ℕ)
    → 48 ≤ c
    → c ≤ 102
    → (c < 58) ⊎ (97 ≤ c)
    → (is_space c ≡ false) × (same_ℕ c b'@' ≡ false)
plain_unit c low high apart = (ground (arith, low, high), ground (arith, apart))

read_digits-hex_digit :
    (acc k : ℕ) (s : List ℕ)
    → k < 16
    → read_digits 16 acc (hex_digit k ∷ s) ≡ read_digits 16 (acc * 16 + k) s
read_digits-hex_digit acc k s h =
    ap (λ d. if ltb d 16 then read_digits 16 (acc * 16 + d) s else none) (hex_digit-value k h)
    ∙ ground (arith, h)

read_digits-hex_from :
    (fuel n : ℕ) (shown : List ℕ)
    → n < fuel
    → read_digits 16 0 (hex_from fuel n shown) ≡ read_digits 16 n shown
unfolding hex_from
read_digits-hex_from zero n shown h = absurd (omega (arith, h))
read_digits-hex_from (suc fuel) n shown h =
    let more = hex_digit (n % 16) ∷ shown in
    elim (Bool-cases (ltb n 16)) [
      | inl small ↦
          let same : hex_from (suc fuel) n shown ≡ more = ground (arith, small) in
          ap (read_digits 16 0) same
          ∙ read_digits-hex_digit 0 (n % 16) shown (omega arith)
          ∙ ap (λ k. read_digits 16 k shown) (ground (arith, small))
      | inr large ↦
          let same : hex_from (suc fuel) n shown ≡ hex_from fuel (n / 16) more =
            ground (arith, large) in
          ap (read_digits 16 0) same
          ∙ read_digits-hex_from fuel (n / 16) more (ground (arith, h, large))
          ∙ read_digits-hex_digit (n / 16) (n % 16) shown (omega arith)
          ∙ ap (λ k. read_digits 16 k shown) (omega arith)
    ]

-- A character of a number: no blank, and not the separator of the parts.
abbrev pub IsPlain : ℕ → Type 0
IsPlain c = (is_space c ≡ false) × (same_ℕ c b'@' ≡ false)

hex_digit-IsPlain : (k : ℕ) → k < 16 → IsPlain (hex_digit k)
hex_digit-IsPlain k h = elim (Bool-cases (ltb k 10)) [
  | inl small ↦
      let same : hex_digit k ≡ 48 + k = ground (arith, small) in
      subst IsPlain (sym same)
        (plain_unit (48 + k) (omega arith) (ground (arith, small)) (inl (ground (arith, small))))
  | inr large ↦
      let same : hex_digit k ≡ 87 + k = ground (arith, large) in
      subst IsPlain (sym same)
        (plain_unit (87 + k) (omega arith) (omega (arith, h)) (inr (ground (arith, large))))
]

hex_from-IsPlain :
    (fuel n : ℕ) (shown : List ℕ) → All IsPlain shown → All IsPlain (hex_from fuel n shown)
unfolding hex_from
hex_from-IsPlain zero n shown h = h
hex_from-IsPlain (suc fuel) n shown h =
    let more = hex_digit (n % 16) ∷ shown in
    let head : All IsPlain more = (hex_digit-IsPlain (n % 16) (omega arith), h) in
    if_both (All IsPlain) (ltb n 16) more (hex_from fuel (n / 16) more) head
      (hex_from-IsPlain fuel (n / 16) more head)

hex_from-length : (fuel n : ℕ) (shown : List ℕ) → length shown ≤ length (hex_from fuel n shown)
unfolding hex_from
hex_from-length zero n shown = omega arith
hex_from-length (suc fuel) n shown =
    let more = hex_digit (n % 16) ∷ shown in
    if_both (λ x. length shown ≤ length x) (ltb n 16) more (hex_from fuel (n / 16) more)
      (omega arith) (omega (arith, hex_from-length fuel (n / 16) more))

hex_from-some : (fuel n : ℕ) → 0 < fuel → 0 < length (hex_from fuel n [])
unfolding hex_from
hex_from-some zero n h = absurd (omega (arith, h))
hex_from-some (suc fuel) n h =
    let more = hex_digit (n % 16) ∷ [] in
    if_both (λ x. 0 < length x) (ltb n 16) more (hex_from fuel (n / 16) more) (omega arith)
      (omega (arith, hex_from-length fuel (n / 16) more))

-- The digits of a number, with or without a zero in front: not empty, plain, and read back.
abbrev pub IsHexOf : ℕ → List ℕ → Type 0
IsHexOf n s = (0 < length s) × All IsPlain s × (read_digits 16 0 s ≡ some n)

show_hex-IsHexOf : (n : ℕ) → IsHexOf n (show_hex n)
unfolding show_hex hex_from
show_hex-IsHexOf n = (
  hex_from-some (n + 1) n (omega arith),
  hex_from-IsPlain (n + 1) n [] tt,
  read_digits-hex_from (n + 1) n [] (omega arith),
)

pub even_hex-IsHexOf : (n : ℕ) → IsHexOf n (even_hex (show_hex n))
unfolding even_hex
even_hex-IsHexOf n =
    let (some_digit, every, value) = show_hex-IsHexOf n in
    if_both (IsHexOf n) (same_ℕ (length (show_hex n) % 2) 0) (show_hex n) (b'0' ∷ show_hex n)
      (some_digit, every, value) (omega arith, ((refl, refl), every), value)

skip_spaces-plain : (s : List ℕ) → All IsPlain s → skip_spaces s ≡ s
skip_spaces-plain [] h = refl
skip_spaces-plain (c ∷ s) h = ground (arith, h.0.0)

All-reverse : (s : List ℕ) → All IsPlain s → All IsPlain (reverse s)
All-reverse [] h = tt
All-reverse (c ∷ s) h =
    subst (All IsPlain) (sym (reverse-cons c s))
      (All-append IsPlain (reverse s) (c ∷ []) (All-reverse s h.1) (h.0, tt))

trim-plain : (s : List ℕ) → All IsPlain s → trim s ≡ s
unfolding trim
trim-plain s h =
    ap (λ x. reverse (skip_spaces (reverse x))) (skip_spaces-plain s h)
    ∙ ap reverse (skip_spaces-plain (reverse s) (All-reverse s h))
    ∙ reverse-reverse s

-- Such a text is the amount again.
pub hex_amount-IsHexOf : (n : ℕ) (s : List ℕ) → IsHexOf n s → hex_amount (some s) ≡ ok (pos n)
unfolding hex_amount big_int_units
hex_amount-IsHexOf n [] h = absurd (omega (arith, h.0))
hex_amount-IsHexOf n (c ∷ s) h =
    let kept = trim-plain (48 ∷ 120 ∷ c ∷ s) ((refl, refl), ((refl, refl), h.1)) in
    ap (λ x. or_throw (read_integer x) "Cannot convert to a BigInt") kept
    ∙ ap (λ x. or_throw (Option.map pos x) "Cannot convert to a BigInt") h.2
