-- ===== src/Base/Text.antt =====
-- Texts: the native `String` as a value, its code points where the program searches or splits it.
use Prim.Native.Nat.{ℕ, zero, suc, ◌+◌, ◌/◌, ◌%◌}
use mathlib.Core.Path.{◌≡◌, refl}
use Prim.Native.Char.{code}
use Prim.Native.String
use Prim.Native.String.{String}
use mathlib.Core.Logic.{◌↔◌}
use native.Mathlib.Omega.{arith}
use mathlib.Core.Bool.{Bool, true, false, ◌||◌, ◌&&◌}
use mathlib.Core.Option.{Option, none, some}
use mathlib.Core.List.{List, [], ◌∷◌, ◌++◌}
use blockrun_multiversx_plat.Base.Tests.{same_ℕ, leb, ltb, Key, if◌then◌else◌, ℕ_key, text_key}

-- The code points, which are the UTF-16 code units of the texts that the program itself makes.
abbrev pub units : String → List ℕ
units text = elim text [ String.[] ↦ [] | String.◌∷◌ letter (rest → more) ↦ code letter ∷ more ]

infixr 65 ◌<>◌
abbrev pub ◌<>◌ : String → String → String
s <> t = String.◌++◌ s t

-- A text that is not empty is true in a test.
abbrev pub truthy : String → Bool
truthy String.[] = false
truthy (String.◌∷◌ c s) = true

abbrev pub truthy_opt : Option String → Bool
truthy_opt none = false
truthy_opt (some s) = truthy s

-- `s.startsWith(t)`
abbrev pub starts_with : List ℕ → List ℕ → Bool
starts_with s [] = true
starts_with [] (t ∷ ts) = false
starts_with (s ∷ ss) (t ∷ ts) = same_ℕ s t && starts_with ss ts

-- `s.includes(t)`
abbrev pub includes : List ℕ → List ℕ → Bool
includes [] t = starts_with [] t
includes (c ∷ s) t = starts_with (c ∷ s) t || includes s t

-- `toLowerCase`, as far as a search for ASCII text sees it: the letters A to Z, the Kelvin sign
-- (to k) and the capital I with a dot (to i and a combining dot). No other character's lower case
-- holds an ASCII one.
abbrev pub lower_unit : ℕ → List ℕ
lower_unit c =
    if leb b'A' c && leb c b'Z'
    then (c + 32) ∷ []
    else if same_ℕ c 0x212A
    then b'k' ∷ []
    else if same_ℕ c 0x130
    then b'i' ∷ 0x307 ∷ []
    else c ∷ []

abbrev pub lower : List ℕ → List ℕ
lower [] = []
lower (c ∷ s) = lower_unit c ++ lower s

-- `s.split(d)` for a separator of one character; never empty.
abbrev pub split_on : ℕ → List ℕ → List ℕ → List (List ℕ)
split_on d cur [] = cur ∷ []
split_on d cur (c ∷ s) =
    let closed = cur ∷ split_on d [] s in
    let longer = split_on d (cur ++ c ∷ []) s in if same_ℕ c d then closed else longer

abbrev pub split : ℕ → List ℕ → List (List ℕ)
split d s = split_on d [] s

abbrev pub digit_text : ℕ → String
digit_text zero = "0"
digit_text (suc zero) = "1"
digit_text (suc (suc zero)) = "2"
digit_text (suc (suc (suc zero))) = "3"
digit_text (suc (suc (suc (suc zero)))) = "4"
digit_text (suc (suc (suc (suc (suc zero))))) = "5"
digit_text (suc (suc (suc (suc (suc (suc zero)))))) = "6"
digit_text (suc (suc (suc (suc (suc (suc (suc zero))))))) = "7"
digit_text (suc (suc (suc (suc (suc (suc (suc (suc zero)))))))) = "8"
digit_text (suc (suc (suc (suc (suc (suc (suc (suc (suc n))))))))) = "9"

show_from : ℕ → ℕ → String → String
show_from zero n shown = shown
show_from (suc fuel) n shown =
    let more = digit_text (n % 10) <> shown in
    let rest = show_from fuel (n / 10) more in if ltb n 10 then more else rest

-- A natural number in decimal, as in a template or by `toString()`.
unfoldable pub show_ℕ : ℕ → String
unfolding show_from
show_ℕ n = show_from (n + 1) n ""

show_ℕ_test : show_ℕ 4294967295 ≡ "4294967295"
unfolding show_ℕ
show_ℕ_test = refl

-- `===` on texts that are lists of code units.
unfoldable pub same_units : List ℕ → List ℕ → Bool
same_units [] [] = true
same_units [] (d ∷ t) = false
same_units (c ∷ s) [] = false
same_units (c ∷ s) (d ∷ t) = same_ℕ c d && same_units s t

pub same_units_iff : (s t : List ℕ) → (same_units s t ≡ true) ↔ (s ≡ t)
unfolding same_units
same_units_iff [] [] = (λ e. refl, λ e. refl)
same_units_iff [] (d ∷ t) = (λ e. cc, λ e. cc)
same_units_iff (c ∷ s) [] = (λ e. cc, λ e. cc)
same_units_iff (c ∷ s) (d ∷ t) = ground (arith, same_units_iff s t)

instance abbrev pub units_key : Key (List ℕ)
units_key = record { same = same_units; same_iff = same_units_iff }
