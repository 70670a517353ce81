-- ===== src/Base/Thrown.antt =====
-- A call that returns or throws. `err` carries the message of the `Error` that is thrown.
use Prim.Native.String.{String}
use mathlib.Core.Path.{◌≡◌, refl}
use mathlib.Core.Logic.{◌⊎◌, inl, inr}
use mathlib.Core.Bool.{Bool, true, false}
use mathlib.Core.Option.{Option, none, some}

pub data Thrown {ℓ} (A : Type ℓ) : Type ℓ where
  ok : A → Thrown A
  err : String → Thrown A

infixl 5 ◌>>=◌ ◌>>◌
abbrev pub ◌>>=◌ {ℓ κ} : {A : Type ℓ} {B : Type κ} → Thrown A → (A → Thrown B) → Thrown B
call >>= next = elim call [ ok value ↦ next value | err message ↦ err message ]

abbrev pub ◌>>◌ {ℓ} : {B : Type ℓ} → Thrown (Unit {0}) → Thrown B → Thrown B
first >> second = first >>= λ done. second

abbrev pub or_throw {ℓ} : {A : Type ℓ} → Option A → String → Thrown A
or_throw none e = err e
or_throw (some a) e = ok a

-- `throw` under a test.
abbrev pub throw_if : Bool → String → Thrown (Unit {0})
throw_if true e = err e
throw_if false e = ok tt

pub Thrown-cases {ℓ} :
    {A : Type ℓ} (t : Thrown A) → ((a : A) × (t ≡ ok a)) ⊎ ((m : String) × (t ≡ err m))
Thrown-cases (ok a) = inl (a, refl)
Thrown-cases (err m) = inr (m, refl)

-- What a call that returned gave to the rest.
pub >>=-returned {ℓ κ} :
    {A : Type ℓ} {B : Type κ} (call : Thrown A) (next : A → Thrown B) {b : B}
    → (call >>= next) ≡ ok b
    → (a : A) × (call ≡ ok a) × (next a ≡ ok b)
>>=-returned (ok a) next e = (a, refl, e)
>>=-returned (err m) next e = cc

pub ok_inj {ℓ} : {A : Type ℓ} (a b : A) → ok a ≡ ok b → a ≡ b
ok_inj a b e = cc
