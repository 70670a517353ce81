-- ===== src/Base/Dict.antt =====
-- JavaScript's `Map`, in insertion order: `set` writes an entry in place, or puts it at the end.
use mathlib.Core.Path.{◌≡◌, refl}
use mathlib.Core.Bool.{Bool, false}
use mathlib.Core.Logic.{◌⊎◌, inl, inr}
use mathlib.Core.Option.{Option, none, some}
use mathlib.Core.List.{List, [], ◌∷◌}
use native.Mathlib.Omega.{arith}
use blockrun_multiversx_plat.Base.Tests.{Key, ◌===◌, ===_refl, if◌then◌else◌, is_some, Bool-cases}

abbrev pub Dict {ℓ κ} : Type ℓ → Type κ → Type (ℓ ⊔ κ)
Dict K V = List (K × V)

module _ {ℓ κ} {K : Type ℓ} {V : Type κ} ⦃e : Key K⦄ where
  unfoldable pub get : K → Dict K V → Option V
  get k [] = none
  get k ((j, v) ∷ m) = if j === k then some v else get k m

  unfoldable pub set : K → V → Dict K V → Dict K V
  set k v [] = (k, v) ∷ []
  set k v ((j, w) ∷ m) = if j === k then (j, v) ∷ m else (j, w) ∷ set k v m

  unfoldable pub delete : K → Dict K V → Dict K V
  delete k [] = []
  delete k ((j, w) ∷ m) = let rest = delete k m in if j === k then rest else (j, w) ∷ rest

  abbrev pub has : K → Dict K V → Bool
  has k m = is_some (get k m)

  pub get-set_self : (k : K) (v : V) (m : Dict K V) → get k (set k v m) ≡ some v
  unfolding get set
  get-set_self k v [] = ground (arith, ===_refl k)
  get-set_self k v ((j, w) ∷ m) = ground (arith, get-set_self k v m)

  pub get-set :
      (k j : K) (v : V) (m : Dict K V) → get j (set k v m) ≡ (if k === j then some v else get j m)
  unfolding get set
  get-set k j v [] = refl
  get-set k j v ((i, w) ∷ m) =
      ground (arith, e.same_iff k j, e.same_iff i k, e.same_iff i j, get-set k j v m)

  pub get-delete :
      (k j : K) (m : Dict K V) → get j (delete k m) ≡ (if k === j then none else get j m)
  unfolding get delete
  get-delete k j [] = ground arith
  get-delete k j ((i, w) ∷ m) =
      ground (arith, e.same_iff k j, e.same_iff i k, e.same_iff i j, get-delete k j m)

  -- What is read after a `set` was written by it, or was there under another key.
  pub set-cases :
      (k j : K) (v w : V) (m : Dict K V)
      → get j (set k v m) ≡ some w
      → ((k ≡ j) × (v ≡ w)) ⊎ (((k === j) ≡ false) × (get j m ≡ some w))
  set-cases k j v w m h =
      let f = get-set k j v m in
      elim (Bool-cases (k === j)) [
        | inl same ↦ inl ((e.same_iff k j).0 same, ground (arith, f, h, same))
        | inr other ↦ inr (other, ground (arith, f, h, other))
      ]

  pub get-set_other :
      (k j : K) (v : V) (m : Dict K V) → (k === j) ≡ false → get j (set k v m) ≡ get j m
  get-set_other k j v m h = ground (arith, get-set k j v m)

abbrev pub values {ℓ κ} : {K : Type ℓ} {V : Type κ} → Dict K V → List V
values [] = []
values ((k, v) ∷ m) = v ∷ values m
