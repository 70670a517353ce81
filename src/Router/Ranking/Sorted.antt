-- ===== src/Router/Ranking/Sorted.antt =====
-- The stable sort of src/router/arbitrage_matrix.ts.
use blockrun_multiversx_plat.Base.{
  ℕ, ◌≤◌, ◌≡◌, refl, ◌∙◌, subst, inl, inr, Bool, ◌&&◌, List, [], ◌∷◌, arith, leb, ℕ_key, text_key,
  leb→le, Bool-cases, if_both,
}
use blockrun_multiversx_plat.Base.Lists.{length, filter, All}
use blockrun_multiversx_plat.Base.Text.{units_key}
use blockrun_multiversx_plat.Router.Ranking.Defs.{ProviderSpec, insert_by, sort_by}

abbrev pub AllAbove : (ProviderSpec → ℕ) → ℕ → List ProviderSpec → Type 0
AllAbove f n ps = All (λ q. n ≤ f q) ps

-- Every provider comes before those with a higher score.
abbrev pub IsSorted : (ProviderSpec → ℕ) → List ProviderSpec → Type 0
IsSorted f [] = Unit {0}
IsSorted f (p ∷ ps) = AllAbove f (f p) ps × IsSorted f ps

AllAbove-weaken :
    (f : ProviderSpec → ℕ) (m n : ℕ) (ps : List ProviderSpec)
    → m ≤ n
    → AllAbove f n ps
    → AllAbove f m ps
AllAbove-weaken f m n [] le h = tt
AllAbove-weaken f m n (p ∷ ps) le h =
    (let above : n ≤ f p = h.0 in omega (arith, le, above), AllAbove-weaken f m n ps le h.1)

insert_by-AllAbove :
    (f : ProviderSpec → ℕ) (n : ℕ) (p : ProviderSpec) (ps : List ProviderSpec)
    → n ≤ f p
    → AllAbove f n ps
    → AllAbove f n (insert_by f p ps)
insert_by-AllAbove f n p [] le h = (le, tt)
insert_by-AllAbove f n p (q ∷ qs) le h =
    if_both (AllAbove f n) (leb (f p) (f q)) (p ∷ q ∷ qs) (q ∷ insert_by f p qs) (le, h)
      (h.0, insert_by-AllAbove f n p qs le h.1)

insert_by-IsSorted :
    (f : ProviderSpec → ℕ) (p : ProviderSpec) (ps : List ProviderSpec)
    → IsSorted f ps
    → IsSorted f (insert_by f p ps)
insert_by-IsSorted f p [] h = (tt, tt)
insert_by-IsSorted f p (q ∷ qs) h = elim (Bool-cases (leb (f p) (f q))) [
  | inl below ↦
      let le = leb→le (f p) (f q) below in
      let w : p ∷ q ∷ qs ≡ insert_by f p (q ∷ qs) = ground (arith, below) in
      subst (IsSorted f) w ((le, AllAbove-weaken f (f p) (f q) qs le h.0), h)
  | inr above ↦
      let le : f q ≤ f p = ground (arith, above) in
      let w : q ∷ insert_by f p qs ≡ insert_by f p (q ∷ qs) = ground (arith, above) in
      subst (IsSorted f) w (insert_by-AllAbove f (f q) p qs le h.0, insert_by-IsSorted f p qs h.1)
]

pub sort_by-IsSorted : (f : ProviderSpec → ℕ) (ps : List ProviderSpec) → IsSorted f (sort_by f ps)
sort_by-IsSorted f [] = tt
sort_by-IsSorted f (p ∷ ps) = insert_by-IsSorted f p (sort_by f ps) (sort_by-IsSorted f ps)

-- How many of a list pass a test.
abbrev pub count_of : (ProviderSpec → Bool) → List ProviderSpec → ℕ
count_of test ps = length (filter test ps)

insert_by-count_of :
    (f : ProviderSpec → ℕ) (test : ProviderSpec → Bool) (p : ProviderSpec) (ps : List ProviderSpec)
    → count_of test (insert_by f p ps) ≡ count_of test (p ∷ ps)
insert_by-count_of f test p [] = refl
insert_by-count_of f test p (q ∷ qs) =
    let rest = insert_by-count_of f test p qs in
    elim (Bool-cases (leb (f p) (f q))) [
      | inl below ↦ ground (arith, below)
      | inr above ↦ elim (Bool-cases (test p)) [
        | inl a ↦ elim (Bool-cases (test q)) [
          | inl b ↦ ground (arith, above, rest, a, b)
          | inr b ↦ ground (arith, above, rest, a, b)
        ]
        | inr a ↦ elim (Bool-cases (test q)) [
          | inl b ↦ ground (arith, above, rest, a, b)
          | inr b ↦ ground (arith, above, rest, a, b)
        ]
      ]
    ]

pub sort_by-count_of :
    (f : ProviderSpec → ℕ) (test : ProviderSpec → Bool) (ps : List ProviderSpec)
    → count_of test (sort_by f ps) ≡ count_of test ps
sort_by-count_of f test [] = refl
sort_by-count_of f test (p ∷ ps) =
    let rest = sort_by-count_of f test ps in
    insert_by-count_of f test p (sort_by f ps) ∙ ground (arith, rest)

pub count_of-filter :
    (test wanted : ProviderSpec → Bool) (ps : List ProviderSpec)
    → count_of test (filter wanted ps) ≡ count_of (λ p. wanted p && test p) ps
count_of-filter test wanted [] = refl
count_of-filter test wanted (p ∷ ps) =
    let rest = count_of-filter test wanted ps in
    elim (Bool-cases (wanted p)) [
      | inl a ↦ elim (Bool-cases (test p)) [
        | inl b ↦ ground (arith, rest, a, b)
        | inr b ↦ ground (arith, rest, a, b)
      ]
      | inr a ↦ ground (arith, rest, a)
    ]
