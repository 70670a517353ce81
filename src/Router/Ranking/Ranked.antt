-- ===== src/Router/Ranking/Ranked.antt =====
-- The order in which src/router/arbitrage_matrix.ts offers the providers of a model.
use blockrun_multiversx_plat.Base.{
  ℕ, ◌+◌, ◌*◌, ◌≤◌, String, ◌≡◌, sym, ◌∙◌, ◌↔◌, ◌⊎◌, inl, inr, Bool, true, ◌&&◌, List, [], ◌∷◌,
  arith, leb, ◌===◌, ℕ_key, text_key, Bool-cases, if_both,
}
use blockrun_multiversx_plat.Base.Dict.{values}
use blockrun_multiversx_plat.Base.Lists.{any, filter, All, Member}
use blockrun_multiversx_plat.Base.Text.{units_key}
use blockrun_multiversx_plat.Base.Lists.{Member-filter}
use blockrun_multiversx_plat.Router.Ranking.Defs.{
  ProviderSpec, ArbitrageMatrix, RoutingStrategy, cost_optimized, latency_optimized, balanced,
  score, insert_by, sort_by, is_candidate, get_ranked_providers,
}
use blockrun_multiversx_plat.Router.Ranking.Sorted.{
  AllAbove, IsSorted, sort_by-IsSorted, count_of, sort_by-count_of, count_of-filter,
}

-- A healthy provider with the model among those that it supports.
abbrev pub Serves : String → ProviderSpec → Type 0
Serves model p = (p.healthy ≡ true) × Member model p.supported_models

any-Member :
    (model : String) (models : List String)
    → (any (λ x. x === model) models ≡ true) ↔ Member model models
any-Member model [] = (λ e. absurd cc, λ h. absurd h)
any-Member model (x ∷ xs) =
    let rest = any-Member model xs in
    elim (Bool-cases (x === model)) [
      | inl same ↦
          let e = (text_key.same_iff x model).0 same in
          (λ h. inl (sym e), λ h. ground (arith, same))
      | inr other ↦ (
        λ h. inr (rest.0 (ground (arith, h, other))),
        λ h. elim h [
          | inl e ↦ let same = (text_key.same_iff x model).1 (sym e) in absurd cc
          | inr m ↦ let there = rest.1 m in ground (arith, there, other)
        ],
      )
    ]

is_candidate-Serves :
    (model : String) (p : ProviderSpec) → (is_candidate model p ≡ true) ↔ Serves model p
is_candidate-Serves model p =
    let models = any-Member model p.supported_models in
    elim (Bool-cases p.healthy) [
      | inl well ↦ (
        λ h. (well, models.0 (ground (arith, h, well))),
        λ h. let there = models.1 h.1 in ground (arith, there, well),
      )
      | inr ill ↦ (λ h. absurd (ground (arith, h, ill)), λ h. absurd (let w = h.0 in cc))
    ]

Member-insert_by :
    (f : ProviderSpec → ℕ) (a p : ProviderSpec) (ps : List ProviderSpec)
    → Member a (insert_by f p ps) ↔ ((a ≡ p) ⊎ Member a ps)
Member-insert_by f a p [] = (λ h. h, λ h. h)
Member-insert_by f a p (q ∷ qs) =
    let rest = Member-insert_by f a p qs in
    if_both (λ xs. Member a xs ↔ ((a ≡ p) ⊎ Member a (q ∷ qs))) (leb (f p) (f q)) (p ∷ q ∷ qs)
      (q ∷ insert_by f p qs) (λ h. h, λ h. h)
      (
        λ h. elim h [
          | inl e ↦ inr (inl e)
          | inr m ↦ elim (rest.0 m) [ inl e ↦ inl e | inr k ↦ inr (inr k) ]
        ],
        λ h. elim h [
          | inl e ↦ inr (rest.1 (inl e))
          | inr m ↦ elim m [ inl e ↦ inl e | inr k ↦ inr (rest.1 (inr k)) ]
        ],
      )

Member-sort_by :
    (f : ProviderSpec → ℕ) (a : ProviderSpec) (ps : List ProviderSpec)
    → Member a (sort_by f ps) ↔ Member a ps
Member-sort_by f a [] = (λ h. h, λ h. h)
Member-sort_by f a (p ∷ ps) =
    let rest = Member-sort_by f a ps in
    let put = Member-insert_by f a p (sort_by f ps) in
    (
      λ h. elim (put.0 h) [ inl e ↦ inl e | inr m ↦ inr (rest.0 m) ],
      λ h. elim h [ inl e ↦ put.1 (inl e) | inr m ↦ put.1 (inr (rest.1 m)) ],
    )

-- Why a provider may stand ahead of another: it is no dearer, or no slower, or the dollars of its price a
-- hundred times and its milliseconds are no more.
abbrev pub IsAhead : ℕ → RoutingStrategy → ProviderSpec → ProviderSpec → Type 0
IsAhead unit cost_optimized p q = p.input_cost + p.output_cost ≤ q.input_cost + q.output_cost
IsAhead unit latency_optimized p q = p.avg_ttft_ms ≤ q.avg_ttft_ms
IsAhead unit balanced p q =
    100 * (p.input_cost + p.output_cost) + unit * p.avg_ttft_ms
    ≤ 100 * (q.input_cost + q.output_cost) + unit * q.avg_ttft_ms

abbrev pub IsRanked : ℕ → RoutingStrategy → List ProviderSpec → Type 0
IsRanked unit strategy [] = Unit {0}
IsRanked unit strategy (p ∷ ps) = All (IsAhead unit strategy p) ps × IsRanked unit strategy ps

score-IsAhead :
    (unit : ℕ) (strategy : RoutingStrategy) (p q : ProviderSpec)
    → score unit strategy p ≤ score unit strategy q
    → IsAhead unit strategy p q
score-IsAhead unit cost_optimized p q h = h
score-IsAhead unit latency_optimized p q h = h
score-IsAhead unit balanced p q h = grind (arith, h)

AllAbove-IsAhead :
    (unit : ℕ) (strategy : RoutingStrategy) (p : ProviderSpec) (ps : List ProviderSpec)
    → AllAbove (score unit strategy) (score unit strategy p) ps
    → All (IsAhead unit strategy p) ps
AllAbove-IsAhead unit strategy p [] h = tt
AllAbove-IsAhead unit strategy p (q ∷ qs) h =
    (score-IsAhead unit strategy p q h.0, AllAbove-IsAhead unit strategy p qs h.1)

IsSorted-IsRanked :
    (unit : ℕ) (strategy : RoutingStrategy) (ps : List ProviderSpec)
    → IsSorted (score unit strategy) ps
    → IsRanked unit strategy ps
IsSorted-IsRanked unit strategy [] h = tt
IsSorted-IsRanked unit strategy (p ∷ ps) h =
    (AllAbove-IsAhead unit strategy p ps h.0, IsSorted-IsRanked unit strategy ps h.1)

-- How often each is offered, and the candidates of the matrix.
pub get_ranked_providers-count_of :
    (unit : ℕ) (model : String) (strategy : RoutingStrategy) (m : ArbitrageMatrix)
    (test : ProviderSpec → Bool)
    → count_of test (get_ranked_providers unit model strategy m)
      ≡ count_of (λ p. is_candidate model p && test p) (values m)
unfolding get_ranked_providers
get_ranked_providers-count_of unit model strategy m test =
    sort_by-count_of (score unit strategy) test (filter (is_candidate model) (values m))
    ∙ count_of-filter test (is_candidate model) (values m)

-- A provider is offered for a model exactly if it is in the matrix, is healthy and has the model among
-- those that it supports, and as often as it is there. Whoever is offered earlier is no dearer for
-- input and output together, where the strategy is the cost, and no slower to the first token, where
-- it is the latency; where it is balanced, a hundred times the price in dollars and the milliseconds
-- are together no more.
pub get_ranked_providers-IsRanked :
    (unit : ℕ) (model : String) (strategy : RoutingStrategy) (m : ArbitrageMatrix)
    → IsRanked unit strategy (get_ranked_providers unit model strategy m)
      × ((p : ProviderSpec)
          → Member p (get_ranked_providers unit model strategy m)
            ↔ (Member p (values m) × Serves model p))
      × ((test : ProviderSpec → Bool)
          → count_of test (get_ranked_providers unit model strategy m)
            ≡ count_of (λ p. is_candidate model p && test p) (values m))
unfolding get_ranked_providers
get_ranked_providers-IsRanked unit model strategy m =
    let f = score unit strategy in
    let wanted = filter (is_candidate model) (values m) in
    (
      IsSorted-IsRanked unit strategy (sort_by f wanted) (sort_by-IsSorted f wanted),
      λ p.
          let sorted = Member-sort_by f p wanted in
          let kept = Member-filter (is_candidate model) (values m) p in
          let serves = is_candidate-Serves model p in
          (
            λ h. let (c, there) = kept.0 (sorted.0 h) in (there, serves.0 c),
            λ h. sorted.1 (kept.1 (serves.1 h.1, h.0)),
          ),
      get_ranked_providers-count_of unit model strategy m,
    )
