-- ===== src/Router/Ranking/Defs.antt =====
-- src/router/arbitrage_matrix.ts (`ArbitrageMatrix`) and src/router/sla_slasher.ts (`SlaSlasher`).
use blockrun_multiversx_plat.Base.{
  ℕ, ◌+◌, ◌*◌, ◌/◌, String, Bool, true, false, ◌&&◌, Option, none, some, List, [], ◌∷◌, ltb, leb,
  if◌then◌else◌, ◌===◌, ℕ_key, text_key, or_else,
}
use blockrun_multiversx_plat.Base.Dict.{Dict, get, set, delete, values}
use blockrun_multiversx_plat.Base.Thrown.{Thrown, ok, ◌>>=◌}
use blockrun_multiversx_plat.Base.Lists.{any, filter}
use blockrun_multiversx_plat.Base.Text.{◌<>◌, truthy, truthy_opt, show_ℕ, units_key}

-- Costs are numbers of one fraction of a dollar, so many to a dollar, and the latency is in milliseconds.
-- The name, the endpoint and the speed, which no decision reads, are left out.
pub record ProviderSpec : Type 0 where
  pub id : String
  pub input_cost : ℕ
  pub output_cost : ℕ
  pub avg_ttft_ms : ℕ
  pub healthy : Bool
  pub supported_models : List String

abbrev pub ArbitrageMatrix : Type 0
ArbitrageMatrix = Dict String ProviderSpec

pub data RoutingStrategy : Type 0 where
  cost_optimized : RoutingStrategy
  latency_optimized : RoutingStrategy
  balanced : RoutingStrategy

unfoldable pub register_provider : ProviderSpec → ArbitrageMatrix → ArbitrageMatrix
register_provider spec m = set spec.id spec m

-- `Math.round(avg * 0.7 + ttft * 0.3)`
abbrev pub moving_average : ℕ → Option ℕ → ℕ
moving_average avg none = avg
moving_average avg (some ttft) = (7 * avg + 3 * ttft + 5) / 10

abbrev pub with_health : Bool → Option ℕ → ProviderSpec → ProviderSpec
with_health healthy ttft p = record p {
  healthy = healthy;
  avg_ttft_ms = moving_average p.avg_ttft_ms ttft;
}

unfoldable pub update_health : String → Bool → Option ℕ → ArbitrageMatrix → ArbitrageMatrix
update_health id healthy ttft m = elim (get id m) [
  | none ↦ m
  | some p ↦ set id (with_health healthy ttft p) m
]

pub record SpotPricing : Type 0 where
  pub id : String
  pub input_cost : Option ℕ
  pub output_cost : Option ℕ

unfoldable pub update_spot_pricing : String → SpotPricing → ArbitrageMatrix → Bool × ArbitrageMatrix
update_spot_pricing id u m = elim (get id m) [
  | none ↦ (false, m)
  | some p ↦ (
    true,
    set id
        (record p {
          input_cost = or_else u.input_cost p.input_cost;
          output_cost = or_else u.output_cost p.output_cost;
        })
        m,
  )
]

-- How many updates were made, and the errors.
unfoldable pub ingest_spot_pricing_feed :
    List (Option SpotPricing) → ArbitrageMatrix → (ℕ × List String) × ArbitrageMatrix
ingest_spot_pricing_feed [] m = ((0, []), m)
ingest_spot_pricing_feed (none ∷ us) m =
    let ((n, errors), m') = ingest_spot_pricing_feed us m in
    ((n, "Missing provider id in pricing update entry" ∷ errors), m')
ingest_spot_pricing_feed (some u ∷ us) m =
    let (success, updated) = update_spot_pricing u.id u m in
    let identified = truthy u.id in
    let ((n, errors), m') = ingest_spot_pricing_feed us (if identified then updated else m) in
    if identified
    then (if success
        then ((n + 1, errors), m')
        else ((n, ("Provider not found: " <> u.id) ∷ errors), m'))
    else ((n, "Missing provider id in pricing update entry" ∷ errors), m')

-- What the comparison of a strategy subtracts, with `unit` costs to a dollar.
abbrev pub score : ℕ → RoutingStrategy → ProviderSpec → ℕ
score unit cost_optimized p = p.input_cost + p.output_cost
score unit latency_optimized p = p.avg_ttft_ms
score unit balanced p = (p.input_cost + p.output_cost) * 100 + p.avg_ttft_ms * unit

-- `Array.prototype.sort`, which is stable.
abbrev pub insert_by : (ProviderSpec → ℕ) → ProviderSpec → List ProviderSpec → List ProviderSpec
insert_by f p [] = p ∷ []
insert_by f p (q ∷ qs) =
    let rest = insert_by f p qs in if leb (f p) (f q) then p ∷ q ∷ qs else q ∷ rest

abbrev pub sort_by : (ProviderSpec → ℕ) → List ProviderSpec → List ProviderSpec
sort_by f [] = []
sort_by f (p ∷ ps) = insert_by f p (sort_by f ps)

abbrev pub is_candidate : String → ProviderSpec → Bool
is_candidate model p = p.healthy && any (λ x. x === model) p.supported_models

unfoldable pub get_ranked_providers :
    ℕ → String → RoutingStrategy → ArbitrageMatrix → List ProviderSpec
get_ranked_providers unit model strategy m =
    sort_by (score unit strategy) (filter (is_candidate model) (values m))

pub record SlaSlasher : Type 0 where
  pub matrix : ArbitrageMatrix
  pub max_allowed_ttft_ms : ℕ
  pub consecutive_failure_limit : ℕ
  pub provider_agent_nonce_map : Dict String ℕ
  pub failure_counts : Dict String ℕ

-- The response to the validation registry for a request, and the feedback of the reputation client, where
-- they are configured; either gives a transaction hash or throws.
pub record SlashPorts : Type 0 where
  pub validation_response : Option (String → Thrown String)
  pub give_feedback_simple : Option (String → ℕ → Thrown String)

module _ (ports : SlashPorts) where
  abbrev pub validated : String → Thrown (Option String)
  validated hash = elim ports.validation_response [
    | none ↦ ok none
    | some respond ↦ respond hash >>= λ tx. ok (some tx)
  ]

  abbrev pub rated : String → Option ℕ → Option String → Thrown (Option String)
  rated hash none result = ok result
  rated hash (some agent) result = elim ports.give_feedback_simple [
    | none ↦ ok result
    | some give ↦ give hash agent >>= λ tx. ok (if truthy_opt result then result else some tx)
  ]

  unfoldable pub execute_slash : ℕ → String → String → SlaSlasher → Thrown String
  execute_slash now provider hash s = do
    first ← validated hash
    result ← rated hash (get provider s.provider_agent_nonce_map) first
    ok (or_else result ("mock-slash-" <> show_ℕ now))

  -- The hash of the slash, if there is one.
  abbrev pub slashed : ℕ → String → String → SlaSlasher → Thrown (Option String)
  slashed now provider hash s = execute_slash now provider hash s >>= λ tx. ok (some tx)

  unfoldable pub report_ttft :
      ℕ → String → ℕ → String → SlaSlasher → Thrown (Option String) × SlaSlasher
  unfolding execute_slash
  report_ttft now provider ttft hash s =
      if ltb s.max_allowed_ttft_ms ttft
      then (
        slashed now provider hash s,
        record s { matrix = update_health provider false (some ttft) s.matrix },
      )
      else (
        ok none,
        record s {
          failure_counts = delete provider s.failure_counts;
          matrix = update_health provider true (some ttft) s.matrix;
        },
      )

  unfoldable pub report_failure :
      ℕ → String → String → SlaSlasher → Thrown (Option String) × SlaSlasher
  unfolding execute_slash
  report_failure now provider hash s =
      let current = or_else (get provider s.failure_counts) 0 + 1 in
      if leb s.consecutive_failure_limit current
      then (
        slashed now provider hash s,
        record s {
          matrix = update_health provider false none s.matrix;
          failure_counts = delete provider s.failure_counts;
        },
      )
      else (ok none, record s { failure_counts = set provider current s.failure_counts })
