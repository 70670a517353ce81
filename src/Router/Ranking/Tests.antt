-- ===== src/Router/Ranking/Tests.antt =====
-- Rankings and slashes of two providers.
use blockrun_multiversx_plat.Base.{
  ◌≡◌, refl, ◌↔◌, Bool, true, ◌&&◌, none, some, [], ◌∷◌, ℕ_key, text_key,
}
use blockrun_multiversx_plat.Base.Dict.{get, set, delete, values}
use blockrun_multiversx_plat.Base.Thrown.{ok}
use blockrun_multiversx_plat.Base.Lists.{Member}
use blockrun_multiversx_plat.Base.Text.{◌<>◌, units_key}
use blockrun_multiversx_plat.Router.Ranking.Defs.{
  ProviderSpec, ArbitrageMatrix, cost_optimized, balanced, register_provider, update_health,
  update_spot_pricing, ingest_spot_pricing_feed, is_candidate, get_ranked_providers, SlaSlasher,
  SlashPorts, execute_slash, report_ttft, report_failure,
}
use blockrun_multiversx_plat.Router.Ranking.Sorted.{count_of}
use blockrun_multiversx_plat.Router.Ranking.Ranked.{Serves, IsRanked, get_ranked_providers-IsRanked}
use blockrun_multiversx_plat.Router.Ranking.Slashed.{
  failure, report_sla, IsSlashing, report_sla-IsOut,
}

abbrev cheap : ProviderSpec
cheap = record {
  id = "cheap";
  input_cost = 1;
  output_cost = 2;
  avg_ttft_ms = 900;
  healthy = true;
  supported_models = "llama" ∷ [];
}

abbrev fast : ProviderSpec
fast = record {
  id = "fast";
  input_cost = 5;
  output_cost = 5;
  avg_ttft_ms = 100;
  healthy = true;
  supported_models = "llama" ∷ "qwen" ∷ [];
}

abbrev two_providers : ArbitrageMatrix
two_providers = ("fast", fast) ∷ ("cheap", cheap) ∷ []

abbrev watch : SlaSlasher
watch = record {
  matrix = two_providers;
  max_allowed_ttft_ms = 1500;
  consecutive_failure_limit = 2;
  provider_agent_nonce_map = ("fast", 9) ∷ [];
  failure_counts = ("fast", 1) ∷ [];
}

abbrev feedback_only : SlashPorts
feedback_only = record {
  validation_response = none;
  give_feedback_simple = some (λ hash agent. ok ("tx-" <> hash));
}

run_ranking : Unit {0}
unfolding get_ranked_providers update_health report_ttft report_failure execute_slash
    update_spot_pricing ingest_spot_pricing_feed register_provider get set delete
run_ranking = tt

registered : register_provider cheap (register_provider fast []) ≡ two_providers
unfolding run_ranking
registered = refl

cheapest_first : get_ranked_providers 100 "llama" cost_optimized two_providers ≡ cheap ∷ fast ∷ []
unfolding run_ranking
cheapest_first = refl

fastest_first : get_ranked_providers 100 "llama" balanced two_providers ≡ fast ∷ cheap ∷ []
unfolding run_ranking
fastest_first = refl

feed :
    (ingest_spot_pricing_feed
      (some (record { id = "fast"; input_cost = some 0; output_cost = some 1 })
        ∷ none
        ∷ some (record { id = "slow"; input_cost = none; output_cost = none })
        ∷ [])
      two_providers).0
    ≡ (1, "Missing provider id in pricing update entry" ∷ "Provider not found: slow" ∷ [])
unfolding run_ranking
feed = refl

slash_hash : (report_failure feedback_only 1 "fast" "r" watch).0 ≡ ok (some "tx-r")
unfolding run_ranking
slash_hash = refl

get_ranked_providers-IsRanked_example :
    IsRanked 100 balanced (get_ranked_providers 100 "llama" balanced two_providers)
    × ((p : ProviderSpec)
        → Member p (get_ranked_providers 100 "llama" balanced two_providers)
          ↔ (Member p (values two_providers) × Serves "llama" p))
    × ((test : ProviderSpec → Bool)
        → count_of test (get_ranked_providers 100 "llama" balanced two_providers)
          ≡ count_of (λ p. is_candidate "llama" p && test p) (values two_providers))
get_ranked_providers-IsRanked_example =
    get_ranked_providers-IsRanked 100 "llama" balanced two_providers

report_sla-IsOut_example :
    IsSlashing feedback_only 1 "fast" "r" watch true
      (report_sla feedback_only 1 "fast" failure "r" watch)
unfolding get
report_sla-IsOut_example =
    report_sla-IsOut feedback_only 1 "fast" "r" failure watch (refl, refl, (refl, refl, tt))
