-- ===== src/Gateway/Breaker/Tests.antt =====
-- Runs of the circuit breaker, and its theorems at concrete inputs.
use blockrun_multiversx_plat.Base.{
  ◌≡◌, refl, true, false, none, List, [], ◌∷◌, arith, ℕ_key, text_key,
}
use blockrun_multiversx_plat.Base.Dict.{get, set}
use blockrun_multiversx_plat.Gateway.Breaker.Defs.{
  closed, open_, ToolState, Breaker, entry, record_failure, throws, new_breaker,
}
use blockrun_multiversx_plat.Gateway.Breaker.Machine.{
  Event, admits, ends, clears, run, AllSound, run-new_breaker-AllSound, fail_times,
  fail_times-trips,
}

abbrev breaker : Breaker
breaker = record { failure_threshold = 2; cooldown_ms = 100; timeout_ms = 50; tools = [] }

abbrev tripped_tool : ToolState
tripped_tool = record {
  state = open_;
  consecutive_failures = 2;
  last_failure_time = 7;
  next_attempt_time = 107;
}

abbrev tripped : Breaker
tripped = record breaker { tools = ("search", tripped_tool) ∷ [] }

two_failures : fail_times breaker "search" (5 ∷ 7 ∷ []) ≡ tripped
unfolding fail_times record_failure get set
two_failures = refl

abbrev history : List Event
history = admits "search" 1 ∷ ends "search" 2 (throws false true "slow") ∷ clears none ∷ []

run-new_breaker-AllSound_example : AllSound (run (new_breaker none none none) history)
unfolding new_breaker
run-new_breaker-AllSound_example = run-new_breaker-AllSound none none none history (omega arith)

fail_times-trips_example :
    ((entry (fail_times breaker "search" (5 ∷ [])) "search").state ≡ closed)
    × ((entry (fail_times breaker "search" (5 ∷ 7 ∷ [])) "search").state ≡ open_)
    × ((entry (fail_times breaker "search" (5 ∷ 7 ∷ [])) "search").next_attempt_time ≡ 107)
unfolding get
fail_times-trips_example = fail_times-trips breaker "search" (5 ∷ []) 7 refl (omega arith)
