-- ===== src/Router/Credit/Tests.antt =====
-- Runs of the credit ledger, and its theorems at concrete inputs.
use blockrun_multiversx_plat.Base.{◌≡◌, refl, List, [], ◌∷◌, ℕ_key, text_key}
use blockrun_multiversx_plat.Base.Dict.{get, set, delete}
use blockrun_multiversx_plat.Base.Text.{units_key}
use blockrun_multiversx_plat.Router.Credit.Defs.{get_credit, reconcile, apply_credit, clear_credit}
use blockrun_multiversx_plat.Router.Credit.Account.{
  CreditCall, reconciles, applies, clears, run_calls, run_account, run_calls-run_account,
}

abbrev five_calls : List CreditCall
five_calls =
    reconciles "a" 100 70 ∷ applies "b" 5 ∷ applies "a" 20 ∷ clears "b" ∷ applies "a" 25 ∷ []

run_credit : Unit {0}
unfolding reconcile apply_credit clear_credit get_credit get set delete
run_credit = tt

none_left : get_credit "a" (run_calls "a" five_calls []).1 ≡ 0
unfolding run_credit
none_left = refl

answers_of_a : (run_calls "a" five_calls []).0 ≡ 30 ∷ 0 ∷ 15 ∷ []
unfolding run_credit
answers_of_a = refl

run_calls-run_account_example :
    ((run_calls "a" five_calls []).0 ≡ (run_account "a" five_calls (get_credit "a" [])).0)
    × (get_credit "a" (run_calls "a" five_calls []).1
        ≡ (run_account "a" five_calls (get_credit "a" [])).1)
run_calls-run_account_example = run_calls-run_account "a" five_calls []
