-- ===== src/Router/Credit/Defs.antt =====
-- src/router/two_phase_reconciler.ts, with no database behind it: the ledger in memory, in micro USDC.
use blockrun_multiversx_plat.Base.{
  ℕ, ◌+◌, ◌-◌, String, ltb, leb, same_ℕ, if◌then◌else◌, ℕ_key, text_key, or_else,
}
use blockrun_multiversx_plat.Base.Dict.{Dict, get, set, delete}
use blockrun_multiversx_plat.Base.Text.{units_key}

abbrev pub Ledger : Type 0
Ledger = Dict String ℕ

unfoldable pub get_credit : String → Ledger → ℕ
get_credit client m = or_else (get client m) 0

-- Subtraction on ℕ is `Math.max(0, …)`; the unspent part is what the call returns.
unfoldable pub reconcile : String → ℕ → ℕ → Ledger → ℕ × Ledger
unfolding get_credit
reconcile client pre_authorized actual m =
    let unspent = pre_authorized - actual in
    if ltb 0 unspent then (unspent, set client (get_credit client m + unspent) m) else (unspent, m)

-- What is still to be paid, and the ledger.
unfoldable pub apply_credit : String → ℕ → Ledger → ℕ × Ledger
unfolding get_credit
apply_credit client required m =
    let available = get_credit client m in
    if same_ℕ available 0
    then (required, m)
    else (if leb required available
        then (0, set client (available - required) m)
        else (required - available, set client 0 m))

unfoldable pub clear_credit : String → Ledger → Ledger
clear_credit client m = delete client m
