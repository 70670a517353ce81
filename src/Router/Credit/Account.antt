-- ===== src/Router/Credit/Account.antt =====
-- src/router/two_phase_reconciler.ts: over any sequence of calls, the ledger is one account per client.
use blockrun_multiversx_plat.Base.{
  ℕ, ◌+◌, ◌-◌, ◌≤◌, String, ◌≡◌, refl, ap, ◌∙◌, subst, inl, inr, false, List, [], ◌∷◌, ◌++◌, arith,
  if◌then◌else◌, ◌===◌, ℕ_key, text_key, ===_refl, Bool-cases,
}
use blockrun_multiversx_plat.Base.Dict.{set, get-set, get-delete}
use blockrun_multiversx_plat.Base.Text.{units_key}
use blockrun_multiversx_plat.Router.Credit.Defs.{
  Ledger, get_credit, reconcile, apply_credit, clear_credit,
}

get_credit-set :
    (k c : String) (n : ℕ) (m : Ledger)
    → get_credit c (set k n m) ≡ (if k === c then n else get_credit c m)
unfolding get_credit
get_credit-set k c n m = ground (arith, get-set k c n m)

-- A client's credit is never used twice: what an application asks for is paid by what is left to pay and
-- by what the credit loses, to the unit.
pub apply_credit-balanced :
    (client : String) (required : ℕ) (m : Ledger)
    → let after = apply_credit client required m in
      (required + get_credit client after.1 ≡ get_credit client m + after.0) × (after.0 ≤ required)
unfolding apply_credit
apply_credit-balanced client required m = (
  ground (
    arith,
    get_credit-set client client (get_credit client m - required) m,
    get_credit-set client client 0 m,
    ===_refl client,
  ),
  ground arith,
)

reconcile-balanced :
    (client : String) (pre actual : ℕ) (m : Ledger)
    → let after = reconcile client pre actual m in
      get_credit client after.1 ≡ get_credit client m + after.0
unfolding reconcile
reconcile-balanced client pre actual m =
    ground (
      arith,
      get_credit-set client client (get_credit client m + (pre - actual)) m,
      ===_refl client,
    )

-- What a client has not spent of a payment, by the amounts alone.
reconcile-returns :
    (client : String) (pre actual : ℕ) (m : Ledger)
    → (reconcile client pre actual m).0 ≡ pre - actual
unfolding reconcile
reconcile-returns client pre actual m = ground arith

-- What is asked for is paid by the credit as far as it goes.
apply_credit-returns :
    (client : String) (required : ℕ) (m : Ledger)
    → (apply_credit client required m).0 ≡ required - get_credit client m
unfolding apply_credit
apply_credit-returns client required m = ground arith

clear_credit-zero : (client : String) (m : Ledger) → get_credit client (clear_credit client m) ≡ 0
unfolding clear_credit get_credit
clear_credit-zero client m = ground (arith, get-delete client client m, ===_refl client)

clear_credit-other :
    (c client : String) (m : Ledger)
    → (c === client) ≡ false
    → get_credit client (clear_credit c m) ≡ get_credit client m
unfolding clear_credit get_credit
clear_credit-other c client m h = ground (arith, h, get-delete c client m)

reconcile-other :
    (c client : String) (pre actual : ℕ) (m : Ledger)
    → (c === client) ≡ false
    → get_credit client (reconcile c pre actual m).1 ≡ get_credit client m
unfolding reconcile
reconcile-other c client pre actual m h =
    ground (arith, h, get_credit-set c client (get_credit c m + (pre - actual)) m)

apply_credit-other :
    (c client : String) (required : ℕ) (m : Ledger)
    → (c === client) ≡ false
    → get_credit client (apply_credit c required m).1 ≡ get_credit client m
unfolding apply_credit
apply_credit-other c client required m h =
    ground
      (arith, h, get_credit-set c client (get_credit c m - required) m, get_credit-set c client 0 m)

-- A call of a client, with its amounts.
pub data CreditCall : Type 0 where
  reconciles : String → ℕ → ℕ → CreditCall
  applies : String → ℕ → CreditCall
  clears : String → CreditCall

abbrev pub caller : CreditCall → String
caller (reconciles c pre actual) = c
caller (applies c required) = c
caller (clears c) = c

-- What a call returns, which is nothing for `clearCredit`, and the ledger.
abbrev pub perform_call : CreditCall → Ledger → List ℕ × Ledger
perform_call (reconciles c pre actual) m =
    ((reconcile c pre actual m).0 ∷ [], (reconcile c pre actual m).1)
perform_call (applies c required) m =
    ((apply_credit c required m).0 ∷ [], (apply_credit c required m).1)
perform_call (clears c) m = ([], clear_credit c m)

-- The account of one client, by itself: what a call leaves of its credit, and what it returns.
abbrev pub account_after : CreditCall → ℕ → ℕ
account_after (reconciles c pre actual) n = n + (pre - actual)
account_after (applies c required) n = n - required
account_after (clears c) n = 0

abbrev pub account_answer : CreditCall → ℕ → List ℕ
account_answer (reconciles c pre actual) n = (pre - actual) ∷ []
account_answer (applies c required) n = (required - n) ∷ []
account_answer (clears c) n = []

-- What the calls of a client return, one after the other, and the ledger after all calls.
abbrev pub run_calls : String → List CreditCall → Ledger → List ℕ × Ledger
run_calls client [] m = ([], m)
run_calls client (call ∷ calls) m =
    let (answer, m') = perform_call call m in
    let (answers, end) = run_calls client calls m' in
    (if caller call === client then answer ++ answers else answers, end)

-- The same of the account.
abbrev pub run_account : String → List CreditCall → ℕ → List ℕ × ℕ
run_account client [] n = ([], n)
run_account client (call ∷ calls) n =
    let mine = caller call === client in
    let (answers, end) = run_account client calls (if mine then account_after call n else n) in
    (if mine then account_answer call n ++ answers else answers, end)

perform_call-mine :
    (client : String) (call : CreditCall) (m : Ledger)
    → caller call ≡ client
    → (get_credit client (perform_call call m).1 ≡ account_after call (get_credit client m))
      × ((perform_call call m).0 ≡ account_answer call (get_credit client m))
perform_call-mine client (reconciles c pre actual) m e =
    let balance : get_credit c (reconcile c pre actual m).1 ≡ get_credit c m + (pre - actual) =
      reconcile-balanced c pre actual m
      ∙ ap (λ k. get_credit c m + k) (reconcile-returns c pre actual m) in
    (
      subst (λ x. get_credit x (reconcile c pre actual m).1 ≡ get_credit x m + (pre - actual)) e
          balance,
      ap (λ k. k ∷ []) (reconcile-returns c pre actual m),
    )
perform_call-mine client (applies c required) m e =
    let balance : get_credit c (apply_credit c required m).1 ≡ get_credit c m - required =
      omega (arith, (apply_credit-balanced c required m).0, apply_credit-returns c required m) in
    (
      subst (λ x. get_credit x (apply_credit c required m).1 ≡ get_credit x m - required) e balance,
      ap (λ k. k ∷ []) (apply_credit-returns c required m)
          ∙ ap (λ x. (required - get_credit x m) ∷ []) e,
    )
perform_call-mine client (clears c) m e =
    (subst (λ x. get_credit x (clear_credit c m) ≡ 0) e (clear_credit-zero c m), refl)

perform_call-other :
    (client : String) (call : CreditCall) (m : Ledger)
    → (caller call === client) ≡ false
    → get_credit client (perform_call call m).1 ≡ get_credit client m
perform_call-other client (reconciles c pre actual) m h = reconcile-other c client pre actual m h
perform_call-other client (applies c required) m h = apply_credit-other c client required m h
perform_call-other client (clears c) m h = clear_credit-other c client m h

-- Over any calls of any clients, a client has what an account of its own would have, and its calls
-- return what that account returns: a reconciliation returns and adds what was authorised beyond
-- what was used, an application takes what is required as far as the credit goes and returns the
-- rest, and a clearing leaves nothing. What other clients do makes no difference.
pub run_calls-run_account :
    (client : String) (calls : List CreditCall) (m : Ledger)
    → ((run_calls client calls m).0 ≡ (run_account client calls (get_credit client m)).0)
      × (get_credit client (run_calls client calls m).1
          ≡ (run_account client calls (get_credit client m)).1)
run_calls-run_account client [] m = (refl, refl)
run_calls-run_account client (call ∷ calls) m =
    let rest = run_calls-run_account client calls (perform_call call m).1 in
    elim (Bool-cases (caller call === client)) [
      | inl mine ↦
          let (balance, answer) =
            perform_call-mine client call m ((text_key.same_iff (caller call) client).0 mine) in
          (
            ground (arith, mine, rest.0 ∙ ap (λ n. (run_account client calls n).0) balance, answer),
            ground (arith, mine, rest.1 ∙ ap (λ n. (run_account client calls n).1) balance),
          )
      | inr other ↦
          let kept = perform_call-other client call m other in
          (
            ground (arith, other, rest.0 ∙ ap (λ n. (run_account client calls n).0) kept),
            ground (arith, other, rest.1 ∙ ap (λ n. (run_account client calls n).1) kept),
          )
    ]
