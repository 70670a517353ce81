-- ===== src/Services/Verifier/Defs.antt =====
-- src/services/verifier.ts: `VerifierService.verify`, check by check. A check throws, rejects with a
-- code and a reason, or passes.
use blockrun_multiversx_plat.Base.{
  ℕ, String, Bool, false, not, ◌&&◌, ◌||◌, Option, none, some, List, [], ◌∷◌, ◌++◌, map, ltb, leb,
  if◌then◌else◌, ◌===◌, ℕ_key, text_key, or_else,
}
use blockrun_multiversx_plat.Base.Thrown.{Thrown, ok, err, ◌>>=◌}
use blockrun_multiversx_plat.Base.Lists.{find}
use blockrun_multiversx_plat.Base.Text.{units, ◌<>◌, truthy_opt, show_ℕ, same_units, units_key}
use blockrun_multiversx_plat.Base.Int.{ltb_ℤ, big_int}
use blockrun_multiversx_plat.Domain.{
  PaymentErrorCode, payment_unfunded, payment_invalid, payment_expired, payment_blockhash_stale,
  TxPayload, Requirements, Request, transaction_of,
}
use blockrun_multiversx_plat.Parsing.Defs.{
  ParsedTransfer, ParserInput, Decoders, extract_chain_id, parse_transaction_transfers,
}
use blockrun_multiversx_plat.Services.Chain.{Simulation, is_success, failure_reason, mentions}

abbrev pub max_allowed_gas_price : ℕ
max_allowed_gas_price = 2000000000

abbrev pub max_allowed_relayer_gas_limit : ℕ
max_allowed_relayer_gas_limit = 1000000

pub record Rejection : Type 0 where
  pub code : PaymentErrorCode
  pub reason : List ℕ

abbrev pub Check : Type 0
Check = Thrown (Option Rejection)

abbrev pub pass : Check
pass = ok none

abbrev pub reject : PaymentErrorCode → List ℕ → Check
reject c r = ok (some (record { code = c; reason = r }))

-- The next check, if this one passes.
infixr 20 ◌andalso◌
abbrev pub ◌andalso◌ : Check → Check → Check
err e andalso next = err e
ok (some r) andalso next = ok (some r)
ok none andalso next = next

-- `try { … } catch (err) { return … }` around a call.
abbrev pub catching {ℓ} : {A : Type ℓ} → Thrown A → String → (A → Check) → Check
catching (ok a) prefix next = next a
catching (err m) prefix next = reject payment_invalid (units (prefix <> m))

-- Check 2. BigInt is called only where the first three fields agree.
unfoldable pub check_accepted : Request → Check
check_accepted q =
    let a = q.accepted in
    let r = q.requirements in
    let mismatch =
      reject payment_invalid
        (units "Accepted requirements do not match requested payment requirements") in
    if not (a.scheme === r.scheme) || not (a.network === r.network) || not (a.asset === r.asset)
    then mismatch
    else do
      offered ← big_int a.amount
      required ← big_int r.amount
      if ltb_ℤ offered required || not (a.pay_to === r.pay_to) then mismatch else pass

-- Check 3.
unfoldable pub check_chain : Request → Check
check_chain q =
    let tx = transaction_of q.payload in
    let expected = extract_chain_id (units q.requirements.network) in
    if not (same_units expected []) && not (same_units (units tx.chain_id) expected)
    then reject payment_invalid
        (units "Network mismatch: expected chainID " ++ expected ++ units (", got " <> tx.chain_id))
    else pass

-- Check 3b. The numbers are integers by their schema, so that BigInt does not throw, and the answer to
-- texts that are no integers ("Invalid integer format") is left out.
unfoldable pub check_gas : TxPayload → Check
check_gas tx =
    if ltb max_allowed_gas_price tx.gas_price
    then reject payment_invalid
        (units ("gasPrice " <> show_ℕ tx.gas_price <> " exceeds maximum allowed (2000000000)"))
    else (if truthy_opt tx.relayer && ltb max_allowed_relayer_gas_limit tx.gas_limit
        then reject payment_invalid (
            units (
              "gasLimit "
              <> show_ℕ tx.gas_limit
              <> " exceeds maximum allowed relayer gas limit (1000000)"))
        else pass)

abbrev pub expired_at : ℕ → Option ℕ → Bool
expired_at now none = false
expired_at now (some valid_before) = leb valid_before now

abbrev pub early_at : ℕ → Option ℕ → Bool
early_at now none = false
early_at now (some valid_after) = ltb now valid_after

-- Check 4, at a time in seconds.
unfoldable pub check_window : ℕ → TxPayload → Check
check_window now tx =
    if expired_at now tx.valid_before
    then reject payment_expired (
        units (
          "Transaction has expired: validBefore "
          <> show_ℕ (or_else tx.valid_before 0)
          <> " is in the past"))
    else (if early_at now tx.valid_after
        then reject payment_invalid (
            units (
              "Transaction is not yet valid: validAfter "
              <> show_ℕ (or_else tx.valid_after 0)
              <> " is in the future"))
        else pass)

abbrev pub parser_input : TxPayload → ParserInput
parser_input tx = record {
  value = units tx.value;
  receiver = units tx.receiver;
  sender = units tx.sender;
  tx_data = elim tx.payload_data [ none ↦ none | some s ↦ some (units s) ];
}

-- `names.join(", ")`
abbrev pub join_names : List (List ℕ) → List ℕ
join_names [] = []
join_names (n ∷ []) = n
join_names (n ∷ m ∷ ns) = n ++ units ", " ++ join_names (m ∷ ns)

-- The receiver and the amount of the transfer that matches the asset.
unfoldable pub check_match : Requirements → ParsedTransfer → Check
check_match r t =
    if not (same_units t.receiver (units r.pay_to))
    then reject payment_invalid
        (units ("Receiver mismatch: expected " <> r.pay_to <> ", got ") ++ t.receiver)
    else do
      required ← big_int r.amount
      if ltb_ℤ t.amount required
          then reject payment_unfunded (
              units ("Insufficient payment amount: expected " <> r.amount <> ", got ")
              ++ t.amount_text)
          else pass

-- The first transfer of the asset, among those that the parser found.
unfoldable pub check_listed : Requirements → List ParsedTransfer → Check
check_listed r [] =
    reject payment_invalid (units "No valid pure transfer details found in transaction payload")
check_listed r (t ∷ ts) =
    elim (find (λ (x : ParsedTransfer). same_units x.asset (units r.asset)) (t ∷ ts)) [
      | none ↦ reject payment_invalid (
          units ("Asset mismatch: expected " <> r.asset <> ", but transaction transferred [")
          ++ join_names (map (λ (x : ParsedTransfer). x.asset) (t ∷ ts))
          ++ units "]")
      | some m ↦ check_match r m
    ]

-- Check 5. The parser catches whatever it throws, so that it always answers.
unfoldable pub check_transfers : Decoders → Request → Check
check_transfers d q =
    check_listed q.requirements
      (parse_transaction_transfers d (parser_input (transaction_of q.payload)))

abbrev pub rejection_code : List ℕ → PaymentErrorCode
rejection_code reason =
    if mentions reason "funds"
      || mentions reason "balance"
      || mentions reason "unfunded"
      || mentions reason "insufficient"
    then payment_unfunded
    else (if mentions reason "nonce"
          || mentions reason "epoch"
          || mentions reason "blockhash"
          || mentions reason "expired"
          || mentions reason "stale"
        then payment_blockhash_stale
        else payment_invalid)

-- Check 8, for the answer of a network provider.
unfoldable pub check_simulation : Thrown Simulation → Check
check_simulation answer = catching answer "Network simulation error: " λ r.
    if is_success r then pass else reject (rejection_code (failure_reason r)) (failure_reason r)
