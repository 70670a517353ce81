-- ===== src/Services/Settler/Defs.antt =====
-- src/services/settler.ts: `SettlerService.settle`. The state is the storage, the relayer pool, and the
-- transactions handed to the network so far, the last one first. One time is read in a call.
use blockrun_multiversx_plat.Base.{
  ℕ, String, ◌⊎◌, inl, inr, Bool, true, false, ◌&&◌, ◌||◌, Option, none, some, List, same_ℕ,
  if◌then◌else◌, ℕ_key, text_key, or_else, is_some,
}
use blockrun_multiversx_plat.Base.Thrown.{Thrown, ok, err, ◌>>=◌}
use blockrun_multiversx_plat.Base.Text.{units, ◌<>◌, truthy_opt, units_key}
use blockrun_multiversx_plat.Domain.{
  PaymentErrorCode, payment_unfunded, payment_invalid, TxPayload, Request, transaction_of,
  VerifyResponse, SettleResponse,
}
use blockrun_multiversx_plat.Relayers.Pool.Defs.{
  Pool, get_relayer_for_address, get_relayer_address_for_user, get_relayer_by_address,
}
use blockrun_multiversx_plat.Services.Chain.{
  Tx, Simulation, Sdk, is_success, failure_reason, mentions,
}
use blockrun_multiversx_plat.Services.Verifier.Verify.{parse_addresses, build_transaction}
use blockrun_multiversx_plat.Storage.Defs.{
  SettlementStatus, completed, SettlementRecord, Storage, same_status,
}

pub record State (Addr Bytes Signer : Type 0) : Type 0 where
  pub storage : Storage
  pub pool : Option (Pool Signer)
  pub sent : List (Tx Addr Bytes)

-- `SettlerConfig`, with SHA-256 in hexadecimal, and the answers of the network to a simulation and a
-- broadcast. A verifier may turn the pool.
pub record Config (Addr Bytes Signer : Type 0) : Type 0 where
  pub sdk : Sdk Addr Bytes Signer
  pub compute_signature_hash : String → String
  pub verifier : ℕ → Option (Pool Signer) → Request → Thrown VerifyResponse × Option (Pool Signer)
  pub simulate_before_broadcast : Bool
  pub simulate_transaction : Tx Addr Bytes → Thrown Simulation
  pub send_transaction : Tx Addr Bytes → Thrown String

-- What a failure is recorded and answered with.
pub record Failure : Type 0 where
  pub reason : Option (List ℕ)
  pub code : PaymentErrorCode

abbrev pub succeeded : String → String → String → SettleResponse
succeeded tx_hash network payer = record {
  success = true;
  error_reason = none;
  error_code = none;
  payer = some payer;
  transaction = some tx_hash;
  network = some network;
}

abbrev pub failing : Failure → String → String → SettleResponse
failing f network payer = record {
  success = false;
  error_reason = f.reason;
  error_code = some f.code;
  payer = some payer;
  transaction = none;
  network = some network;
}

-- The transaction hash and the payer of a settlement that is completed and has one.
unfoldable pub already_settled : Option SettlementRecord → Option (String × String)
already_settled none = none
already_settled (some r) =
    if same_status r.status completed && truthy_opt r.tx_hash
    then some (or_else r.tx_hash "", r.payer)
    else none

-- The record that a settlement starts with, under the id of the one before, if there is one.
unfoldable pub fresh_record :
    ℕ
    → String
    → String
    → Option SettlementRecord
    → Request
    → SettlementStatus
    → Option Failure
    → SettlementRecord
fresh_record now uuid hash existing q status failure =
    let tx = transaction_of q.payload in
    record {
      id = elim existing [ none ↦ uuid | some r ↦ r.id ];
      signature_hash = hash;
      payer = tx.sender;
      receiver = q.requirements.pay_to;
      asset = q.requirements.asset;
      amount = q.requirements.amount;
      status = status;
      tx_hash = none;
      error_reason = elim failure [ none ↦ none | some f ↦ f.reason ];
      error_code = elim failure [ none ↦ none | some f ↦ some f.code ];
      created_at = elim existing [ none ↦ now | some r ↦ r.created_at ];
      updated_at = now;
      valid_before = tx.valid_before;
    }

-- The error codes for a failed simulation and for a failed broadcast.
abbrev pub simulation_code : List ℕ → PaymentErrorCode
simulation_code r =
    if mentions r "funds"
      || mentions r "balance"
      || mentions r "unfunded"
      || mentions r "insufficient"
    then payment_unfunded
    else payment_invalid

abbrev pub broadcast_code : List ℕ → PaymentErrorCode
broadcast_code r =
    if mentions r "funds" || mentions r "balance" || mentions r "insufficient"
    then payment_unfunded
    else payment_invalid

abbrev pub failed_with : String → String → Failure
failed_with prefix m = record { reason = some (units (prefix <> m)); code = payment_invalid }

module _ {Addr Bytes Signer : Type 0} (c : Config Addr Bytes Signer) where
  -- The relayer named, or the next of the sender's shard for a payload that may be relayed.
  unfoldable pub choose_relayer :
      Option (Pool Signer) → TxPayload → Option Addr → Thrown (Option Addr) × Option (Pool Signer)
  choose_relayer pool tx (some a) = (ok (some a), pool)
  choose_relayer none tx none = (ok none, none)
  choose_relayer (some p) tx none =
      let (named, p') = get_relayer_address_for_user c.sdk.signers p tx.sender in
      let address = do text ← named; a ← c.sdk.new_from_bech32 text; ok (some a)
      in if same_ℕ tx.version 2 || is_some tx.relayer then (address, some p') else (ok none, some p)

  -- Step 7: the relayer with that address signs, or the next of the sender's shard.
  unfoldable pub sign_as_relayer :
      Option (Pool Signer)
      → TxPayload
      → Tx Addr Bytes
      → Thrown (Tx Addr Bytes) × Option (Pool Signer)
  sign_as_relayer none tx t = (ok t, none)
  sign_as_relayer (some p) tx t = elim t.relayer [
    | none ↦ (ok t, some p)
    | some a ↦
        let (picked, p') : Thrown Signer × Pool Signer =
          elim (get_relayer_by_address c.sdk.signers p (c.sdk.bech32_of a)) [
            | some s ↦ (ok s, p)
            | none ↦ get_relayer_for_address c.sdk.signers p tx.sender
          ] in
        let signed = do
          signer ← picked
          signature ← c.sdk.sign signer t
          ok (record t { relayer_signature = some signature })
        in if truthy_opt tx.relayer_signature then (ok t, some p) else (signed, some p')
  ]

  sign_built :
      Option (Pool Signer)
      → TxPayload
      → Thrown (Tx Addr Bytes)
      → Thrown (Tx Addr Bytes) × Option (Pool Signer)
  sign_built pool tx (err e) = (err e, pool)
  sign_built pool tx (ok t) = sign_as_relayer pool tx t

  -- Steps 6 and 7.
  unfoldable pub construct :
      Option (Pool Signer) → TxPayload → Thrown (Tx Addr Bytes) × Option (Pool Signer)
  unfolding sign_built choose_relayer
  construct pool tx = elim (parse_addresses c.sdk tx) [
    | err e ↦ (err e, pool)
    | ok a ↦
        let (relayer, pool') = choose_relayer pool tx a.relayer_addr in
        let built = do r ← relayer; build_transaction c.sdk tx (record a { relayer_addr = r })
        in sign_built pool' tx built
  ]

  -- Step 8: what stops the broadcast, if the settler simulates first.
  unfoldable pub simulated : Tx Addr Bytes → Option Failure
  simulated t =
      let verdict : Option Failure = elim (c.simulate_transaction t) [
        | err m ↦ some (failed_with "Simulation error: " m)
        | ok s ↦
            if is_success s
            then none
            else some (record {
              reason = some (failure_reason s);
              code = simulation_code (failure_reason s);
            })
      ] in
      if c.simulate_before_broadcast then verdict else none

  -- Step 9.
  unfoldable pub broadcast : Tx Addr Bytes → Failure ⊎ String
  broadcast t = elim (c.send_transaction t) [
    | ok h ↦ inr h
    | err m ↦ inl (record {
      reason = some (units ("Broadcast failed: " <> m));
      code = broadcast_code (units m);
    })
  ]
