-- ===== src/Services/Settler/Settle.antt =====
-- src/services/settler.ts: `settle` as a whole, over the steps that build, simulate and broadcast.
use blockrun_multiversx_plat.Base.{
  ℕ, String, ◌⊎◌, inl, inr, Option, none, some, ◌∷◌, if◌then◌else◌, ℕ_key, text_key, or_else,
}
use blockrun_multiversx_plat.Base.Thrown.{Thrown, ok, err}
use blockrun_multiversx_plat.Base.Text.{units_key}
use blockrun_multiversx_plat.Domain.{
  payment_invalid, Request, transaction_of, VerifyResponse, SettleResponse,
}
use blockrun_multiversx_plat.Services.Chain.{Tx}
use blockrun_multiversx_plat.Storage.Defs.{
  pending, completed, failed, SettlementRecord, save, get_by_signature_hash, update_status,
}
use blockrun_multiversx_plat.Services.Settler.Defs.{
  State, Config, Failure, succeeded, failing, already_settled, fresh_record, failed_with, construct,
  simulated, broadcast,
}

abbrev pub Answer : Type 0 → Type 0 → Type 0 → Type 0
Answer Addr Bytes Signer = Thrown SettleResponse × State Addr Bytes Signer

module _ {Addr Bytes Signer : Type 0} (c : Config Addr Bytes Signer) where
  -- The record is marked as failed, and the answer says so.
  unfoldable pub settle_failed :
      ℕ → String → Request → Failure → State Addr Bytes Signer → Answer Addr Bytes Signer
  settle_failed now i q f st = (
    ok (failing f q.requirements.network (transaction_of q.payload).sender),
    record st {
      storage =
          update_status now i failed
            (record { tx_hash = none; error_reason = f.reason; error_code = some f.code })
            st.storage;
    },
  )

  unfoldable pub settle_completed :
      ℕ → String → Request → String → State Addr Bytes Signer → Answer Addr Bytes Signer
  settle_completed now i q h st = (
    ok (succeeded h q.requirements.network (transaction_of q.payload).sender),
    record st {
      storage =
          update_status now i completed
            (record { tx_hash = some h; error_reason = none; error_code = none }) st.storage;
    },
  )

  -- Steps 9 and 10, once the network has answered.
  unfoldable pub settle_sent :
      ℕ → String → Request → Failure ⊎ String → State Addr Bytes Signer → Answer Addr Bytes Signer
  settle_sent now i q (inl f) st = settle_failed now i q f st
  settle_sent now i q (inr h) st = settle_completed now i q h st

  -- Step 8 for a transaction, and the broadcast.
  unfoldable pub settle_checked :
      ℕ
      → String
      → Request
      → Tx Addr Bytes
      → Option Failure
      → State Addr Bytes Signer
      → Answer Addr Bytes Signer
  settle_checked now i q t (some f) st = settle_failed now i q f st
  settle_checked now i q t none st =
      settle_sent now i q (broadcast c t) (record st { sent = t ∷ st.sent })

  -- Steps 7 to 10, for a transaction that was built or not.
  unfoldable pub settle_built :
      ℕ
      → String
      → Request
      → Thrown (Tx Addr Bytes)
      → State Addr Bytes Signer
      → Answer Addr Bytes Signer
  settle_built now i q (err m) st =
      settle_failed now i q (failed_with "Transaction construction failed: " m) st
  settle_built now i q (ok t) st = settle_checked now i q t (simulated c t) st

  -- Step 5, and the rest for a payment that the verifier accepts.
  unfoldable pub settle_accepted :
      ℕ
      → String
      → String
      → Option SettlementRecord
      → Request
      → State Addr Bytes Signer
      → Answer Addr Bytes Signer
  settle_accepted now uuid hash existing q st =
      let r = fresh_record now uuid hash existing q pending none in
      let (built, pool) = construct c st.pool (transaction_of q.payload) in
      settle_built now r.id q built (record st { storage = save r st.storage; pool = pool })

  -- A payment that the verifier refuses is recorded as failed.
  unfoldable pub settle_refused :
      ℕ
      → String
      → String
      → Option SettlementRecord
      → Request
      → VerifyResponse
      → State Addr Bytes Signer
      → Answer Addr Bytes Signer
  settle_refused now uuid hash existing q v st =
      let f : Failure = record {
        reason = v.invalid_reason;
        code = or_else v.error_code payment_invalid;
      } in
      (
        ok (failing f q.requirements.network (or_else v.payer (transaction_of q.payload).sender)),
        record st {
          storage = save (fresh_record now uuid hash existing q failed (some f)) st.storage;
        },
      )

  -- Step 4. What the verifier throws, `settle` throws.
  unfoldable pub settle_verified :
      ℕ
      → String
      → String
      → Option SettlementRecord
      → Request
      → Thrown VerifyResponse
      → State Addr Bytes Signer
      → Answer Addr Bytes Signer
  settle_verified now uuid hash existing q (err m) st = (err m, st)
  settle_verified now uuid hash existing q (ok v) st =
      if v.is_valid
      then settle_accepted now uuid hash existing q st
      else settle_refused now uuid hash existing q v st

  -- Step 3: a settlement that is already completed is answered from its record.
  unfoldable pub settle_new :
      ℕ
      → String
      → String
      → Option SettlementRecord
      → Request
      → State Addr Bytes Signer
      → Option (String × String)
      → Answer Addr Bytes Signer
  settle_new now uuid hash existing q st (some (tx_hash, payer)) =
      (ok (succeeded tx_hash q.requirements.network payer), st)
  settle_new now uuid hash existing q st none =
      let (verdict, pool) = c.verifier now st.pool q in
      settle_verified now uuid hash existing q verdict (record st { pool = pool })

  -- `settle` at a time, with a random id for a record that is new.
  unfoldable pub settle : ℕ → String → Request → State Addr Bytes Signer → Answer Addr Bytes Signer
  settle now uuid q st =
      let hash = c.compute_signature_hash (transaction_of q.payload).signature in
      let existing = get_by_signature_hash hash st.storage in
      settle_new now uuid hash existing q st (already_settled existing)

  unfoldable pub get_settlement : String → State Addr Bytes Signer → Option SettlementRecord
  get_settlement hash st = get_by_signature_hash hash st.storage
