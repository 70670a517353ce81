-- ===== src/Services/Settler/Once.antt =====
-- src/services/settler.ts: a payment is broadcast once, and only after it was verified.
use blockrun_multiversx_plat.Base.{
  ℕ, String, ◌≡◌, refl, sym, ap, ◌∙◌, inl, inr, true, false, some, arith, ℕ_key, text_key,
}
use blockrun_multiversx_plat.Base.Thrown.{ok}
use blockrun_multiversx_plat.Base.Text.{truthy, units_key}
use blockrun_multiversx_plat.Domain.{Request, transaction_of, SettleResponse}
use blockrun_multiversx_plat.Storage.Defs.{completed, SettlementRecord, get_by_signature_hash}
use blockrun_multiversx_plat.Storage.Index.{IsIndexed}
use blockrun_multiversx_plat.Services.Settler.Defs.{State, Config, succeeded, already_settled}
use blockrun_multiversx_plat.Services.Settler.Settle.{settle_new, settle}
use blockrun_multiversx_plat.Services.Settler.Recorded.{IsFresh, settle-Recorded}
use blockrun_multiversx_plat.Services.Settler.Consistent.{settle-IsIndexed}
use blockrun_multiversx_plat.Services.Settler.Kept.{IsKept, settle-IsKept}

completed-already_settled :
    (r : SettlementRecord) (h : String)
    → r.status ≡ completed
    → r.tx_hash ≡ some h
    → truthy h ≡ true
    → already_settled (some r) ≡ some (h, r.payer)
unfolding already_settled
completed-already_settled r h e f t = ground (arith, e, f, t)

settle_again :
    {Addr Bytes Signer : Type 0} (c : Config Addr Bytes Signer) (now : ℕ) (uuid : String)
    (q : Request) (st : State Addr Bytes Signer) (r : SettlementRecord) (h : String)
    → get_by_signature_hash
        (c.compute_signature_hash (transaction_of q.payload).signature)
        st.storage
      ≡ some r
    → already_settled (some r) ≡ some (h, r.payer)
    → settle c now uuid q st ≡ (ok (succeeded h q.requirements.network r.payer), st)
unfolding settle settle_new
settle_again c now uuid q st r h there e = rw (there, settle) (rw (e, settle_new) refl)

-- Calls of `settle` one after the other, at any times and for any payments, each with a new id. They may
-- return or throw.
pub data SettleRun {Addr Bytes Signer : Type 0} (c : Config Addr Bytes Signer)
    : State Addr Bytes Signer → State Addr Bytes Signer → Type 0 where
  idle : (st : State Addr Bytes Signer) → SettleRun c st st
  onward :
      {st mid : State Addr Bytes Signer} (now : ℕ) (uuid : String) (q : Request)
      → SettleRun c st mid
      → IsFresh uuid mid.storage
      → SettleRun c st (settle c now uuid q mid).1

run-IsKept :
    {Addr Bytes Signer : Type 0} (c : Config Addr Bytes Signer) (hash : String)
    (r : SettlementRecord) (done : String × String) {st end : State Addr Bytes Signer}
    → already_settled (some r) ≡ some done
    → IsKept hash r st.storage
    → SettleRun c st end
    → IsKept hash r end.storage
run-IsKept c hash r done settled h (idle st) = h
run-IsKept c hash r done settled h (onward {mid = mid} now uuid q run fresh) =
    settle-IsKept c hash r now q uuid mid done settled fresh
      (run-IsKept c hash r done settled h run)

-- Once a settlement has succeeded with a transaction hash that is not empty, and after any further
-- calls of `settle` one after the other, for any payments, each with a new id, whatever they answer
-- or throw, a request with the same signature is answered with that transaction, and neither the
-- storage, nor the pool, nor the network is touched.
pub settle_once :
    {Addr Bytes Signer : Type 0} (c : Config Addr Bytes Signer) (now : ℕ) (uuid : String)
    (q : Request) (st : State Addr Bytes Signer) (a : SettleResponse) (h : String)
    → IsIndexed st.storage
    → IsFresh uuid st.storage
    → (settle c now uuid q st).0 ≡ ok a
    → a.success ≡ true
    → a.transaction ≡ some h
    → truthy h ≡ true
    → (end : State Addr Bytes Signer) → SettleRun c (settle c now uuid q st).1 end
    → (later : ℕ) (other : String) (p : Request)
    → (transaction_of p.payload).signature ≡ (transaction_of q.payload).signature
    → (payer : String) × (settle c later other p end
        ≡ (ok (succeeded h p.requirements.network payer), end))
settle_once c now uuid q st a h indexed fresh answered good named full end run later other p same =
    let (r, there, agrees) = settle-Recorded c now uuid q st indexed fresh a answered in
    elim agrees [
      | inr (bad, _, _, _) ↦ absurd (let w : true ≡ false = sym good ∙ bad in cc)
      | inl (good', done, tx) ↦
          let hash = c.compute_signature_hash (transaction_of q.payload).signature in
          let settled = completed-already_settled r h done (tx ∙ named) full in
          let kept =
            run-IsKept c hash r (h, r.payer) settled
              (settle-IsIndexed c now uuid q st indexed fresh, there) run in
          (
            r.payer,
            settle_again c later other p end r h
                (ap (λ s. get_by_signature_hash (c.compute_signature_hash s) end.storage) same
                  ∙ kept.1)
                settled,
          )
    ]
