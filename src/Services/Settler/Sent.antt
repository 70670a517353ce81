-- ===== src/Services/Settler/Sent.antt =====
-- src/services/settler.ts: what is handed to the network.
use blockrun_multiversx_plat.Base.{
  ℕ, String, ◌≡◌, refl, sym, ap, ◌∙◌, ◌≢◌, ◌⊎◌, inl, inr, true, Option, none, some, List, ◌∷◌,
  ℕ_key, text_key, Bool-cases,
}
use blockrun_multiversx_plat.Base.Thrown.{Thrown, ok, err}
use blockrun_multiversx_plat.Base.Text.{units_key}
use blockrun_multiversx_plat.Domain.{Request, transaction_of, VerifyResponse}
use blockrun_multiversx_plat.Services.Chain.{Tx, Simulation}
use blockrun_multiversx_plat.Storage.Defs.{SettlementRecord}
use blockrun_multiversx_plat.Services.Verifier.Verify.{verify}
use blockrun_multiversx_plat.Services.Verifier.Valid.{Established, verify-Established}
use blockrun_multiversx_plat.Services.Settler.Defs.{
  State, Config, Failure, construct, simulated, broadcast,
}
use blockrun_multiversx_plat.Services.Settler.Settle.{
  settle_failed, settle_completed, settle_sent, settle_checked, settle_built, settle_accepted,
  settle_refused, settle_verified, settle_new, settle,
}

module _ {Addr Bytes Signer : Type 0} (c : Config Addr Bytes Signer) where
  -- Nothing is sent, or one transaction that nothing stopped.
  abbrev pub SendsOne : List (Tx Addr Bytes) → List (Tx Addr Bytes) → Type 0
  SendsOne before after =
      (after ≡ before) ⊎ ((t : Tx Addr Bytes) × (after ≡ t ∷ before) × (simulated c t ≡ none))

  settle_sent-sent :
      (now : ℕ) (q : Request) (i : String) (r : Failure ⊎ String) (st : State Addr Bytes Signer)
      → (settle_sent c now i q r st).1.sent ≡ st.sent
  unfolding settle_sent settle_failed settle_completed
  settle_sent-sent now q i (inl f) st = refl
  settle_sent-sent now q i (inr h) st = refl

  settle_checked-sent :
      (now : ℕ) (q : Request) (i : String) (t : Tx Addr Bytes) (f : Option Failure)
      (st : State Addr Bytes Signer)
      → simulated c t ≡ f
      → SendsOne st.sent (settle_checked c now i q t f st).1.sent
  unfolding settle_checked settle_failed
  settle_checked-sent now q i t (some f) st e = inl refl
  settle_checked-sent now q i t none st e = inr (t, settle_sent-sent now q i (broadcast c t) _, e)

  settle_built-sent :
      (now : ℕ) (q : Request) (i : String) (t : Thrown (Tx Addr Bytes))
      (st : State Addr Bytes Signer)
      → SendsOne st.sent (settle_built c now i q t st).1.sent
  unfolding settle_built settle_failed
  settle_built-sent now q i (err m) st = inl refl
  settle_built-sent now q i (ok t) st = settle_checked-sent now q i t _ st refl

  -- Nothing is sent, or one transaction, and then the verdict is that the payment is valid.
  abbrev pub SendsVerified :
      Thrown VerifyResponse → List (Tx Addr Bytes) → List (Tx Addr Bytes) → Type 0
  SendsVerified verdict before after =
      (after ≡ before)
      ⊎ ((v : VerifyResponse) × (verdict ≡ ok v) × (v.is_valid ≡ true) × SendsOne before after)

  settle_verified-sent :
      (now : ℕ) (uuid hash : String) (existing : Option SettlementRecord) (q : Request)
      (v : Thrown VerifyResponse) (st : State Addr Bytes Signer)
      → SendsVerified v st.sent (settle_verified c now uuid hash existing q v st).1.sent
  unfolding settle_verified settle_accepted settle_refused
  settle_verified-sent now uuid hash existing q (err m) st = inl refl
  settle_verified-sent now uuid hash existing q (ok v) st = elim (Bool-cases v.is_valid) [
    | inl good ↦ inr (
      v,
      refl,
      good,
      rw (good, settle_verified)
          (settle_built-sent now q _ (construct c st.pool (transaction_of q.payload)).0 _),
    )
    | inr bad ↦ inl (rw (bad, settle_verified) refl)
  ]

  settle_new-sent :
      (now : ℕ) (uuid hash : String) (existing : Option SettlementRecord) (q : Request)
      (st : State Addr Bytes Signer) (settled : Option (String × String))
      → SendsVerified
          (c.verifier now st.pool q).0
          st.sent
          (settle_new c now uuid hash existing q st settled).1.sent
  unfolding settle_new
  settle_new-sent now uuid hash existing q st (some (x, p)) = inl refl
  settle_new-sent now uuid hash existing q st none =
      settle_verified-sent now uuid hash existing q _ _

-- A settlement hands at most one transaction to the network, and does so only for a payment that its
-- verifier calls valid, and for a transaction that the simulation, where there is one, does not stop.
pub settle-SendsVerified :
    {Addr Bytes Signer : Type 0} (c : Config Addr Bytes Signer) (now : ℕ) (uuid : String)
    (q : Request) (st : State Addr Bytes Signer)
    → SendsVerified c (c.verifier now st.pool q).0 st.sent (settle c now uuid q st).1.sent
unfolding settle
settle-SendsVerified c now uuid q st = settle_new-sent c now uuid _ _ q st _

-- With the verifier that a settler makes for itself, a transaction is broadcast only for a payment
-- about which every check of the verifier has been established.
pub settle-Established :
    {Addr Bytes Signer : Type 0} (c : Config Addr Bytes Signer)
    (provider : Tx Addr Bytes → Thrown Simulation) (now : ℕ) (uuid : String) (q : Request)
    (st : State Addr Bytes Signer)
    → c.verifier ≡ verify c.sdk (some provider)
    → (settle c now uuid q st).1.sent ≢ st.sent
    → Established c.sdk (some provider) now st.pool q
settle-Established c provider now uuid q st default sends =
    elim (settle-SendsVerified c now uuid q st) [
      | inl none_sent ↦ absurd (sends none_sent)
      | inr (v, verdict, good, one) ↦
          verify-Established c.sdk (some provider) now st.pool q v
            (ap (λ f. (f now st.pool q).0) (sym default) ∙ verdict) good
    ]
