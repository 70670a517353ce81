-- ===== src/Services/Verifier/Valid.antt =====
-- A payment that src/services/verifier.ts calls valid has passed every check, and no check was left
-- out on the way.
use blockrun_multiversx_plat.Base.{
  ℕ, ◌/◌, String, ◌≡◌, refl, ap, ◌∙◌, ◌⊎◌, inl, inr, true, false, Option, none, some, arith, ℕ_key,
  text_key,
}
use blockrun_multiversx_plat.Base.Thrown.{Thrown, ok, err, ok_inj}
use blockrun_multiversx_plat.Base.Text.{units_key}
use blockrun_multiversx_plat.Domain.{TxPayload, Request, transaction_of, VerifyResponse}
use blockrun_multiversx_plat.Parsing.Defs.{Decoders}
use blockrun_multiversx_plat.Relayers.Pool.Defs.{Pool}
use blockrun_multiversx_plat.Services.Chain.{Tx, Simulation, Sdk, is_success}
use blockrun_multiversx_plat.Services.Verifier.Defs.{
  Rejection, Check, pass, check_accepted, check_simulation,
}
use blockrun_multiversx_plat.Services.Verifier.Verify.{
  countersigned, guarded, request_checks, signature_checks, prepare, simulate_step, verify_prepared,
  verify,
}
use blockrun_multiversx_plat.Services.Verifier.Sound.{
  andalso-pass, catching-pass, OnChain, check_chain-pass, WithinGas, check_gas-pass, InWindow,
  check_window-pass, IsPaid, check_transfers-pass, check_sender-pass, GuardianSigned,
  check_guardian-pass, RelayerSigned, check_relayer_signature-pass, RelayerOfShard,
  check_relayer_shard-pass,
}

guarded-valid :
    {P : Type 0} (c : Check) (payer : String) (pool : P) (next : Thrown VerifyResponse × P)
    (r : VerifyResponse)
    → (guarded c payer pool next).0 ≡ ok r
    → r.is_valid ≡ true
    → (c ≡ pass) × (next.0 ≡ ok r)
guarded-valid (err e) payer pool next r h v = cc
guarded-valid (ok (some x)) payer pool next r h v =
    absurd (let w : false ≡ true = ap (λ y. y.is_valid) (ok_inj _ _ h) ∙ v in cc)
guarded-valid (ok none) payer pool next r h v = (refl, h)

-- The request's own checks.
pub record RequestHolds (d : Decoders) (now : ℕ) (q : Request) : Type 0 where
  pub accepted : check_accepted q ≡ pass
  pub on_chain : OnChain q
  pub within_gas : WithinGas (transaction_of q.payload)
  pub in_window : InWindow (now / 1000) (transaction_of q.payload)
  pub is_paid : IsPaid d q

request_checks-pass :
    (d : Decoders) (now : ℕ) (q : Request) → request_checks d now q ≡ pass → RequestHolds d now q
unfolding request_checks
request_checks-pass d now q h =
    let (a, h1) = andalso-pass _ _ h in
    let (b, h2) = andalso-pass _ _ h1 in
    let (c, h3) = andalso-pass _ _ h2 in
    let (w, p) = andalso-pass _ _ h3 in
    record {
      accepted = a;
      on_chain = check_chain-pass q b;
      within_gas = check_gas-pass _ c;
      in_window = check_window-pass _ _ w;
      is_paid = check_transfers-pass d q p;
    }

module _ {Addr Bytes Signer : Type 0} (sdk : Sdk Addr Bytes Signer) where
  pub record SignaturesHold (pool : Option (Pool Signer)) (tx : TxPayload) (t : Tx Addr Bytes)
      : Type 0 where
    pub sender_signed : sdk.verify_signature t.sender t t.signature ≡ ok true
    pub guardian_signed : GuardianSigned sdk t
    pub relayer_of_shard : RelayerOfShard sdk pool tx
    pub relayer_signed : RelayerSigned sdk t

  signature_checks-pass :
      (pool : Option (Pool Signer)) (tx : TxPayload) (t : Tx Addr Bytes)
      → signature_checks sdk pool tx t ≡ pass
      → SignaturesHold pool tx t
  unfolding signature_checks
  signature_checks-pass pool tx t h =
      let (a, h1) = andalso-pass _ _ h in
      let (b, h2) = andalso-pass _ _ h1 in
      let (c, e) = andalso-pass _ _ h2 in
      record {
        sender_signed = check_sender-pass sdk t a;
        guardian_signed = check_guardian-pass sdk t b;
        relayer_of_shard = check_relayer_shard-pass sdk pool tx c;
        relayer_signed = check_relayer_signature-pass sdk t e;
      }

  -- The network, where there is one, has run the transaction with success.
  abbrev pub Simulated :
      Option (Tx Addr Bytes → Thrown Simulation)
      → Option (Pool Signer)
      → TxPayload
      → Tx Addr Bytes
      → Type 0
  Simulated none pool tx t = Unit
  Simulated (some provider) pool tx t =
      (s : Simulation) × (provider (countersigned sdk pool tx t).0 ≡ ok s) × (is_success s ≡ true)

  check_simulation-pass :
      (answer : Thrown Simulation)
      → check_simulation answer ≡ pass
      → (s : Simulation) × (answer ≡ ok s) × (is_success s ≡ true)
  unfolding check_simulation
  check_simulation-pass answer h =
      let (s, e, p) = catching-pass answer _ _ h in (s, e, ground (arith, p))

  simulate_step-valid :
      (provider : Option (Tx Addr Bytes → Thrown Simulation)) (pool : Option (Pool Signer))
      (tx : TxPayload) (t : Tx Addr Bytes) (r : VerifyResponse)
      → (simulate_step sdk provider pool tx t).0 ≡ ok r
      → r.is_valid ≡ true
      → Simulated provider pool tx t
  unfolding simulate_step
  simulate_step-valid none pool tx t r h v = tt
  simulate_step-valid (some provider) pool tx t r h v =
      check_simulation-pass _ (guarded-valid _ _ _ _ r h v).0

  -- Everything that a valid verdict rests on, for the transaction that the SDK was given.
  abbrev pub Established :
      Option (Tx Addr Bytes → Thrown Simulation) → ℕ → Option (Pool Signer) → Request → Type 0
  Established provider now pool q =
      let tx = transaction_of q.payload in
      RequestHolds sdk.decoders now q
      × ((t : Tx Addr Bytes) × (prepare sdk tx ≡ ok (inr t))
          × SignaturesHold pool tx t
          × Simulated provider pool tx t)

  verify_prepared-valid :
      (provider : Option (Tx Addr Bytes → Thrown Simulation)) (pool : Option (Pool Signer))
      (tx : TxPayload) (prepared : Thrown (Rejection ⊎ Tx Addr Bytes)) (r : VerifyResponse)
      → (verify_prepared sdk provider pool tx prepared).0 ≡ ok r
      → r.is_valid ≡ true
      → (t : Tx Addr Bytes) × (prepared ≡ ok (inr t))
        × SignaturesHold pool tx t
        × Simulated provider pool tx t
  unfolding verify_prepared
  verify_prepared-valid provider pool tx (err e) r h v = cc
  verify_prepared-valid provider pool tx (ok (inl x)) r h v =
      absurd (let w : false ≡ true = ap (λ y. y.is_valid) (ok_inj _ _ h) ∙ v in cc)
  verify_prepared-valid provider pool tx (ok (inr t)) r h v =
      let (passed, rest) = guarded-valid _ _ _ _ r h v in
      (
        t,
        refl,
        signature_checks-pass pool tx t passed,
        simulate_step-valid provider pool tx t r rest v,
      )

-- A valid verdict is given only for a payment that has everything: the chain of the requirements,
-- gas within the limits, the time window, a transfer that pays the asset to the payee in full, a
-- sender signature that verifies, a guardian's where there is a guardian, a relayer of the sender's
-- shard, no relayer signature that does not verify, and a successful simulation where there is a
-- network provider.
pub verify-Established :
    {Addr Bytes Signer : Type 0} (sdk : Sdk Addr Bytes Signer)
    (provider : Option (Tx Addr Bytes → Thrown Simulation)) (now : ℕ) (pool : Option (Pool Signer))
    (q : Request) (r : VerifyResponse)
    → (verify sdk provider now pool q).0 ≡ ok r
    → r.is_valid ≡ true
    → Established sdk provider now pool q
unfolding verify
verify-Established sdk provider now pool q r h v =
    let (passed, rest) = guarded-valid _ _ _ _ r h v in
    (
      request_checks-pass sdk.decoders now q passed,
      verify_prepared-valid sdk provider pool _ _ r rest v,
    )
