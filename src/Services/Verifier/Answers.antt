-- ===== src/Services/Verifier/Answers.antt =====
-- src/services/verifier.ts: `verify` answers, and where it may throw instead.
use blockrun_multiversx_plat.Base.{
  ℕ, ◌/◌, String, ◌≡◌, refl, ◌⊎◌, inl, inr, Bool, true, false, Option, none, some, List, [], ◌∷◌,
  arith, ℕ_key, text_key, Option-cases,
}
use blockrun_multiversx_plat.Base.Thrown.{Thrown, ok, err, Thrown-cases}
use blockrun_multiversx_plat.Base.Lists.{find, list_cases}
use blockrun_multiversx_plat.Base.Text.{units, same_units, units_key}
use blockrun_multiversx_plat.Base.Int.{ℤ, big_int}
use blockrun_multiversx_plat.Domain.{
  TxPayload, Requirements, Request, transaction_of, VerifyResponse,
}
use blockrun_multiversx_plat.Parsing.Defs.{ParsedTransfer, Decoders}
use blockrun_multiversx_plat.Relayers.Pool.Defs.{
  Pool, relayers, has_shard, get_relayer_for_shard, get_relayer_address_for_shard,
}
use blockrun_multiversx_plat.Services.Chain.{Tx, Simulation, Sdk}
use blockrun_multiversx_plat.Services.Verifier.Defs.{
  Rejection, Check, ◌andalso◌, check_accepted, check_chain, check_gas, check_window, check_match,
  check_listed, check_transfers, check_simulation,
}
use blockrun_multiversx_plat.Services.Verifier.Verify.{
  build_transaction, check_sender, check_guardian, check_relayer_shard, check_relayer_signature,
  guarded, request_checks, signature_checks, prepare, simulate_step, verify_prepared, verify,
}

abbrev pub returns : {A : Type 0} → Thrown A → Bool
returns (ok a) = true
returns (err m) = false

-- A call that does not throw.
abbrev pub Returns : {A : Type 0} → Thrown A → Type 0
Returns call = returns call ≡ true

andalso-Returns : (c d : Check) → Returns c → Returns d → Returns (c andalso d)
andalso-Returns (err e) d h k = cc
andalso-Returns (ok none) d h k = k
andalso-Returns (ok (some r)) d h k = refl

guarded-Returns :
    {P : Type 0} (c : Check) (payer : String) (pool : P) (next : Thrown VerifyResponse × P)
    → Returns c
    → Returns next.0
    → Returns (guarded c payer pool next).0
guarded-Returns (err e) payer pool next h k = cc
guarded-Returns (ok none) payer pool next h k = k
guarded-Returns (ok (some r)) payer pool next h k = refl

-- The text is that of an integer.
abbrev pub Reads : String → Type 0
Reads s = (z : ℤ) × (big_int s ≡ ok z)

check_accepted-Returns :
    (q : Request)
    → Reads q.accepted.amount
    → Reads q.requirements.amount
    → Returns (check_accepted q)
unfolding check_accepted
check_accepted-Returns q (a, h) (b, k) = ground (arith, h, k)

check_match-Returns :
    (r : Requirements) (t : ParsedTransfer) → Reads r.amount → Returns (check_match r t)
unfolding check_match
check_match-Returns r t (b, k) = ground (arith, k)

check_listed-Returns :
    (r : Requirements) (ts : List ParsedTransfer) → Reads r.amount → Returns (check_listed r ts)
unfolding check_listed
check_listed-Returns r [] h = refl
check_listed-Returns r (t ∷ ts) h =
    let pays : ParsedTransfer → Bool = λ x. same_units x.asset (units r.asset) in
    elim (Option-cases (find pays (t ∷ ts))) [
      | inl missing ↦ ground (arith, missing)
      | inr (m, there) ↦ ground (arith, there, check_match-Returns r m h)
    ]

check_chain-Returns : (q : Request) → Returns (check_chain q)
unfolding check_chain
check_chain-Returns q = ground arith

check_gas-Returns : (tx : TxPayload) → Returns (check_gas tx)
unfolding check_gas
check_gas-Returns tx = ground arith

check_window-Returns : (now : ℕ) (tx : TxPayload) → Returns (check_window now tx)
unfolding check_window
check_window-Returns now tx = ground arith

request_checks-Returns :
    (d : Decoders) (now : ℕ) (q : Request)
    → Reads q.accepted.amount
    → Reads q.requirements.amount
    → Returns (request_checks d now q)
unfolding request_checks check_transfers
request_checks-Returns d now q h k = andalso-Returns _ _ (check_accepted-Returns q h k) (
    andalso-Returns _ _ (check_chain-Returns q) (
      andalso-Returns _ _ (check_gas-Returns (transaction_of q.payload)) (
        andalso-Returns _ _ (check_window-Returns (now / 1000) (transaction_of q.payload))
          (check_listed-Returns q.requirements _ k))))

module _ {Addr Bytes Signer : Type 0} (sdk : Sdk Addr Bytes Signer) where
  -- The pool, if there is one, has a relayer in the shard of the sender.
  abbrev pub Serves : Option (Pool Signer) → TxPayload → Type 0
  Serves pool tx =
      (p : Pool Signer)
      → pool ≡ some p
      → (shard : ℕ) × (sdk.signers.shard_of tx.sender ≡ ok shard) × (has_shard p shard ≡ true)

  get_relayer_address_for_shard-Returns :
      (p : Pool Signer) (shard : ℕ)
      → has_shard p shard ≡ true
      → Returns (get_relayer_address_for_shard sdk.signers p shard)
  unfolding get_relayer_address_for_shard get_relayer_for_shard has_shard
  get_relayer_address_for_shard-Returns p shard h = elim (list_cases (relayers p shard)) [
    | inl e ↦ absurd (ground (arith, h, e))
    | inr (s, ss, e) ↦ ground (arith, e)
  ]

  check_relayer_shard-Returns :
      (pool : Option (Pool Signer)) (tx : TxPayload)
      → Serves pool tx
      → Returns (check_relayer_shard sdk pool tx)
  unfolding check_relayer_shard
  check_relayer_shard-Returns none tx h = refl
  check_relayer_shard-Returns (some p) tx h =
      let (shard, e, there) = h p refl in
      elim (Thrown-cases (get_relayer_address_for_shard sdk.signers p shard)) [
        | inl (a, named) ↦ ground (arith, e, named)
        | inr (m, thrown) ↦
            absurd (ground (arith, thrown, get_relayer_address_for_shard-Returns p shard there))
      ]

  check_sender-Returns : (t : Tx Addr Bytes) → Returns (check_sender sdk t)
  unfolding check_sender
  check_sender-Returns t = ground arith

  check_guardian-Returns : (t : Tx Addr Bytes) → Returns (check_guardian sdk t)
  unfolding check_guardian
  check_guardian-Returns t = ground arith

  check_relayer_signature-Returns : (t : Tx Addr Bytes) → Returns (check_relayer_signature sdk t)
  unfolding check_relayer_signature
  check_relayer_signature-Returns t = ground arith

  prepare-Returns : (tx : TxPayload) → Reads tx.value → Returns (prepare sdk tx)
  unfolding prepare build_transaction
  prepare-Returns tx (z, e) = ground (arith, e)

  check_simulation-Returns : (answer : Thrown Simulation) → Returns (check_simulation answer)
  unfolding check_simulation
  check_simulation-Returns answer = ground arith

  simulate_step-Returns :
      (provider : Option (Tx Addr Bytes → Thrown Simulation)) (pool : Option (Pool Signer))
      (tx : TxPayload) (t : Tx Addr Bytes)
      → Returns (simulate_step sdk provider pool tx t).0
  unfolding simulate_step
  simulate_step-Returns none pool tx t = refl
  simulate_step-Returns (some provider) pool tx t =
      guarded-Returns _ _ _ _ (check_simulation-Returns _) refl

  signature_checks-Returns :
      (pool : Option (Pool Signer)) (tx : TxPayload) (t : Tx Addr Bytes)
      → Serves pool tx
      → Returns (signature_checks sdk pool tx t)
  unfolding signature_checks
  signature_checks-Returns pool tx t h = andalso-Returns _ _ (check_sender-Returns t) (
      andalso-Returns _ _ (check_guardian-Returns t) (
        andalso-Returns _ _ (check_relayer_shard-Returns pool tx h)
          (check_relayer_signature-Returns t)))

  verify_prepared-Returns :
      (provider : Option (Tx Addr Bytes → Thrown Simulation)) (pool : Option (Pool Signer))
      (tx : TxPayload) (prepared : Thrown (Rejection ⊎ Tx Addr Bytes))
      → Serves pool tx
      → Returns prepared
      → Returns (verify_prepared sdk provider pool tx prepared).0
  unfolding verify_prepared
  verify_prepared-Returns provider pool tx (err e) h k = cc
  verify_prepared-Returns provider pool tx (ok (inl r)) h k = refl
  verify_prepared-Returns provider pool tx (ok (inr t)) h k =
      guarded-Returns _ _ _ _ (signature_checks-Returns pool tx t h)
        (simulate_step-Returns provider pool tx t)

-- The verifier always answers and never throws, whatever the SDK and the network throw, where the
-- amounts and the value are texts of integers and the pool, if there is one, has a relayer in the shard
-- of the sender.
pub verify-Returns :
    {Addr Bytes Signer : Type 0} (sdk : Sdk Addr Bytes Signer)
    (provider : Option (Tx Addr Bytes → Thrown Simulation)) (now : ℕ) (pool : Option (Pool Signer))
    (q : Request)
    → Reads q.accepted.amount
    → Reads q.requirements.amount
    → Reads (transaction_of q.payload).value
    → Serves sdk pool (transaction_of q.payload)
    → Returns (verify sdk provider now pool q).0
unfolding verify
verify-Returns sdk provider now pool q a b v h =
    guarded-Returns _ _ _ _ (request_checks-Returns sdk.decoders now q a b)
      (verify_prepared-Returns sdk provider pool _ _ h (prepare-Returns sdk _ v))
