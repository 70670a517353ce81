-- ===== src/Services/Verifier/Sound.antt =====
-- What src/services/verifier.ts has established about a payment that it calls valid.
use blockrun_multiversx_plat.Base.{
  ℕ, ◌≤◌, ◌<◌, String, ◌≡◌, refl, ◌⊎◌, inl, inr, Bool, true, Option, none, some, List, [], ◌∷◌,
  arith, ℕ_key, text_key, Option-cases,
}
use blockrun_multiversx_plat.Base.Thrown.{Thrown, ok, err, Thrown-cases}
use blockrun_multiversx_plat.Base.Lists.{find, find_sound, Member, find-Member}
use blockrun_multiversx_plat.Base.Text.{
  units, truthy, truthy_opt, same_units, same_units_iff, units_key,
}
use blockrun_multiversx_plat.Base.Int.{ℤ, big_int, ◌≤ℤ◌}
use blockrun_multiversx_plat.Domain.{TxPayload, Requirements, Request, transaction_of}
use blockrun_multiversx_plat.Parsing.Defs.{
  ParsedTransfer, Decoders, extract_chain_id, parse_transaction_transfers,
}
use blockrun_multiversx_plat.Relayers.Pool.Defs.{Pool, get_all_relayers_for_shard, has_address}
use blockrun_multiversx_plat.Services.Chain.{Tx, Sdk}
use blockrun_multiversx_plat.Services.Verifier.Defs.{
  Check, pass, ◌andalso◌, catching, check_chain, check_gas, check_window, parser_input, check_match,
  check_transfers, check_listed,
}
use blockrun_multiversx_plat.Services.Verifier.Verify.{
  check_sender, check_guardian, check_relayer_shard, check_relayer_signature,
}

pub andalso-pass : (c d : Check) → (c andalso d) ≡ pass → (c ≡ pass) × (d ≡ pass)
andalso-pass (err e) d h = cc
andalso-pass (ok none) d h = (refl, h)
andalso-pass (ok (some r)) d h = cc

pub catching-pass :
    {A : Type 0} (call : Thrown A) (prefix : String) (next : A → Check)
    → catching call prefix next ≡ pass
    → (a : A) × (call ≡ ok a) × (next a ≡ pass)
catching-pass (ok a) prefix next h = (a, refl, h)
catching-pass (err m) prefix next h = cc

-- The transaction's chain is the one of the network, if the network names one.
abbrev pub OnChain : Request → Type 0
OnChain q =
    let expected = extract_chain_id (units q.requirements.network) in
    (expected ≡ []) ⊎ (units (transaction_of q.payload).chain_id ≡ expected)

pub check_chain-pass : (q : Request) → check_chain q ≡ pass → OnChain q
unfolding check_chain
check_chain-pass q h = ground (
  arith,
  same_units_iff (extract_chain_id (units q.requirements.network)) [],
  same_units_iff (units (transaction_of q.payload).chain_id)
      (extract_chain_id (units q.requirements.network)),
)

abbrev pub WithinGas : TxPayload → Type 0
WithinGas tx = (tx.gas_price ≤ 2000000000) × (truthy_opt tx.relayer ≡ true → tx.gas_limit ≤ 1000000)

pub check_gas-pass : (tx : TxPayload) → check_gas tx ≡ pass → WithinGas tx
unfolding check_gas
check_gas-pass tx h = (ground arith, λ r. ground arith)

-- At `now`, in seconds.
abbrev pub InWindow : ℕ → TxPayload → Type 0
InWindow now tx =
    ((t : ℕ) → tx.valid_before ≡ some t → now < t) × ((t : ℕ) → tx.valid_after ≡ some t → t ≤ now)

pub check_window-pass : (now : ℕ) (tx : TxPayload) → check_window now tx ≡ pass → InWindow now tx
unfolding check_window
check_window-pass now tx h = (λ t e. ground arith, λ t e. ground arith)

-- A transfer of the transaction pays the asset that is asked for to the payee, and enough of it.
abbrev pub Pays : Requirements → ParsedTransfer → Type 0
Pays r t =
    (t.asset ≡ units r.asset)
    × (t.receiver ≡ units r.pay_to)
    × ((required : ℤ) × (big_int r.amount ≡ ok required) × (required ≤ℤ t.amount))

pub check_match-pass :
    (r : Requirements) (t : ParsedTransfer)
    → same_units t.asset (units r.asset) ≡ true
    → check_match r t ≡ pass
    → Pays r t
unfolding check_match
check_match-pass r t asset h =
    let receiver : same_units t.receiver (units r.pay_to) ≡ true = ground arith in
    elim (Thrown-cases (big_int r.amount)) [
      | inr (m, thrown) ↦ absurd (ground arith)
      | inl (z, read) ↦
          ((same_units_iff _ _).0 asset, (same_units_iff _ _).0 receiver, (z, read, ground arith))
    ]

-- Some transfer of the transaction pays as it should.
abbrev pub SomePays : Requirements → List ParsedTransfer → Type 0
SomePays r ts = (t : ParsedTransfer) × Member t ts × Pays r t

pub check_listed-pass :
    (r : Requirements) (ts : List ParsedTransfer) → check_listed r ts ≡ pass → SomePays r ts
unfolding check_listed
check_listed-pass r [] h = cc
check_listed-pass r (t ∷ ts) h =
    let pays : ParsedTransfer → Bool = λ x. same_units x.asset (units r.asset) in
    elim (Option-cases (find pays (t ∷ ts))) [
      | inl missing ↦ absurd (ground (arith, missing, h))
      | inr (m, there) ↦
          let matched : check_match r m ≡ pass = ground (arith, there, h) in
          (
            m,
            find-Member pays (t ∷ ts) there,
            check_match-pass r m (find_sound pays (t ∷ ts) there) matched,
          )
    ]

abbrev pub IsPaid : Decoders → Request → Type 0
IsPaid d q =
    SomePays q.requirements
      (parse_transaction_transfers d (parser_input (transaction_of q.payload)))

pub check_transfers-pass : (d : Decoders) (q : Request) → check_transfers d q ≡ pass → IsPaid d q
unfolding check_transfers
check_transfers-pass d q h = check_listed-pass q.requirements _ h

module _ {Addr Bytes Signer : Type 0} (sdk : Sdk Addr Bytes Signer) where
  pub check_sender-pass :
      (t : Tx Addr Bytes)
      → check_sender sdk t ≡ pass
      → sdk.verify_signature t.sender t t.signature ≡ ok true
  unfolding check_sender
  check_sender-pass t h = ground (arith, h)

  -- A guarded transaction carries a signature that its guardian made.
  abbrev pub GuardianSigned : Tx Addr Bytes → Type 0
  GuardianSigned t =
      (g : Addr)
      → t.guardian ≡ some g
      → (s : Bytes) × (t.guardian_signature ≡ some s) × (sdk.verify_signature g t s ≡ ok true)

  pub check_guardian-pass : (t : Tx Addr Bytes) → check_guardian sdk t ≡ pass → GuardianSigned t
  unfolding check_guardian
  check_guardian-pass t h g e = elim (Option-cases t.guardian_signature) [
    | inl missing ↦ absurd (ground (arith, h, e, missing))
    | inr (s, there) ↦ (s, there, ground (arith, h, e, there))
  ]

  -- A relayer signature that is there was made by the relayer.
  abbrev pub RelayerSigned : Tx Addr Bytes → Type 0
  RelayerSigned t =
      (r : Addr) (s : Bytes)
      → t.relayer ≡ some r
      → t.relayer_signature ≡ some s
      → sdk.verify_signature r t s ≡ ok true

  pub check_relayer_signature-pass :
      (t : Tx Addr Bytes) → check_relayer_signature sdk t ≡ pass → RelayerSigned t
  unfolding check_relayer_signature
  check_relayer_signature-pass t h r s e f = ground (arith, h, e, f)

  -- The relayer named is one of the pool's for the sender's shard.
  abbrev pub RelayerOfShard : Option (Pool Signer) → TxPayload → Type 0
  RelayerOfShard pool tx =
      (p : Pool Signer) (named : String)
      → pool ≡ some p
      → tx.relayer ≡ some named
      → truthy named ≡ true
      → (shard : ℕ) × (sdk.signers.shard_of tx.sender ≡ ok shard)
        × (has_address sdk.signers named (get_all_relayers_for_shard p shard) ≡ true)

  pub check_relayer_shard-pass :
      (pool : Option (Pool Signer)) (tx : TxPayload)
      → check_relayer_shard sdk pool tx ≡ pass
      → RelayerOfShard pool tx
  unfolding check_relayer_shard
  check_relayer_shard-pass pool tx h p named e f t =
      elim (Thrown-cases (sdk.signers.shard_of tx.sender)) [
        | inl (shard, there) ↦ (shard, there, ground (arith, h, e, f, t, there))
        | inr (m, thrown) ↦ absurd (ground (arith, h, e, f, t, thrown))
      ]
