-- ===== src/Services/Verifier/Verify.antt =====
-- src/services/verifier.ts: the checks that need the SDK, the relayer pool or the network, and
-- `verify` as a whole. The relayer pool is passed on, since picking a signer turns its rotation.
use blockrun_multiversx_plat.Base.{
  ℕ, ◌/◌, String, ◌⊎◌, inl, inr, true, false, not, ◌&&◌, Option, none, some, if◌then◌else◌, ℕ_key,
  text_key, or_else,
}
use blockrun_multiversx_plat.Base.Thrown.{Thrown, ok, err, ◌>>=◌}
use blockrun_multiversx_plat.Base.Text.{units, ◌<>◌, truthy, truthy_opt, units_key}
use blockrun_multiversx_plat.Base.Int.{big_int}
use blockrun_multiversx_plat.Domain.{
  payment_invalid, TxPayload, Request, transaction_of, VerifyResponse,
}
use blockrun_multiversx_plat.Parsing.Defs.{Decoders}
use blockrun_multiversx_plat.Relayers.Pool.Defs.{
  Pool, get_all_relayers_for_shard, has_address, get_relayer_address_for_shard,
  get_relayer_for_address,
}
use blockrun_multiversx_plat.Services.Chain.{Tx, Simulation, Sdk}
use blockrun_multiversx_plat.Services.Verifier.Defs.{
  Rejection, Check, pass, reject, ◌andalso◌, catching, check_accepted, check_chain, check_gas,
  check_simulation, check_window, check_transfers,
}

-- The addresses of a payload; the relayer and the guardian where they are given.
pub record Addresses (Addr : Type 0) : Type 0 where
  pub sender_addr : Addr
  pub receiver_addr : Addr
  pub relayer_addr : Option Addr
  pub guardian_addr : Option Addr

module _ {Addr Bytes Signer : Type 0} (sdk : Sdk Addr Bytes Signer) where
  -- `text ? Address.newFromBech32(text) : undefined`
  abbrev pub optional_address : Option String → Thrown (Option Addr)
  optional_address none = ok none
  optional_address (some s) =
      if truthy s then (sdk.new_from_bech32 s >>= λ a. ok (some a)) else ok none

  unfoldable pub parse_addresses : TxPayload → Thrown (Addresses Addr)
  parse_addresses tx = do
    sender ← sdk.new_from_bech32 tx.sender
    receiver ← sdk.new_from_bech32 tx.receiver
    relayer ← optional_address tx.relayer
    guardian ← optional_address tx.guardian
    ok (record {
      sender_addr = sender;
      receiver_addr = receiver;
      relayer_addr = relayer;
      guardian_addr = guardian;
    })

  -- `text ? Buffer.from(text, "hex") : undefined`
  abbrev pub optional_bytes : Option String → Option Bytes
  optional_bytes none = none
  optional_bytes (some s) = if truthy s then some (sdk.hex_bytes s) else none

  -- `new Transaction({ … })` and its signatures.
  unfoldable pub build_transaction : TxPayload → Addresses Addr → Thrown (Tx Addr Bytes)
  build_transaction tx a = do
    value ← big_int tx.value
    ok (record {
      nonce = tx.nonce;
      value = value;
      sender = a.sender_addr;
      receiver = a.receiver_addr;
      gas_price = tx.gas_price;
      gas_limit = tx.gas_limit;
      call_data = or_else tx.payload_data "";
      chain_id = tx.chain_id;
      version = tx.version;
      options = tx.options;
      relayer = a.relayer_addr;
      guardian = a.guardian_addr;
      signature = sdk.hex_bytes tx.signature;
      relayer_signature = optional_bytes tx.relayer_signature;
      guardian_signature = optional_bytes tx.guardian_signature;
    })

  -- Check 6.
  unfoldable pub check_sender : Tx Addr Bytes → Check
  check_sender t =
      catching (sdk.verify_signature t.sender t t.signature) "Failed to verify sender signature: "
        λ valid.
          if valid
          then pass
          else reject payment_invalid (units "Invalid transaction signature from sender")

  -- Check 6b.
  unfoldable pub check_guardian : Tx Addr Bytes → Check
  check_guardian t = elim t.guardian [
    | none ↦ pass
    | some g ↦ elim t.guardian_signature [
      | none ↦
          reject payment_invalid
            (units "Missing required guardian signature for guarded transaction")
      | some s ↦
          catching (sdk.verify_signature g t s) "Failed to verify guardian signature: " λ valid.
            if valid
            then pass
            else reject payment_invalid (units "Invalid guardian signature on transaction")
    ]
  ]

  relayer_known : Pool Signer → ℕ → String → Check
  relayer_known p shard named =
      let mismatch = do
        expected ← get_relayer_address_for_shard sdk.signers p shard
        reject payment_invalid (
            units (
              "Relayer address mismatch for user shard: expected " <> expected <> ", got "
              <> named))
      in if has_address sdk.signers named (get_all_relayers_for_shard p shard)
        then pass
        else mismatch

  -- The first half of check 7: the relayer named is one of the pool's for the sender's shard.
  unfoldable pub check_relayer_shard : Option (Pool Signer) → TxPayload → Check
  unfolding relayer_known
  check_relayer_shard none tx = pass
  check_relayer_shard (some p) tx =
      let named = or_else tx.relayer "" in
      let known = do shard ← sdk.signers.shard_of tx.sender; relayer_known p shard named
      in if truthy_opt tx.relayer then known else pass

  -- The second half: a relayer signature that is there must be the relayer's.
  unfoldable pub check_relayer_signature : Tx Addr Bytes → Check
  check_relayer_signature t = elim t.relayer [
    | none ↦ pass
    | some r ↦ elim t.relayer_signature [
      | none ↦ pass
      | some s ↦
          catching (sdk.verify_signature r t s) "Failed to verify relayer signature: " λ valid.
            if valid
            then pass
            else reject payment_invalid (units "Invalid relayer signature on transaction")
    ]
  ]

  -- SEC-03: for the simulation, a relayed transaction with no relayer signature is signed by the next
  -- relayer of the sender's shard, if that works.
  unfoldable pub countersigned :
      Option (Pool Signer) → TxPayload → Tx Addr Bytes → Tx Addr Bytes × Option (Pool Signer)
  countersigned none tx t = (t, none)
  countersigned (some p) tx t =
      let (picked, p') = get_relayer_for_address sdk.signers p tx.sender in
      let signed : Tx Addr Bytes = elim (picked >>= λ s. sdk.sign s t) [
        | err e ↦ t
        | ok signature ↦ record t { relayer_signature = some signature }
      ] in
      if truthy_opt tx.relayer && not (truthy_opt tx.relayer_signature)
      then (signed, some p')
      else (t, some p)

abbrev pub invalid : String → Rejection → VerifyResponse
invalid payer r = record {
  is_valid = false;
  invalid_reason = some r.reason;
  error_code = some r.code;
  payer = some payer;
}

abbrev pub valid : String → VerifyResponse
valid payer = record {
  is_valid = true;
  invalid_reason = none;
  error_code = none;
  payer = some payer;
}

-- The answer of a check, or what follows it.
abbrev pub guarded :
    {P : Type 0} → Check → String → P → Thrown VerifyResponse × P → Thrown VerifyResponse × P
guarded (err e) payer pool next = (err e, pool)
guarded (ok (some r)) payer pool next = (ok (invalid payer r), pool)
guarded (ok none) payer pool next = next

-- Checks 2 to 5, which read only the request and the time, in milliseconds.
unfoldable pub request_checks : Decoders → ℕ → Request → Check
request_checks d now q =
    check_accepted q
    andalso check_chain q
    andalso check_gas (transaction_of q.payload)
    andalso check_window (now / 1000) (transaction_of q.payload)
    andalso check_transfers d q

module _ {Addr Bytes Signer : Type 0} (sdk : Sdk Addr Bytes Signer) where
  -- Checks 6 and 7.
  unfoldable pub signature_checks : Option (Pool Signer) → TxPayload → Tx Addr Bytes → Check
  signature_checks pool tx t =
      check_sender sdk t
      andalso check_guardian sdk t
      andalso check_relayer_shard sdk pool tx
      andalso check_relayer_signature sdk t

  -- The addresses and the transaction; an address that does not parse is a rejection.
  unfoldable pub prepare : TxPayload → Thrown (Rejection ⊎ Tx Addr Bytes)
  prepare tx = elim (parse_addresses sdk tx) [
    | err m ↦ ok (
        inl (record {
          code = payment_invalid;
          reason = units ("Invalid bech32 address format in transaction payload: " <> m);
        }))
    | ok a ↦ build_transaction sdk tx a >>= λ t. ok (inr t)
  ]

  -- Check 8 and the verdict.
  unfoldable pub simulate_step :
      Option (Tx Addr Bytes → Thrown Simulation)
      → Option (Pool Signer)
      → TxPayload
      → Tx Addr Bytes
      → Thrown VerifyResponse × Option (Pool Signer)
  simulate_step none pool tx t = (ok (valid tx.sender), pool)
  simulate_step (some provider) pool tx t =
      let (t', pool') = countersigned sdk pool tx t in
      guarded (check_simulation (provider t')) tx.sender pool' (ok (valid tx.sender), pool')

  -- What follows the preparation.
  unfoldable pub verify_prepared :
      Option (Tx Addr Bytes → Thrown Simulation)
      → Option (Pool Signer)
      → TxPayload
      → Thrown (Rejection ⊎ Tx Addr Bytes)
      → Thrown VerifyResponse × Option (Pool Signer)
  verify_prepared provider pool tx (err e) = (err e, pool)
  verify_prepared provider pool tx (ok (inl r)) = (ok (invalid tx.sender r), pool)
  verify_prepared provider pool tx (ok (inr t)) =
      guarded (signature_checks pool tx t) tx.sender pool (simulate_step provider pool tx t)

  unfoldable pub verify :
      Option (Tx Addr Bytes → Thrown Simulation)
      → ℕ
      → Option (Pool Signer)
      → Request
      → Thrown VerifyResponse × Option (Pool Signer)
  verify provider now pool q =
      let tx = transaction_of q.payload in
      guarded (request_checks sdk.decoders now q) tx.sender pool
        (verify_prepared provider pool tx (prepare tx))
