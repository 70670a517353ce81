-- ===== src/Services/Samples.antt =====
-- A payment, the relayers for it, and an SDK and a network in miniature, for the tests of the services.
use blockrun_multiversx_plat.Base.{
  ℕ, String, Option, none, some, [], ◌∷◌, if◌then◌else◌, ◌===◌, ℕ_key, text_key,
}
use blockrun_multiversx_plat.Base.Thrown.{Thrown, ok, err}
use blockrun_multiversx_plat.Base.Text.{units, truthy, show_ℕ, units_key}
use blockrun_multiversx_plat.Domain.{TxPayload, Requirements, direct, Request}
use blockrun_multiversx_plat.Relayers.Pool.Defs.{Pool}
use blockrun_multiversx_plat.Services.Chain.{Tx, Simulation, Sdk}

-- Addresses and signatures are texts, and a signature verifies when it is the signer's address.
abbrev pub chain : Sdk String String ℕ
chain = record {
  new_from_bech32 = λ s. if truthy s then ok s else err "empty";
  bech32_of = λ a. a;
  hex_bytes = λ s. s;
  verify_signature = λ a t s. ok (a === s);
  sign = λ n t. ok (show_ℕ n);
  signers = record { address_of = show_ℕ; shard_of = λ a. ok 0 };
  decoders = record { from_base64 = λ s. s; from_hex = λ s. s; bech32_of_hex = λ s. ok s };
}

abbrev pub answering : Tx String String → Thrown Simulation
answering t = ok (record {
  status = some (units "Success");
  fail_reason = none;
  return_code = none;
  return_message = none;
})

abbrev pub asked : Requirements
asked = record {
  scheme = "exact";
  network = "multiversx:D";
  asset = "EGLD";
  amount = "5";
  pay_to = "bob";
  max_timeout_seconds = 60;
}

abbrev pub paid : TxPayload
paid = record {
  nonce = 1;
  value = "7";
  receiver = "bob";
  sender = "alice";
  gas_price = 1000000000;
  gas_limit = 70000;
  payload_data = none;
  chain_id = "D";
  version = 2;
  options = 0;
  signature = "alice";
  relayer = some "3";
  relayer_signature = none;
  guardian = none;
  guardian_signature = none;
  valid_after = none;
  valid_before = some 100;
}

abbrev pub offer : Request
offer = record { payload = direct paid; accepted = asked; requirements = asked }

abbrev pub relaying : Option (Pool ℕ)
relaying = some (record { shard_relayers = (0, 3 ∷ []) ∷ []; round_robin_index = [] })
