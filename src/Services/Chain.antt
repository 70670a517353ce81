-- ===== src/Services/Chain.antt =====
-- What the services take from the MultiversX SDK and from a network provider
-- (src/domain/network.ts): transactions as the services fill them in, addresses, signatures, and
-- what a simulation answers.
use blockrun_multiversx_plat.Base.{
  ℕ, String, Bool, false, ◌||◌, Option, none, some, List, [], ◌∷◌, ℕ_key, text_key,
}
use blockrun_multiversx_plat.Base.Thrown.{Thrown}
use blockrun_multiversx_plat.Base.Text.{units, includes, lower, same_units, units_key}
use blockrun_multiversx_plat.Base.Int.{ℤ}
use blockrun_multiversx_plat.Parsing.Defs.{Decoders}
use blockrun_multiversx_plat.Relayers.Pool.Defs.{Signers}

-- The fields of an SDK `Transaction` that the services set.
pub record Tx (Addr Bytes : Type 0) : Type 0 where
  pub nonce : ℕ
  pub value : ℤ
  pub sender : Addr
  pub receiver : Addr
  pub gas_price : ℕ
  pub gas_limit : ℕ
  pub call_data : String
  pub chain_id : String
  pub version : ℕ
  pub options : ℕ
  pub relayer : Option Addr
  pub guardian : Option Addr
  pub signature : Bytes
  pub relayer_signature : Option Bytes
  pub guardian_signature : Option Bytes

-- `ISimulationResult`
pub record Simulation : Type 0 where
  pub status : Option (List ℕ)
  pub fail_reason : Option (List ℕ)
  pub return_code : Option (List ℕ)
  pub return_message : Option (List ℕ)

-- The SDK: addresses from bech32 texts and back, bytes from hexadecimal texts, a signature checked
-- over the bytes of a transaction, and a transaction signed. Any of these but the bytes may throw.
pub record Sdk (Addr Bytes Signer : Type 0) : Type 0 where
  pub new_from_bech32 : String → Thrown Addr
  pub bech32_of : Addr → String
  pub hex_bytes : String → Bytes
  pub verify_signature : Addr → Tx Addr Bytes → Bytes → Thrown Bool
  pub sign : Signer → Tx Addr Bytes → Thrown Bytes
  pub signers : Signers Signer
  pub decoders : Decoders

-- `status` is "success" or "executed", or `returnCode` is "ok" or "success", in any case of letters.
abbrev pub is_text : Option (List ℕ) → String → Bool
is_text none t = false
is_text (some s) t = same_units (lower s) (units t)

unfoldable pub is_success : Simulation → Bool
is_success r =
    is_text r.status "success"
    || is_text r.status "executed"
    || is_text r.return_code "ok"
    || is_text r.return_code "success"

-- `a || b` on texts that may be missing.
abbrev pub or_text : Option (List ℕ) → List ℕ → List ℕ
or_text none b = b
or_text (some []) b = b
or_text (some (c ∷ s)) b = c ∷ s

unfoldable pub failure_reason : Simulation → List ℕ
failure_reason r =
    or_text r.fail_reason (or_text r.return_message (units "Simulation failed on network"))

abbrev pub mentions : List ℕ → String → Bool
mentions s t = includes (lower s) (units t)
