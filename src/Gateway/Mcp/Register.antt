-- ===== src/Gateway/Mcp/Register.antt =====
-- src/gateway/mcp_gateway.ts: `POST /mcp/v1/tools/register`, after the schema has accepted the body.
-- The SDK's addresses and signatures are `Keys`.
use blockrun_multiversx_plat.Base.{
  ℕ, String, ◌⊎◌, inl, inr, Bool, true, false, not, ◌&&◌, Option, none, some, List, [], ◌∷◌, same_ℕ,
  if◌then◌else◌, ◌===◌, ℕ_key, text_key, or_else, is_some,
}
use blockrun_multiversx_plat.Base.Thrown.{Thrown, ok, err, ◌>>=◌}
use blockrun_multiversx_plat.Base.Lists.{length, drop, any}
use blockrun_multiversx_plat.Base.Text.{
  units, ◌<>◌, truthy, truthy_opt, starts_with, includes, show_ℕ, units_key,
}
use blockrun_multiversx_plat.Services.Merchants.Defs.{or_default}
use blockrun_multiversx_plat.Gateway.Mcp.Registry.{ToolPricing, ToolDefinition}

-- Addresses from bech32, the verifier of an address, `Buffer.from(signature, hex or base64)`, and the
-- verifier's verdict on a message, which may throw.
pub record Keys (Addr Key Sig : Type 0) : Type 0 where
  pub new_from_bech32 : String → Thrown Addr
  pub verifier_of : Addr → Thrown Key
  pub signature_bytes : (is_hex : Bool) → List ℕ → Sig
  pub verify_message : Key → String → Sig → Thrown Bool

pub record AgentIdentity : Type 0 where
  pub agent_nonce : ℕ
  pub owner_address : Option String
  pub signature : Option String

-- `McpToolRegisterRequest`, with the schema's defaults filled in.
pub record RegisterRequest : Type 0 where
  pub name : String
  pub description : String
  pub input_schema : String
  pub pricing : ToolPricing
  pub pay_to : String
  pub agent_identity : Option AgentIdentity
  pub signature : Option String
  pub endpoint_url : Option String

pub data RegisterResponse : Type 0 where
  invalid_pay_to : RegisterResponse
  hijacking : String → RegisterResponse
  signature_required : RegisterResponse
  invalid_owner : RegisterResponse
  invalid_signature : RegisterResponse
  verification_failed : String → RegisterResponse
  registered : ToolDefinition → (identity_verified : Bool) → RegisterResponse

abbrev pub identity_signature : Option AgentIdentity → Option String
identity_signature none = none
identity_signature (some i) = i.signature

abbrev pub identity_owner : Option AgentIdentity → Option String
identity_owner none = none
identity_owner (some i) = i.owner_address

-- `body.signature || body.agentIdentity?.signature`
abbrev pub sig_to_verify : RegisterRequest → Option String
sig_to_verify b =
    if truthy_opt b.signature then b.signature else identity_signature b.agent_identity

abbrev pub tool_pay_to : Option ToolDefinition → Option String
tool_pay_to none = none
tool_pay_to (some t) = t.pay_to

-- The tool is there with another payee.
abbrev pub is_hijack : Option ToolDefinition → RegisterRequest → Bool
is_hijack existing b =
    truthy_opt (tool_pay_to existing) && not (or_else (tool_pay_to existing) "" === b.pay_to)

-- `sig.replace(/^0x/, "")`
abbrev pub clean_signature : String → List ℕ
clean_signature s = if starts_with (units s) (units "0x") then drop 2 (units s) else units s

abbrev pub nonce_text : Option AgentIdentity → String
nonce_text none = ""
nonce_text (some i) = show_ℕ i.agent_nonce

unfoldable pub candidate_messages : RegisterRequest → List String
candidate_messages b =
    let m = "mcp-tool-register:" <> b.name in
    (m <> ":" <> nonce_text b.agent_identity)
    ∷ (m <> ":" <> b.pricing.micro_usdc <> ":" <> b.pay_to)
    ∷ (m <> ":" <> b.pricing.micro_usdc)
    ∷ (m <> ":" <> b.pay_to)
    ∷ m
    ∷ []

-- `body.pricing.token || …`, where the token depends on the network.
abbrev pub token_or_default : String → String → String
token_or_default network token =
    if truthy token
    then token
    else (if includes (units network) (units ":D") then "USDC-350c4e" else "USDC-c76f1f")

abbrev pub provider_nonce : RegisterRequest → ℕ
provider_nonce b = elim b.agent_identity [
  | none ↦ b.pricing.provider_agent_nonce
  | some i ↦ i.agent_nonce
]

unfoldable pub tool_of : String → RegisterRequest → ToolDefinition
tool_of network b = record {
  name = b.name;
  description = b.description;
  input_schema = b.input_schema;
  pricing = record b.pricing {
    token = token_or_default network b.pricing.token;
    provider_agent_nonce = provider_nonce b;
  };
  pay_to = some b.pay_to;
  endpoint_url = b.endpoint_url;
  reputation_score = some 100;
  total_completed_jobs = some 0;
}

abbrev pub is_true : Thrown Bool → Bool
is_true (ok v) = v
is_true (err m) = false

abbrev pub returned {ℓ} : {A : Type ℓ} → Thrown A → Bool
returned (ok a) = true
returned (err m) = false

-- The verdict on the signature, as it ends a registration or lets it go on.
abbrev pub judge : Thrown Bool → RegisterResponse ⊎ Bool
judge (err m) = inl (verification_failed m)
judge (ok v) = if v then inr true else inl invalid_signature

module _ {Addr Key Sig : Type 0} (keys : Keys Addr Key Sig) where
  -- Some candidate message has this signature; a candidate on which the verifier throws has not.
  unfoldable pub signed_some : Key → Sig → List String → Bool
  signed_some key sig messages =
      any (λ message. is_true (keys.verify_message key message sig)) messages

  -- The verdict on a signature that is given, by the payee of the tool or of the request.
  unfoldable pub check_signature : Option ToolDefinition → RegisterRequest → String → Thrown Bool
  check_signature existing b text = do
    address ← keys.new_from_bech32 (or_default (tool_pay_to existing) b.pay_to)
    key ← keys.verifier_of address
    let clean = clean_signature text
    ok (
        signed_some key (keys.signature_bytes (same_ℕ (length clean) 128) clean)
          (candidate_messages b))

  abbrev pub owner_valid : Option String → Bool
  owner_valid none = true
  owner_valid (some owner) = if truthy owner then returned (keys.new_from_bech32 owner) else true

  -- What stops a registration, or whether the identity is verified.
  unfoldable pub examine : Option ToolDefinition → RegisterRequest → RegisterResponse ⊎ Bool
  examine existing b =
      let sig = sig_to_verify b in
      let judged = judge (check_signature existing b (or_else sig "")) in
      if not (returned (keys.new_from_bech32 b.pay_to))
      then inl invalid_pay_to
      else (if is_hijack existing b
          then inl (hijacking (or_else (tool_pay_to existing) ""))
          else (if is_some existing && not (truthy_opt sig)
              then inl signature_required
              else (if not (owner_valid (identity_owner b.agent_identity))
                  then inl invalid_owner
                  else (if truthy_opt sig
                      then judged
                      else inr (truthy_opt (identity_owner b.agent_identity))))))
