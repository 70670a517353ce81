-- ===== src/Gateway/Mcp/Replay.antt =====
-- What one signature for a tool of src/gateway/mcp_gateway.ts authorises: every later registration under
-- the name of the tool by the payee, whatever its price and its endpoint.
use blockrun_multiversx_plat.Base.{
  ℕ, String, ◌≡◌, refl, sym, ap, ◌∙◌, inl, inr, Bool, true, none, some, List, [], ◌∷◌, arith,
  same_ℕ, ◌===◌, ℕ_key, text_key, or_else,
}
use blockrun_multiversx_plat.Base.Thrown.{ok, ◌>>=◌}
use blockrun_multiversx_plat.Base.Lists.{length, any, Member}
use blockrun_multiversx_plat.Base.Text.{◌<>◌, truthy, truthy_opt, units_key}
use blockrun_multiversx_plat.Services.Merchants.Defs.{or_default}
use blockrun_multiversx_plat.Gateway.Mcp.Registry.{ToolDefinition, get_local_tool}
use blockrun_multiversx_plat.Gateway.Mcp.Register.{
  Keys, RegisterRequest, registered, identity_owner, sig_to_verify, tool_pay_to, clean_signature,
  candidate_messages, tool_of, is_true, returned, judge, signed_some, check_signature, owner_valid,
  examine,
}
use blockrun_multiversx_plat.Gateway.Mcp.Calls.{
  McpSettings, McpPorts, McpGateway, on_examined, register_tool,
}

any_complete :
    {A : Type 0} (p : A → Bool) (xs : List A) {x : A} → Member x xs → p x ≡ true → any p xs ≡ true
any_complete p [] m h = absurd m
any_complete p (y ∷ ys) (inl e) h = ground (arith, ap p e, h)
any_complete p (y ∷ ys) (inr m) h = ground (arith, any_complete p ys m h)

module _ {Addr Key Sig : Type 0} (keys : Keys Addr Key Sig) where
  check_signature-replayed :
      (t : ToolDefinition) (b : RegisterRequest) (payee text : String) (address : Addr) (key : Key)
      → t.pay_to ≡ some payee
      → truthy payee ≡ true
      → keys.new_from_bech32 payee ≡ ok address
      → keys.verifier_of address ≡ ok key
      → keys.verify_message key
          ("mcp-tool-register:" <> b.name)
          (keys.signature_bytes (same_ℕ (length (clean_signature text)) 128) (clean_signature text))
        ≡ ok true
      → check_signature keys (some t) b text ≡ ok true
  unfolding check_signature signed_some candidate_messages
  check_signature-replayed t b payee text address key pays p a k v =
      let signer : or_default t.pay_to b.pay_to ≡ payee = ground (arith, pays, p) in
      let sig =
        keys.signature_bytes (same_ℕ (length (clean_signature text)) 128) (clean_signature text) in
      let some_signed : signed_some keys key sig (candidate_messages b) ≡ true =
        any_complete (λ m. is_true (keys.verify_message key m sig)) (candidate_messages b)
          (inr (inr (inr (inr (inl refl))))) (ap is_true v) in
      let address' : keys.new_from_bech32 (or_default t.pay_to b.pay_to) ≡ ok address =
        ap keys.new_from_bech32 signer ∙ a in
      ap
        (λ x.
          x >>= λ d. keys.verifier_of d >>= λ y. ok (signed_some keys y sig (candidate_messages b)))
        address'
      ∙ ap (λ x. x >>= λ y. ok (signed_some keys y sig (candidate_messages b))) k
      ∙ ap ok some_signed

  examine-replayed :
      (t : ToolDefinition) (b : RegisterRequest) (payee text : String) (address : Addr)
      → t.pay_to ≡ some payee
      → b.pay_to ≡ payee
      → b.signature ≡ some text
      → truthy text ≡ true
      → b.agent_identity ≡ none
      → keys.new_from_bech32 payee ≡ ok address
      → check_signature keys (some t) b text ≡ ok true
      → examine keys (some t) b ≡ inr true
  unfolding examine
  examine-replayed t b payee text address pays same sig s alone a v =
      let valid : returned (keys.new_from_bech32 b.pay_to) ≡ true =
        ap returned (ap keys.new_from_bech32 same ∙ a) in
      let own : (or_else (tool_pay_to (some t)) "" === b.pay_to) ≡ true =
        (text_key.same_iff _ _).1 (ap (λ x. or_else x "") pays ∙ sym same) in
      let given : sig_to_verify b ≡ some text = ground (arith, sig, s) in
      let verdict : judge (check_signature keys (some t) b (or_else (sig_to_verify b) ""))
          ≡ inr true =
        ap (λ x. judge (check_signature keys (some t) b (or_else x ""))) given ∙ ap judge v in
      let truthful : truthy_opt (sig_to_verify b) ≡ true = ap truthy_opt given ∙ s in
      let ownerless : owner_valid keys (identity_owner b.agent_identity) ≡ true =
        ap (λ x. owner_valid keys (identity_owner x)) alone in
      ground (arith, valid, own, verdict, truthful, ownerless)

module _ {Addr Key Sig Local Args : Type 0} (settings : McpSettings)
    (ports : McpPorts Addr Key Sig Local Args) {S : Type 0} where
  -- A signature by a payee on `mcp-tool-register:` and the name of the payee's tool lets every
  -- registration through that brings it with that name and payee and with no agent identity: the price,
  -- the token, the description and the endpoint are the request's.
  pub register_tool-replayed :
      (now : ℕ) (b : RegisterRequest) (payee text : String) (g : McpGateway Local S)
      (t : ToolDefinition) (address : Addr) (key : Key)
      → get_local_tool b.name g.registry ≡ some t
      → t.pay_to ≡ some payee
      → truthy payee ≡ true
      → b.pay_to ≡ payee
      → b.signature ≡ some text
      → truthy text ≡ true
      → b.agent_identity ≡ none
      → ports.keys.new_from_bech32 payee ≡ ok address
      → ports.keys.verifier_of address ≡ ok key
      → ports.keys.verify_message key ("mcp-tool-register:" <> b.name) (
          ports.keys.signature_bytes
            (same_ℕ (length (clean_signature text)) 128)
            (clean_signature text))
        ≡ ok true
      → (register_tool settings ports now b g).0 ≡ registered (tool_of settings.network b) true
  unfolding register_tool
  register_tool-replayed now b payee text g t address key found pays p same sig s alone a k v =
      let verdict = check_signature-replayed ports.keys t b payee text address key pays p a k v in
      let passed =
        examine-replayed ports.keys t b payee text address pays same sig s alone a verdict in
      ap (λ x. (on_examined settings ports now b (examine ports.keys x b) g).0) found
      ∙ ap (λ x. (on_examined settings ports now b x g).0) passed
