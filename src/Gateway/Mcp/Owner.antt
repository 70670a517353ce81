-- ===== src/Gateway/Mcp/Owner.antt =====
-- Who may change a tool of src/gateway/mcp_gateway.ts: its payee stays, and its payee signs.
use blockrun_multiversx_plat.Base.{
  String, ◌≡◌, refl, sym, ap, ◌∙◌, ◌⊎◌, inl, inr, Bool, true, false, not, some, List, [], ◌∷◌,
  arith, same_ℕ, if◌then◌else◌, ℕ_key, text_key, or_else, Bool-cases, Option-cases,
}
use blockrun_multiversx_plat.Base.Thrown.{Thrown, ok, err, >>=-returned, ok_inj}
use blockrun_multiversx_plat.Base.Lists.{length, any, Member}
use blockrun_multiversx_plat.Base.Text.{truthy, truthy_opt, units_key}
use blockrun_multiversx_plat.Services.Merchants.Defs.{or_default}
use blockrun_multiversx_plat.Gateway.Mcp.Registry.{ToolDefinition}
use blockrun_multiversx_plat.Gateway.Mcp.Register.{
  Keys, RegisterRequest, RegisterResponse, invalid_pay_to, hijacking, signature_required,
  invalid_owner, identity_owner, sig_to_verify, is_hijack, clean_signature, candidate_messages,
  is_true, returned, judge, signed_some, check_signature, owner_valid, examine,
}

any_sound :
    {A : Type 0} (p : A → Bool) (xs : List A)
    → any p xs ≡ true
    → (x : A) × Member x xs × (p x ≡ true)
any_sound p [] h = cc
any_sound p (x ∷ xs) h = elim (Bool-cases (p x)) [
  | inl e ↦ (x, inl refl, e)
  | inr e ↦ let (y, m, k) = any_sound p xs (ground (arith, h, e)) in (y, inr m, k)
]

is_true-ok : (t : Thrown Bool) → is_true t ≡ true → t ≡ ok true
is_true-ok (ok v) h = ap ok h
is_true-ok (err m) h = cc

unstopped :
    {v : Bool} (c : Bool) (stop : RegisterResponse) (rest : RegisterResponse ⊎ Bool)
    → (if c then inl stop else rest) ≡ inr v
    → (c ≡ false) × (rest ≡ inr v)
unstopped true stop rest h = cc
unstopped false stop rest h = (refl, h)

not-false : (b : Bool) → not b ≡ false → b ≡ true
not-false true h = refl
not-false false h = cc

judge-ok : (t : Thrown Bool) (v : Bool) → judge t ≡ inr v → t ≡ ok true
judge-ok (ok true) v h = refl
judge-ok (ok false) v h = cc
judge-ok (err m) v h = cc

module _ {Addr Key Sig : Type 0} (keys : Keys Addr Key Sig) where
  -- One of the messages that a registration may be signed as has the signature of an address.
  abbrev pub IsSignedBy : String → RegisterRequest → String → Type 0
  IsSignedBy payee b text =
      (address : Addr) × (keys.new_from_bech32 payee ≡ ok address)
      × (key : Key) × (keys.verifier_of address ≡ ok key)
      × (message : String) × Member message (candidate_messages b)
      × (keys.verify_message key message (
            keys.signature_bytes (same_ℕ (length (clean_signature text)) 128)
              (clean_signature text))
          ≡ ok true)

  -- The request brings a signature of the payee.
  abbrev pub Signed : String → RegisterRequest → Type 0
  Signed payee b = (text : String) × (sig_to_verify b ≡ some text) × IsSignedBy payee b text

  signed_some-found :
      (key : Key) (sig : Sig) (messages : List String)
      → signed_some keys key sig messages ≡ true
      → (message : String) × Member message messages
        × (keys.verify_message key message sig ≡ ok true)
  unfolding signed_some
  signed_some-found key sig messages h =
      let (message, m, k) = any_sound _ messages h in (message, m, is_true-ok _ k)

  check_signature-IsSignedBy :
      (t : ToolDefinition) (payee : String) (b : RegisterRequest) (text : String)
      → t.pay_to ≡ some payee
      → truthy payee ≡ true
      → check_signature keys (some t) b text ≡ ok true
      → IsSignedBy payee b text
  unfolding check_signature
  check_signature-IsSignedBy t payee b text e p h =
      let signer : or_default t.pay_to b.pay_to ≡ payee = ground (arith, e, p) in
      let (address, a, h1) = >>=-returned _ _ h in
      let (key, k, h2) = >>=-returned _ _ h1 in
      let (message, m, v) = signed_some-found key _ (candidate_messages b) (ok_inj _ _ h2) in
      (address, ap keys.new_from_bech32 (sym signer) ∙ a, key, k, message, m, v)

  pub examine-IsSignedBy :
      (t : ToolDefinition) (payee : String) (b : RegisterRequest) (v : Bool)
      → t.pay_to ≡ some payee
      → truthy payee ≡ true
      → examine keys (some t) b ≡ inr v
      → (b.pay_to ≡ payee) × Signed payee b
  unfolding examine
  examine-IsSignedBy t payee b v e p h =
      let (valid, h1) =
        unstopped (not (returned (keys.new_from_bech32 b.pay_to))) invalid_pay_to _ h in
      let (own, h2) = unstopped (is_hijack (some t) b) (hijacking (or_else t.pay_to "")) _ h1 in
      let (given, h3) = unstopped (not (truthy_opt (sig_to_verify b))) signature_required _ h2 in
      let (owner, h4) =
        unstopped (not (owner_valid keys (identity_owner b.agent_identity))) invalid_owner _ h3 in
      let signed : truthy_opt (sig_to_verify b) ≡ true = not-false _ given in
      let same : payee ≡ b.pay_to =
        (text_key.same_iff payee b.pay_to).0 (ground (arith, own, e, p)) in
      elim (Option-cases (sig_to_verify b)) [
        | inl none_given ↦ absurd (ground (arith, signed, none_given))
        | inr (text, g) ↦
            let verdict : judge (check_signature keys (some t) b text) ≡ inr v =
              ground (arith, h4, signed, g) in
            (
              sym same,
              (text, g, check_signature-IsSignedBy t payee b text e p (judge-ok _ v verdict)),
            )
      ]
