-- ===== src/Gateway/Mcp/Paid.antt =====
-- Paid calls of src/gateway/mcp_gateway.ts: a tool runs only for an accepted payment of its price to its
-- payee, and a payment is settled only after a run without an error.
use blockrun_multiversx_plat.Base.{
  ℕ, String, ◌≡◌, refl, sym, subst, inl, inr, Bool, true, false, Option, none, some, arith,
  if◌then◌else◌, ℕ_key, text_key, or_else, Bool-cases, if_both,
}
use blockrun_multiversx_plat.Base.Thrown.{Thrown, ok, err}
use blockrun_multiversx_plat.Base.Text.{truthy, truthy_opt, units_key}
use blockrun_multiversx_plat.Domain.{Requirements, Request, VerifyResponse}
use blockrun_multiversx_plat.Services.Facilitator.{
  Facilitator, PaymentPayload, paying, Verdict, unanswered, refused, accepted_payment, verdict_of,
  verdict_of-sound,
}
use blockrun_multiversx_plat.Gateway.Mcp.Registry.{ToolDefinition, get_local_tool}
use blockrun_multiversx_plat.Gateway.Mcp.Executor.{ToolResult}
use blockrun_multiversx_plat.Gateway.Mcp.Calls.{
  McpSettings, McpPorts, McpGateway, CallRequest, CallResponse, missing_tool_name, tool_not_found,
  call_challenge, malformed_payment, call_refused, call_threw, raw_signature, call_requirements,
  decode_payment, refund_of, settle_call, finish_call, run_call, on_call_verdict, on_call_header,
  call_found, call_tool,
}
use blockrun_multiversx_plat.Gateway.Mcp.Calls.{failed_call, completed_call}

-- The tool has been run for the answer.
abbrev pub ran_tool : CallResponse → Bool
ran_tool missing_tool_name = false
ran_tool (tool_not_found name) = false
ran_tool (call_challenge r) = false
ran_tool malformed_payment = false
ran_tool (call_refused r) = false
ran_tool (call_threw m) = false
ran_tool (failed_call result job refund) = true
ran_tool (completed_call result receipt job proof) = true

module _ {Addr Key Sig Local Args : Type 0} (settings : McpSettings)
    (ports : McpPorts Addr Key Sig Local Args) {S : Type 0} {Accepted : ℕ → S → Request → Type 0}
    (f : Facilitator S Accepted) where
  on_call_verdict-accepted :
      (q : CallRequest Args) (name : String) (tool : ToolDefinition) (payment : Request)
      (v : Verdict) (g : McpGateway Local S)
      → ran_tool (on_call_verdict settings ports f q name tool payment v g).0 ≡ true
      → v ≡ accepted_payment
  unfolding on_call_verdict
  on_call_verdict-accepted q name tool payment (unanswered m) g h = cc
  on_call_verdict-accepted q name tool payment (refused r) g h = cc
  on_call_verdict-accepted q name tool payment accepted_payment g h = refl

  -- What is asked for a call: the tool's price in its token, for its payee where it has one.
  abbrev pub AsksFor : ToolDefinition → Requirements → Type 0
  AsksFor tool r =
      (r.amount ≡ tool.pricing.micro_usdc)
      × (r.asset ≡ tool.pricing.token)
      × ((payee : String) → tool.pay_to ≡ some payee → truthy payee ≡ true → r.pay_to ≡ payee)

  call_requirements-AsksFor :
      (tool : ToolDefinition) (q : CallRequest Args)
      → AsksFor tool (call_requirements settings ports tool q)
  unfolding call_requirements
  call_requirements-AsksFor tool q = (refl, refl, λ payee e full. ground (arith, e, full))

  -- The payment of a call: its header holds a payload that is accepted against the tool's price, token
  -- and payee.
  abbrev pub PaysCall : CallRequest Args → ToolDefinition → S → Type 0
  PaysCall q tool s =
      (p : PaymentPayload) × (decode_payment settings ports (or_else (raw_signature q) "") ≡ ok p)
      × Accepted q.timing.started s (paying p (call_requirements settings ports tool q))
      × AsksFor tool (call_requirements settings ports tool q)

  on_call_header-Accepted :
      (q : CallRequest Args) (name : String) (tool : ToolDefinition) (d : Thrown PaymentPayload)
      (g : McpGateway Local S)
      → ran_tool (on_call_header settings ports f q name tool d g).0 ≡ true
      → (p : PaymentPayload) × (d ≡ ok p)
        × Accepted q.timing.started g.facilitator
            (paying p (call_requirements settings ports tool q))
  unfolding on_call_header
  on_call_header-Accepted q name tool (err m) g h = cc
  on_call_header-Accepted q name tool (ok p) g h = (
    p,
    refl,
    verdict_of-sound f q.timing.started (paying p (call_requirements settings ports tool q))
        g.facilitator (on_call_verdict-accepted q name tool _ _ _ h),
  )

  call_found-PaysCall :
      (q : CallRequest Args) (name : String) (found : Option ToolDefinition)
      (g : McpGateway Local S)
      → ran_tool (call_found settings ports f q name found g).0 ≡ true
      → (tool : ToolDefinition) × (found ≡ some tool) × PaysCall q tool g.facilitator
  unfolding call_found
  call_found-PaysCall q name none g h = cc
  call_found-PaysCall q name (some tool) g h = elim (Bool-cases (truthy_opt (raw_signature q))) [
    | inl e ↦
        let (p, decoded, accepted) =
          on_call_header-Accepted q name tool _ g (ground (arith, h, e)) in
        (tool, refl, (p, decoded, accepted, call_requirements-AsksFor tool q))
    | inr e ↦ absurd (ground (arith, h, e))
  ]

  -- A tool runs for a call, whatever its result, only if it is registered under the name that the call
  -- gives, and the call's payment header holds a payload that the verifier accepts, when the call
  -- starts, against the price, the token and the payee of the tool.
  pub call_tool-PaysCall :
      (q : CallRequest Args) (g : McpGateway Local S)
      → ran_tool (call_tool settings ports f q g).0 ≡ true
      → (tool : ToolDefinition) × (get_local_tool (or_else q.tool_name "") g.registry ≡ some tool)
        × PaysCall q tool g.facilitator
  unfolding call_tool
  call_tool-PaysCall q g h = elim (Bool-cases (truthy_opt q.tool_name)) [
    | inl e ↦
        let name = or_else q.tool_name "" in
        call_found-PaysCall q name (get_local_tool name g.registry) g (ground (arith, h, e))
    | inr e ↦ absurd (ground (arith, h, e))
  ]

  -- What became of the facilitator by an answer: it has verified a payment and settled none, it has
  -- done nothing, or the run has ended without an error.
  abbrev pub Verified : ℕ → S → S → Type 0
  Verified now s s' = (payment : Request) × (s' ≡ (f.verify_payment now payment s).1)

  abbrev pub ClosesAs : ℕ → S → CallResponse → S → Type 0
  ClosesAs now s missing_tool_name s' = s' ≡ s
  ClosesAs now s (tool_not_found name) s' = s' ≡ s
  ClosesAs now s (call_challenge r) s' = s' ≡ s
  ClosesAs now s malformed_payment s' = s' ≡ s
  ClosesAs now s (call_refused r) s' = (r.is_valid ≡ false) × Verified now s s'
  ClosesAs now s (call_threw m) s' = Verified now s s'
  ClosesAs now s (failed_call result job refund) s' = (result.is_error ≡ true) × Verified now s s'
  ClosesAs now s (completed_call result receipt job proof) s' = result.is_error ≡ false

  abbrev Closes : ℕ → S → CallResponse × McpGateway Local S → Type 0
  Closes now s x = ClosesAs now s x.0 x.1.facilitator

  settle_call-Closes :
      (q : CallRequest Args) (tool : ToolDefinition) (payment : Request) (result : ToolResult)
      (s : S) (g : McpGateway Local S)
      → result.is_error ≡ false
      → Closes q.timing.started s (settle_call settings ports f q tool payment result g)
  unfolding settle_call
  settle_call-Closes q tool payment result s g h = elim (Bool-cases settings.settles) [
    | inl e ↦ ground (arith, e, h)
    | inr e ↦ ground (arith, e, h)
  ]

  finish_call-Closes :
      (q : CallRequest Args) (tool : ToolDefinition) (payment : Request) (result : ToolResult)
      (s : S) (g : McpGateway Local S)
      → Verified q.timing.started s g.facilitator
      → Closes q.timing.started s (finish_call settings ports f q tool payment result g)
  unfolding finish_call
  finish_call-Closes q tool payment result s g h = elim (Bool-cases result.is_error) [
    | inl e ↦
        let same : finish_call settings ports f q tool payment result g
            ≡ (failed_call result q.job_id (refund_of settings ports q.job_id), g) =
          ground (arith, e) in
        subst (Closes q.timing.started s) (sym same) (e, h)
    | inr e ↦
        let same : finish_call settings ports f q tool payment result g
            ≡ settle_call settings ports f q tool payment result g =
          ground (arith, e) in
        subst (Closes q.timing.started s) (sym same)
          (settle_call-Closes q tool payment result s g e)
  ]

  on_call_verdict-Closes :
      (q : CallRequest Args) (name : String) (tool : ToolDefinition) (payment : Request)
      (answer : Thrown VerifyResponse) (s : S) (g : McpGateway Local S)
      → Verified q.timing.started s g.facilitator
      → Closes q.timing.started s
          (on_call_verdict settings ports f q name tool payment (verdict_of answer) g)
  unfolding on_call_verdict run_call verdict_of
  on_call_verdict-Closes q name tool payment (err m) s g h = h
  on_call_verdict-Closes q name tool payment (ok r) s g h = elim (Bool-cases r.is_valid) [
    | inl v ↦
        let same : (if r.is_valid then accepted_payment else refused r) ≡ accepted_payment =
          ground (arith, v) in
        subst
          (λ x.
            Closes q.timing.started s (on_call_verdict settings ports f q name tool payment x g))
          (sym same) (finish_call-Closes q tool payment _ s _ h)
    | inr v ↦
        let same : (if r.is_valid then accepted_payment else refused r) ≡ refused r =
          ground (arith, v) in
        subst
          (λ x.
            Closes q.timing.started s (on_call_verdict settings ports f q name tool payment x g))
          (sym same) (v, h)
  ]

  on_call_header-Closes :
      (q : CallRequest Args) (name : String) (tool : ToolDefinition) (d : Thrown PaymentPayload)
      (g : McpGateway Local S)
      → Closes q.timing.started g.facilitator (on_call_header settings ports f q name tool d g)
  unfolding on_call_header
  on_call_header-Closes q name tool (err m) g = refl
  on_call_header-Closes q name tool (ok p) g =
      on_call_verdict-Closes q name tool _ _ g.facilitator _ (_, refl)

  call_found-Closes :
      (q : CallRequest Args) (name : String) (found : Option ToolDefinition)
      (g : McpGateway Local S)
      → Closes q.timing.started g.facilitator (call_found settings ports f q name found g)
  unfolding call_found
  call_found-Closes q name none g = refl
  call_found-Closes q name (some tool) g =
      if_both (Closes q.timing.started g.facilitator) (truthy_opt (raw_signature q))
        (on_call_header settings ports f q name tool
          (decode_payment settings ports (or_else (raw_signature q) "")) g)
        (call_challenge (call_requirements settings ports tool q), g)
        (on_call_header-Closes q name tool _ g) refl

  -- By the answer to a call: a completed call's result is no error; a failed call's result is one,
  -- and the facilitator has verified a payment and settled none, as after a refusal or a verifier that
  -- throws; and after every other answer it is as it was.
  pub call_tool-ClosesAs :
      (q : CallRequest Args) (g : McpGateway Local S)
      → let after = call_tool settings ports f q g in
        ClosesAs q.timing.started g.facilitator after.0 after.1.facilitator
  unfolding call_tool
  call_tool-ClosesAs q g =
      let name = or_else q.tool_name "" in
      if_both (Closes q.timing.started g.facilitator) (truthy_opt q.tool_name)
        (call_found settings ports f q name (get_local_tool name g.registry) g)
        (missing_tool_name, g) (call_found-Closes q name _ g) refl
