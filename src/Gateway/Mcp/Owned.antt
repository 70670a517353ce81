-- ===== src/Gateway/Mcp/Owned.antt =====
-- The tools of src/gateway/mcp_gateway.ts over time: a change of a tool that has a payee is signed by the
-- payee, and no sequence of registrations, calls and heartbeats gives the tool another payee.
use blockrun_multiversx_plat.Base.{
  ℕ, String, ◌≡◌, refl, sym, ap, ◌∙◌, subst, ◌⊎◌, inl, inr, Bool, true, Option, none, some, arith,
  ◌===◌, ℕ_key, text_key, or_else, is_some, Bool-cases, Option-cases,
}
use blockrun_multiversx_plat.Base.Dict.{get, set, get-set, get-set_other}
use blockrun_multiversx_plat.Base.Thrown.{Thrown, ok, err}
use blockrun_multiversx_plat.Base.Text.{truthy, truthy_opt, units_key}
use blockrun_multiversx_plat.Domain.{Request}
use blockrun_multiversx_plat.Services.Facilitator.{
  Facilitator, PaymentPayload, Verdict, unanswered, refused, accepted_payment,
}
use blockrun_multiversx_plat.Gateway.Mcp.Registry.{
  ToolDefinition, ToolStatus, Registry, get_local_tool, register_local_tool, record_tool_heartbeat,
  record_tool_execution,
}
use blockrun_multiversx_plat.Gateway.Mcp.Register.{
  RegisterRequest, RegisterResponse, tool_of, examine,
}
use blockrun_multiversx_plat.Gateway.Mcp.Executor.{ToolResult}
use blockrun_multiversx_plat.Gateway.Mcp.Calls.{
  McpSettings, McpPorts, McpGateway, CallRequest, raw_signature, decode_payment, store_tool,
  on_examined, register_tool, heartbeat, settle_call, finish_call, run_call, on_call_verdict,
  on_call_header, call_found, call_tool,
}
use blockrun_multiversx_plat.Gateway.Mcp.Owner.{Signed, examine-IsSignedBy}

-- A tool of that name is registered and has this payee, which is not empty.
abbrev pub PaysTo : String → String → Registry → Type 0
PaysTo payee name r =
    (t : ToolDefinition) × (get_local_tool name r ≡ some t)
    × (t.pay_to ≡ some payee)
    × (truthy payee ≡ true)

register_local_tool-tools :
    (now : ℕ) (tool : ToolDefinition) (r : Registry)
    → (register_local_tool now tool r).registered_tools ≡ set tool.name tool r.registered_tools
unfolding register_local_tool
register_local_tool-tools now tool r = elim (Option-cases (get tool.name r.tool_health)) [
  | inl e ↦ ground (arith, e)
  | inr (h, e) ↦ ground (arith, e)
]

tools-PaysTo :
    (payee name : String) (r r' : Registry)
    → r'.registered_tools ≡ r.registered_tools
    → PaysTo payee name r
    → PaysTo payee name r'
unfolding get_local_tool
tools-PaysTo payee name r r' same (t, found, pays, p) = (t, ap (get name) same ∙ found, pays, p)

module _ {Addr Key Sig Local Args : Type 0} (settings : McpSettings)
    (ports : McpPorts Addr Key Sig Local Args) {S : Type 0} where
  store_tool-tools :
      (now : ℕ) (b : RegisterRequest) (g : McpGateway Local S)
      → (store_tool settings ports now b g).registry.registered_tools
        ≡ set b.name (tool_of settings.network b) g.registry.registered_tools
  unfolding store_tool record_tool_heartbeat tool_of
  store_tool-tools now b g = register_local_tool-tools now (tool_of settings.network b) g.registry

  -- The tool of a name after a registration: as it was, or the request's own.
  on_examined-cases :
      (now : ℕ) (b : RegisterRequest) (name : String) (e : RegisterResponse ⊎ Bool)
      (g : McpGateway Local S)
      → let after = (on_examined settings ports now b e g).1 in
        (get_local_tool name after.registry ≡ get_local_tool name g.registry)
        ⊎ ((v : Bool) × (e ≡ inr v)
            × (b.name ≡ name)
            × (get_local_tool name after.registry ≡ some (tool_of settings.network b)))
  unfolding get_local_tool
  on_examined-cases now b name (inl stopped) g = inl refl
  on_examined-cases now b name (inr v) g =
      let stored = ap (get name) (store_tool-tools now b g) in
      elim (Bool-cases (b.name === name)) [
        | inl same ↦
            let n = (text_key.same_iff b.name name).0 same in
            let kept =
              get-set b.name name (tool_of settings.network b) g.registry.registered_tools in
            inr (v, refl, n, stored ∙ kept ∙ ground (arith, same))
        | inr other ↦ inl (stored ∙ get-set_other b.name name (tool_of settings.network b) _ other)
      ]

  -- A registration leaves a tool that has a payee as it is, or replaces it by the tool of the request;
  -- the request then names the same payee and brings a signature of the payee's on one of the five
  -- messages for it.
  pub register_tool-IsSignedBy :
      (now : ℕ) (b : RegisterRequest) (name payee : String) (g : McpGateway Local S)
      → PaysTo payee name g.registry
      → let after = (register_tool settings ports now b g).1 in
        (get_local_tool name after.registry ≡ get_local_tool name g.registry)
        ⊎ ((get_local_tool name after.registry ≡ some (tool_of settings.network b))
            × (b.pay_to ≡ payee)
            × Signed ports.keys payee b)
  unfolding register_tool
  register_tool-IsSignedBy now b name payee g (t, found, pays, p) =
      elim (on_examined-cases now b name (examine ports.keys (get_local_tool b.name g.registry) b)
        g) [
          | inl same ↦ inl same
          | inr (v, e, n, new) ↦
              let here : get_local_tool b.name g.registry ≡ some t =
                subst (λ x. get_local_tool x g.registry ≡ some t) (sym n) found in
              let passed : examine ports.keys (some t) b ≡ inr v =
                subst (λ x. examine ports.keys x b ≡ inr v) here e in
              let (same, signed) : (b.pay_to ≡ payee) × Signed ports.keys payee b =
                examine-IsSignedBy ports.keys t payee b v pays p passed in
              inr (new, same, signed)
        ]

  register_tool-PaysTo :
      (now : ℕ) (b : RegisterRequest) (name payee : String) (g : McpGateway Local S)
      → PaysTo payee name g.registry
      → PaysTo payee name (register_tool settings ports now b g).1.registry
  unfolding tool_of
  register_tool-PaysTo now b name payee g (t, found, pays, p) =
      elim (register_tool-IsSignedBy now b name payee g (t, found, pays, p)) [
        | inl same ↦ (t, same ∙ found, pays, p)
        | inr (new, same, signed) ↦ (tool_of settings.network b, new, ap some same, p)
      ]

  heartbeat-tools :
      (now : ℕ) (name : String) (latency : Option ℕ) (status : Option ToolStatus)
      (g : McpGateway Local S)
      → (heartbeat settings ports now name latency status g).1.registry.registered_tools
        ≡ g.registry.registered_tools
  unfolding heartbeat record_tool_heartbeat
  heartbeat-tools now name latency status g =
      elim (Bool-cases (is_some (get_local_tool name g.registry))) [
        | inl e ↦ ground (arith, e)
        | inr e ↦ ground (arith, e)
      ]

  module _ {Accepted : ℕ → S → Request → Type 0} (f : Facilitator S Accepted) where
    settle_call-tools :
        (q : CallRequest Args) (tool : ToolDefinition) (payment : Request) (result : ToolResult)
        (g : McpGateway Local S)
        → (settle_call settings ports f q tool payment result g).1.registry.registered_tools
          ≡ g.registry.registered_tools
    unfolding settle_call
    settle_call-tools q tool payment result g = elim (Bool-cases settings.settles) [
      | inl e ↦ ground (arith, e)
      | inr e ↦ ground (arith, e)
    ]

    finish_call-tools :
        (q : CallRequest Args) (tool : ToolDefinition) (payment : Request) (result : ToolResult)
        (g : McpGateway Local S)
        → (finish_call settings ports f q tool payment result g).1.registry.registered_tools
          ≡ g.registry.registered_tools
    unfolding finish_call
    finish_call-tools q tool payment result g = elim (Bool-cases result.is_error) [
      | inl e ↦ ground (arith, e)
      | inr e ↦ ground (arith, e, settle_call-tools q tool payment result g)
    ]

    run_call-tools :
        (q : CallRequest Args) (name : String) (tool : ToolDefinition) (payment : Request)
        (g : McpGateway Local S)
        → (run_call settings ports f q name tool payment g).1.registry.registered_tools
          ≡ g.registry.registered_tools
    unfolding run_call record_tool_execution
    run_call-tools q name tool payment g = finish_call-tools q tool payment _ _

    on_call_verdict-tools :
        (q : CallRequest Args) (name : String) (tool : ToolDefinition) (payment : Request)
        (v : Verdict) (g : McpGateway Local S)
        → (on_call_verdict settings ports f q name tool payment v g).1.registry.registered_tools
          ≡ g.registry.registered_tools
    unfolding on_call_verdict
    on_call_verdict-tools q name tool payment (unanswered m) g = refl
    on_call_verdict-tools q name tool payment (refused r) g = refl
    on_call_verdict-tools q name tool payment accepted_payment g =
        run_call-tools q name tool payment g

    on_call_header-tools :
        (q : CallRequest Args) (name : String) (tool : ToolDefinition) (d : Thrown PaymentPayload)
        (g : McpGateway Local S)
        → (on_call_header settings ports f q name tool d g).1.registry.registered_tools
          ≡ g.registry.registered_tools
    unfolding on_call_header
    on_call_header-tools q name tool (err m) g = refl
    on_call_header-tools q name tool (ok p) g = on_call_verdict-tools q name tool _ _ _

    call_found-tools :
        (q : CallRequest Args) (name : String) (tool : Option ToolDefinition)
        (g : McpGateway Local S)
        → (call_found settings ports f q name tool g).1.registry.registered_tools
          ≡ g.registry.registered_tools
    unfolding call_found
    call_found-tools q name none g = refl
    call_found-tools q name (some tool) g =
        let paid =
          on_call_header-tools q name tool
            (decode_payment settings ports (or_else (raw_signature q) "")) g in
        elim (Bool-cases (truthy_opt (raw_signature q))) [
          | inl e ↦ ground (arith, e, paid)
          | inr e ↦ ground (arith, e)
        ]

    call_tool-tools :
        (q : CallRequest Args) (g : McpGateway Local S)
        → (call_tool settings ports f q g).1.registry.registered_tools ≡ g.registry.registered_tools
    unfolding call_tool
    call_tool-tools q g =
        let name = or_else q.tool_name "" in
        let found = call_found-tools q name (get_local_tool name g.registry) g in
        elim (Bool-cases (truthy_opt q.tool_name)) [
          | inl e ↦ ground (arith, e, found)
          | inr e ↦ ground (arith, e)
        ]

    -- One request that changes the gateway.
    pub data GatewayStep : McpGateway Local S → McpGateway Local S → Type 0 where
      registers :
          (now : ℕ) (b : RegisterRequest) (g : McpGateway Local S)
          → GatewayStep g (register_tool settings ports now b g).1
      calls :
          (q : CallRequest Args) (g : McpGateway Local S)
          → GatewayStep g (call_tool settings ports f q g).1
      beats :
          (now : ℕ) (name : String) (latency : Option ℕ) (status : Option ToolStatus)
          (g : McpGateway Local S)
          → GatewayStep g (heartbeat settings ports now name latency status g).1

    pub data GatewayRun : McpGateway Local S → McpGateway Local S → Type 0 where
      no_request : (g : McpGateway Local S) → GatewayRun g g
      then_request :
          {g h k : McpGateway Local S} → GatewayRun g h → GatewayStep h k → GatewayRun g k

    step-PaysTo :
        (payee name : String) {g h : McpGateway Local S}
        → GatewayStep g h
        → PaysTo payee name g.registry
        → PaysTo payee name h.registry
    step-PaysTo payee name (registers now b g) p = register_tool-PaysTo now b name payee g p
    step-PaysTo payee name (calls q g) p =
        tools-PaysTo payee name g.registry _ (call_tool-tools q g) p
    step-PaysTo payee name (beats now tool latency status g) p =
        tools-PaysTo payee name g.registry _ (heartbeat-tools now tool latency status g) p

    -- Once a tool is registered with a payee that is not empty, no sequence of registrations, calls
    -- and heartbeats removes the tool or gives it another payee.
    pub run-PaysTo :
        (payee name : String) {g h : McpGateway Local S}
        → GatewayRun g h
        → PaysTo payee name g.registry
        → PaysTo payee name h.registry
    run-PaysTo payee name (no_request g) p = p
    run-PaysTo payee name (then_request run step) p =
        step-PaysTo payee name step (run-PaysTo payee name run p)
