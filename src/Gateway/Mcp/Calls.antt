-- ===== src/Gateway/Mcp/Calls.antt =====
-- src/gateway/mcp_gateway.ts: the state of the gateway, the registration of tools, and paid calls. One
-- time is read for what a handler does at once; a tool's run has a start and an end.
use blockrun_multiversx_plat.Base.{
  ℕ, ◌-◌, String, ◌⊎◌, inl, inr, Bool, not, ◌&&◌, Option, none, some, List, [], ◌∷◌, if◌then◌else◌,
  ℕ_key, text_key, or_else, is_some,
}
use blockrun_multiversx_plat.Base.Dict.{Dict, set, has}
use blockrun_multiversx_plat.Base.Thrown.{Thrown, ok, err}
use blockrun_multiversx_plat.Base.Text.{units, truthy_opt, starts_with, units_key}
use blockrun_multiversx_plat.Domain.{Requirements, Request, VerifyResponse}
use blockrun_multiversx_plat.Services.Merchants.Defs.{
  MerchantPool, or_default, get_merchant_address_for_user,
}
use blockrun_multiversx_plat.Services.Facilitator.{
  Facilitator, PaymentPayload, paying, Verdict, unanswered, refused, accepted_payment, verdict_of,
  receipt_of,
}
use blockrun_multiversx_plat.Gateway.Breaker.Defs.{Breaker}
use blockrun_multiversx_plat.Gateway.Mcp.Registry.{
  ToolDefinition, ToolStatus, healthy, ToolHealth, Registry, get_local_tool, register_local_tool,
  record_tool_heartbeat, record_tool_execution,
}
use blockrun_multiversx_plat.Gateway.Mcp.Register.{
  Keys, RegisterRequest, RegisterResponse, registered, tool_of, examine,
}
use blockrun_multiversx_plat.Gateway.Mcp.Executor.{
  ToolResult, UpstreamReply, ToolHandler, external_tool, Timing, execute_tool,
}

pub record McpSettings : Type 0 where
  pub network : String
  pub executor_timeout_ms : ℕ
  pub merchant_pool : MerchantPool
  pub settles : Bool

-- The parts that the gateway is configured with: the SDK, the parsing of a payment header, the
-- upstreams and the program's own tools, the refund of an escrow, and the log of proofs.
pub record McpPorts (Addr Key Sig Local Args : Type 0) : Type 0 where
  pub keys : Keys Addr Key Sig
  pub shard_of : String → Thrown ℕ
  pub from_base64 : String → String
  pub parse_payload : String → Thrown PaymentPayload
  pub post : String → String → Args → UpstreamReply
  pub run_local : Local → Args → Thrown ToolResult
  pub refund : Option (String → Thrown String)
  pub log_proof : Option (String → ToolDefinition → Args → ToolResult → Thrown String)

pub record McpGateway (Local S : Type 0) : Type 0 where
  pub registry : Registry
  pub handlers : Dict String (ToolHandler Local)
  pub circuit_breaker : Breaker
  pub facilitator : S

-- What a paid handler reads of a request that the schema accepts, with the ids drawn for it.
pub record CallRequest (Args : Type 0) : Type 0 where
  pub tool_name : Option String
  pub payment_signature : Option String
  pub x_payment_signature : Option String
  pub body_signature : Option String
  pub payer_address : Option String
  pub arguments : Args
  pub timing : Timing
  pub job_id : String
  pub random_hash : String

-- The answers to a call. `completed_call` is the one with `X-Payment-Settled: true`, `failed_call` the
-- one with `X-Payment-Settled: false` and `X-Payment-Refunded: true`.
pub data CallResponse : Type 0 where
  missing_tool_name : CallResponse
  tool_not_found : String → CallResponse
  call_challenge : Requirements → CallResponse
  malformed_payment : CallResponse
  call_refused : VerifyResponse → CallResponse
  call_threw : String → CallResponse
  failed_call :
      (result : ToolResult) (job : String) (refund_transaction : Option String) → CallResponse
  completed_call :
      (result : ToolResult) (receipt job : String) (proof : Option String) → CallResponse

-- `a || b || c` on the headers and the body.
abbrev pub raw_signature : {Args : Type 0} → CallRequest Args → Option String
raw_signature q =
    if truthy_opt q.payment_signature
    then q.payment_signature
    else (if truthy_opt q.x_payment_signature then q.x_payment_signature else q.body_signature)

-- `initExternalToolHandlers`, over the tools in the order of the registry.
unfoldable pub init_external_handlers :
    {Local : Type 0}
    → List ToolDefinition
    → Dict String (ToolHandler Local)
    → Dict String (ToolHandler Local)
init_external_handlers [] handlers = handlers
init_external_handlers (t ∷ ts) handlers = init_external_handlers ts (
    if truthy_opt t.endpoint_url && not (has t.name handlers)
    then set t.name (external_tool t.name (or_else t.endpoint_url "")) handlers
    else handlers)

module _ {Addr Key Sig Local Args : Type 0} (settings : McpSettings)
    (ports : McpPorts Addr Key Sig Local Args) where
  unfoldable pub call_requirements : ToolDefinition → CallRequest Args → Requirements
  call_requirements tool q = record {
    scheme = "exact";
    network = settings.network;
    asset = tool.pricing.token;
    amount = tool.pricing.micro_usdc;
    pay_to =
        or_default tool.pay_to
          (get_merchant_address_for_user ports.shard_of q.payer_address settings.merchant_pool).0;
    max_timeout_seconds = 300;
  }

  unfoldable pub decode_payment : String → Thrown PaymentPayload
  decode_payment raw =
      if starts_with (units raw) (units "{")
      then ports.parse_payload raw
      else ports.parse_payload (ports.from_base64 raw)

  -- A refund that throws leaves no transaction, as one that is not configured does.
  unfoldable pub refund_of : String → Option String
  refund_of job = elim ports.refund [
    | none ↦ none
    | some refund ↦ elim (refund job) [ ok h ↦ some h | err m ↦ none ]
  ]

  unfoldable pub proof_of : String → ToolDefinition → Args → ToolResult → Option String
  proof_of job tool args result = elim ports.log_proof [
    | none ↦ none
    | some log ↦ elim (log job tool args result) [ ok p ↦ some p | err m ↦ none ]
  ]

  module _ {S : Type 0} where
    -- The tool is stored, wired to its endpoint if it has one, and has its first heartbeat.
    unfoldable pub store_tool : ℕ → RegisterRequest → McpGateway Local S → McpGateway Local S
    store_tool now b g =
        let r = register_local_tool now (tool_of settings.network b) g.registry in
        record g {
          registry = (record_tool_heartbeat now b.name 10 healthy r).1;
          handlers =
              if truthy_opt b.endpoint_url
              then set b.name (external_tool b.name (or_else b.endpoint_url "")) g.handlers
              else g.handlers;
        }

    abbrev pub on_examined :
        ℕ
        → RegisterRequest
        → RegisterResponse ⊎ Bool
        → McpGateway Local S
        → RegisterResponse × McpGateway Local S
    on_examined now b (inl stopped) g = (stopped, g)
    on_examined now b (inr verified) g =
        (registered (tool_of settings.network b) verified, store_tool now b g)

    unfoldable pub register_tool :
        ℕ → RegisterRequest → McpGateway Local S → RegisterResponse × McpGateway Local S
    register_tool now b g =
        on_examined now b (examine ports.keys (get_local_tool b.name g.registry) b) g

    -- `POST /mcp/v1/tools/:name/heartbeat`, with the latency and the status that the body gives.
    unfoldable pub heartbeat :
        ℕ
        → String
        → Option ℕ
        → Option ToolStatus
        → McpGateway Local S
        → Option ToolHealth × McpGateway Local S
    heartbeat now name latency status g =
        let (h, r) =
          record_tool_heartbeat now name (or_else latency 15) (or_else status healthy) g.registry in
        if is_some (get_local_tool name g.registry)
        then (some h, record g { registry = r })
        else (none, g)

    module _ {Accepted : ℕ → S → Request → Type 0} (f : Facilitator S Accepted) where
      -- The settlement after a run, where there is a queue; it shows in the receipt only.
      unfoldable pub settle_call :
          CallRequest Args
          → ToolDefinition
          → Request
          → ToolResult
          → McpGateway Local S
          → CallResponse × McpGateway Local S
      unfolding proof_of
      settle_call q tool payment result g =
          let proof = proof_of q.job_id tool q.arguments result in
          let (settlement, s) = f.settle_payment q.timing.ended payment g.facilitator in
          if settings.settles
          then (
            completed_call result (receipt_of q.random_hash settlement) q.job_id proof,
            record g { facilitator = s },
          )
          else (completed_call result q.random_hash q.job_id proof, g)

      -- A result that is an error is not settled.
      unfoldable pub finish_call :
          CallRequest Args
          → ToolDefinition
          → Request
          → ToolResult
          → McpGateway Local S
          → CallResponse × McpGateway Local S
      unfolding refund_of
      finish_call q tool payment result g =
          if result.is_error
          then (failed_call result q.job_id (refund_of q.job_id), g)
          else settle_call q tool payment result g

      -- The run of the tool, and its entry in the health of the tool.
      unfoldable pub run_call :
          CallRequest Args
          → String
          → ToolDefinition
          → Request
          → McpGateway Local S
          → CallResponse × McpGateway Local S
      run_call q name tool payment g =
          let (result, b) =
            execute_tool ports.post ports.run_local settings.executor_timeout_ms q.timing name
              q.arguments g.handlers g.circuit_breaker in
          let r =
            record_tool_execution q.timing.ended name (not result.is_error)
              (q.timing.ended - q.timing.started) g.registry in
          finish_call q tool payment result (record g { registry = r; circuit_breaker = b })

      unfoldable pub on_call_verdict :
          CallRequest Args
          → String
          → ToolDefinition
          → Request
          → Verdict
          → McpGateway Local S
          → CallResponse × McpGateway Local S
      on_call_verdict q name tool payment (unanswered m) g = (call_threw m, g)
      on_call_verdict q name tool payment (refused r) g = (call_refused r, g)
      on_call_verdict q name tool payment accepted_payment g = run_call q name tool payment g

      unfoldable pub on_call_header :
          CallRequest Args
          → String
          → ToolDefinition
          → Thrown PaymentPayload
          → McpGateway Local S
          → CallResponse × McpGateway Local S
      on_call_header q name tool (err m) g = (malformed_payment, g)
      on_call_header q name tool (ok p) g =
          let payment = paying p (call_requirements tool q) in
          let (answer, s) = f.verify_payment q.timing.started payment g.facilitator in
          on_call_verdict q name tool payment (verdict_of answer) (record g { facilitator = s })

      unfoldable pub call_found :
          CallRequest Args
          → String
          → Option ToolDefinition
          → McpGateway Local S
          → CallResponse × McpGateway Local S
      call_found q name none g = (tool_not_found name, g)
      call_found q name (some tool) g =
          if truthy_opt (raw_signature q)
          then on_call_header q name tool (decode_payment (or_else (raw_signature q) "")) g
          else (call_challenge (call_requirements tool q), g)

      unfoldable pub call_tool :
          CallRequest Args → McpGateway Local S → CallResponse × McpGateway Local S
      call_tool q g =
          let name = or_else q.tool_name "" in
          if truthy_opt q.tool_name
          then call_found q name (get_local_tool name g.registry) g
          else (missing_tool_name, g)
