-- ===== src/Gateway/Mcp/Circuit.antt =====
-- The circuit breaker behind the calls of src/gateway/mcp_gateway.ts: a paid call of a tool whose circuit
-- is open.
use blockrun_multiversx_plat.Base.{
  ℕ, String, ◌≡◌, refl, ap, ◌∙◌, true, false, some, arith, ℕ_key, text_key,
}
use blockrun_multiversx_plat.Base.Dict.{Dict, get}
use blockrun_multiversx_plat.Base.Text.{units_key}
use blockrun_multiversx_plat.Domain.{Request}
use blockrun_multiversx_plat.Services.Facilitator.{Facilitator}
use blockrun_multiversx_plat.Gateway.Breaker.Defs.{Breaker, Ending, circuit_open, admit, execute}
use blockrun_multiversx_plat.Gateway.Mcp.Registry.{ToolDefinition}
use blockrun_multiversx_plat.Gateway.Mcp.Executor.{
  ToolResult, upstream_ending, external_result, ToolHandler, external_tool, Timing, run_handler,
  execute_tool,
}
use blockrun_multiversx_plat.Gateway.Mcp.Calls.{
  McpSettings, McpPorts, McpGateway, CallRequest, refund_of, finish_call, run_call,
}
use blockrun_multiversx_plat.Gateway.Mcp.Calls.{failed_call}
use blockrun_multiversx_plat.Gateway.Breaker.Defs.{circuit_open}

execute-refused :
    {A : Type 0} (b : Breaker) (name : String) (start end : ℕ) (action : Ending A)
    → (admit b name start).0 ≡ false
    → (execute b name start end action).0 ≡ circuit_open name
unfolding execute
execute-refused b name start end action h = ground (arith, h)

module _ {Addr Key Sig Local Args : Type 0} (settings : McpSettings)
    (ports : McpPorts Addr Key Sig Local Args) {S : Type 0} {Accepted : ℕ → S → Request → Type 0}
    (f : Facilitator S Accepted) where
  execute_tool-refused :
      (ms : ℕ) (t : Timing) (name url : String) (args : Args)
      (handlers : Dict String (ToolHandler Local)) (b : Breaker)
      → get name handlers ≡ some (external_tool name url)
      → (admit b name t.started).0 ≡ false
      → t.outrun ≡ false
      → (execute_tool ports.post ports.run_local ms t name args handlers b).0
        ≡ external_result (circuit_open name)
  unfolding execute_tool run_handler
  execute_tool-refused ms t name url args handlers b found refusal in_time =
      let ended = ap external_result (
        execute-refused b name t.started t.ended
          (upstream_ending t.aborted (ports.post url name args)) refusal) in
      ground (arith, found, ended, in_time)

  finish_call-failed :
      (q : CallRequest Args) (tool : ToolDefinition) (payment : Request) (result : ToolResult)
      (g : McpGateway Local S)
      → result.is_error ≡ true
      → finish_call settings ports f q tool payment result g
        ≡ (failed_call result q.job_id (refund_of settings ports q.job_id), g)
  unfolding finish_call
  finish_call-failed q tool payment result g h = ground (arith, h)

  -- While the circuit of an external tool does not admit a call, a call whose payment is accepted, and
  -- which the executor's timer does not outrun, is answered by the error of the open circuit, whatever
  -- the upstream would answer, and its payment is not settled.
  pub run_call-refused :
      (q : CallRequest Args) (name url : String) (tool : ToolDefinition) (payment : Request)
      (g : McpGateway Local S)
      → get name g.handlers ≡ some (external_tool name url)
      → (admit g.circuit_breaker name q.timing.started).0 ≡ false
      → q.timing.outrun ≡ false
      → let after = run_call settings ports f q name tool payment g in
        let result = external_result (circuit_open name) in
        (after.0 ≡ failed_call result q.job_id (refund_of settings ports q.job_id))
        × (result.error_code ≡ some "TOOL_CIRCUIT_OPEN")
        × (after.1.facilitator ≡ g.facilitator)
  unfolding run_call external_result
  run_call-refused q name url tool payment g found refusal in_time =
      let result =
        execute_tool-refused settings.executor_timeout_ms q.timing name url q.arguments g.handlers
          g.circuit_breaker found refusal in_time in
      let ended = finish_call-failed q tool payment _ _ (ap (λ x. x.is_error) result) in
      (
        ap (λ x. x.0) ended
            ∙ ap (λ x. failed_call x q.job_id (refund_of settings ports q.job_id)) result,
        refl,
        ap (λ x. x.1.facilitator) ended,
      )
