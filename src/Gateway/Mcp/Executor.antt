-- ===== src/Gateway/Mcp/Executor.antt =====
-- src/services/mcp_executor.ts, and the handler of src/gateway/mcp_gateway.ts that forwards the calls of
-- an external tool through the circuit breaker.
use blockrun_multiversx_plat.Base.{
  ℕ, String, Bool, true, false, ◌||◌, Option, none, some, List, [], ◌∷◌, if◌then◌else◌, ℕ_key,
  text_key, or_else,
}
use blockrun_multiversx_plat.Base.Dict.{Dict, get}
use blockrun_multiversx_plat.Base.Thrown.{Thrown, ok, err}
use blockrun_multiversx_plat.Base.Text.{units, ◌<>◌, includes, show_ℕ, units_key}
use blockrun_multiversx_plat.Gateway.Breaker.Defs.{
  Breaker, Ending, returns, throws, Executed, value, circuit_open, upstream_timeout, rethrown,
  execute,
}
use blockrun_multiversx_plat.Gateway.Breaker.Defs.{
  returns, throws, value, circuit_open, upstream_timeout, rethrown,
}

-- `McpToolCallResult`: the texts of the content.
pub record ToolResult : Type 0 where
  pub content : List String
  pub is_error : Bool
  pub error_code : Option String

-- What the upstream answers to a call: a status that is no success with its text, or JSON data, which
-- may bring a content, with its own text. Or `fetch` throws.
pub data UpstreamReply : Type 0 where
  status_error : ℕ → String → UpstreamReply
  json_data :
      (content : Option (List String)) (text : String) (is_error : Bool) (code : Option String)
      → UpstreamReply
  fetch_throws : (is_abort : Bool) → String → UpstreamReply

-- How the action of `execute` ends, when the timer has fired by then or not.
unfoldable pub upstream_ending : Bool → UpstreamReply → Ending ToolResult
upstream_ending aborted (status_error status text) =
    throws false aborted ("Upstream tool error (" <> show_ℕ status <> "): " <> text)
upstream_ending aborted (json_data content text is_error code) =
    returns
      (record { content = or_else content (text ∷ []); is_error = is_error; error_code = code })
upstream_ending aborted (fetch_throws is_abort m) = throws is_abort aborted m

abbrev pub error_result : String → Option String → ToolResult
error_result text code = record { content = text ∷ []; is_error = true; error_code = code }

-- The result of a call by how `execute` ends. The messages are those of the two error classes.
unfoldable pub external_result : Executed ToolResult → ToolResult
external_result (value r) = r
external_result (circuit_open name) =
    error_result ("Tool circuit breaker is OPEN for '" <> name <> "'. Upstream service degraded.")
      (some "TOOL_CIRCUIT_OPEN")
external_result (upstream_timeout name ms) =
    error_result ("Upstream tool '" <> name <> "' request timed out after " <> show_ℕ ms <> "ms")
      (some "TOOL_UPSTREAM_TIMEOUT")
external_result (rethrown m) =
    if includes (units m) (units "timed out") || includes (units m) (units "Timeout")
    then error_result m (some "TOOL_UPSTREAM_TIMEOUT")
    else error_result ("Upstream connection failed: " <> m) (some "TOOL_UPSTREAM_ERROR")

-- A handler is one of the gateway's for an endpoint, or one of the program that runs it.
pub data ToolHandler (Local : Type 0) : Type 0 where
  external_tool : (name url : String) → ToolHandler Local
  local_tool : Local → ToolHandler Local

-- When a call starts and ends, whether the breaker's timer has fired by then, and whether the
-- executor's own timer was first.
pub record Timing : Type 0 where
  pub started : ℕ
  pub ended : ℕ
  pub aborted : Bool
  pub outrun : Bool

module _ {Local Args : Type 0} (post : String → String → Args → UpstreamReply)
    (run_local : Local → Args → Thrown ToolResult) where
  -- `createExternalToolHandler`, and the handlers of the program.
  unfoldable pub run_handler :
      Timing → ToolHandler Local → Args → Breaker → Thrown ToolResult × Breaker
  unfolding upstream_ending external_result
  run_handler t (external_tool name url) args b =
      let (ended, b') =
        execute b name t.started t.ended (upstream_ending t.aborted (post url name args)) in
      (ok (external_result ended), b')
  run_handler t (local_tool l) args b = (run_local l args, b)

  -- `Promise.race`: an outrun handler still runs to its end.
  abbrev pub raced : ℕ → Timing → Thrown ToolResult → Thrown ToolResult
  raced timeout_ms t r =
      if t.outrun then err ("Tool execution timed out after " <> show_ℕ timeout_ms <> "ms") else r

  abbrev pub caught : Thrown ToolResult → ToolResult
  caught (ok r) = r
  caught (err m) = error_result ("Execution error: " <> m) none

  unfoldable pub execute_tool :
      ℕ → Timing → String → Args → Dict String (ToolHandler Local) → Breaker → ToolResult × Breaker
  unfolding run_handler
  execute_tool timeout_ms t name args handlers b = elim (get name handlers) [
    | none ↦ (error_result ("Tool '" <> name <> "' not found on upstream executor.") none, b)
    | some h ↦ let (r, b') = run_handler t h args b in (caught (raced timeout_ms t r), b')
  ]
