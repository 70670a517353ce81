-- ===== src/Gateway/Mcp/Tests.antt =====
-- Runs of the MCP gateway, and its theorems at concrete inputs.
use blockrun_multiversx_plat.Base.{
  ℕ, String, ◌≡◌, refl, ap, ◌⊎◌, true, false, none, some, List, [], ◌∷◌, if◌then◌else◌, ℕ_key,
  text_key,
}
use blockrun_multiversx_plat.Base.Dict.{get}
use blockrun_multiversx_plat.Base.Thrown.{ok, err}
use blockrun_multiversx_plat.Base.Text.{units, ◌<>◌, truthy, same_units, units_key}
use blockrun_multiversx_plat.Base.Int.{round_div}
use blockrun_multiversx_plat.Domain.{Requirements, direct}
use blockrun_multiversx_plat.Services.Samples.{answering, asked, paid, offer}
use blockrun_multiversx_plat.Services.Settler.Defs.{State}
use blockrun_multiversx_plat.Services.Settler.Samples.{settling, start, run_settler}
use blockrun_multiversx_plat.Services.Merchants.Defs.{
  get_merchant_address_for_shard, get_shard_of_address, get_merchant_address_for_user,
}
use blockrun_multiversx_plat.Services.Facilitator.{Facilitator, verdict_of, receipt_of, services}
use blockrun_multiversx_plat.Gateway.Breaker.Defs.{
  open_, Breaker, new_breaker, get_or_create, get_state, can_execute, record_success,
  record_failure, circuit_open, admit, conclude, execute,
}
use blockrun_multiversx_plat.Gateway.Breaker.Defs.{circuit_open, open_}
use blockrun_multiversx_plat.Gateway.Mcp.Registry.{
  ToolDefinition, healthy, Registry, new_registry, starting_health, get_tool_health, get_local_tool,
  register_local_tool, record_tool_heartbeat, status_after, record_tool_execution,
}
use blockrun_multiversx_plat.Gateway.Mcp.Register.{
  Keys, RegisterRequest, registered, clean_signature, candidate_messages, tool_of, signed_some,
  check_signature, examine,
}
use blockrun_multiversx_plat.Gateway.Mcp.Executor.{
  status_error, upstream_ending, external_result, external_tool, local_tool, run_handler,
  execute_tool,
}
use blockrun_multiversx_plat.Gateway.Mcp.Calls.{
  McpSettings, McpPorts, McpGateway, CallRequest, CallResponse, call_requirements, decode_payment,
  refund_of, proof_of, store_tool, register_tool, settle_call, finish_call, run_call,
  on_call_verdict, on_call_header, call_found, call_tool,
}
use blockrun_multiversx_plat.Gateway.Mcp.Calls.{failed_call, completed_call}
use blockrun_multiversx_plat.Gateway.Mcp.Owner.{Signed}
use blockrun_multiversx_plat.Gateway.Mcp.Owned.{
  PaysTo, register_tool-IsSignedBy, no_request, run-PaysTo,
}
use blockrun_multiversx_plat.Gateway.Mcp.Replay.{register_tool-replayed}
use blockrun_multiversx_plat.Gateway.Mcp.Paid.{
  ran_tool, PaysCall, call_tool-PaysCall, ClosesAs, call_tool-ClosesAs,
}
use blockrun_multiversx_plat.Gateway.Mcp.Circuit.{run_call-refused}
use blockrun_multiversx_plat.Gateway.Mcp.Health.{ToolRun}
use blockrun_multiversx_plat.Gateway.Mcp.Reading.{
  resource, read_requirements, on_read_verdict, on_read_header, read_resource,
}
use blockrun_multiversx_plat.Gateway.Mcp.Owned.{registers, no_request, then_request}
use blockrun_multiversx_plat.Gateway.Mcp.Reading.{resource}

abbrev mcp_settings : McpSettings
mcp_settings = record {
  network = "multiversx:D";
  executor_timeout_ms = 15000;
  merchant_pool = record { merchants_by_shard = []; default_merchant = "bob" };
  settles = true;
}

-- A signature verifies when it is the address with an exclamation mark.
abbrev sample_keys : Keys String String (List ℕ)
sample_keys = record {
  new_from_bech32 = λ s. if truthy s then ok s else err "empty";
  verifier_of = λ a. ok a;
  signature_bytes = λ h s. s;
  verify_message = λ key m s. ok (same_units s (units (key <> "!")));
}

abbrev call_price : Requirements
call_price = record asked { amount = "2" }

-- A local tool answers with its own name; an upstream with a status of 500.
abbrev mcp_ports : McpPorts String String (List ℕ) String Unit
mcp_ports = record {
  keys = sample_keys;
  shard_of = λ a. ok 0;
  from_base64 = λ s. s;
  parse_payload = λ s. ok (record { payload = direct paid; accepted = call_price });
  post = λ url name args. status_error 500 "down";
  run_local = λ l args. ok (record { content = l ∷ []; is_error = false; error_code = none });
  refund = some (λ job. ok "0xrefund");
  log_proof = none;
}

abbrev weather : ToolDefinition
weather = record {
  name = "weather";
  description = "forecasts";
  input_schema = "{}";
  pricing = record { micro_usdc = "2"; token = "EGLD"; service_id = 1; provider_agent_nonce = 1 };
  pay_to = some "bob";
  endpoint_url = some "https://weather";
  reputation_score = some 100;
  total_completed_jobs = some 0;
}

abbrev known : Registry
known = record (new_registry none) {
  registered_tools = ("weather", weather) ∷ [];
  tool_health = ("weather", starting_health healthy 15 0) ∷ [];
}

abbrev tripped : Breaker
tripped = record {
  failure_threshold = 3;
  cooldown_ms = 30000;
  timeout_ms = 15000;
  tools =
      (
        "weather",
        record {
          state = open_;
          consecutive_failures = 3;
          last_failure_time = 90000;
          next_attempt_time = 120000;
        },
      )
      ∷ [];
}

abbrev gateway : McpGateway String (State String String ℕ)
gateway = record {
  registry = known;
  handlers = ("weather", local_tool "sunny") ∷ [];
  circuit_breaker = new_breaker none none none;
  facilitator = start;
}

abbrev forwarding : McpGateway String (State String String ℕ)
forwarding = record gateway {
  handlers = ("weather", external_tool "weather" "https://weather") ∷ [];
  circuit_breaker = tripped;
}

abbrev ask : CallRequest Unit
ask = record {
  tool_name = some "weather";
  payment_signature = some "{}";
  x_payment_signature = none;
  body_signature = none;
  payer_address = some "alice";
  arguments = tt;
  timing = record { started = 99000; ended = 99100; aborted = false; outrun = false };
  job_id = "job-1";
  random_hash = "f00d";
}

-- A new price for the tool, signed by its payee.
abbrev dearer : RegisterRequest
dearer = record {
  name = "weather";
  description = "forecasts";
  input_schema = "{}";
  pricing = record { micro_usdc = "900"; token = "EGLD"; service_id = 1; provider_agent_nonce = 1 };
  pay_to = "bob";
  agent_identity = none;
  signature = some "bob!";
  endpoint_url = some "https://elsewhere";
}

run_gateway : Unit {0}
unfolding run_settler call_tool call_found on_call_header on_call_verdict run_call finish_call
    settle_call proof_of refund_of decode_payment call_requirements execute_tool run_handler
    upstream_ending external_result execute admit conclude can_execute get_state get_or_create
    record_success record_failure new_breaker record_tool_execution status_after round_div
    get_local_tool verdict_of receipt_of services get_merchant_address_for_user
    get_merchant_address_for_shard get_shard_of_address register_tool examine check_signature
    signed_some candidate_messages tool_of store_tool register_local_tool record_tool_heartbeat
    read_resource on_read_header on_read_verdict read_requirements get_tool_health
run_gateway = tt

abbrev sunny : CallResponse
sunny =
    completed_call (record { content = "sunny" ∷ []; is_error = false; error_code = none }) "0xabc"
      "job-1" none

called :
    (call_tool mcp_settings mcp_ports (services settling (some answering) "r1") ask gateway).0
    ≡ sunny
unfolding run_gateway
called = refl

call_tool-PaysCall_example :
    (tool : ToolDefinition) × (get_local_tool "weather" known ≡ some tool)
    × PaysCall mcp_settings mcp_ports (services settling (some answering) "r1") ask tool start
call_tool-PaysCall_example =
    call_tool-PaysCall mcp_settings mcp_ports (services settling (some answering) "r1") ask gateway
      (ap ran_tool called)

call_tool-ClosesAs_example :
    let f = services settling (some answering) "r1" in
    let after = call_tool mcp_settings mcp_ports f ask gateway in
    ClosesAs mcp_settings mcp_ports f 99000 start after.0 after.1.facilitator
call_tool-ClosesAs_example =
    call_tool-ClosesAs mcp_settings mcp_ports (services settling (some answering) "r1") ask gateway

refuses : (admit tripped "weather" 99000).0 ≡ false
unfolding run_gateway
refuses = refl

forwards : get "weather" forwarding.handlers ≡ some (external_tool "weather" "https://weather")
unfolding get
forwards = refl

run_call-refused_example :
    let after =
      run_call mcp_settings mcp_ports
        (services settling (some answering) "r1")
        ask
        "weather"
        weather
        offer
        forwarding in
    let result = external_result (circuit_open "weather") in
    (after.0 ≡ failed_call result "job-1" (refund_of mcp_settings mcp_ports "job-1"))
    × (result.error_code ≡ some "TOOL_CIRCUIT_OPEN")
    × (after.1.facilitator ≡ start)
run_call-refused_example =
    run_call-refused mcp_settings mcp_ports (services settling (some answering) "r1") ask "weather"
      "https://weather" weather offer forwarding forwards refuses refl

weather_stored : get_local_tool "weather" known ≡ some weather
unfolding run_gateway
weather_stored = refl

weather-PaysTo : PaysTo "bob" "weather" known
weather-PaysTo = (weather, weather_stored, refl, refl)

register_tool-IsSignedBy_example :
    let after = (register_tool mcp_settings mcp_ports 5 dearer gateway).1 in
    (get_local_tool "weather" after.registry ≡ get_local_tool "weather" known)
    ⊎ ((get_local_tool "weather" after.registry ≡ some (tool_of "multiversx:D" dearer))
        × (dearer.pay_to ≡ "bob")
        × Signed sample_keys "bob" dearer)
register_tool-IsSignedBy_example =
    register_tool-IsSignedBy mcp_settings mcp_ports 5 dearer "weather" "bob" gateway weather-PaysTo

run-PaysTo_example :
    PaysTo "bob" "weather" (register_tool mcp_settings mcp_ports 5 dearer gateway).1.registry
run-PaysTo_example =
    run-PaysTo mcp_settings mcp_ports (services settling (some answering) "r1") "bob" "weather"
      (then_request (no_request gateway) (registers 5 dearer gateway)) weather-PaysTo

signed_message :
    sample_keys.verify_message "bob" "mcp-tool-register:weather"
      (sample_keys.signature_bytes false (clean_signature "bob!"))
    ≡ ok true
unfolding same_units
signed_message = refl

register_tool-replayed_example :
    (register_tool mcp_settings mcp_ports 5 dearer gateway).0
    ≡ registered (tool_of "multiversx:D" dearer) true
register_tool-replayed_example =
    register_tool-replayed mcp_settings mcp_ports 5 dearer "bob" "bob!" gateway weather "bob" "bob"
      weather_stored refl refl refl refl refl refl refl refl signed_message

weather_health : get_tool_health "weather" known ≡ some (starting_health healthy 15 0)
unfolding run_gateway
weather_health = refl

abbrev two_runs : List ToolRun
two_runs =
    record { ended = 10; success = true; duration = 5 }
    ∷ record { ended = 20; success = false; duration = 3000 }
    ∷ []

-- Every payment is accepted and none is settled.
abbrev trusting : Facilitator Unit (λ now s q. Unit)
trusting = record {
  verify_payment = λ now q s.
      (ok (record { is_valid = true; invalid_reason = none; error_code = none; payer = none }), s);
  settle_payment = λ now q s. (err "no queue", s);
  verify_sound = λ now q s r h v. tt;
}

read_out :
    (read_resource mcp_settings mcp_ports trusting ask (some "mem://a") tt).0
    ≡ resource "mem://a" "Resource content for mem://a" "f00d"
unfolding run_gateway
read_out = refl
