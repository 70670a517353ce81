-- ===== src/Gateway/Mcp/Registry.antt =====
-- src/services/mcp_registry_adapter.ts and src/domain/mcp_types.ts: the registered tools and their
-- health. The two tables of the database are maps by their primary key; an insertion that updates on a
-- conflict is a `set`. The dollar text of a price is left out.
use blockrun_multiversx_plat.Base.{
  ℕ, ◌+◌, ◌-◌, ◌*◌, max, String, Bool, ◌||◌, Option, none, some, [], ltb, if◌then◌else◌, ℕ_key,
  text_key, or_else,
}
use blockrun_multiversx_plat.Base.Dict.{Dict, get, set}
use blockrun_multiversx_plat.Base.Thrown.{Thrown, ok, err}
use blockrun_multiversx_plat.Base.Text.{◌<>◌, show_ℕ, units_key}
use blockrun_multiversx_plat.Base.Int.{round_div}

pub record ToolPricing : Type 0 where
  pub micro_usdc : String
  pub token : String
  pub service_id : ℕ
  pub provider_agent_nonce : ℕ

-- `McpToolDefinition`; the schema of the input is its JSON.
pub record ToolDefinition : Type 0 where
  pub name : String
  pub description : String
  pub input_schema : String
  pub pricing : ToolPricing
  pub pay_to : Option String
  pub endpoint_url : Option String
  pub reputation_score : Option ℕ
  pub total_completed_jobs : Option ℕ

pub data ToolStatus : Type 0 where
  healthy degraded unreachable : ToolStatus

-- `ToolHealthStatus`; the uptime is in tenths of a percent.
pub record ToolHealth : Type 0 where
  pub status : ToolStatus
  pub latency_ms : ℕ
  pub last_heartbeat : ℕ
  pub call_count : ℕ
  pub error_count : ℕ
  pub uptime_tenths : ℕ

pub record AgentServicePricing : Type 0 where
  pub token : String
  pub amount : String
  pub nonce : ℕ

pub record CacheEntry : Type 0 where
  pub pricing : Option AgentServicePricing
  pub expires_at : ℕ

pub record Registry : Type 0 where
  pub cache_ttl_ms : ℕ
  pub cache : Dict String CacheEntry
  pub registered_tools : Dict String ToolDefinition
  pub tool_health : Dict String ToolHealth

abbrev pub new_registry : Option ℕ → Registry
new_registry ttl = record {
  cache_ttl_ms = or_else ttl 30000;
  cache = [];
  registered_tools = [];
  tool_health = [];
}

abbrev pub starting_health : ToolStatus → ℕ → ℕ → ToolHealth
starting_health status latency now = record {
  status = status;
  latency_ms = latency;
  last_heartbeat = now;
  call_count = 0;
  error_count = 0;
  uptime_tenths = 1000;
}

abbrev pub put_health : String → ToolHealth → Registry → Registry
put_health name h r = record r { tool_health = set name h r.tool_health }

unfoldable pub get_tool_health : String → Registry → Option ToolHealth
get_tool_health name r = get name r.tool_health

unfoldable pub get_local_tool : String → Registry → Option ToolDefinition
get_local_tool name r = get name r.registered_tools

unfoldable pub register_local_tool : ℕ → ToolDefinition → Registry → Registry
register_local_tool now tool r =
    let r' : Registry = record r { registered_tools = set tool.name tool r.registered_tools } in
    elim (get tool.name r.tool_health) [
      | none ↦ put_health tool.name (starting_health healthy 15 now) r'
      | some h ↦ r'
    ]

-- The health after a heartbeat: a new row, or the row that there is, updated.
abbrev pub beaten : ℕ → ℕ → ToolStatus → Option ToolHealth → ToolHealth
beaten now latency status none = starting_health status latency now
beaten now latency status (some h) = record h {
  status = status;
  latency_ms = latency;
  last_heartbeat = now;
}

unfoldable pub record_tool_heartbeat :
    ℕ → String → ℕ → ToolStatus → Registry → ToolHealth × Registry
record_tool_heartbeat now name latency status r =
    let h = beaten now latency status (get name r.tool_health) in (h, put_health name h r)

-- The status for a number of calls, of errors among them, and a latency.
unfoldable pub status_after : ℕ → ℕ → ℕ → ToolStatus
status_after calls errors latency =
    if ltb (max 1 calls) (2 * errors)
    then unreachable
    else (if ltb (max 1 calls) (10 * errors) || ltb 2000 latency then degraded else healthy)

abbrev pub executed : Bool → ℕ → ToolHealth → ToolHealth
executed success duration h =
    let calls = h.call_count + 1 in
    let errors = h.error_count + (if success then 0 else 1) in
    let latency = round_div (7 * h.latency_ms + 3 * duration) 10 in
    record h {
      status = status_after calls errors latency;
      latency_ms = latency;
      call_count = calls;
      error_count = errors;
      uptime_tenths = round_div ((max 1 calls - errors) * 1000) (max 1 calls);
    }

-- A tool with no row gets one by a heartbeat first.
abbrev pub health_or_beat : ℕ → ℕ → Option ToolHealth → ToolHealth
health_or_beat now duration none = starting_health healthy duration now
health_or_beat now duration (some h) = h

unfoldable pub record_tool_execution : ℕ → String → Bool → ℕ → Registry → Registry
record_tool_execution now name success duration r =
    put_health name
      (executed success duration (health_or_beat now duration (get name r.tool_health))) r

-- The pricing of a service, out of the cache or by the query, which may throw.
module _ (query : Option (ℕ → ℕ → Thrown (Option AgentServicePricing))) where
  abbrev pub cached_pricing : ℕ → Option CacheEntry → Option (Option AgentServicePricing)
  cached_pricing now none = none
  cached_pricing now (some e) = if ltb now e.expires_at then some e.pricing else none

  unfoldable pub query_service :
      ℕ → ℕ → ℕ → Registry → Thrown (Option AgentServicePricing) × Registry
  query_service now agent service r = elim query [
    | none ↦ (ok none, r)
    | some ask ↦ elim (ask agent service) [
      | err m ↦ (err m, r)
      | ok p ↦ (
        ok p,
        record r {
          cache =
              set (show_ℕ agent <> ":" <> show_ℕ service)
                (record { pricing = p; expires_at = now + r.cache_ttl_ms }) r.cache;
        },
      )
    ]
  ]

  unfoldable pub get_service_config :
      ℕ → ℕ → ℕ → Registry → Thrown (Option AgentServicePricing) × Registry
  unfolding query_service
  get_service_config now agent service r =
      let asked = query_service now agent service r in
      elim (cached_pricing now (get (show_ℕ agent <> ":" <> show_ℕ service) r.cache)) [
        | some p ↦ (ok p, r)
        | none ↦ asked
      ]

unfoldable pub clear_cache : Registry → Registry
clear_cache r = record r { cache = [] }

unfoldable pub clear_tools : Registry → Registry
clear_tools r = record r { registered_tools = []; tool_health = [] }
