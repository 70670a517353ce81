-- ===== src/Gateway/Breaker/Defs.antt =====
-- src/gateway/tool_circuit_breaker.ts: the state of the breaker and its methods. `Date.now()` is an
-- argument of each call that reads it, in milliseconds; counts and times stay below 2^53.
use blockrun_multiversx_plat.Base.{
  ℕ, ◌+◌, String, Bool, true, false, ◌||◌, Option, none, some, [], leb, if◌then◌else◌, ℕ_key,
  text_key, or_else,
}
use blockrun_multiversx_plat.Base.Dict.{Dict, get, set, delete}
use blockrun_multiversx_plat.Base.Text.{truthy}

pub data CircuitState : Type 0 where
  closed open_ half_open : CircuitState

pub record ToolState : Type 0 where
  pub state : CircuitState
  pub consecutive_failures : ℕ
  pub last_failure_time : ℕ
  pub next_attempt_time : ℕ

pub record Breaker : Type 0 where
  pub failure_threshold : ℕ
  pub cooldown_ms : ℕ
  pub timeout_ms : ℕ
  pub tools : Dict String ToolState

-- The constructor, with the options that are given.
unfoldable pub new_breaker : Option ℕ → Option ℕ → Option ℕ → Breaker
new_breaker threshold cooldown timeout = record {
  failure_threshold = or_else threshold 3;
  cooldown_ms = or_else cooldown 30000;
  timeout_ms = or_else timeout 15000;
  tools = [];
}

abbrev pub fresh : ToolState
fresh = record {
  state = closed;
  consecutive_failures = 0;
  last_failure_time = 0;
  next_attempt_time = 0;
}

-- What `getOrCreate` returns; it also enters a fresh tool into the map.
abbrev pub entry : Breaker → String → ToolState
entry b name = or_else (get name b.tools) fresh

abbrev pub put : Breaker → String → ToolState → Breaker
put b name t = record b { tools = set name t b.tools }

unfoldable pub get_or_create : Breaker → String → ToolState × Breaker
get_or_create b name = elim (get name b.tools) [
  | none ↦ (fresh, put b name fresh)
  | some t ↦ (t, b)
]

-- One reading of the state: an open circuit whose cooldown has passed becomes half open.
abbrev pub observe : ToolState → ℕ → ToolState
observe t now = elim t.state [
  | open_ ↦ if leb t.next_attempt_time now then record t { state = half_open } else t
  | _ ↦ t
]

unfoldable pub get_state : Breaker → String → ℕ → CircuitState × Breaker
unfolding get_or_create
get_state b name now =
    let (t, b') = get_or_create b name in let t' = observe t now in (t'.state, put b' name t')

abbrev pub permits : CircuitState → Bool
permits closed = true
permits half_open = true
permits open_ = false

unfoldable pub can_execute : Breaker → String → ℕ → Bool × Breaker
unfolding get_state
can_execute b name now = let (s, b') = get_state b name now in (permits s, b')

unfoldable pub record_success : Breaker → String → Breaker
unfolding get_or_create
record_success b name = let (t, b') = get_or_create b name in put b' name fresh

-- The entry after a failure at time `now`.
abbrev pub failed : Breaker → ToolState → ℕ → ToolState
failed b t now =
    let n = t.consecutive_failures + 1 in
    let counted : ToolState = record t { consecutive_failures = n; last_failure_time = now } in
    let tripped : ToolState = record counted {
      state = open_;
      next_attempt_time = now + b.cooldown_ms;
    } in
    elim t.state [
      | half_open ↦ tripped
      | _ ↦ if leb b.failure_threshold n then tripped else counted
    ]

unfoldable pub record_failure : Breaker → String → ℕ → Breaker
unfolding get_or_create
record_failure b name now = let (t, b') = get_or_create b name in put b' name (failed b t now)

-- No name, or the empty one, clears every tool.
unfoldable pub reset : Breaker → Option String → Breaker
reset b none = record b { tools = [] }
reset b (some name) =
    if truthy name then record b { tools = delete name b.tools } else record b { tools = [] }

-- How the wrapped action ends: it returns, or throws an error that is, or is not, an abort or
-- timeout; `aborted` says whether the timer has fired by then.
pub data Ending {ℓ} (A : Type ℓ) : Type ℓ where
  returns : A → Ending A
  throws : (is_abort aborted : Bool) → String → Ending A

pub data Executed {ℓ} (A : Type ℓ) : Type ℓ where
  value : A → Executed A
  circuit_open : String → Executed A
  upstream_timeout : String → ℕ → Executed A
  rethrown : String → Executed A

-- The part of `execute` before the action: none is the refusal.
unfoldable pub admit : Breaker → String → ℕ → Bool × Breaker
unfolding can_execute
admit b name now = can_execute b name now

-- The part of `execute` after the action has ended at time `now`.
unfoldable pub conclude {ℓ} : {A : Type ℓ} → Breaker → String → ℕ → Ending A → Executed A × Breaker
unfolding record_success record_failure
conclude b name now (returns a) = (value a, record_success b name)
conclude b name now (throws is_abort aborted message) = (
  if is_abort || aborted then upstream_timeout name b.timeout_ms else rethrown message,
  record_failure b name now,
)

-- `execute` where no other call comes between the admission, at time `start`, and the end.
unfoldable pub execute {ℓ} :
    {A : Type ℓ} → Breaker → String → (start end : ℕ) → Ending A → Executed A × Breaker
execute b name start end action =
    let (allowed, b') = admit b name start in
    if allowed then conclude b' name end action else (circuit_open name, b')
