-- ===== src/Gateway/Mcp/Health.antt =====
-- The health of tools in src/services/mcp_registry_adapter.ts: what is counted, within which bounds, and
-- the pricing cache.
use blockrun_multiversx_plat.Base.{
  ℕ, ◌+◌, ◌-◌, ◌*◌, ◌≤◌, ◌<◌, max, String, ◌≡◌, refl, ap, ◌∙◌, Bool, false, some, List, [], ◌∷◌,
  arith, if◌then◌else◌, ◌===◌, ℕ_key, text_key,
}
use blockrun_multiversx_plat.Base.Dict.{get, get-set_self, get-set_other}
use blockrun_multiversx_plat.Base.Lists.{length}
use blockrun_multiversx_plat.Base.Text.{units_key}
use blockrun_multiversx_plat.Base.Int.{round_div}
use blockrun_multiversx_plat.Gateway.Mcp.Registry.{
  ToolHealth, Registry, get_tool_health, executed, health_or_beat, record_tool_execution,
}
use native.Mathlib.Nat.{div-lt_iff_lt-mul}

-- One run of a tool: when it ended, whether it succeeded, and how long it took.
pub record ToolRun : Type 0 where
  pub ended : ℕ
  pub success : Bool
  pub duration : ℕ

abbrev pub record_runs : String → List ToolRun → Registry → Registry
record_runs name [] r = r
record_runs name (x ∷ xs) r =
    record_runs name xs (record_tool_execution x.ended name x.success x.duration r)

abbrev pub failures : List ToolRun → ℕ
failures [] = 0
failures (x ∷ xs) = (if x.success then 0 else 1) + failures xs

abbrev pub IsHealth : ToolHealth → Type 0
IsHealth h = (h.error_count ≤ h.call_count) × (h.uptime_tenths ≤ 1000)

uptime_bound : (c e : ℕ) → 0 < c → round_div ((c - e) * 1000) c ≤ 1000
unfolding round_div
uptime_bound c e h =
    let below =
      (div-lt_iff_lt-mul {k = 2 * c} {x = 2 * ((c - e) * 1000) + c} {y = 1001} (omega arith)).1
        (omega arith) in
    omega (arith, below)

executed-IsHealth :
    (success : Bool) (duration : ℕ) (h : ToolHealth)
    → h.error_count ≤ h.call_count
    → IsHealth (executed success duration h)
executed-IsHealth success duration h k =
    (ground (arith, k), uptime_bound (max 1 (h.call_count + 1)) _ (omega arith))

record_tool_execution-health :
    (now duration : ℕ) (name other : String) (success : Bool) (h : ToolHealth) (r : Registry)
    → get_tool_health name r ≡ some h
    → (get_tool_health name (record_tool_execution now name success duration r)
        ≡ some (executed success duration h))
      × ((name === other) ≡ false
          → get_tool_health other (record_tool_execution now name success duration r)
            ≡ get_tool_health other r)
unfolding get_tool_health record_tool_execution
record_tool_execution-health now duration name other success h r found =
    let row = executed success duration (health_or_beat now duration (get name r.tool_health)) in
    (
      get-set_self name row r.tool_health
          ∙ ap (λ x. some (executed success duration (health_or_beat now duration x))) found,
      λ apart. get-set_other name other row r.tool_health apart,
    )

-- After any sequence of runs of a tool that has a health entry with no more errors than calls, the
-- entry counts as many calls more as there were runs and as many errors more as failed ones; it has no
-- more errors than calls, and an uptime of at most 100 percent if it had. The entries of other tools
-- are as they were.
pub record_runs-counted :
    (name : String) (xs : List ToolRun) (h : ToolHealth) (r : Registry)
    → get_tool_health name r ≡ some h
    → IsHealth h
    → ((h' : ToolHealth) × (get_tool_health name (record_runs name xs r) ≡ some h')
        × (h'.call_count ≡ h.call_count + length xs)
        × (h'.error_count ≡ h.error_count + failures xs)
        × IsHealth h')
      × ((other : String)
          → (name === other) ≡ false
          → get_tool_health other (record_runs name xs r) ≡ get_tool_health other r)
record_runs-counted name [] h r found k =
    ((h, found, omega arith, omega arith, k), λ other apart. refl)
record_runs-counted name (x ∷ xs) h r found k =
    let next = record_tool_execution x.ended name x.success x.duration r in
    let one = record_tool_execution-health x.ended x.duration name name x.success h r found in
    let ((h', found', calls, errors, k'), rest) =
      record_runs-counted name xs (executed x.success x.duration h) next one.0
        (executed-IsHealth x.success x.duration h k.0) in
    (
      (h', found', omega (arith, calls), omega (arith, errors), k'),
      λ other apart.
          rest other apart
          ∙ (record_tool_execution-health x.ended x.duration name other x.success h r found).1
              apart,
    )
