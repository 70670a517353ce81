-- ===== src/Gateway/Breaker/Laws.antt =====
-- The circuit breaker of src/gateway/tool_circuit_breaker.ts, call by call.
use blockrun_multiversx_plat.Base.{
  ℕ, ◌<◌, String, ◌≡◌, refl, ◌↔◌, inl, inr, true, false, some, arith, if◌then◌else◌, ◌===◌, ℕ_key,
  text_key, Option-cases,
}
use blockrun_multiversx_plat.Base.Dict.{get, set, get-set, get-delete}
use blockrun_multiversx_plat.Base.Text.{truthy}
use blockrun_multiversx_plat.Gateway.Breaker.Defs.{
  open_, ToolState, Breaker, fresh, entry, put, get_or_create, observe, get_state, permits,
  can_execute, record_success, failed, record_failure, reset,
}

entry-put :
    (b : Breaker) (name other : String) (t : ToolState)
    → entry (put b name t) other ≡ (if name === other then t else entry b other)
entry-put b name other t = ground (arith, get-set name other t b.tools)

-- What each call leaves at every name.
pub entry-get_state :
    (b : Breaker) (name other : String) (now : ℕ)
    → entry (get_state b name now).1 other
      ≡ (if name === other then observe (entry b name) now else entry b other)
unfolding get_state
entry-get_state b name other now = elim (Option-cases (get name b.tools)) [
  | inl e ↦
      rw (e, get_or_create)
        (ground (
          arith,
          get-set name other (observe fresh now) (set name fresh b.tools),
          get-set name other fresh b.tools,
        ))
  | inr (t, e) ↦ rw (e, get_or_create) (entry-put b name other (observe t now))
]

pub entry-record_success :
    (b : Breaker) (name other : String)
    → entry (record_success b name) other ≡ (if name === other then fresh else entry b other)
unfolding record_success
entry-record_success b name other = elim (Option-cases (get name b.tools)) [
  | inl e ↦
      rw (e, get_or_create)
        (ground (
          arith,
          get-set name other fresh (set name fresh b.tools),
          get-set name other fresh b.tools,
        ))
  | inr (t, e) ↦ rw (e, get_or_create) (entry-put b name other fresh)
]

pub entry-record_failure :
    (b : Breaker) (name other : String) (now : ℕ)
    → entry (record_failure b name now) other
      ≡ (if name === other then failed b (entry b name) now else entry b other)
unfolding record_failure
entry-record_failure b name other now = elim (Option-cases (get name b.tools)) [
  | inl e ↦
      rw (e, get_or_create)
        (ground (
          arith,
          get-set name other (failed b fresh now) (set name fresh b.tools),
          get-set name other fresh b.tools,
        ))
  | inr (t, e) ↦ rw (e, get_or_create) (entry-put b name other (failed b t now))
]

pub entry-reset :
    (b : Breaker) (name other : String)
    → truthy name ≡ true
    → entry (reset b (some name)) other ≡ (if name === other then fresh else entry b other)
unfolding reset
entry-reset b name other h = rw h (ground (arith, get-delete name other b.tools))

-- The options stay as they were given.
pub can_execute-options :
    (b : Breaker) (name : String) (now : ℕ)
    → let b' = (can_execute b name now).1 in
      (b'.failure_threshold ≡ b.failure_threshold)
      × (b'.cooldown_ms ≡ b.cooldown_ms)
      × (b'.timeout_ms ≡ b.timeout_ms)
unfolding can_execute
can_execute-options b name now = elim (Option-cases (get name b.tools)) [
  | inl e ↦ rw (e, get_or_create) (refl, refl, refl)
  | inr (t, e) ↦ rw (e, get_or_create) (refl, refl, refl)
]

pub record_success-options :
    (b : Breaker) (name : String)
    → let b' = record_success b name in
      (b'.failure_threshold ≡ b.failure_threshold) × (b'.cooldown_ms ≡ b.cooldown_ms)
unfolding record_success
record_success-options b name = elim (Option-cases (get name b.tools)) [
  | inl e ↦ rw (e, get_or_create) (refl, refl)
  | inr (t, e) ↦ rw (e, get_or_create) (refl, refl)
]

pub record_failure-options :
    (b : Breaker) (name : String) (now : ℕ)
    → let b' = record_failure b name now in
      (b'.failure_threshold ≡ b.failure_threshold) × (b'.cooldown_ms ≡ b.cooldown_ms)
unfolding record_failure
record_failure-options b name now = elim (Option-cases (get name b.tools)) [
  | inl e ↦ rw (e, get_or_create) (refl, refl)
  | inr (t, e) ↦ rw (e, get_or_create) (refl, refl)
]

pub can_execute-permits :
    (b : Breaker) (name : String) (now : ℕ)
    → (can_execute b name now).0 ≡ permits (observe (entry b name) now).state
unfolding can_execute
can_execute-permits b name now = elim (Option-cases (get name b.tools)) [
  | inl e ↦ rw (e, get_or_create)
  | inr (t, e) ↦ rw (e, get_or_create)
]

-- A call is refused exactly when the tool's circuit is open and its next attempt lies in the future.
pub can_execute_iff :
    (b : Breaker) (name : String) (now : ℕ)
    → ((can_execute b name now).0 ≡ false)
      ↔ (((entry b name).state ≡ open_) × (now < (entry b name).next_attempt_time))
can_execute_iff b name now = rw can_execute-permits (observed (entry b name))
  where
    observed :
        (t : ToolState)
        → (permits (observe t now).state ≡ false)
          ↔ ((t.state ≡ open_) × (now < t.next_attempt_time))
    observed t = ground arith
