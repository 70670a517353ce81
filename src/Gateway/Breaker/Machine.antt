-- ===== src/Gateway/Breaker/Machine.antt =====
-- Any sequence of calls on the circuit breaker of src/gateway/tool_circuit_breaker.ts. The action
-- that `execute` wraps runs for a while, so an admission and the end it leads to are two events, and
-- the events of other calls may come between them.
use blockrun_multiversx_plat.Base.{
  ℕ, ◌+◌, ◌≤◌, ◌<◌, String, ◌≡◌, refl, ap, ◌∙◌, ◌≢◌, inl, inr, Bool, true, false, ◌||◌, Option,
  none, some, List, [], ◌∷◌, ◌++◌, arith, if◌then◌else◌, ◌===◌, ℕ_key, text_key, ===_refl,
  Bool-cases,
}
use blockrun_multiversx_plat.Base.Dict.{get, get-delete}
use blockrun_multiversx_plat.Base.Lists.{length, all}
use blockrun_multiversx_plat.Base.Text.{truthy}
use blockrun_multiversx_plat.Gateway.Breaker.Defs.{
  CircuitState, closed, open_, half_open, ToolState, Breaker, fresh, entry, observe, get_state,
  permits, can_execute, record_success, failed, record_failure, reset, Ending, returns, throws,
  value, circuit_open, upstream_timeout, rethrown, admit, conclude, execute, new_breaker,
}
use blockrun_multiversx_plat.Gateway.Breaker.Laws.{
  entry-get_state, entry-record_success, entry-record_failure, can_execute-options,
  record_success-options, record_failure-options, can_execute-permits,
}

pub data Event : Type 0 where
  admits : String → ℕ → Event
  ends : String → ℕ → Ending (Unit {0}) → Event
  clears : Option String → Event

unfoldable pub step : Breaker → Event → Breaker
unfolding admit conclude
step b (admits name now) = (admit b name now).1
step b (ends name now e) = (conclude b name now e).1
step b (clears name) = reset b name

unfoldable pub run : Breaker → List Event → Breaker
unfolding step
run b [] = b
run b (e ∷ es) = run (step b e) es

-- What holds of a tool's entry at every moment, for a threshold and a cooldown.
pub record IsSound (threshold cooldown : ℕ) (t : ToolState) : Type 0 where
  pub closed_below : t.state ≡ closed → t.consecutive_failures < threshold
  pub open_counted : t.state ≢ closed → threshold ≤ t.consecutive_failures
  pub open_until : t.state ≢ closed → t.next_attempt_time ≡ t.last_failure_time + cooldown

fresh-IsSound : (n c : ℕ) → 0 < n → IsSound n c fresh
fresh-IsSound n c h = record {
  closed_below = λ e. h;
  open_counted = λ e. absurd (e refl);
  open_until = λ e. absurd (e refl);
}

observe-IsSound : (n c : ℕ) (t : ToolState) (now : ℕ) → IsSound n c t → IsSound n c (observe t now)
observe-IsSound n c t now s = record {
  closed_below = λ e. ground arith;
  open_counted = λ e. ground (arith, s.open_counted);
  open_until = λ e. ground (arith, s.open_until);
}

failed-IsSound :
    (b : Breaker) (t : ToolState) (now : ℕ)
    → IsSound b.failure_threshold b.cooldown_ms t
    → IsSound b.failure_threshold b.cooldown_ms (failed b t now)
failed-IsSound b t now s = record {
  closed_below = λ e. ground arith;
  open_counted = λ e. ground (arith, s.open_counted);
  open_until = λ e. ground (arith, s.open_counted);
}

abbrev pub IsSoundAt : Breaker → String → Type 0
IsSoundAt b name = IsSound b.failure_threshold b.cooldown_ms (entry b name)

abbrev pub AllSound : Breaker → Type 0
AllSound b = (name : String) → IsSoundAt b name

-- A call that leaves the options alone and rewrites one entry keeps every entry sound.
rewrite-AllSound :
    (b b' : Breaker) (name : String) (t : ToolState)
    → b'.failure_threshold ≡ b.failure_threshold
    → b'.cooldown_ms ≡ b.cooldown_ms
    → ((other : String) → entry b' other ≡ (if name === other then t else entry b other))
    → IsSound b.failure_threshold b.cooldown_ms t
    → AllSound b
    → AllSound b'
rewrite-AllSound b b' name t p q r s all other =
    rw (p, q, r other)
      (elim (Bool-cases (name === other)) [
        | inl same ↦ rw same s
        | inr differs ↦ rw differs (all other)
      ])

admit-AllSound :
    (b : Breaker) (name : String) (now : ℕ) → AllSound b → AllSound (admit b name now).1
unfolding admit can_execute
admit-AllSound b name now all =
    let o = can_execute-options b name now in
    rewrite-AllSound b (get_state b name now).1 name (observe (entry b name) now) o.0 o.1
      (λ other. entry-get_state b name other now) (observe-IsSound _ _ _ now (all name)) all

conclude-AllSound :
    (b : Breaker) (name : String) (now : ℕ) (e : Ending (Unit {0}))
    → 0 < b.failure_threshold
    → AllSound b
    → AllSound (conclude b name now e).1
unfolding conclude
conclude-AllSound b name now (returns a) h all =
    let o = record_success-options b name in
    rewrite-AllSound b (record_success b name) name fresh o.0 o.1
      (λ other. entry-record_success b name other) (fresh-IsSound _ _ h) all
conclude-AllSound b name now (throws i a m) h all =
    let o = record_failure-options b name now in
    rewrite-AllSound b (record_failure b name now) name (failed b (entry b name) now) o.0 o.1
      (λ other. entry-record_failure b name other now) (failed-IsSound b _ now (all name)) all

reset-AllSound :
    (b : Breaker) (name : Option String)
    → 0 < b.failure_threshold
    → AllSound b
    → AllSound (reset b name)
unfolding reset get
reset-AllSound b none h all other = fresh-IsSound _ _ h
reset-AllSound b (some name) h all other = elim (Bool-cases (truthy name)) [
  | inl t ↦ rw t (
      rw get-delete (elim (Bool-cases (name === other)) [
        | inl same ↦ rw same (fresh-IsSound _ _ h)
        | inr differs ↦ rw differs (all other)
      ]))
  | inr f ↦ rw f (fresh-IsSound _ _ h)
]

step-threshold : (b : Breaker) (e : Event) → (step b e).failure_threshold ≡ b.failure_threshold
unfolding step admit conclude reset
step-threshold b (admits name now) = (can_execute-options b name now).0
step-threshold b (ends name now (returns a)) = (record_success-options b name).0
step-threshold b (ends name now (throws i a m)) = (record_failure-options b name now).0
step-threshold b (clears none) = refl
step-threshold b (clears (some name)) = ground arith

step-AllSound :
    (b : Breaker) (e : Event) → 0 < b.failure_threshold → AllSound b → AllSound (step b e)
unfolding step
step-AllSound b (admits name now) h all = admit-AllSound b name now all
step-AllSound b (ends name now e) h all = conclude-AllSound b name now e h all
step-AllSound b (clears name) h all = reset-AllSound b name h all

pub run-AllSound :
    (b : Breaker) (es : List Event) → 0 < b.failure_threshold → AllSound b → AllSound (run b es)
unfolding run
run-AllSound b [] h all = all
run-AllSound b (e ∷ es) h all =
    run-AllSound (step b e) es (rw (step-threshold b e) h) (step-AllSound b e h all)

-- After any sequence of calls, however interleaved, on a new breaker with a threshold of at least
-- one: a closed tool has fewer failures in a row than the threshold; any other has at least that many and
-- has its next attempt exactly one cooldown after its last failure.
pub run-new_breaker-AllSound :
    (threshold cooldown timeout : Option ℕ) (es : List Event)
    → 0 < (new_breaker threshold cooldown timeout).failure_threshold
    → AllSound (run (new_breaker threshold cooldown timeout) es)
unfolding new_breaker get
run-new_breaker-AllSound threshold cooldown timeout es h =
    run-AllSound _ es h (λ name. fresh-IsSound _ _ h)

-- `k` failures in a row at the times given.
unfoldable pub fail_times : Breaker → String → List ℕ → Breaker
fail_times b name [] = b
fail_times b name (now ∷ times) = fail_times (record_failure b name now) name times

entry-record_failure_self :
    (b : Breaker) (name : String) (now : ℕ)
    → entry (record_failure b name now) name ≡ failed b (entry b name) now
entry-record_failure_self b name now = rw entry-record_failure (rw ===_refl)

-- From a closed circuit, failures in a row with no success between leave it closed as long as their
-- number stays below the threshold, and open it at the failure that reaches it.
pub fail_times-trips :
    (b : Breaker) (name : String) (times : List ℕ) (last : ℕ)
    → (entry b name).state ≡ closed
    → (entry b name).consecutive_failures + length times + 1 ≡ b.failure_threshold
    → ((entry (fail_times b name times) name).state ≡ closed)
      × ((entry (fail_times b name (times ++ last ∷ [])) name).state ≡ open_)
      × ((entry (fail_times b name (times ++ last ∷ [])) name).next_attempt_time
          ≡ last + b.cooldown_ms)
unfolding fail_times
fail_times-trips b name [] last e h =
    (e, rw entry-record_failure_self (ground arith), rw entry-record_failure_self (ground arith))
fail_times-trips b name (now ∷ times) last e h =
    let o = record_failure-options b name now in
    let ih =
      fail_times-trips (record_failure b name now) name times last
        (rw entry-record_failure_self (ground arith))
        (rw (entry-record_failure_self, o.0) (ground arith)) in
    (ih.0, ih.1, ih.2 ∙ ap (λ (c : ℕ). last + c) o.1)

admit-permits :
    (b : Breaker) (name : String) (now : ℕ)
    → (admit b name now).0 ≡ permits (observe (entry b name) now).state
unfolding admit
admit-permits b name now = can_execute-permits b name now

entry-admit :
    (b : Breaker) (name other : String) (now : ℕ)
    → entry (admit b name now).1 other
      ≡ (if name === other then observe (entry b name) now else entry b other)
unfolding admit can_execute
entry-admit b name other now = entry-get_state b name other now

admit-options :
    (b : Breaker) (name : String) (now : ℕ)
    → ((admit b name now).1.cooldown_ms ≡ b.cooldown_ms)
      × ((admit b name now).1.timeout_ms ≡ b.timeout_ms)
unfolding admit
admit-options b name now = let o = can_execute-options b name now in (o.1, o.2)

permits_open : (s : CircuitState) → s ≡ open_ → permits s ≡ false
permits_open s h = ground arith

permits_not_open : (s : CircuitState) → s ≢ open_ → permits s ≡ true
permits_not_open s h = ground arith

-- A tool's entry whose reading at `now` is open reads as itself.
observe_open : (t : ToolState) (now : ℕ) → (observe t now).state ≡ open_ → observe t now ≡ t
observe_open t now h = ground arith

-- While the circuit reads as open, `execute` throws the open-circuit error whatever the action
-- would have done, and no tool's entry changes.
pub execute_refused {ℓ} :
    {A : Type ℓ} (b : Breaker) (name other : String) (start end : ℕ) (action : Ending A)
    → (observe (entry b name) start).state ≡ open_
    → ((execute b name start end action).0 ≡ circuit_open name)
      × (entry (execute b name start end action).1 other ≡ entry b other)
unfolding execute
execute_refused b name other start end action h =
    rw (admit-permits b name start ∙ permits_open _ h) (refl, entry-admit b name other start ∙ same)
  where
    same : (if name === other then observe (entry b name) start else entry b other) ≡ entry b other
    same = ground (arith, text_key.same_iff name other, observe_open (entry b name) start h)

-- Otherwise the action runs.
execute_runs {ℓ} :
    {A : Type ℓ} (b : Breaker) (name : String) (start end : ℕ) (action : Ending A)
    → (observe (entry b name) start).state ≢ open_
    → execute b name start end action ≡ conclude (admit b name start).1 name end action
unfolding execute
execute_runs b name start end action h = rw (admit-permits b name start ∙ permits_not_open _ h)

entry-admit_self :
    (b : Breaker) (name : String) (now : ℕ)
    → entry (admit b name now).1 name ≡ observe (entry b name) now
entry-admit_self b name now = rw entry-admit (rw ===_refl)

-- A failure at an entry that is half open.
record_failure_half_open :
    (b : Breaker) (name : String) (now : ℕ)
    → (entry b name).state ≡ half_open
    → ((entry (record_failure b name now) name).state ≡ open_)
      × ((entry (record_failure b name now) name).next_attempt_time ≡ now + b.cooldown_ms)
record_failure_half_open b name now h = rw entry-record_failure_self (ground arith)

-- Where the circuit does not read as open and the action returns, `execute` returns its value, and
-- the tool's entry is that of a tool never used.
pub execute_success {ℓ} :
    {A : Type ℓ} (b : Breaker) (name : String) (start end : ℕ) (a : A)
    → (observe (entry b name) start).state ≢ open_
    → ((execute b name start end (returns a)).0 ≡ value a)
      × (entry (execute b name start end (returns a)).1 name ≡ fresh)
execute_success b name start end a h =
    rw (execute_runs b name start end (returns a) h)
      (unfold conclude in (refl, rw entry-record_success (rw ===_refl)))

-- A probe of a half-open circuit that throws opens it again, until one cooldown after the throw;
-- a throw that is an abort, or comes after the timer fired, reaches the caller as a timeout, and any
-- other as itself.
pub execute_probe_failure {ℓ} :
    {A : Type ℓ} (b : Breaker) (name : String) (start end : ℕ) (i t : Bool) (m : String)
    → (observe (entry b name) start).state ≡ half_open
    → let r = execute {A = A} b name start end (throws i t m) in
      ((entry r.1 name).state ≡ open_)
      × ((entry r.1 name).next_attempt_time ≡ end + b.cooldown_ms)
      × (((i || t) ≡ true) → r.0 ≡ upstream_timeout name b.timeout_ms)
      × (((i || t) ≡ false) → r.0 ≡ rethrown m)
execute_probe_failure b name start end i t m h =
    let o = admit-options b name start in
    let e = record_failure_half_open (admit b name start).1 name end (rw entry-admit_self h) in
    rw (execute_runs b name start end (throws i t m) (λ p. cc)) (
      unfold conclude in
      (e.0, e.1 ∙ ap (λ (c : ℕ). end + c) o.0, λ late. rw (late, o.1), λ early. rw early))
