-- ===== src/Tollbooth/Reports.antt =====
-- How often src/tollbooth/abuse_reporter.ts reports an agent: once for each full threshold of its
-- failures.
use blockrun_multiversx_plat.Base.{
  ℕ, suc, ◌+◌, ◌*◌, ◌≤◌, ◌<◌, String, ◌≡◌, refl, sym, ap, ◌∙◌, subst, inl, inr, Bool, true, false,
  Option, none, some, List, [], ◌∷◌, arith, leb, if◌then◌else◌, ℕ_key, text_key, ===_refl, is_some,
  Bool-cases,
}
use blockrun_multiversx_plat.Base.Dict.{get, delete, get-set_self, get-delete}
use blockrun_multiversx_plat.Base.Lists.{length, All}
use blockrun_multiversx_plat.Base.Text.{units_key}
use blockrun_multiversx_plat.Tollbooth.Abuse.{
  FailureEntry, AbuseReporter, Feedback, failure_key, expired, feedback_of, first_failure,
  next_failure, record_for, record_failure,
}
use native.Mathlib.Nat.{suc-mul}

-- Failures of one caller at these times, in order: how many feedbacks were given, and the reporter
-- after them.
abbrev pub record_all : String → Option ℕ → List ℕ → AbuseReporter → ℕ × AbuseReporter
record_all ip agent [] a = (0, a)
record_all ip agent (now ∷ times) a =
    let (given, a') = record_failure now ip agent a in
    let (more, a'') = record_all ip agent times a' in
    ((if is_some given then suc more else more), a'')

-- The failures that an entry counts.
abbrev pub counted : Option FailureEntry → ℕ
counted none = 0
counted (some entry) = entry.count

abbrev counted_since : Option FailureEntry → ℕ
counted_since none = 0
counted_since (some entry) = entry.first_failure_time

-- An entry is below the threshold, and began at or after `start`.
abbrev pub IsOpen : ℕ → AbuseReporter → String → Type 0
IsOpen start a key =
    (counted (get key a.failures) < a.failure_threshold)
    × ((entry : FailureEntry) → get key a.failures ≡ some entry → start ≤ entry.first_failure_time)

one_entry :
    (start now : ℕ) (key : String) (a : AbuseReporter)
    → 2 ≤ a.failure_threshold
    → start ≤ now
    → IsOpen start (first_failure a key now) key
one_entry start now key a two from =
    let new : FailureEntry = record { count = 1; first_failure_time = now } in
    let found = get-set_self key new a.failures in
    let P : Option FailureEntry → Type 0 = λ x.
      (counted x < a.failure_threshold)
      × ((entry : FailureEntry) → x ≡ some entry → start ≤ entry.first_failure_time) in
    subst P (sym found) (two, λ entry e. subst (λ x. start ≤ counted_since x) e from)

-- One failure within the window: what is given and what is counted.
abbrev pub Progresses : ℕ → String → AbuseReporter → Option Feedback × AbuseReporter → Type 0
Progresses start key a r =
    (r.1.failure_threshold ≡ a.failure_threshold)
    × (r.1.window_ms ≡ a.window_ms)
    × IsOpen start r.1 key
    × ((if is_some r.0 then a.failure_threshold else 0) + counted (get key r.1.failures)
        ≡ suc (counted (get key a.failures)))

given_step :
    (b : Bool) (more t c1 c2 c n : ℕ)
    → more * t + c2 ≡ c1 + n
    → (if b then t else 0) + c1 ≡ suc c
    → (if b then suc more else more) * t + c2 ≡ c + suc n
given_step true more t c1 c2 c n h k = omega (arith, suc-mul more t, h, k)
given_step false more t c1 c2 c n h k = omega (arith, h, k)

module _ (start : ℕ) (ip : String) (nonce : ℕ) where
  abbrev agent_key : String
  agent_key = failure_key ip (some nonce)

  record_for-Progresses :
      (now : ℕ) (a : AbuseReporter) (found : Option FailureEntry)
      → get agent_key a.failures ≡ found
      → 2 ≤ a.failure_threshold
      → start ≤ now
      → now ≤ start + a.window_ms
      → IsOpen start a agent_key
      → Progresses start agent_key a (record_for now ip (some nonce) a found)
  record_for-Progresses now a none e two from upto pending =
      let new : FailureEntry = record { count = 1; first_failure_time = now } in
      (
        refl,
        refl,
        one_entry start now agent_key a two from,
        omega (arith, ap counted (get-set_self agent_key new a.failures), ap counted e),
      )
  record_for-Progresses now a (some entry) e two from upto pending =
      let since = pending.1 entry e in
      let below : entry.count < a.failure_threshold =
        subst (λ x. counted x < a.failure_threshold) e pending.0 in
      let young : expired a now entry ≡ false = ground (arith, since, upto) in
      let before : counted (get agent_key a.failures) ≡ entry.count = ap counted e in
      elim (Bool-cases (leb a.failure_threshold (entry.count + 1))) [
        | inl full ↦
            let gone : get agent_key (delete agent_key a.failures) ≡ none =
              ground (arith, get-delete agent_key agent_key a.failures, ===_refl agent_key) in
            let same : record_for now ip (some nonce) a (some entry) ≡ (
              feedback_of now ip (some nonce),
              record a { failures = delete agent_key a.failures },
            ) =
              ground (arith, young, full) in
            subst (Progresses start agent_key a) (sym same) (
              refl,
              refl,
              (ground (arith, gone, two), λ other o. absurd (ground (arith, gone, o))),
              ground (arith, gone, before, below, full),
            )
        | inr short ↦
            let next : FailureEntry = record entry { count = entry.count + 1 } in
            let kept = get-set_self agent_key next a.failures in
            let same : record_for now ip (some nonce) a (some entry)
                ≡ (none, next_failure a agent_key entry) =
              ground (arith, young, short) in
            subst (Progresses start agent_key a) (sym same) (
              refl,
              refl,
              (
                ground (arith, kept, short),
                λ other o. subst (λ x. start ≤ counted_since x) (sym kept ∙ o) since,
              ),
              ground (arith, kept, before),
            )
      ]

  record_failure-Progresses :
      (now : ℕ) (a : AbuseReporter)
      → 2 ≤ a.failure_threshold
      → start ≤ now
      → now ≤ start + a.window_ms
      → IsOpen start a agent_key
      → Progresses start agent_key a (record_failure now ip (some nonce) a)
  unfolding record_failure
  record_failure-Progresses now a two from upto pending =
      record_for-Progresses now a _ refl two from upto pending

  -- Failures of an agent that all fall within one window of the reporter's length, from `start` on,
  -- and a threshold of at least two: the feedbacks given, times the threshold, and the failures still
  -- counted are together the failures counted before and the new ones, and fewer than the threshold
  -- are counted. So there is one feedback for each full threshold.
  pub record_all-reports :
      (times : List ℕ) (a : AbuseReporter)
      → 2 ≤ a.failure_threshold
      → All (λ now. (start ≤ now) × (now ≤ start + a.window_ms)) times
      → IsOpen start a (failure_key ip (some nonce))
      → let key = failure_key ip (some nonce) in
        let (given, after) = record_all ip (some nonce) times a in
        (given * a.failure_threshold + counted (get key after.failures)
          ≡ counted (get key a.failures) + length times)
        × (counted (get key after.failures) < a.failure_threshold)
  record_all-reports [] a two within pending = (omega arith, pending.0)
  record_all-reports (now ∷ times) a two within pending =
      let (threshold, window, later, step) : Progresses start agent_key a
          (record_failure now ip (some nonce) a) =
        record_failure-Progresses now a two within.0.0 within.0.1 pending in
      let a' = (record_failure now ip (some nonce) a).1 in
      let (total, below) =
        record_all-reports times a' (subst (λ t. 2 ≤ t) (sym threshold) two)
          (subst (λ w. All (λ now. (start ≤ now) × (now ≤ start + w)) times) (sym window) within.1)
          later in
      let (more, after) = record_all ip (some nonce) times a' in
      let total' : more * a.failure_threshold + counted (get agent_key after.failures)
          ≡ counted (get agent_key a'.failures) + length times =
        subst
          (λ t.
            more * t + counted (get agent_key after.failures)
            ≡ counted (get agent_key a'.failures) + length times)
          threshold total in
      (
        given_step (is_some (record_failure now ip (some nonce) a).0) more a.failure_threshold
            (counted (get agent_key a'.failures)) _ _ _ total' step,
        subst (λ t. counted (get agent_key after.failures) < t) threshold below,
      )
