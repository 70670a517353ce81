-- ===== src/Tollbooth/Abuse.antt =====
-- src/tollbooth/abuse_reporter.ts: failures counted by address or agent in a window of time, and the
-- report that an agent gets when they reach the threshold.
use blockrun_multiversx_plat.Base.{
  ℕ, ◌+◌, ◌-◌, String, Bool, Option, none, some, [], ltb, leb, if◌then◌else◌, ℕ_key, text_key,
}
use blockrun_multiversx_plat.Base.Dict.{Dict, get, set, delete}
use blockrun_multiversx_plat.Base.Text.{◌<>◌, show_ℕ, units_key}

pub record FailureEntry : Type 0 where
  pub count : ℕ
  pub first_failure_time : ℕ

pub record AbuseReporter : Type 0 where
  pub failure_threshold : ℕ
  pub window_ms : ℕ
  pub failures : Dict String FailureEntry

-- The constructor's defaults.
abbrev pub default_reporter : AbuseReporter
default_reporter = record { failure_threshold = 5; window_ms = 60000; failures = [] }

-- The arguments of `giveFeedback` that are not constant.
pub record Feedback : Type 0 where
  pub agent_nonce : ℕ
  pub feedback_uri : String

abbrev pub failure_key : String → Option ℕ → String
failure_key ip none = "ip:" <> ip
failure_key ip (some nonce) = "agent:" <> show_ℕ nonce

abbrev pub expired : AbuseReporter → ℕ → FailureEntry → Bool
expired a now entry = ltb a.window_ms (now - entry.first_failure_time)

abbrev pub feedback_of : ℕ → String → Option ℕ → Option Feedback
feedback_of now ip none = none
feedback_of now ip (some nonce) =
    some (record {
      agent_nonce = nonce;
      feedback_uri = "tollbooth://abuse/" <> ip <> "/" <> show_ℕ now;
    })

-- A failure for a key with no entry, or with one whose window is over, and for one with an entry.
abbrev pub first_failure : AbuseReporter → String → ℕ → AbuseReporter
first_failure a key now = record a {
  failures = set key (record { count = 1; first_failure_time = now }) a.failures;
}

abbrev pub next_failure : AbuseReporter → String → FailureEntry → AbuseReporter
next_failure a key entry = record a {
  failures = set key (record entry { count = entry.count + 1 }) a.failures;
}

-- A failure for the entry that was found for its key.
abbrev pub record_for :
    ℕ → String → Option ℕ → AbuseReporter → Option FailureEntry → Option Feedback × AbuseReporter
record_for now ip nonce a none = (none, first_failure a (failure_key ip nonce) now)
record_for now ip nonce a (some entry) =
    if expired a now entry
    then (none, first_failure a (failure_key ip nonce) now)
    else (if leb a.failure_threshold (entry.count + 1)
        then (
          feedback_of now ip nonce,
          record a { failures = delete (failure_key ip nonce) a.failures },
        )
        else (none, next_failure a (failure_key ip nonce) entry))

-- `now` never runs back; the feedback that is given, if any, and the reporter after it.
unfoldable pub record_failure :
    ℕ → String → Option ℕ → AbuseReporter → Option Feedback × AbuseReporter
record_failure now ip nonce a = record_for now ip nonce a (get (failure_key ip nonce) a.failures)

unfoldable pub get_failure_count : ℕ → String → AbuseReporter → ℕ × AbuseReporter
get_failure_count now key a = elim (get key a.failures) [
  | none ↦ (0, a)
  | some entry ↦
      if expired a now entry
      then (0, record a { failures = delete key a.failures })
      else (entry.count, a)
]
