-- ===== src/Services/Queue/Defs.antt =====
-- src/services/settlement_queue.ts. A worker's turn is cut where the code awaits: what runs before the
-- request is handed to the settler, and what runs once its result is there. A settler is a function of
-- its own state.
use blockrun_multiversx_plat.Base.{
  ℕ, zero, suc, ◌+◌, ◌-◌, ◌*◌, min, String, Bool, true, false, not, ◌&&◌, ◌||◌, Option, none, some,
  List, [], ◌∷◌, ◌++◌, ltb, same_ℕ, if◌then◌else◌, ℕ_key, text_key, or_else, is_some,
}
use blockrun_multiversx_plat.Base.Thrown.{Thrown, ok, err}
use blockrun_multiversx_plat.Base.Lists.{length}
use blockrun_multiversx_plat.Base.Text.{units, ◌<>◌, same_units, units_key}
use blockrun_multiversx_plat.Domain.{
  payment_unfunded, payment_replay, payment_invalid, payment_expired, payment_blockhash_stale,
  Request, transaction_of, SettleResponse,
}
use blockrun_multiversx_plat.Services.Chain.{mentions}

-- The default classifier, over the message of an error and a response.
unfoldable pub transient_response : SettleResponse → Option Bool
transient_response a =
    let permanent : Bool = elim a.error_code [
      | none ↦ false
      | some payment_invalid ↦ true
      | some payment_unfunded ↦ true
      | some payment_expired ↦ true
      | some payment_replay ↦ true
      | some payment_blockhash_stale ↦ false
    ] in
    let r = or_else a.error_reason [] in
    let by_reason =
      mentions r "timeout"
      || mentions r "rate limit"
      || mentions r "429"
      || mentions r "503"
      || mentions r "502"
      || mentions r "504"
      || mentions r "connection reset"
      || mentions r "network"
      || mentions r "temporary"
      || mentions r "nonce"
      || mentions r "busy" in
    if permanent then some false else (if same_units r [] then none else some by_reason)

unfoldable pub transient_error : String → Bool
transient_error e =
    let m = units e in
    mentions m "timeout"
    || mentions m "connect"
    || mentions m "429"
    || mentions m "503"
    || mentions m "502"
    || mentions m "504"
    || mentions m "rate limit"
    || mentions m "reset"
    || mentions m "temporary"
    || mentions m "busy"
    || mentions m "nonce"
    || mentions m "econnrefused"
    || mentions m "econnreset"
    || mentions m "enotfound"
    || mentions m "etimedout"

-- `defaultIsTransientError(err)` for a throw, `defaultIsTransientError(null, response)` otherwise.
unfoldable pub default_is_transient_error : Thrown SettleResponse → Bool
default_is_transient_error (ok a) = or_else (transient_response a) false
default_is_transient_error (err e) = transient_error e

pub record RetryConfig : Type 0 where
  pub max_retries : ℕ
  pub base_delay_ms : ℕ
  pub max_delay_ms : ℕ
  pub backoff_multiplier : ℕ
  pub is_transient : Thrown SettleResponse → Bool

abbrev pub default_retry : RetryConfig
default_retry = record {
  max_retries = 3;
  base_delay_ms = 50;
  max_delay_ms = 2000;
  backoff_multiplier = 2;
  is_transient = default_is_transient_error;
}

abbrev pub successful : Thrown SettleResponse → Bool
successful (ok a) = a.success
successful (err e) = false

-- How the retries end: the last result, the settler after it, and the delays slept, in order.
pub record Outcome (S : Type 0) : Type 0 where
  pub result : Thrown SettleResponse
  pub settler : S
  pub slept : List ℕ

module _ {S : Type 0} (c : RetryConfig) (settle : S → Thrown SettleResponse × S) where
  -- The result is returned or thrown, at this attempt.
  abbrev pub final : Thrown SettleResponse → ℕ → Bool
  final r attempt = successful r || not (c.is_transient r) || ltb c.max_retries attempt

  -- The loop after `attempt` attempts; `none` when the fuel is out.
  unfoldable pub attempts : ℕ → ℕ → ℕ → List ℕ → S → Option (Outcome S)
  attempts zero attempt delay slept s = none
  attempts (suc fuel) attempt delay slept s =
      let (r, s') = settle s in
      let rest =
        attempts fuel (attempt + 1) (min c.max_delay_ms (delay * c.backoff_multiplier))
          (slept ++ delay ∷ []) s' in
      if final r (attempt + 1)
      then some (record { result = r; settler = s'; slept = slept })
      else rest

  unfoldable pub execute_with_retry : S → Option (Outcome S)
  unfolding attempts
  execute_with_retry s = attempts (c.max_retries + 1) 0 c.base_delay_ms [] s

-- `ShardWorker`. The item in flight is there exactly while `isProcessing` holds.
pub record Worker : Type 0 where
  pub shard : ℕ
  pub relayer_address : Option String
  pub queue : List Request
  pub in_flight : Option Request
  pub pending_count : ℕ
  pub processed_count : ℕ
  pub failed_count : ℕ
  pub drain_resolvers : ℕ

abbrev pub new_worker : ℕ → Option String → Worker
new_worker shard relayer = record {
  shard = shard;
  relayer_address = relayer;
  queue = [];
  in_flight = none;
  pending_count = 0;
  processed_count = 0;
  failed_count = 0;
  drain_resolvers = 0;
}

-- Those who wait for the worker to drain go on when it has.
abbrev pub drained : Worker → Worker
drained w =
    if same_ℕ (length w.queue) 0 && same_ℕ w.pending_count 0
    then record w { drain_resolvers = 0 }
    else w

-- `processNext`, up to the await.
unfoldable pub process_next : Worker → Worker
process_next w = elim w.in_flight [
  | some q ↦ drained w
  | none ↦ elim w.queue [ [] ↦ drained w | q ∷ qs ↦ record w { queue = qs; in_flight = some q } ]
]

unfoldable pub enqueue : Request → Worker → Worker
unfolding process_next
enqueue q w =
    process_next (record w { pending_count = w.pending_count + 1; queue = w.queue ++ q ∷ [] })

-- What follows the await; subtraction on ℕ is `Math.max(0, … - 1)`.
unfoldable pub finish : Thrown SettleResponse → Worker → Worker
unfolding process_next
finish r w = process_next (record w {
  processed_count = if successful r then w.processed_count + 1 else w.processed_count;
  failed_count = if successful r then w.failed_count else w.failed_count + 1;
  pending_count = w.pending_count - 1;
  in_flight = none;
})

-- What the caller of `enqueue` is given: a throw becomes a response.
unfoldable pub resolved : Request → Thrown SettleResponse → SettleResponse
resolved q (ok a) = a
resolved q (err m) = record {
  success = false;
  error_code = some payment_invalid;
  error_reason = some (units ("Internal queue execution error: " <> m));
  payer = some (transaction_of q.payload).sender;
  transaction = none;
  network = some q.requirements.network;
}

unfoldable pub drain : Worker → Worker
drain w =
    if same_ℕ (length w.queue) 0 && same_ℕ w.pending_count 0 && not (is_some w.in_flight)
    then w
    else record w { drain_resolvers = w.drain_resolvers + 1 }

unfoldable pub clear : Worker → Worker
clear w = record w { queue = []; pending_count = 0 }
