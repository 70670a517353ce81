-- ===== src/Services/Queue/Tests.antt =====
-- Runs of the settlement queue, and its theorems at concrete inputs.
use blockrun_multiversx_plat.Base.{
  ℕ, zero, suc, ◌+◌, ◌≤◌, String, ◌≡◌, refl, ◌⊎◌, Bool, true, false, none, some, [], ◌∷◌, ℕ_key,
  text_key, is_some,
}
use blockrun_multiversx_plat.Base.Dict.{get, set}
use blockrun_multiversx_plat.Base.Thrown.{Thrown, ok, err}
use blockrun_multiversx_plat.Base.Lists.{length, All}
use blockrun_multiversx_plat.Base.Text.{units, show_ℕ, same_units, units_key}
use blockrun_multiversx_plat.Base.Int.{pos}
use blockrun_multiversx_plat.Domain.{
  PaymentErrorCode, payment_invalid, payment_blockhash_stale, SettleResponse,
}
use blockrun_multiversx_plat.Relayers.Pool.Defs.{Signers}
use blockrun_multiversx_plat.Services.Samples.{chain, answering, offer}
use blockrun_multiversx_plat.Services.Queue.Defs.{
  transient_response, transient_error, default_is_transient_error, default_retry, Outcome, attempts,
  execute_with_retry, Worker, new_worker, process_next, enqueue, finish, clear,
}
use blockrun_multiversx_plat.Services.Queue.Retry.{IsDelay, Ended, execute_with_retry-total}
use blockrun_multiversx_plat.Services.Queue.Machine.{
  Step, arrives, AnyStep, steps, clears, Reaches, here, later, IsCounted, reachable-IsCounted,
}
use blockrun_multiversx_plat.Services.Queue.Machine.{returns}
use blockrun_multiversx_plat.Services.Queue.Load.{
  SettlementQueue, get_pending_count, least_loaded, select_worker, get_or_create_workers,
  get_shard_for_request, enqueue_request,
}
use blockrun_multiversx_plat.Services.Queue.Bounds.{enqueue_request-bounded}
use blockrun_multiversx_plat.Services.Queue.Permanent.{broadcast-never_retried}
use blockrun_multiversx_plat.Services.Settler.Defs.{State, Config, failing, broadcast}
use blockrun_multiversx_plat.Services.Settler.Settle.{settle_failed, settle_sent}
use blockrun_multiversx_plat.Storage.Defs.{empty_storage}
use blockrun_multiversx_plat.Services.Chain.{Tx}
use blockrun_multiversx_plat.Services.Verifier.Verify.{verify}

abbrev answer : Bool → PaymentErrorCode → String → SettleResponse
answer success code reason = record {
  success = success;
  error_reason = some (units reason);
  error_code = some code;
  payer = none;
  transaction = none;
  network = none;
}

-- A settler that fails twice for a while, and then succeeds.
abbrev flaky : ℕ → Thrown SettleResponse × ℕ
flaky zero = (err "Request TIMEOUT", 1)
flaky (suc zero) = (ok (answer false payment_blockhash_stale "nonce too low"), 2)
flaky (suc (suc n)) = (ok (answer true payment_blockhash_stale ""), n + 3)

third_time :
    execute_with_retry default_retry flaky 0
    ≡ some (record {
      result = ok (answer true payment_blockhash_stale "");
      settler = 3;
      slept = 50 ∷ 100 ∷ [];
    })
unfolding execute_with_retry attempts default_is_transient_error transient_error transient_response
    same_units
third_time = refl

execute_with_retry-total_example :
    (o : Outcome ℕ) × (execute_with_retry default_retry flaky 0 ≡ some o)
    × (length o.slept ≤ 3)
    × All (IsDelay default_retry flaky) o.slept
    × Ended default_retry flaky o
execute_with_retry-total_example = execute_with_retry-total default_retry flaky 0

abbrev worked : Worker
worked = finish (err "down") (enqueue offer (enqueue offer (new_worker 1 none)))

two_arrive_one_returns : Reaches Step (new_worker 1 none) worked
unfolding enqueue process_next
two_arrive_one_returns =
    later (later (later (here _) (arrives offer _)) (arrives offer _)) (returns (err "down") _ refl)

reachable-IsCounted_example : IsCounted worked
reachable-IsCounted_example = reachable-IsCounted 1 none worked two_arrive_one_returns

cleared : Reaches AnyStep (new_worker 1 none) (clear (enqueue offer (new_worker 1 none)))
cleared = later (later (here _) (steps (arrives offer _))) (clears _)

-- Signers are numbers, all at shard 1.
abbrev numbers : Signers ℕ
numbers = record { address_of = show_ℕ; shard_of = λ a. ok 1 }

abbrev two_pending : SettlementQueue
two_pending = record {
  shard_workers =
      (1, enqueue offer (enqueue offer (new_worker 1 none)) ∷ new_worker 1 (some "3") ∷ []) ∷ [];
  max_queue_size = 3;
}

goes_to_the_relayer :
    get_pending_count (some 1) (enqueue_request numbers none offer two_pending).1 ≡ 3
unfolding get_pending_count enqueue_request get_or_create_workers get_shard_for_request
    select_worker least_loaded enqueue process_next get set
goes_to_the_relayer = refl

enqueue_request-bounded_example :
    let after = enqueue_request numbers none offer two_pending in
    ((3 ≤ get_pending_count none two_pending) × (is_some after.0 ≡ true) × (after.1 ≡ two_pending))
    ⊎ ((after.0 ≡ none)
        × (get_pending_count none after.1 ≡ get_pending_count none two_pending + 1)
        × (get_pending_count none after.1 ≤ 3))
enqueue_request-bounded_example = enqueue_request-bounded numbers none offer two_pending

abbrev down : Config String String ℕ
down = record {
  sdk = chain;
  compute_signature_hash = λ s. s;
  verifier = verify chain none;
  simulate_before_broadcast = false;
  simulate_transaction = answering;
  send_transaction = λ t. err "503 service busy";
}

abbrev start : State String String ℕ
start = record { storage = empty_storage; pool = none; sent = [] }

abbrev tx : Tx String String
tx = record {
  nonce = 1;
  value = pos 7;
  sender = "alice";
  receiver = "bob";
  gas_price = 1000000000;
  gas_limit = 70000;
  call_data = "";
  chain_id = "D";
  version = 2;
  options = 0;
  relayer = none;
  guardian = none;
  signature = "alice";
  relayer_signature = none;
  guardian_signature = none;
}

abbrev busy_answer : SettleResponse
busy_answer =
    failing
      (record {
        reason = some (units "Broadcast failed: 503 service busy");
        code = payment_invalid;
      })
      "multiversx:D" "alice"

broadcast-never_retried_example : default_is_transient_error (ok busy_answer) ≡ false
unfolding settle_sent settle_failed broadcast
broadcast-never_retried_example =
    broadcast-never_retried down 5 "r1" offer tx start busy_answer refl refl
