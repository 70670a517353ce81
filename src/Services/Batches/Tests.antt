-- ===== src/Services/Batches/Tests.antt =====
-- Runs of the pipelined queue, and its theorems at concrete payments.
use blockrun_multiversx_plat.Base.{ℕ, ◌+◌, ◌≡◌, refl, [], ◌∷◌, ℕ_key, text_key}
use blockrun_multiversx_plat.Base.Dict.{get, set}
use blockrun_multiversx_plat.Base.Thrown.{ok, err}
use blockrun_multiversx_plat.Base.Text.{◌<>◌, show_ℕ, units_key}
use blockrun_multiversx_plat.Relayers.Pipelined.Defs.{
  reserve_nonce, get_in_flight_count, next_relayer_for_shard,
}
use blockrun_multiversx_plat.Storage.Defs.{empty_storage, save, get_by_signature_hash}
use blockrun_multiversx_plat.Services.Batches.Defs.{
  QueuedItem, PipelinedQueue, QueueSettings, answered, signed, succeeding_response,
  reserve_and_sign, settle_fresh, begin_settle, begin_flush, timer_fires, enqueue_item,
  complete_item, complete_items, conclude_items, end_flush,
}
use blockrun_multiversx_plat.Services.Batches.Count.{
  IsPending, idle, onward, begins, enqueues, fires, lands, run-IsPending,
}
use blockrun_multiversx_plat.Services.Batches.Completed.{
  LaterRun, no_more, further, queues, times_out, arrives,
}
use blockrun_multiversx_plat.Services.Batches.Once.{IsAnswered, complete_item-IsAnswered}
use blockrun_multiversx_plat.Services.Samples.{chain, offer}

abbrev batching : QueueSettings ℕ ℕ
batching = record {
  batch_size = 2;
  max_queue_depth = 3;
  signature_hash_of = λ s. "#" <> s;
  shard_of_sender = λ a. ok 0;
  signers = chain.signers;
  sign_for = λ n t. ok (n + t.nonce);
}

abbrev empty_queue : PipelinedQueue ℕ ℕ
empty_queue = record {
  relayer_pool = record {
    shard_relayers = (0, 3 ∷ []) ∷ [];
    round_robin_index = [];
    nonce_trackers =
        ("3", record { next_nonce = 5; confirmed_nonce = 5; in_flight_count = 0 }) ∷ [];
    max_in_flight_per_relayer = 250;
  };
  storage = empty_storage;
  relayer_batches = [];
  relayer_timers = [];
  pending_count = 0;
  flushing = [];
}

abbrev first_item : QueuedItem ℕ
first_item = record {
  request = offer;
  signature_hash = "#alice";
  tx = 4;
  relayer_address = "3";
  nonce = 5;
}

run_queue : Unit {0}
unfolding begin_settle settle_fresh reserve_and_sign next_relayer_for_shard reserve_nonce
    enqueue_item begin_flush end_flush conclude_items complete_items complete_item save
    get_by_signature_hash get set show_ℕ
run_queue = tt

begins_with_item : (begin_settle batching offer empty_queue).0 ≡ signed first_item
unfolding run_queue
begins_with_item = refl

-- Two items fill a batch, which is sent.
full_batch_is_sent :
    (enqueue_item batching first_item (enqueue_item batching first_item empty_queue)).flushing
    ≡ (first_item ∷ first_item ∷ []) ∷ []
unfolding run_queue
full_batch_is_sent = refl

-- The nonce of an item stays in flight when the network refuses its batch.
refused_stays_in_flight :
    let begun = (begin_settle batching offer empty_queue).1 in
    let sent = timer_fires batching "3" (enqueue_item batching first_item begun) in
    get_in_flight_count (end_flush batching 1 0 (err "down") sent).1.relayer_pool "3" ≡ 1
unfolding run_queue timer_fires get_in_flight_count
refused_stays_in_flight = refl

run-IsPending_example :
    IsPending batching
      (end_flush batching 1 0 (err "down") (
        timer_fires batching "3"
          (enqueue_item batching first_item (begin_settle batching offer empty_queue).1))).1
run-IsPending_example =
    run-IsPending batching
      (onward
        (onward (onward (onward (idle empty_queue) (begins offer _)) (enqueues first_item _))
          (fires "3" _))
        (lands 1 0 (err "down") _))
      refl

abbrev carol_item : QueuedItem ℕ
carol_item = record {
  request = offer;
  signature_hash = "#carol";
  tx = 4;
  relayer_address = "3";
  nonce = 6;
}

abbrev once_completed : PipelinedQueue ℕ ℕ
once_completed = complete_item batching 1 "id" first_item "h" empty_queue

abbrev carol_sent : PipelinedQueue ℕ ℕ
carol_sent = timer_fires batching "3" (enqueue_item batching carol_item once_completed)

abbrev carol_completed : PipelinedQueue ℕ ℕ
carol_completed = (end_flush batching 2 0 (ok (("h2", "id2") ∷ [])) carol_sent).1

-- An item of another payment is queued, sent and completed after the first.
further_run : LaterRun batching once_completed carol_completed
unfolding run_queue timer_fires
further_run =
    further (further (further (no_more once_completed) (queues carol_item _)) (times_out "3" _))
      (arrives 2 0 (carol_item ∷ []) (("h2", "id2") ∷ []) carol_sent refl (refl, (refl, refl), tt))

complete_item-IsAnswered_example :
    (begin_settle batching offer once_completed
      ≡ (answered (succeeding_response offer "alice" "h"), once_completed))
    × IsAnswered batching offer carol_completed
unfolding get
complete_item-IsAnswered_example =
    complete_item-IsAnswered batching 1 "id" "h" first_item empty_queue carol_completed offer
      (refl, refl) refl refl refl further_run
