-- ===== src/Services/Batches/Defs.antt =====
-- src/services/pipelined_settlement_queue.ts: `PipelinedSettlementQueue` in production mode, over the
-- pipelined relayer pool and the storage. `settle` is cut where it awaits the relayer's signature, and
-- `flushBatch` where it awaits the network, so that other calls come between. The timer of a relayer
-- may run out at any step.
use blockrun_multiversx_plat.Base.{
  ℕ, suc, ◌+◌, ◌-◌, String, true, false, not, ◌&&◌, Option, none, some, List, [], ◌∷◌, ◌++◌, leb,
  if◌then◌else◌, ◌===◌, ℕ_key, text_key, or_else, is_some,
}
use blockrun_multiversx_plat.Base.Dict.{Dict, get, set}
use blockrun_multiversx_plat.Base.Thrown.{Thrown, ok, err, ◌>>=◌}
use blockrun_multiversx_plat.Base.Lists.{length, get_elem?, take, drop, any, filter}
use blockrun_multiversx_plat.Base.Text.{units, truthy, truthy_opt, units_key}
use blockrun_multiversx_plat.Domain.{
  PaymentErrorCode, payment_unfunded, payment_invalid, TxPayload, Request, transaction_of,
  SettleResponse,
}
use blockrun_multiversx_plat.Relayers.Pool.Defs.{Signers}
use blockrun_multiversx_plat.Relayers.Pipelined.Defs.{
  Pipeline, reserve_nonce, confirm_nonce, next_relayer_for_shard,
}
use blockrun_multiversx_plat.Storage.Defs.{
  completed, SettlementRecord, Storage, save, get_by_signature_hash, same_status,
}
use blockrun_multiversx_plat.Storage.Defs.{completed}

pub record QueuedItem (Tx : Type 0) : Type 0 where
  pub request : Request
  pub signature_hash : String
  pub tx : Tx
  pub relayer_address : String
  pub nonce : ℕ

-- `flushing` are the batches that are with the network.
pub record PipelinedQueue (Signer Tx : Type 0) : Type 0 where
  pub relayer_pool : Pipeline Signer
  pub storage : Storage
  pub relayer_batches : Dict String (List (QueuedItem Tx))
  pub relayer_timers : List String
  pub pending_count : ℕ
  pub flushing : List (List (QueuedItem Tx))

-- `batchSize`, `maxQueueDepth`, SHA-256, the SDK's shard of a sender (which parses the address), and the
-- transaction for a relayer, which may throw before it is signed.
pub record QueueSettings (Signer Tx : Type 0) : Type 0 where
  pub batch_size : ℕ
  pub max_queue_depth : ℕ
  pub signature_hash_of : String → String
  pub shard_of_sender : String → Thrown ℕ
  pub signers : Signers Signer
  pub sign_for : Signer → TxPayload → Thrown Tx

-- What `settle` does before the signature: it answers, it throws, or it has an item to enqueue.
pub data Begun (Tx : Type 0) : Type 0 where
  answered : SettleResponse → Begun Tx
  threw : String → Begun Tx
  signed : QueuedItem Tx → Begun Tx

abbrev pub failing_response : Request → Option String → String → PaymentErrorCode → SettleResponse
failing_response q payer reason code = record {
  success = false;
  error_reason = some (units reason);
  error_code = some code;
  payer = payer;
  transaction = none;
  network = some q.requirements.network;
}

abbrev pub succeeding_response : Request → String → String → SettleResponse
succeeding_response q payer hash = record {
  success = true;
  error_reason = none;
  error_code = none;
  payer = some payer;
  transaction = some hash;
  network = some q.requirements.network;
}

-- `existing && existing.status === "completed" && existing.txHash`
abbrev pub completed_hash : Option SettlementRecord → Option String
completed_hash none = none
completed_hash (some r) =
    if same_status r.status completed && truthy_opt r.tx_hash then r.tx_hash else none

abbrev pub payer_of : Option SettlementRecord → String
payer_of none = ""
payer_of (some r) = r.payer

module _ {Signer Tx : Type 0} (c : QueueSettings Signer Tx) where
  -- The relayer, its nonce and the signed transaction. A nonce stays reserved when signing throws.
  unfoldable pub reserve_and_sign :
      Request → String → Thrown Signer × Pipeline Signer → Begun Tx × Pipeline Signer
  reserve_and_sign q hash (err m, p) = (threw m, p)
  reserve_and_sign q hash (ok signer, p) =
      let address = c.signers.address_of signer in
      let (nonce, p') = reserve_nonce p address in
      let item : ℕ → Tx → QueuedItem Tx = λ n tx. record {
        request = q;
        signature_hash = hash;
        tx = tx;
        relayer_address = address;
        nonce = n;
      } in
      let begun : Thrown (QueuedItem Tx) = do
        n ← nonce
        tx ← c.sign_for signer (transaction_of q.payload)
        ok (item n tx)
      in (elim begun [ ok i ↦ signed i | err m ↦ threw m ], p')

  -- A request that is not refused and not yet settled.
  unfoldable pub settle_fresh :
      Request → String → PipelinedQueue Signer Tx → Begun Tx × PipelinedQueue Signer Tx
  unfolding reserve_and_sign
  settle_fresh q hash s =
      let (begun, pool) : Begun Tx × Pipeline Signer =
        elim (c.shard_of_sender (transaction_of q.payload).sender) [
          | err m ↦ (threw m, s.relayer_pool)
          | ok shard ↦ reserve_and_sign q hash (next_relayer_for_shard s.relayer_pool shard)
        ] in
      (begun, record s { relayer_pool = pool })

  abbrev pub existing_of : Request → PipelinedQueue Signer Tx → Option SettlementRecord
  existing_of q s =
      get_by_signature_hash (c.signature_hash_of (transaction_of q.payload).signature) s.storage

  unfoldable pub begin_settle :
      Request → PipelinedQueue Signer Tx → Begun Tx × PipelinedQueue Signer Tx
  unfolding settle_fresh
  begin_settle q s =
      let tx = transaction_of q.payload in
      let existing = existing_of q s in
      let fresh = settle_fresh q (c.signature_hash_of tx.signature) s in
      let refuse : String → PaymentErrorCode → Begun Tx =
        λ reason code. answered (failing_response q (some tx.sender) reason code) in
      if not (truthy tx.signature)
      then (refuse "Missing signature in payment payload" payment_invalid, s)
      else (if is_some (completed_hash existing)
          then (
            answered
                (succeeding_response q (payer_of existing) (or_else (completed_hash existing) "")),
            s,
          )
          else (if leb c.max_queue_depth s.pending_count
              then (
                refuse "Settlement queue backpressure: maximum capacity reached" payment_unfunded,
                s,
              )
              else fresh))

  abbrev pub batch_of : String → PipelinedQueue Signer Tx → List (QueuedItem Tx)
  batch_of relayer s = or_else (get relayer s.relayer_batches) []

  -- `flushBatch` up to the network.
  unfoldable pub begin_flush : String → PipelinedQueue Signer Tx → PipelinedQueue Signer Tx
  begin_flush relayer s = elim (batch_of relayer s) [
    | [] ↦ s
    | i ∷ items ↦ record s {
      relayer_batches = set relayer [] s.relayer_batches;
      flushing = s.flushing ++ (i ∷ items) ∷ [];
    }
  ]

  abbrev pub push_item : QueuedItem Tx → PipelinedQueue Signer Tx → PipelinedQueue Signer Tx
  push_item item s = record s {
    relayer_batches =
        set item.relayer_address (batch_of item.relayer_address s ++ item ∷ []) s.relayer_batches;
    pending_count = s.pending_count + 1;
  }

  abbrev pub without_timer : String → PipelinedQueue Signer Tx → PipelinedQueue Signer Tx
  without_timer relayer s = record s {
    relayer_timers = filter (λ r. not (r === relayer)) s.relayer_timers;
  }

  abbrev pub with_timer : String → PipelinedQueue Signer Tx → PipelinedQueue Signer Tx
  with_timer relayer s =
      if any (λ r. r === relayer) s.relayer_timers
      then s
      else record s { relayer_timers = s.relayer_timers ++ relayer ∷ [] }

  -- The timer of a relayer runs out.
  unfoldable pub timer_fires : String → PipelinedQueue Signer Tx → PipelinedQueue Signer Tx
  unfolding begin_flush
  timer_fires relayer s = begin_flush relayer (without_timer relayer s)

  -- A batch that is full goes out at once, and its timer is cleared; otherwise a timer is started.
  unfoldable pub enqueue_item : QueuedItem Tx → PipelinedQueue Signer Tx → PipelinedQueue Signer Tx
  unfolding begin_flush
  enqueue_item item s =
      let relayer = item.relayer_address in
      let pushed = push_item item s in
      if leb c.batch_size (length (batch_of relayer pushed))
      then begin_flush relayer (without_timer relayer pushed)
      else with_timer relayer pushed

  -- The settlement of an item that was sent.
  abbrev pub record_of : ℕ → String → QueuedItem Tx → String → SettlementRecord
  record_of now uuid item hash = record {
    id = uuid;
    signature_hash = item.signature_hash;
    payer = (transaction_of item.request.payload).sender;
    receiver = item.request.requirements.pay_to;
    asset = item.request.requirements.asset;
    amount = item.request.requirements.amount;
    status = completed;
    tx_hash = some hash;
    error_reason = none;
    error_code = none;
    created_at = now;
    updated_at = now;
    valid_before = none;
  }

  -- Its nonce is confirmed and the settlement is stored.
  unfoldable pub complete_item :
      ℕ → String → QueuedItem Tx → String → PipelinedQueue Signer Tx → PipelinedQueue Signer Tx
  complete_item now uuid item hash s = record s {
    relayer_pool = confirm_nonce s.relayer_pool item.relayer_address item.nonce;
    storage = save (record_of now uuid item hash) s.storage;
  }

  -- The items of a batch with the hashes and the ids drawn for them, and the answer to each.
  unfoldable pub complete_items :
      ℕ
      → List (QueuedItem Tx × String × String)
      → PipelinedQueue Signer Tx
      → List SettleResponse × PipelinedQueue Signer Tx
  unfolding complete_item
  complete_items now [] s = ([], s)
  complete_items now ((item, hash, uuid) ∷ items) s =
      let (answers, s') = complete_items now items (complete_item now uuid item hash s) in
      (
        succeeding_response item.request (transaction_of item.request.payload).sender hash
            ∷ answers,
        s',
      )

  abbrev pub refuse_items : String → List (QueuedItem Tx) → List SettleResponse
  refuse_items m [] = []
  refuse_items m (item ∷ items) =
      failing_response item.request (some (transaction_of item.request.payload).sender) m
        payment_invalid
      ∷ refuse_items m items

  -- The items with the hashes of the network, of which there is one for each item, and the ids that are
  -- drawn for them.
  abbrev pub paired :
      List (QueuedItem Tx) → List (String × String) → List (QueuedItem Tx × String × String)
  paired [] hs = []
  paired (i ∷ is) [] = []
  paired (i ∷ is) ((h, u) ∷ hs) = (i, h, u) ∷ paired is hs

  -- The answers once the network has answered for the items: a hash for each, or an error, which is
  -- answered to each item and leaves the nonces and the storage as they are.
  unfoldable pub conclude_items :
      ℕ
      → List (QueuedItem Tx)
      → Thrown (List (String × String))
      → PipelinedQueue Signer Tx
      → List SettleResponse × PipelinedQueue Signer Tx
  conclude_items now items (err m) s =
      (refuse_items (if truthy m then m else "Batch broadcast failed") items, s)
  conclude_items now items (ok hashes) s = complete_items now (paired items hashes) s

  -- The end of `flushBatch`, for the k-th of the batches that are with the network.
  unfoldable pub end_flush :
      ℕ
      → ℕ
      → Thrown (List (String × String))
      → PipelinedQueue Signer Tx
      → List SettleResponse × PipelinedQueue Signer Tx
  unfolding conclude_items
  end_flush now k sent s = elim (get_elem? s.flushing k) [
    | none ↦ ([], s)
    | some items ↦ conclude_items now items sent (record s {
      flushing = take k s.flushing ++ drop (suc k) s.flushing;
      pending_count = s.pending_count - length items;
    })
  ]
