-- ===== src/Services/Batches/Completed.antt =====
-- The completed settlements of src/services/pipelined_settlement_queue.ts, over its steps.
use blockrun_multiversx_plat.Base.{
  ℕ, suc, ◌-◌, String, ◌≡◌, refl, sym, ap, ◌∙◌, subst, ◌⊎◌, inl, inr, true, false, not, none, some,
  List, [], ◌∷◌, ◌++◌, arith, leb, ◌===◌, ℕ_key, text_key, is_some, Bool-cases, Option-cases,
  if_both,
}
use blockrun_multiversx_plat.Base.Dict.{get, set, get-set_self, get-set_other}
use blockrun_multiversx_plat.Base.Thrown.{ok, err}
use blockrun_multiversx_plat.Base.Lists.{length, get_elem?, take, drop, any, list_cases}
use blockrun_multiversx_plat.Base.Text.{truthy, units_key}
use blockrun_multiversx_plat.Domain.{Request, transaction_of}
use blockrun_multiversx_plat.Storage.Defs.{completed, SettlementRecord, Storage, save}
use blockrun_multiversx_plat.Services.Batches.Defs.{
  QueuedItem, PipelinedQueue, QueueSettings, Begun, completed_hash, settle_fresh, existing_of,
  begin_settle, batch_of, begin_flush, push_item, without_timer, with_timer, timer_fires,
  enqueue_item, record_of, complete_item, complete_items, paired, conclude_items, end_flush,
}
use blockrun_multiversx_plat.Storage.Defs.{completed}

-- A completed settlement with a transaction is stored under the hash of a signature, with an id.
pub record IsCompleted (hash : String) (s : Storage) : Type 0 where
  pub id_at : String
  pub sent_as : String
  pub stored : SettlementRecord
  pub indexed : get hash s.sig_hash_index ≡ some id_at
  pub there : get id_at s.records ≡ some stored
  pub named : truthy id_at ≡ true
  pub is_completed : stored.status ≡ completed
  pub has_hash : stored.tx_hash ≡ some sent_as
  pub is_full : truthy sent_as ≡ true

abbrev pub IsNew : String → Storage → Type 0
IsNew uuid s = (truthy uuid ≡ true) × (get uuid s.records ≡ none)

save_completes :
    (hash : String) (r : SettlementRecord) (h : String) (s : Storage)
    → IsNew r.id s
    → r.status ≡ completed
    → r.tx_hash ≡ some h
    → truthy h ≡ true
    → (r.signature_hash === hash) ≡ true
    → IsCompleted hash (save r s)
unfolding save
save_completes hash r h s new done sent full same = record {
  id_at = r.id;
  sent_as = h;
  stored = r;
  indexed =
      subst (λ k. get k (set r.signature_hash r.id s.sig_hash_index) ≡ some r.id)
        ((text_key.same_iff r.signature_hash hash).0 same)
        (get-set_self r.signature_hash r.id s.sig_hash_index);
  there = get-set_self r.id r s.records;
  named = new.0;
  is_completed = done;
  has_hash = sent;
  is_full = full;
}

save-IsCompleted :
    (hash : String) (r : SettlementRecord) (h : String) (s : Storage)
    → IsNew r.id s
    → r.status ≡ completed
    → r.tx_hash ≡ some h
    → truthy h ≡ true
    → ((r.signature_hash === hash) ≡ true) ⊎ IsCompleted hash s
    → IsCompleted hash (save r s)
unfolding save
save-IsCompleted hash r h s new done sent full (inl same) =
    save_completes hash r h s new done sent full same
save-IsCompleted hash r h s new done sent full (inr old) =
    elim (Bool-cases (r.signature_hash === hash)) [
      | inl same ↦ save_completes hash r h s new done sent full same
      | inr other ↦
          let apart : (r.id === old.id_at) ≡ false = elim (Bool-cases (r.id === old.id_at)) [
            | inr differs ↦ differs
            | inl taken ↦
                let e : r.id ≡ old.id_at = (text_key.same_iff r.id old.id_at).0 taken in
                let clash : some old.stored ≡ none =
                  sym old.there ∙ ap (λ k. get k s.records) (sym e) ∙ new.1 in
                absurd cc
          ] in
          record {
            id_at = old.id_at;
            sent_as = old.sent_as;
            stored = old.stored;
            indexed = get-set_other r.signature_hash hash r.id s.sig_hash_index other ∙ old.indexed;
            there = get-set_other r.id old.id_at r s.records apart ∙ old.there;
            named = old.named;
            is_completed = old.is_completed;
            has_hash = old.has_hash;
            is_full = old.is_full;
          }
    ]

module _ {Signer Tx : Type 0} (c : QueueSettings Signer Tx) where
  -- The network's hashes are not empty, and the ids that are drawn are new.
  abbrev pub AreNew : ℕ → List (QueuedItem Tx × String × String) → PipelinedQueue Signer Tx → Type 0
  AreNew now [] s = Unit {0}
  AreNew now ((item, hash, uuid) ∷ items) s =
      (truthy hash ≡ true)
      × IsNew uuid s.storage
      × AreNew now items (complete_item c now uuid item hash s)

  pub complete_item-IsCompleted :
      (hash : String) (now : ℕ) (uuid sent : String) (item : QueuedItem Tx)
      (s : PipelinedQueue Signer Tx)
      → truthy sent ≡ true
      → IsNew uuid s.storage
      → ((item.signature_hash === hash) ≡ true) ⊎ IsCompleted hash s.storage
      → IsCompleted hash (complete_item c now uuid item sent s).storage
  unfolding complete_item
  complete_item-IsCompleted hash now uuid sent item s full new old =
      save-IsCompleted hash (record_of c now uuid item sent) sent s.storage new refl refl full old

  complete_items-IsCompleted :
      (hash : String) (now : ℕ) (items : List (QueuedItem Tx × String × String))
      (s : PipelinedQueue Signer Tx)
      → AreNew now items s
      → IsCompleted hash s.storage
      → IsCompleted hash (complete_items c now items s).1.storage
  unfolding complete_items
  complete_items-IsCompleted hash now [] s new h = h
  complete_items-IsCompleted hash now ((item, sent, uuid) ∷ items) s new h =
      complete_items-IsCompleted hash now items (complete_item c now uuid item sent s) new.2
        (complete_item-IsCompleted hash now uuid sent item s new.0 new.1 (inr h))

  -- The queue without the k-th of the batches that are with the network.
  abbrev pub landed : ℕ → List (QueuedItem Tx) → PipelinedQueue Signer Tx → PipelinedQueue Signer Tx
  landed k items s = record s {
    flushing = take k s.flushing ++ drop (suc k) s.flushing;
    pending_count = s.pending_count - length items;
  }

  -- The steps of the queue: a call of `settle` up to the signature, an item that is signed, a timer, and a
  -- batch that the network takes or refuses.
  pub data LaterStep : PipelinedQueue Signer Tx → PipelinedQueue Signer Tx → Type 0 where
    starts : (q : Request) (s : PipelinedQueue Signer Tx) → LaterStep s (begin_settle c q s).1
    queues :
        (item : QueuedItem Tx) (s : PipelinedQueue Signer Tx) → LaterStep s (enqueue_item c item s)
    times_out :
        (relayer : String) (s : PipelinedQueue Signer Tx) → LaterStep s (timer_fires c relayer s)
    refuses :
        (now k : ℕ) (m : String) (s : PipelinedQueue Signer Tx)
        → LaterStep s (end_flush c now k (err m) s).1
    arrives :
        (now k : ℕ) (items : List (QueuedItem Tx)) (hashes : List (String × String))
        (s : PipelinedQueue Signer Tx)
        → get_elem? s.flushing k ≡ some items
        → AreNew now (paired c items hashes) (landed k items s)
        → LaterStep s (end_flush c now k (ok hashes) s).1

  pub data LaterRun : PipelinedQueue Signer Tx → PipelinedQueue Signer Tx → Type 0 where
    no_more : (s : PipelinedQueue Signer Tx) → LaterRun s s
    further : {s t u : PipelinedQueue Signer Tx} → LaterRun s t → LaterStep t u → LaterRun s u

  begin_flush-storage :
      (relayer : String) (s : PipelinedQueue Signer Tx)
      → (begin_flush c relayer s).storage ≡ s.storage
  unfolding begin_flush
  begin_flush-storage relayer s = elim (list_cases (batch_of c relayer s)) [
    | inl e ↦ ground (arith, e)
    | inr (i, items, e) ↦ ground (arith, e)
  ]

  enqueue_item-storage :
      (item : QueuedItem Tx) (s : PipelinedQueue Signer Tx)
      → (enqueue_item c item s).storage ≡ s.storage
  unfolding enqueue_item
  enqueue_item-storage item s =
      let relayer = item.relayer_address in
      let pushed = push_item c item s in
      if_both (λ (x : PipelinedQueue Signer Tx). x.storage ≡ s.storage)
        (leb c.batch_size (length (batch_of c relayer pushed)))
        (begin_flush c relayer (without_timer c relayer pushed)) (with_timer c relayer pushed)
        (begin_flush-storage relayer (without_timer c relayer pushed))
        (if_both (λ (x : PipelinedQueue Signer Tx). x.storage ≡ s.storage)
          (any (λ r. r === relayer) s.relayer_timers) pushed
          (record pushed { relayer_timers = s.relayer_timers ++ relayer ∷ [] }) refl refl)

  begin_settle-storage :
      (q : Request) (s : PipelinedQueue Signer Tx) → (begin_settle c q s).1.storage ≡ s.storage
  unfolding begin_settle settle_fresh
  begin_settle-storage q s =
      let tx = transaction_of q.payload in
      let fresh = settle_fresh c q (c.signature_hash_of tx.signature) s in
      let kept : Begun Tx × PipelinedQueue Signer Tx → Type 0 = λ x. x.1.storage ≡ s.storage in
      if_both kept (not (truthy tx.signature)) _ _ refl (
        if_both kept (is_some (completed_hash (existing_of c q s))) _ _ refl
          (if_both kept (leb c.max_queue_depth s.pending_count) _ fresh refl refl))

  step-IsCompleted :
      (hash : String) {s t : PipelinedQueue Signer Tx}
      → LaterStep s t
      → IsCompleted hash s.storage
      → IsCompleted hash t.storage
  unfolding end_flush conclude_items timer_fires
  step-IsCompleted hash (starts q s) h = subst (IsCompleted hash) (sym (begin_settle-storage q s)) h
  step-IsCompleted hash (queues item s) h =
      subst (IsCompleted hash) (sym (enqueue_item-storage item s)) h
  step-IsCompleted hash (times_out relayer s) h =
      subst (IsCompleted hash) (sym (begin_flush-storage relayer (without_timer c relayer s))) h
  step-IsCompleted hash (refuses now k m s) h = elim (Option-cases (get_elem? s.flushing k)) [
    | inl e ↦
        subst (IsCompleted hash)
          (let w : s.storage ≡ (end_flush c now k (err m) s).1.storage = ground (arith, e) in w) h
    | inr (items, e) ↦
        subst (IsCompleted hash)
          (let w : s.storage ≡ (end_flush c now k (err m) s).1.storage = ground (arith, e) in w) h
  ]
  step-IsCompleted hash (arrives now k items hashes s found new) h =
      let same : complete_items c now (paired c items hashes) (landed k items s)
          ≡ end_flush c now k (ok hashes) s =
        ground (arith, found) in
      subst (λ x. IsCompleted hash x.1.storage) same
        (complete_items-IsCompleted hash now (paired c items hashes) (landed k items s) new h)

  pub run-IsCompleted :
      (hash : String) {s t : PipelinedQueue Signer Tx}
      → LaterRun s t
      → IsCompleted hash s.storage
      → IsCompleted hash t.storage
  run-IsCompleted hash (no_more s) h = h
  run-IsCompleted hash (further run step) h =
      step-IsCompleted hash step (run-IsCompleted hash run h)
