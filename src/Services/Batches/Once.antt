-- ===== src/Services/Batches/Once.antt =====
-- Repeated requests in src/services/pipelined_settlement_queue.ts, once their payment is completed.
use blockrun_multiversx_plat.Base.{
  ℕ, String, ◌≡◌, sym, ap, ◌∙◌, subst, inl, true, some, arith, ℕ_key, text_key, ===_refl,
}
use blockrun_multiversx_plat.Base.Text.{truthy, units_key}
use blockrun_multiversx_plat.Domain.{Request, transaction_of}
use blockrun_multiversx_plat.Storage.Defs.{completed, SettlementRecord, get_by_signature_hash}
use blockrun_multiversx_plat.Storage.Lookup.{Stored-save, Stored-found}
use blockrun_multiversx_plat.Services.Batches.Defs.{
  QueuedItem, PipelinedQueue, QueueSettings, answered, succeeding_response, completed_hash,
  existing_of, begin_settle, record_of, complete_item,
}
use blockrun_multiversx_plat.Storage.Defs.{completed}
use blockrun_multiversx_plat.Services.Batches.Completed.{
  IsCompleted, IsNew, complete_item-IsCompleted, LaterRun, run-IsCompleted,
}

module _ {Signer Tx : Type 0} (c : QueueSettings Signer Tx) where
  -- The request is answered from a completed record that has its hash, and changes nothing.
  abbrev pub IsAnswered : Request → PipelinedQueue Signer Tx → Type 0
  IsAnswered q s =
      (r : SettlementRecord) × (h : String) × (get_by_signature_hash
          (c.signature_hash_of (transaction_of q.payload).signature) s.storage
        ≡ some r)
      × (r.status ≡ completed)
      × (r.tx_hash ≡ some h)
      × (begin_settle c q s ≡ (answered (succeeding_response q r.payer h), s))

  IsCompleted-IsAnswered :
      (q : Request) (s : PipelinedQueue Signer Tx)
      → truthy (transaction_of q.payload).signature ≡ true
      → IsCompleted (c.signature_hash_of (transaction_of q.payload).signature) s.storage
      → IsAnswered q s
  unfolding begin_settle get_by_signature_hash
  IsCompleted-IsAnswered q s t h =
      let found : existing_of c q s ≡ some h.stored = ground (arith, h.indexed, h.there, h.named) in
      let hash : completed_hash (some h.stored) ≡ some h.sent_as =
        ground (arith, h.is_completed, h.has_hash, h.is_full) in
      (h.stored, h.sent_as, found, h.is_completed, h.has_hash, ground (arith, found, hash, t))

  -- Once an item is completed with a hash that is not empty under a new id, a request with the signature of
  -- the item is at once answered with the hash and the payer of the item; and after any further steps
  -- of the queue, in which the hashes of the network are not empty and ids are new, it is answered from
  -- a completed record of the signature. It is neither signed nor queued then, and nothing changes.
  -- Nothing is said of items with the signature that are in the queue already.
  pub complete_item-IsAnswered :
      (now : ℕ) (uuid hash : String) (item : QueuedItem Tx) (s end : PipelinedQueue Signer Tx)
      (q : Request)
      → IsNew uuid s.storage
      → truthy hash ≡ true
      → truthy (transaction_of q.payload).signature ≡ true
      → c.signature_hash_of (transaction_of q.payload).signature ≡ item.signature_hash
      → LaterRun c (complete_item c now uuid item hash s) end
      → let after = complete_item c now uuid item hash s in
        (begin_settle c q after ≡ (
          answered (succeeding_response q (transaction_of item.request.payload).sender hash),
          after,
        ))
        × IsAnswered q end
  unfolding begin_settle complete_item
  complete_item-IsAnswered now uuid hash item s end q new full t same run =
      let after = complete_item c now uuid item hash s in
      let first =
        complete_item-IsCompleted c item.signature_hash now uuid hash item s full new
          (inl (===_refl item.signature_hash)) in
      let stored : get_by_signature_hash item.signature_hash after.storage
          ≡ some (record_of c now uuid item hash) =
        Stored-found _ _ _ _ (Stored-save (record_of c now uuid item hash) s.storage new.0) in
      let found : existing_of c q after ≡ some (record_of c now uuid item hash) =
        ap (λ x. get_by_signature_hash x after.storage) same ∙ stored in
      (
        ground (arith, found, full, t),
        IsCompleted-IsAnswered q end t (
            subst (λ k. IsCompleted k end.storage) (sym same)
              (run-IsCompleted c item.signature_hash run first)),
      )
