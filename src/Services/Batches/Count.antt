-- ===== src/Services/Batches/Count.antt =====
-- The pending count of src/services/pipelined_settlement_queue.ts, over any order of its steps.
use blockrun_multiversx_plat.Base.{
  ℕ, zero, suc, ◌+◌, ◌-◌, String, ◌≡◌, sym, ap, subst, inl, inr, some, List, [], ◌∷◌, ◌++◌, arith,
  leb, ◌===◌, ℕ_key, text_key, or_else, is_some, Bool-cases, Option-cases, if_both,
}
use blockrun_multiversx_plat.Base.Dict.{Dict, get, set}
use blockrun_multiversx_plat.Base.Thrown.{Thrown, ok, err}
use blockrun_multiversx_plat.Base.Lists.{
  length, get_elem?, take, drop, any, length-append, list_cases,
}
use blockrun_multiversx_plat.Base.Text.{truthy, units_key}
use blockrun_multiversx_plat.Domain.{Request, transaction_of}
use blockrun_multiversx_plat.Services.Batches.Defs.{
  QueuedItem, PipelinedQueue, QueueSettings, completed_hash, settle_fresh, existing_of,
  begin_settle, batch_of, begin_flush, push_item, without_timer, with_timer, timer_fires,
  enqueue_item, complete_item, complete_items, paired, conclude_items, end_flush,
}

abbrev pub in_batches {ℓ κ} : {K : Type ℓ} {A : Type κ} → Dict K (List A) → ℕ
in_batches [] = 0
in_batches ((k, xs) ∷ m) = length xs + in_batches m

abbrev pub in_flushing {ℓ} : {A : Type ℓ} → List (List A) → ℕ
in_flushing [] = 0
in_flushing (xs ∷ xss) = length xs + in_flushing xss

in_batches-set :
    {A : Type 0} (k : String) (xs : List A) (m : Dict String (List A))
    → in_batches (set k xs m) + length (or_else (get k m) []) ≡ in_batches m + length xs
unfolding set get
in_batches-set k xs [] = omega arith
in_batches-set k xs ((j, ys) ∷ m) = elim (Bool-cases (j === k)) [
  | inl same ↦ ground (arith, same)
  | inr other ↦ let rest = in_batches-set k xs m in ground (arith, other, rest)
]

in_flushing-append :
    {A : Type 0} (xs ys : List (List A)) → in_flushing (xs ++ ys) ≡ in_flushing xs + in_flushing ys
in_flushing-append [] ys = omega arith
in_flushing-append (x ∷ xs) ys = omega (arith, in_flushing-append xs ys)

in_flushing-without :
    {A : Type 0} (k : ℕ) (l : List (List A)) (xs : List A)
    → get_elem? l k ≡ some xs
    → in_flushing (take k l ++ drop (suc k) l) + length xs ≡ in_flushing l
in_flushing-without k [] xs h = cc
in_flushing-without zero (x ∷ l) xs h =
    let e : x ≡ xs = cc in
    subst (λ y. in_flushing l + length y ≡ length x + in_flushing l) e (omega arith)
in_flushing-without (suc k) (x ∷ l) xs h = omega (arith, in_flushing-without k l xs h)

module _ {Signer Tx : Type 0} (c : QueueSettings Signer Tx) where
  -- The count is of what waits in a batch or is with the network.
  abbrev pub IsPending : PipelinedQueue Signer Tx → Type 0
  IsPending s = s.pending_count ≡ in_batches s.relayer_batches + in_flushing s.flushing

  begin_flush-IsPending :
      (relayer : String) (s : PipelinedQueue Signer Tx)
      → IsPending s
      → IsPending (begin_flush c relayer s)
  unfolding begin_flush
  begin_flush-IsPending relayer s h = elim (list_cases (batch_of c relayer s)) [
    | inl e ↦ ground (arith, e, h)
    | inr (i, items, e) ↦
        let moved = in_batches-set relayer [] s.relayer_batches in
        let added = in_flushing-append s.flushing ((i ∷ items) ∷ []) in
        let size = ap length e in
        let same : begin_flush c relayer s ≡ record s {
          relayer_batches = set relayer [] s.relayer_batches;
          flushing = s.flushing ++ (i ∷ items) ∷ [];
        } =
          ground (arith, e) in
        subst IsPending (sym same) (omega (arith, moved, added, size, h))
  ]

  timer_fires-IsPending :
      (relayer : String) (s : PipelinedQueue Signer Tx)
      → IsPending s
      → IsPending (timer_fires c relayer s)
  unfolding timer_fires
  timer_fires-IsPending relayer s h = begin_flush-IsPending relayer _ h

  enqueue_item-IsPending :
      (item : QueuedItem Tx) (s : PipelinedQueue Signer Tx)
      → IsPending s
      → IsPending (enqueue_item c item s)
  unfolding enqueue_item
  enqueue_item-IsPending item s h =
      let relayer = item.relayer_address in
      let pushed = push_item c item s in
      let counted : IsPending pushed =
        let grown = in_batches-set relayer (batch_of c relayer s ++ item ∷ []) s.relayer_batches in
        let size = length-append (batch_of c relayer s) (item ∷ []) in
        omega (arith, grown, size, h) in
      if_both IsPending (leb c.batch_size (length (batch_of c relayer pushed)))
        (begin_flush c relayer (without_timer c relayer pushed)) (with_timer c relayer pushed)
        (begin_flush-IsPending relayer (without_timer c relayer pushed) counted)
        (if_both IsPending (any (λ r. r === relayer) s.relayer_timers) pushed
          (record pushed { relayer_timers = s.relayer_timers ++ relayer ∷ [] }) counted counted)

  complete_items-IsPending :
      (now : ℕ) (items : List (QueuedItem Tx × String × String)) (s : PipelinedQueue Signer Tx)
      → IsPending s
      → IsPending (complete_items c now items s).1
  unfolding complete_items complete_item
  complete_items-IsPending now [] s h = h
  complete_items-IsPending now ((item, hash, uuid) ∷ items) s h =
      complete_items-IsPending now items (complete_item c now uuid item hash s) h

  conclude_items-IsPending :
      (now : ℕ) (items : List (QueuedItem Tx)) (sent : Thrown (List (String × String)))
      (s : PipelinedQueue Signer Tx)
      → IsPending s
      → IsPending (conclude_items c now items sent s).1
  unfolding conclude_items
  conclude_items-IsPending now items (err m) s h = h
  conclude_items-IsPending now items (ok hashes) s h =
      complete_items-IsPending now (paired c items hashes) s h

  end_flush-IsPending :
      (now k : ℕ) (sent : Thrown (List (String × String))) (s : PipelinedQueue Signer Tx)
      → IsPending s
      → IsPending (end_flush c now k sent s).1
  unfolding end_flush
  end_flush-IsPending now k sent s h = elim (Option-cases (get_elem? s.flushing k)) [
    | inl e ↦
        let same : end_flush c now k sent s ≡ ([], s) = ground (arith, e) in
        subst (λ x. IsPending x.1) (sym same) h
    | inr (items, e) ↦
        let left : PipelinedQueue Signer Tx = record s {
          flushing = take k s.flushing ++ drop (suc k) s.flushing;
          pending_count = s.pending_count - length items;
        } in
        let fewer = in_flushing-without k s.flushing items e in
        let same : end_flush c now k sent s ≡ conclude_items c now items sent left =
          ground (arith, e) in
        subst (λ x. IsPending x.1) (sym same)
          (conclude_items-IsPending now items sent left (omega (arith, fewer, h)))
  ]

  settle_fresh-IsPending :
      (q : Request) (hash : String) (s : PipelinedQueue Signer Tx)
      → IsPending s
      → IsPending (settle_fresh c q hash s).1
  unfolding settle_fresh
  settle_fresh-IsPending q hash s h = h

  begin_settle-IsPending :
      (q : Request) (s : PipelinedQueue Signer Tx) → IsPending s → IsPending (begin_settle c q s).1
  unfolding begin_settle
  begin_settle-IsPending q s h =
      let tx = transaction_of q.payload in
      let fresh : IsPending (settle_fresh c q (c.signature_hash_of tx.signature) s).1 =
        settle_fresh-IsPending q (c.signature_hash_of tx.signature) s h in
      elim (Bool-cases (truthy tx.signature)) [
        | inr e ↦ ground (arith, e, h)
        | inl e ↦ elim (Bool-cases (is_some (completed_hash (existing_of c q s)))) [
          | inl done ↦ ground (arith, e, done, h)
          | inr new ↦ elim (Bool-cases (leb c.max_queue_depth s.pending_count)) [
            | inl full ↦ ground (arith, e, new, full, h)
            | inr room ↦ ground (arith, e, new, room, fresh)
          ]
        ]
      ]

  -- The steps: a call of `settle` up to the signature, an item that is signed, a timer, and the answer of
  -- the network.
  pub data QueueStep : PipelinedQueue Signer Tx → PipelinedQueue Signer Tx → Type 0 where
    begins : (q : Request) (s : PipelinedQueue Signer Tx) → QueueStep s (begin_settle c q s).1
    enqueues :
        (item : QueuedItem Tx) (s : PipelinedQueue Signer Tx) → QueueStep s (enqueue_item c item s)
    fires :
        (relayer : String) (s : PipelinedQueue Signer Tx) → QueueStep s (timer_fires c relayer s)
    lands :
        (now k : ℕ) (sent : Thrown (List (String × String))) (s : PipelinedQueue Signer Tx)
        → QueueStep s (end_flush c now k sent s).1

  pub data QueueRun : PipelinedQueue Signer Tx → PipelinedQueue Signer Tx → Type 0 where
    idle : (s : PipelinedQueue Signer Tx) → QueueRun s s
    onward : {s t u : PipelinedQueue Signer Tx} → QueueRun s t → QueueStep t u → QueueRun s u

  step-IsPending : {s t : PipelinedQueue Signer Tx} → QueueStep s t → IsPending s → IsPending t
  step-IsPending (begins q s) h = begin_settle-IsPending q s h
  step-IsPending (enqueues item s) h = enqueue_item-IsPending item s h
  step-IsPending (fires relayer s) h = timer_fires-IsPending relayer s h
  step-IsPending (lands now k sent s) h = end_flush-IsPending now k sent s h

  -- Over any order of calls, signed items, timers and answers of the network, the pending count is the
  -- number of the items that wait in a batch or are with the network, if it is at the start.
  pub run-IsPending : {s t : PipelinedQueue Signer Tx} → QueueRun s t → IsPending s → IsPending t
  run-IsPending (idle s) h = h
  run-IsPending (onward run step) h = step-IsPending step (run-IsPending run h)
