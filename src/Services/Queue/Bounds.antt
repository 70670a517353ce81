-- ===== src/Services/Queue/Bounds.antt =====
-- src/services/settlement_queue.ts: the bound on what is pending.
use blockrun_multiversx_plat.Base.{
  ℕ, zero, suc, ◌+◌, ◌≤◌, ◌<◌, String, ◌≡◌, refl, ap, ◌∙◌, ◌⊎◌, inl, inr, true, Option, none, some,
  List, [], ◌∷◌, map, arith, ltb, leb, ℕ_key, text_key, or_else, is_some, leb→le, Bool-cases,
  Option-cases, if_both,
}
use blockrun_multiversx_plat.Base.Dict.{Dict, get, set}
use blockrun_multiversx_plat.Base.Lists.{length}
use blockrun_multiversx_plat.Base.Text.{truthy, units_key}
use blockrun_multiversx_plat.Domain.{Request, transaction_of}
use blockrun_multiversx_plat.Relayers.Pool.Defs.{Pool, Signers, get_all_relayers_for_shard}
use blockrun_multiversx_plat.Services.Queue.Defs.{Worker, new_worker, enqueue}
use blockrun_multiversx_plat.Services.Queue.Machine.{enqueue-Moves}
use blockrun_multiversx_plat.Services.Queue.Load.{
  SettlementQueue, pending_of, pending_all, get_pending_count, position_of, least_from,
  least_loaded, select_worker, update_at, or_these, create_workers, get_or_create_workers,
  get_shard_for_request, enqueue_request,
}

least_from-bound :
    (best load next : ℕ) (ws : List Worker)
    → best < next
    → least_from best load next ws < next + length ws
least_from-bound best load next [] h = omega arith
least_from-bound best load next (w ∷ ws) h =
    let this = least_from-bound next w.pending_count (next + 1) ws (omega arith) in
    let that = least_from-bound best load (next + 1) ws (omega arith) in
    if_both (λ i. i < next + suc (length ws)) (ltb w.pending_count load) _ _ (omega (arith, this))
      (omega (arith, that))

least_loaded-bound : (ws : List Worker) → 0 < length ws → least_loaded ws < length ws
unfolding least_loaded
least_loaded-bound [] h = absurd (omega arith)
least_loaded-bound (w ∷ ws) h = omega (arith, least_from-bound 0 w.pending_count 1 ws (omega arith))

position_of-bound :
    (r : String) (ws : List Worker) (i : ℕ) → position_of r ws ≡ some i → i < length ws
position_of-bound r [] i h = cc
position_of-bound r (w ∷ ws) i h = elim (Option-cases (position_of r ws)) [
  | inl missing ↦ ground (arith, h, missing)
  | inr (k, there) ↦ ground (arith, h, there, position_of-bound r ws k there)
]

select_worker-bound :
    (relayer : Option String) (ws : List Worker)
    → 0 < length ws
    → select_worker relayer ws < length ws
unfolding select_worker
select_worker-bound none ws h = least_loaded-bound ws h
select_worker-bound (some r) ws h =
    if_both (λ i. i < length ws) (truthy r) _ _ (chosen (Option-cases (position_of r ws)))
      (least_loaded-bound ws h)
  where
    chosen :
        (position_of r ws ≡ none) ⊎ ((i : ℕ) × (position_of r ws ≡ some i))
        → or_else (position_of r ws) (least_loaded ws) < length ws
    chosen (inl missing) = rw missing (least_loaded-bound ws h)
    chosen (inr (i, there)) = rw there (position_of-bound r ws i there)

pending_of-update_at :
    (q : Request) (i : ℕ) (ws : List Worker)
    → i < length ws
    → pending_of (update_at i (enqueue q) ws) ≡ pending_of ws + 1
pending_of-update_at q i [] h = absurd (omega arith)
pending_of-update_at q zero (w ∷ ws) h = omega (arith, (enqueue-Moves q w).0)
pending_of-update_at q (suc i) (w ∷ ws) h = omega (arith, pending_of-update_at q i ws (omega arith))

pending_all-set :
    (k : ℕ) (ws : List Worker) (m : Dict ℕ (List Worker))
    → pending_all (set k ws m) + pending_of (or_else (get k m) []) ≡ pending_all m + pending_of ws
unfolding set get
pending_all-set k ws [] = omega arith
pending_all-set k ws ((j, vs) ∷ m) = ground (arith, pending_all-set k ws m)

-- Workers that are there, of which none has anything pending.
abbrev IsIdle : List Worker → Type 0
IsIdle ws = (0 < length ws) × (pending_of ws ≡ 0)

or_these-pending :
    (fresh ws : List Worker)
    → IsIdle fresh
    → (0 < length (or_these fresh ws)) × (pending_of (or_these fresh ws) ≡ pending_of ws)
or_these-pending fresh [] h = h
or_these-pending fresh (w ∷ ws) h = (omega arith, refl)

new_workers-pending :
    {Signer : Type 0} (sdk : Signers Signer) (shard : ℕ) (ss : List Signer)
    → pending_of (map (λ s. new_worker shard (some (sdk.address_of s))) ss) ≡ 0
new_workers-pending sdk shard [] = refl
new_workers-pending sdk shard (s ∷ ss) = omega (arith, new_workers-pending sdk shard ss)

module _ {Signer : Type 0} (sdk : Signers Signer) (pool : Option (Pool Signer)) where
  create_workers-IsIdle : (shard : ℕ) → IsIdle (create_workers sdk pool shard)
  unfolding create_workers
  create_workers-IsIdle shard = idle pool
    where
      idle : (p : Option (Pool Signer)) → IsIdle (create_workers sdk p shard)
      idle none = (omega arith, refl)
      idle (some p) =
          let ws =
            map (λ s. new_worker shard (some (sdk.address_of s)))
              (get_all_relayers_for_shard p shard) in
          let (a, b) = or_these-pending (new_worker shard none ∷ []) ws (omega arith, refl) in
          (a, b ∙ new_workers-pending sdk shard (get_all_relayers_for_shard p shard))

-- A request is refused, with nothing changed, exactly when the limit is reached; and otherwise it adds
-- one to what is pending, which stays within the limit.
pub enqueue_request-bounded :
    {Signer : Type 0} (sdk : Signers Signer) (pool : Option (Pool Signer)) (q : Request)
    (c : SettlementQueue)
    → let after = enqueue_request sdk pool q c in
      ((c.max_queue_size ≤ get_pending_count none c) × (is_some after.0 ≡ true) × (after.1 ≡ c))
      ⊎ ((after.0 ≡ none)
          × (get_pending_count none after.1 ≡ get_pending_count none c + 1)
          × (get_pending_count none after.1 ≤ c.max_queue_size))
unfolding enqueue_request get_pending_count get_or_create_workers
enqueue_request-bounded sdk pool q c =
    let shard = get_shard_for_request sdk pool q in
    let (there, same) =
      or_these-pending (create_workers sdk pool shard) (or_else (get shard c.shard_workers) [])
        (create_workers-IsIdle sdk pool shard) in
    let ws = get_or_create_workers sdk pool shard c.shard_workers in
    let at = select_worker (transaction_of q.payload).relayer ws in
    let one = pending_of-update_at q at ws (select_worker-bound _ ws there) in
    let all = pending_all-set shard (update_at at (enqueue q) ws) c.shard_workers in
    elim (Bool-cases (leb c.max_queue_size (pending_all c.shard_workers))) [
      | inl full ↦ inl (leb→le _ _ full, ground (arith, full), ground (arith, full))
      | inr room ↦
          let new : SettlementQueue = record c {
            shard_workers = set shard (update_at at (enqueue q) ws) c.shard_workers;
          } in
          let e : enqueue_request sdk pool q c ≡ (none, new) = ground (arith, room) in
          let grown : pending_all new.shard_workers ≡ pending_all c.shard_workers + 1 =
            omega (arith, all, one, same) in
          let below : pending_all c.shard_workers < c.max_queue_size = ground (arith, room) in
          let after = ap (λ x. pending_all x.1.shard_workers) e in
          inr (ap (λ x. x.0) e, after ∙ grown, omega (arith, after, grown, below))
    ]
