-- ===== src/Services/Queue/Load.antt =====
-- src/services/settlement_queue.ts: `SettlementQueue`, which shares the requests out among the workers
-- of a shard and refuses them when too many are pending.
use blockrun_multiversx_plat.Base.{
  ℕ, zero, suc, ◌+◌, String, Bool, false, Option, none, some, List, [], ◌∷◌, map, ltb, leb,
  if◌then◌else◌, ◌===◌, ℕ_key, text_key, or_else,
}
use blockrun_multiversx_plat.Base.Dict.{Dict, get, set}
use blockrun_multiversx_plat.Base.Thrown.{ok, err}
use blockrun_multiversx_plat.Base.Text.{units, ◌<>◌, truthy, show_ℕ, units_key}
use blockrun_multiversx_plat.Domain.{payment_invalid, Request, transaction_of, SettleResponse}
use blockrun_multiversx_plat.Relayers.Pool.Defs.{Pool, Signers, get_all_relayers_for_shard}
use blockrun_multiversx_plat.Services.Queue.Defs.{Worker, new_worker, enqueue}

pub record SettlementQueue : Type 0 where
  pub shard_workers : Dict ℕ (List Worker)
  pub max_queue_size : ℕ

abbrev pub pending_of : List Worker → ℕ
pending_of [] = 0
pending_of (w ∷ ws) = w.pending_count + pending_of ws

-- Without a shard, and with one.
abbrev pub pending_all : Dict ℕ (List Worker) → ℕ
pending_all [] = 0
pending_all ((s, ws) ∷ m) = pending_of ws + pending_all m

unfoldable pub get_pending_count : Option ℕ → SettlementQueue → ℕ
get_pending_count none c = pending_all c.shard_workers
get_pending_count (some shard) c = pending_of (or_else (get shard c.shard_workers) [])

-- The position of the worker of a relayer.
abbrev pub position_of : String → List Worker → Option ℕ
position_of r [] = none
position_of r (w ∷ ws) =
    let rest = position_of r ws in
    if is_relayer w.relayer_address
    then some 0
    else elim rest [ none ↦ none | some i ↦ some (i + 1) ]
  where
    is_relayer : Option String → Bool
    is_relayer none = false
    is_relayer (some a) = a === r

-- The position of the first least-loaded worker: `best` is where `reduce` stands, with its load.
abbrev pub least_from : ℕ → ℕ → ℕ → List Worker → ℕ
least_from best load next [] = best
least_from best load next (w ∷ ws) =
    let this = least_from next w.pending_count (next + 1) ws in
    let that = least_from best load (next + 1) ws in if ltb w.pending_count load then this else that

unfoldable pub least_loaded : List Worker → ℕ
least_loaded [] = 0
least_loaded (w ∷ ws) = least_from 0 w.pending_count 1 ws

unfoldable pub select_worker : Option String → List Worker → ℕ
unfolding least_loaded
select_worker relayer ws =
    let least = least_loaded ws in
    elim relayer [
      | none ↦ least
      | some r ↦ if truthy r then or_else (position_of r ws) least else least
    ]

abbrev pub update_at : ℕ → (Worker → Worker) → List Worker → List Worker
update_at i f [] = []
update_at zero f (w ∷ ws) = f w ∷ ws
update_at (suc i) f (w ∷ ws) = w ∷ update_at i f ws

-- The workers, or those to take where there are none.
abbrev pub or_these : List Worker → List Worker → List Worker
or_these fresh [] = fresh
or_these fresh (w ∷ ws) = w ∷ ws

module _ {Signer : Type 0} (sdk : Signers Signer) (pool : Option (Pool Signer)) where
  -- `getOrCreateWorkersForShard`: one worker for each relayer of the shard, or one with no relayer.
  unfoldable pub create_workers : ℕ → List Worker
  create_workers shard =
      let relayed : List Worker = elim pool [
        | none ↦ []
        | some p ↦
            map (λ s. new_worker shard (some (sdk.address_of s)))
              (get_all_relayers_for_shard p shard)
      ] in
      or_these (new_worker shard none ∷ []) relayed

  unfoldable pub get_or_create_workers : ℕ → Dict ℕ (List Worker) → List Worker
  unfolding create_workers
  get_or_create_workers shard m = or_these (create_workers shard) (or_else (get shard m) [])

  -- An address that does not parse goes to shard 0.
  unfoldable pub get_shard_for_request : Request → ℕ
  get_shard_for_request q = elim (sdk.shard_of (transaction_of q.payload).sender) [
    | err e ↦ 0
    | ok shard ↦ shard
  ]

  abbrev pub saturated : ℕ → ℕ → Request → SettleResponse
  saturated pending limit q = record {
    success = false;
    error_code = some payment_invalid;
    error_reason = some (
        units (
          "Settlement queue saturated: current pending jobs ("
          <> show_ℕ pending
          <> ") exceeded max limit ("
          <> show_ℕ limit
          <> ")"));
    payer = some (transaction_of q.payload).sender;
    transaction = none;
    network = some q.requirements.network;
  }

  -- `SettlementQueue.enqueue`: the refusal, or the queue with the request at a worker.
  unfoldable pub enqueue_request :
      Request → SettlementQueue → Option SettleResponse × SettlementQueue
  enqueue_request q c =
      let total = get_pending_count none c in
      let shard = get_shard_for_request q in
      let ws = get_or_create_workers shard c.shard_workers in
      let at = select_worker (transaction_of q.payload).relayer ws in
      if leb c.max_queue_size total then (some (saturated total c.max_queue_size q), c) else (
        none,
        record c { shard_workers = set shard (update_at at (enqueue q) ws) c.shard_workers },
      )
