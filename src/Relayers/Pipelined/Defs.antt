-- ===== src/Relayers/Pipelined/Defs.antt =====
-- src/services/pipelined_relayer_pool.ts: `PipelinedRelayerPool`. Nonces are BigInt values that start
-- from zero or more; signers and their addresses are as in src/services/relayer_pool.ts.
use blockrun_multiversx_plat.Base.{
  ℕ, zero, suc, ◌+◌, ◌-◌, ◌%◌, String, Bool, Option, none, some, List, [], ◌∷◌, ◌++◌, ltb, leb,
  if◌then◌else◌, ◌===◌, ℕ_key, text_key, or_else,
}
use blockrun_multiversx_plat.Base.Dict.{Dict, get, set, has}
use blockrun_multiversx_plat.Base.Thrown.{Thrown, ok, err, or_throw}
use blockrun_multiversx_plat.Base.Lists.{length, get_elem?, any}
use blockrun_multiversx_plat.Base.Text.{◌<>◌, show_ℕ}
use blockrun_multiversx_plat.Relayers.Pool.Defs.{Signers}

pub record Tracker : Type 0 where
  pub next_nonce : ℕ
  pub confirmed_nonce : ℕ
  pub in_flight_count : ℕ

pub record Pipeline (Signer : Type 0) : Type 0 where
  pub shard_relayers : Dict ℕ (List Signer)
  pub round_robin_index : Dict ℕ ℕ
  pub nonce_trackers : Dict String Tracker
  pub max_in_flight_per_relayer : ℕ

unfoldable pub new_pipeline : {Signer : Type 0} → Option ℕ → Pipeline Signer
new_pipeline max_in_flight = record {
  shard_relayers = [];
  round_robin_index = [];
  nonce_trackers = [];
  max_in_flight_per_relayer = or_else max_in_flight 250;
}

-- The tracker after a resync. The count is `Number(nextNonce - confirmedNonce)`, which is never
-- negative here, since the next nonce is first raised to the one on the chain.
abbrev pub resynced : Tracker → ℕ → Tracker
resynced t on_chain =
    let next : ℕ = if ltb t.next_nonce on_chain then on_chain else t.next_nonce in
    record { next_nonce = next; confirmed_nonce = on_chain; in_flight_count = next - on_chain }

module _ {Signer : Type 0} where
  abbrev pub listed : Pipeline Signer → ℕ → List Signer
  listed p shard = or_else (get shard p.shard_relayers) []

  unfoldable pub reserve_nonce : Pipeline Signer → String → Thrown ℕ × Pipeline Signer
  reserve_nonce p address = elim (get address p.nonce_trackers) [
    | none ↦ (err ("Relayer address " <> address <> " not registered in pipelined pool"), p)
    | some t ↦
        let t' : Tracker = record t {
          next_nonce = t.next_nonce + 1;
          in_flight_count = t.in_flight_count + 1;
        } in
        (ok t.next_nonce, record p { nonce_trackers = set address t' p.nonce_trackers })
  ]

  unfoldable pub confirm_nonce : Pipeline Signer → String → ℕ → Pipeline Signer
  confirm_nonce p address nonce = elim (get address p.nonce_trackers) [
    | none ↦ p
    | some t ↦
        let t' : Tracker = record t {
          confirmed_nonce = if leb t.confirmed_nonce nonce then nonce + 1 else t.confirmed_nonce;
          in_flight_count = t.in_flight_count - 1;
        } in
        record p { nonce_trackers = set address t' p.nonce_trackers }
  ]

  unfoldable pub resync_nonce : Pipeline Signer → String → ℕ → Pipeline Signer
  resync_nonce p address on_chain =
      let t' : Tracker = elim (get address p.nonce_trackers) [
        | none ↦ record { next_nonce = on_chain; confirmed_nonce = on_chain; in_flight_count = 0 }
        | some t ↦ resynced t on_chain
      ] in
      record p { nonce_trackers = set address t' p.nonce_trackers }

  unfoldable pub get_in_flight_count : Pipeline Signer → String → ℕ
  get_in_flight_count p address = elim (get address p.nonce_trackers) [
    | none ↦ 0
    | some t ↦ t.in_flight_count
  ]

  unfoldable pub can_accept_transaction : Pipeline Signer → String → Option ℕ → Bool
  unfolding get_in_flight_count
  can_accept_transaction p address max_in_flight =
      ltb (get_in_flight_count p address) (or_else max_in_flight p.max_in_flight_per_relayer)

  unfoldable pub next_relayer_for_shard : Pipeline Signer → ℕ → Thrown Signer × Pipeline Signer
  next_relayer_for_shard p shard =
      let current = or_else (get shard p.round_robin_index) 0 in
      elim (listed p shard) [
        | [] ↦ (err ("No relayer registered for shard " <> show_ℕ shard), p)
        | s ∷ ss ↦ (
          or_throw (get_elem? (s ∷ ss) (current % length (s ∷ ss))) "undefined",
          record p {
            round_robin_index = set shard ((current + 1) % length (s ∷ ss)) p.round_robin_index;
          },
        )
      ]

module _ {Signer : Type 0} (sdk : Signers Signer) where
  unfoldable pub register : Pipeline Signer → ℕ → Signer → ℕ → Pipeline Signer
  register p shard signer starting_nonce =
      let address = sdk.address_of signer in
      let start : Tracker = record {
        next_nonce = starting_nonce;
        confirmed_nonce = starting_nonce;
        in_flight_count = 0;
      } in
      if any (λ s. sdk.address_of s === address) (listed p shard) then p else record p {
        shard_relayers = set shard (listed p shard ++ signer ∷ []) p.shard_relayers;
        nonce_trackers =
            if has address p.nonce_trackers
            then p.nonce_trackers
            else set address start p.nonce_trackers;
      }

  -- One round of the loop at the end of `fromMnemonic` for one shard.
  unfoldable pub pad_round : Pipeline Signer → ℕ → Pipeline Signer
  pad_round p shard = elim (listed p shard) [ [] ↦ p | s ∷ ss ↦ register p shard s 0 ]

  -- The loop at the end of `fromMnemonic` for one shard, which registers the first relayer of the
  -- shard again as long as there are too few; `none` when the fuel is used up.
  unfoldable pub pad : ℕ → Pipeline Signer → ℕ → ℕ → Option (Pipeline Signer)
  pad zero p shard per = none
  pad (suc fuel) p shard per =
      let rest = pad fuel (pad_round p shard) shard per in
      if ltb (length (listed p shard)) per then rest else some p
