-- ===== src/Relayers/Pool/Defs.antt =====
-- src/services/relayer_pool.ts: `RelayerPoolManager`. A signer is of any type, with the bech32 address
-- that `getSignerBech32` reads from it; the shard of an address is the SDK's, and may throw.
use blockrun_multiversx_plat.Base.{
  ℕ, zero, suc, ◌+◌, ◌%◌, max, String, Bool, Option, none, some, List, [], ◌∷◌, ◌++◌, map, ltb, leb,
  if◌then◌else◌, ◌===◌, ℕ_key, text_key, or_else, is_some,
}
use blockrun_multiversx_plat.Base.Dict.{Dict, get, set, values}
use blockrun_multiversx_plat.Base.Thrown.{Thrown, ok, err, ◌>>=◌, or_throw}
use blockrun_multiversx_plat.Base.Lists.{length, get_elem?, any, all, find}
use blockrun_multiversx_plat.Base.Text.{◌<>◌, show_ℕ}

pub record Pool (Signer : Type 0) : Type 0 where
  pub shard_relayers : Dict ℕ (List Signer)
  pub round_robin_index : Dict ℕ ℕ

-- What the class takes from `@multiversx/sdk-core` and the signers.
pub record Signers (Signer : Type 0) : Type 0 where
  pub address_of : Signer → String
  pub shard_of : String → Thrown ℕ

unfoldable pub empty_pool : {Signer : Type 0} → Pool Signer
empty_pool = record { shard_relayers = []; round_robin_index = [] }

abbrev pub no_relayer : ℕ → String
no_relayer shard = "No relayer configured for shard " <> show_ℕ shard

module _ {Signer : Type 0} where
  -- `this.shardRelayers.get(shard) || []`
  abbrev pub relayers : Pool Signer → ℕ → List Signer
  relayers p shard = or_else (get shard p.shard_relayers) []

  unfoldable pub has_shard : Pool Signer → ℕ → Bool
  has_shard p shard = ltb 0 (length (relayers p shard))

  unfoldable pub get_relayer_for_shard : Pool Signer → ℕ → Thrown Signer
  get_relayer_for_shard p shard = elim (relayers p shard) [
    | [] ↦ err (no_relayer shard)
    | s ∷ ss ↦ ok s
  ]

  -- The list is not empty, so that the element at the index modulo the length is there.
  unfoldable pub get_next_relayer_for_shard : Pool Signer → ℕ → Thrown Signer × Pool Signer
  get_next_relayer_for_shard p shard =
      let current = or_else (get shard p.round_robin_index) 0 in
      elim (relayers p shard) [
        | [] ↦ (err (no_relayer shard), p)
        | s ∷ ss ↦ (
          or_throw (get_elem? (s ∷ ss) (current % length (s ∷ ss))) "undefined",
          record p { round_robin_index = set shard (current + 1) p.round_robin_index },
        )
      ]

  unfoldable pub get_all_relayers_for_shard : Pool Signer → ℕ → List Signer
  get_all_relayers_for_shard p shard = relayers p shard

module _ {Signer : Type 0} (sdk : Signers Signer) where
  abbrev pub has_address : String → List Signer → Bool
  has_address target list = any (λ s. sdk.address_of s === target) list

  unfoldable pub register_relayer : Pool Signer → ℕ → Signer → Pool Signer
  register_relayer p shard signer =
      let list = relayers p shard in
      if has_address (sdk.address_of signer) list
      then p
      else record p { shard_relayers = set shard (list ++ signer ∷ []) p.shard_relayers }

  unfoldable pub register_relayer_auto : Pool Signer → Signer → Thrown ℕ × Pool Signer
  unfolding register_relayer
  register_relayer_auto p signer = elim (sdk.shard_of (sdk.address_of signer)) [
    | err e ↦ (err e, p)
    | ok shard ↦ (ok shard, register_relayer p shard signer)
  ]

  unfoldable pub get_relayer_address_for_shard : Pool Signer → ℕ → Thrown String
  unfolding get_relayer_for_shard
  get_relayer_address_for_shard p shard = do
    relayer ← get_relayer_for_shard p shard
    ok (sdk.address_of relayer)

  unfoldable pub get_relayer_for_address : Pool Signer → String → Thrown Signer × Pool Signer
  get_relayer_for_address p user = elim (sdk.shard_of user) [
    | err e ↦ (err e, p)
    | ok shard ↦ get_next_relayer_for_shard p shard
  ]

  unfoldable pub get_relayer_address_for_user : Pool Signer → String → Thrown String × Pool Signer
  get_relayer_address_for_user p user =
      let (r, p') = get_relayer_for_address p user in (r >>= λ s. ok (sdk.address_of s), p')

  -- The first signer with the address, shard by shard in the order of registration.
  find_in_lists : String → List (List Signer) → Option Signer
  find_in_lists target [] = none
  find_in_lists target (list ∷ lists) =
      let rest = find_in_lists target lists in
      elim (find (λ s. sdk.address_of s === target) list) [ some s ↦ some s | none ↦ rest ]

  unfoldable pub get_relayer_by_address : Pool Signer → String → Option Signer
  unfolding find_in_lists
  get_relayer_by_address p target = find_in_lists target (values p.shard_relayers)

  unfoldable pub is_configured_relayer : Pool Signer → String → Bool
  unfolding get_relayer_by_address
  is_configured_relayer p target = is_some (get_relayer_by_address p target)

  unfoldable pub get_all_relayer_addresses_multi : Pool Signer → Dict ℕ (List String)
  get_all_relayer_addresses_multi p =
      map (λ (entry : ℕ × List Signer). (entry.0, map sdk.address_of entry.1)) p.shard_relayers

  -- `fromPem` over the signers that the SDK parses from the file.
  unfoldable pub from_signers : Pool Signer → List Signer → Thrown (Pool Signer)
  from_signers p [] = ok p
  from_signers p (s ∷ ss) =
      let (r, p') = register_relayer_auto p s in r >>= λ shard. from_signers p' ss

-- `fromMnemonic`: the scan of derivation indexes from `i` on, `left` of them at most.
module _ {Signer : Type 0} (sdk : Signers Signer) (derive : ℕ → Signer) (targets : List ℕ)
    (per : ℕ) where
  abbrev pub all_filled : Pool Signer → Bool
  all_filled p = all (λ s. leb per (length (relayers p s))) targets

  -- One index: the signer joins its shard if that is wanted and has room.
  unfoldable pub scan_index : Pool Signer → Signer → ℕ → Pool Signer
  scan_index p signer shard =
      if any (λ t. t === shard) targets
      then (if ltb (length (relayers p shard)) per then register_relayer sdk p shard signer else p)
      else p

  unfoldable pub scan : ℕ → ℕ → Pool Signer → Thrown (Pool Signer)
  scan zero i p = ok p
  scan (suc left) i p = elim (sdk.shard_of (sdk.address_of (derive i))) [
    | err e ↦ err e
    | ok shard ↦
        let p' = scan_index p (derive i) shard in
        let rest = scan left (i + 1) p' in if all_filled p' then ok p' else rest
  ]

unfoldable pub from_mnemonic :
    {Signer : Type 0}
    → Signers Signer
    → (ℕ → Signer)
    → Option ℕ
    → Option (List ℕ)
    → Option ℕ
    → Thrown (Pool Signer)
from_mnemonic sdk derive max_scan_index shards_to_cover relayers_per_shard =
    scan sdk derive (or_else shards_to_cover (0 ∷ 1 ∷ 2 ∷ []))
      (max 1 (or_else relayers_per_shard 1)) (or_else max_scan_index 100) 0 empty_pool
