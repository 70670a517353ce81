-- ===== src/Services/Sentinel/Defs.antt =====
-- src/services/relayer_gas_sentinel.ts: `RelayerGasSentinel`, which tops up the relayers of a pool from the
-- treasury. A check is one step; a call that comes while it runs finds `is_checking`.
use blockrun_multiversx_plat.Base.{
  ℕ, ◌+◌, max, String, Bool, true, false, Option, none, some, List, [], ◌∷◌, ◌++◌, map, ltb, leb,
  if◌then◌else◌, ◌===◌, ℕ_key, text_key, or_else, is_some,
}
use blockrun_multiversx_plat.Base.Dict.{Dict, set, values}
use blockrun_multiversx_plat.Base.Thrown.{Thrown, ok, err}
use blockrun_multiversx_plat.Base.Lists.{length, any}
use blockrun_multiversx_plat.Base.Text.{units_key}
use blockrun_multiversx_plat.Relayers.Pool.Defs.{Pool, Signers, get_all_relayer_addresses_multi}

-- A relayer with the shard that it is configured for.
pub record Relayer : Type 0 where
  pub address : String
  pub shard : ℕ

pub record RelayerBalanceStatus : Type 0 where
  pub relayer : Relayer
  pub balance : ℕ
  pub needs_top_up : Bool
  pub last_checked : ℕ

-- An entry of the result of a check.
pub record CheckedRelayer : Type 0 where
  pub relayer : Relayer
  pub balance : ℕ
  pub topped_up : Bool
  pub tx_hash : Option String
  pub error : Option String

pub record SentinelCheckResult : Type 0 where
  pub checked : ℕ
  pub topped_up : ℕ
  pub threshold : ℕ
  pub relayers : List CheckedRelayer

-- The fields of a transfer from the treasury that are not constants.
pub record TopUp : Type 0 where
  pub nonce : ℕ
  pub value : ℕ
  pub receiver : String
  pub chain_id : String

-- `sent` are the transfers that the network has answered with a hash.
pub record Sentinel : Type 0 where
  pub threshold : ℕ
  pub top_up_amount : ℕ
  pub chain_id : String
  pub is_running : Bool
  pub local_nonce : ℕ
  pub is_checking : Bool
  pub latest_statuses : Dict String RelayerBalanceStatus
  pub sent : List TopUp

-- The constructor, for amounts that are given as BigInt values.
abbrev pub new_sentinel : Option ℕ → Option ℕ → Option String → Sentinel
new_sentinel threshold amount chain_id = record {
  threshold = or_else threshold 50000000000000000;
  top_up_amount = or_else amount 100000000000000000;
  chain_id = or_else chain_id "D";
  is_running = false;
  local_nonce = 0;
  is_checking = false;
  latest_statuses = [];
  sent = [];
}

-- The network during a check, the signer of the treasury, and the two callbacks, any of which may throw.
-- The nonce of the treasury is there if the account has one that is a number.
pub record Ports : Type 0 where
  pub treasury_nonce : Thrown (Option ℕ)
  pub balance_of : String → Thrown ℕ
  pub sign_and_send : TopUp → Thrown String
  pub on_alert : String → ℕ → ℕ → Thrown (Unit {0})
  pub on_top_up : String → ℕ → String → Thrown (Unit {0})

-- `Object.entries` of an object with numbers as keys lists them in ascending order.
abbrev pub insert_entry {ℓ} : {A : Type ℓ} → ℕ × A → Dict ℕ A → Dict ℕ A
insert_entry e [] = e ∷ []
insert_entry e (d ∷ m) = let rest = insert_entry e m in if leb e.0 d.0 then e ∷ d ∷ m else d ∷ rest

abbrev pub entries {ℓ} : {A : Type ℓ} → Dict ℕ A → Dict ℕ A
entries [] = []
entries (e ∷ m) = insert_entry e (entries m)

abbrev pub relayer_at : ℕ → String → Relayer
relayer_at shard address = record { address = address; shard = shard }

abbrev pub relayers_in : Dict ℕ (List String) → List Relayer
relayers_in [] = []
relayers_in ((shard, addrs) ∷ m) = map (relayer_at shard) addrs ++ relayers_in m

abbrev pub was_seen : String → List String → Bool
was_seen address seen = any (λ a. a === address) seen

-- The relayers whose address is not yet seen.
abbrev pub unseen : List String → List Relayer → List Relayer
unseen seen [] = []
unseen seen (r ∷ rs) =
    let known = was_seen r.address seen in
    let rest = unseen (if known then seen else r.address ∷ seen) rs in
    if known then rest else r ∷ rest

abbrev pub unique_relayers : {Signer : Type 0} → Signers Signer → Pool Signer → List Relayer
unique_relayers signers pool =
    unseen [] (relayers_in (entries (get_all_relayer_addresses_multi signers pool)))

unfoldable pub start : Sentinel → Sentinel
start s = record s { is_running = true }

unfoldable pub stop : Sentinel → Sentinel
stop s = record s { is_running = false }

unfoldable pub get_relayer_statuses : Sentinel → List RelayerBalanceStatus
get_relayer_statuses s = values s.latest_statuses

-- The transfer to a relayer with a nonce.
abbrev pub top_up_to : Sentinel → ℕ → String → TopUp
top_up_to s nonce address = record {
  nonce = nonce;
  value = s.top_up_amount;
  receiver = address;
  chain_id = s.chain_id;
}

abbrev pub report : Relayer → ℕ → Option String → Option String → CheckedRelayer
report r balance tx_hash error = record {
  relayer = r;
  balance = balance;
  topped_up = is_some tx_hash;
  tx_hash = tx_hash;
  error = error;
}

abbrev pub with_status : ℕ → Relayer → ℕ → Sentinel → Sentinel
with_status now r balance s = record s {
  latest_statuses =
      set r.address
        (record {
          relayer = r;
          balance = balance;
          needs_top_up = ltb balance s.threshold;
          last_checked = now;
        })
        s.latest_statuses;
}

module _ (ports : Ports) where
  unfoldable pub execute_top_up : String → Sentinel → Thrown String × Sentinel
  execute_top_up address s =
      let tx = top_up_to s s.local_nonce address in
      elim (ports.sign_and_send tx) [
        | err m ↦ (err m, s)
        | ok hash ↦
            (ok hash, record s { local_nonce = s.local_nonce + 1; sent = s.sent ++ tx ∷ [] })
      ]

  -- After the transfer: the entry, by how much the count of top-ups rises, and the sentinel.
  unfoldable pub after_top_up :
      Relayer → ℕ → Thrown String × Sentinel → CheckedRelayer × ℕ × Sentinel
  after_top_up r balance (err m, s) = (report r balance none (some m), 0, s)
  after_top_up r balance (ok hash, s) = elim (ports.on_top_up r.address s.top_up_amount hash) [
    | err m ↦ (report r balance none (some m), 1, s)
    | ok u ↦ (report r balance (some hash) none, 1, s)
  ]

  -- A relayer below the threshold.
  unfoldable pub refill_relayer : Relayer → ℕ → Sentinel → CheckedRelayer × ℕ × Sentinel
  unfolding execute_top_up after_top_up
  refill_relayer r balance s = elim (ports.on_alert r.address balance s.threshold) [
    | err m ↦ (report r balance none (some m), 0, s)
    | ok u ↦ after_top_up r balance (execute_top_up r.address s)
  ]

  unfoldable pub check_relayer : ℕ → Relayer → Sentinel → CheckedRelayer × ℕ × Sentinel
  unfolding refill_relayer
  check_relayer now r s = elim (ports.balance_of r.address) [
    | err m ↦ (report r 0 none (some m), 0, s)
    | ok balance ↦
        let s' = with_status now r balance s in
        let refilled = refill_relayer r balance s' in
        if ltb balance s.threshold then refilled else (report r balance none none, 0, s')
  ]

  unfoldable pub check_relayers : ℕ → List Relayer → Sentinel → List CheckedRelayer × ℕ × Sentinel
  unfolding check_relayer
  check_relayers now [] s = ([], 0, s)
  check_relayers now (r ∷ rs) s =
      let (entry, n, s') = check_relayer now r s in
      let (others, m, s'') = check_relayers now rs s' in (entry ∷ others, n + m, s'')

  -- A check over the relayers of a pool, after the nonce of the treasury was asked for.
  unfoldable pub run_check :
      {Signer : Type 0}
      → Signers Signer
      → Pool Signer
      → ℕ
      → Option ℕ
      → Sentinel
      → SentinelCheckResult × Sentinel
  unfolding check_relayers
  run_check signers pool now on_chain s =
      let synced = record s { local_nonce = max s.local_nonce (or_else on_chain s.local_nonce) } in
      let rs = unique_relayers signers pool in
      let (results, topped, s') = check_relayers now rs synced in
      (
        record {
          checked = length rs;
          topped_up = topped;
          threshold = s.threshold;
          relayers = results;
        },
        s',
      )

  unfoldable pub check_and_top_up :
      {Signer : Type 0}
      → Signers Signer
      → Pool Signer
      → ℕ
      → Sentinel
      → Thrown SentinelCheckResult × Sentinel
  unfolding run_check
  check_and_top_up signers pool now s =
      let busy : SentinelCheckResult = record {
        checked = 0;
        topped_up = 0;
        threshold = s.threshold;
        relayers = [];
      } in
      let checking = record s { is_checking = true } in
      let done : Thrown SentinelCheckResult × Sentinel = elim ports.treasury_nonce [
        | err m ↦ (err m, record checking { is_checking = false })
        | ok on_chain ↦
            let (result, s') = run_check signers pool now on_chain checking in
            (ok result, record s' { is_checking = false })
      ] in
      if s.is_checking then (ok busy, s) else done

  -- The timer, while it runs; what a check throws is dropped.
  unfoldable pub tick : {Signer : Type 0} → Signers Signer → Pool Signer → ℕ → Sentinel → Sentinel
  unfolding check_and_top_up
  tick signers pool now s =
      let (result, s') = check_and_top_up signers pool now s in if s.is_running then s' else s
