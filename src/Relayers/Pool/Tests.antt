-- ===== src/Relayers/Pool/Tests.antt =====
-- Runs of the relayer pool, and its theorems at concrete inputs.
use blockrun_multiversx_plat.Base.{
  ℕ, ◌+◌, ◌<◌, max, ◌≡◌, refl, ◌||◌, some, [], ◌∷◌, arith, if◌then◌else◌, ◌===◌, ℕ_key, text_key,
}
use blockrun_multiversx_plat.Base.Dict.{get, set}
use blockrun_multiversx_plat.Base.Thrown.{ok}
use blockrun_multiversx_plat.Base.Lists.{length}
use blockrun_multiversx_plat.Base.Text.{show_ℕ}
use blockrun_multiversx_plat.Relayers.Pool.Defs.{
  Pool, Signers, empty_pool, relayers, get_next_relayer_for_shard, register_relayer, scan_index,
  scan, from_mnemonic,
}
use blockrun_multiversx_plat.Relayers.Pool.Distinct.{Distinct}
use blockrun_multiversx_plat.Relayers.Pool.Rotation.{advance, advance_serves_all}
use blockrun_multiversx_plat.Relayers.Pool.Scan.{AllPlanned, from_mnemonic-AllPlanned}

-- Signers are numbers, at shard 0 or 1 by parity.
abbrev parity : Signers ℕ
parity = record {
  address_of = λ n. show_ℕ n;
  shard_of = λ a. ok (if a === "2" || a === "4" || a === "6" then 0 else 1);
}

abbrev two : Pool ℕ
two = record { shard_relayers = (0, 2 ∷ 4 ∷ []) ∷ []; round_robin_index = (0, 5) ∷ [] }

two-Distinct : (other : ℕ) → Distinct parity (relayers two other)
unfolding get show_ℕ
two-Distinct other = ground arith

advance_serves_all_example :
    (k : ℕ) × (k < length (relayers two 0))
    × ((get_next_relayer_for_shard (advance k two 0) 0).0 ≡ ok 4)
unfolding get
advance_serves_all_example = advance_serves_all 1 two 0 refl (omega arith)

abbrev scanned : Pool ℕ
scanned = record { shard_relayers = (0, 2 ∷ 4 ∷ []) ∷ []; round_robin_index = [] }

scan_two : from_mnemonic parity (λ i. i + 1) (some 9) (some (0 ∷ [])) (some 2) ≡ ok scanned
unfolding from_mnemonic scan scan_index register_relayer empty_pool get set show_ℕ
scan_two = refl

from_mnemonic-AllPlanned_example : AllPlanned parity (0 ∷ []) (max 1 2) scanned
from_mnemonic-AllPlanned_example =
    from_mnemonic-AllPlanned parity (λ i. i + 1) (some 9) (some (0 ∷ [])) (some 2) scanned scan_two
