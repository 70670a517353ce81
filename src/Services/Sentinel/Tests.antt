-- ===== src/Services/Sentinel/Tests.antt =====
-- Checks of two relayers, and the theorem on a check at one of them.
use blockrun_multiversx_plat.Base.{
  ℕ, max, ◌≡◌, refl, false, none, some, [], ◌∷◌, map, if◌then◌else◌, ◌===◌, ℕ_key, text_key,
}
use blockrun_multiversx_plat.Base.Dict.{set}
use blockrun_multiversx_plat.Base.Thrown.{Thrown, ok, err}
use blockrun_multiversx_plat.Base.Text.{show_ℕ, units_key}
use blockrun_multiversx_plat.Relayers.Pool.Defs.{Pool, get_all_relayer_addresses_multi}
use blockrun_multiversx_plat.Services.Sentinel.Defs.{
  CheckedRelayer, SentinelCheckResult, Sentinel, new_sentinel, Ports, start, stop,
  get_relayer_statuses, execute_top_up, after_top_up, refill_relayer, check_relayer, check_relayers,
  run_check, check_and_top_up, tick,
}
use blockrun_multiversx_plat.Services.Sentinel.Whole.{IsChecked, check_and_top_up-IsChecked}
use blockrun_multiversx_plat.Services.Samples.{chain}

-- One relayer is configured for two shards; the relayer of address 4 has enough.
abbrev two_relayers : Pool ℕ
two_relayers = record {
  shard_relayers = (1, 3 ∷ 4 ∷ []) ∷ (0, 3 ∷ []) ∷ [];
  round_robin_index = [];
}

abbrev ports_of : Thrown (Unit {0}) → Ports
ports_of called = record {
  treasury_nonce = ok (some 7);
  balance_of = λ a. ok (if a === "3" then 1 else 60000000000000000);
  sign_and_send = λ tx. ok "hash";
  on_alert = λ a b t. ok tt;
  on_top_up = λ a b h. called;
}

abbrev watching : Sentinel
watching = start (new_sentinel none none none)

run_sentinel : Unit {0}
unfolding start stop tick check_and_top_up run_check check_relayers check_relayer refill_relayer
    after_top_up execute_top_up get_all_relayer_addresses_multi set get_relayer_statuses
run_sentinel = tt

sends_once :
    (check_and_top_up (ports_of (ok tt)) chain.signers two_relayers 1 watching).1.sent
    ≡ record { nonce = 7; value = 100000000000000000; receiver = "3"; chain_id = "D" } ∷ []
unfolding run_sentinel show_ℕ
sends_once = refl

-- A callback that throws after the transfer leaves it in the count and not in the entry.
unheard :
    ((run_check (ports_of (err "no")) chain.signers two_relayers 1 (some 7) watching).0.topped_up
      ≡ 1)
    × (map
          (λ (e : CheckedRelayer). e.topped_up)
          (run_check
            (ports_of (err "no"))
            chain.signers
            two_relayers
            1
            (some 7)
            watching).0.relayers
        ≡ false ∷ false ∷ [])
unfolding run_sentinel show_ℕ
unheard = (refl, refl)

stops : tick (ports_of (ok tt)) chain.signers two_relayers 1 (stop watching) ≡ stop watching
unfolding run_sentinel
stops = refl

check_and_top_up-IsChecked_example :
    (result : SentinelCheckResult) × (s' : Sentinel) × (check_and_top_up
        (ports_of (ok tt))
        chain.signers
        two_relayers
        1
        watching
      ≡ (ok result, s'))
    × IsChecked
        (ports_of (ok tt))
        chain.signers
        two_relayers
        (max watching.local_nonce 7)
        watching
        result
        s'
unfolding start
check_and_top_up-IsChecked_example =
    check_and_top_up-IsChecked (ports_of (ok tt)) chain.signers two_relayers 1 watching (some 7)
      refl refl
