-- ===== src/Services/Sentinel/Whole.antt =====
-- A whole check of src/services/relayer_gas_sentinel.ts: every relayer of the pool is checked once.
use blockrun_multiversx_plat.Base.{
  ℕ, max, String, ◌≡◌, refl, sym, ap, ◌∙◌, subst, inl, inr, Bool, true, false, ◌||◌, Option, List,
  [], ◌∷◌, arith, ◌===◌, ℕ_key, text_key, ===_refl, or_else, Bool-cases,
}
use blockrun_multiversx_plat.Base.Thrown.{ok}
use blockrun_multiversx_plat.Base.Lists.{length, any}
use blockrun_multiversx_plat.Base.Text.{units_key}
use blockrun_multiversx_plat.Relayers.Pool.Defs.{Pool, Signers, get_all_relayer_addresses_multi}
use blockrun_multiversx_plat.Services.Sentinel.Defs.{
  Relayer, SentinelCheckResult, Sentinel, Ports, entries, relayers_in, was_seen, unseen,
  unique_relayers, run_check, check_and_top_up,
}
use blockrun_multiversx_plat.Services.Sentinel.Refills.{Served, check_relayers-Served}

abbrev pub is_listed : String → List Relayer → Bool
is_listed address rs = any (λ (r : Relayer). r.address === address) rs

abbrev pub AreDistinct : List Relayer → Type 0
AreDistinct [] = Unit {0}
AreDistinct (r ∷ rs) = (is_listed r.address rs ≡ false) × AreDistinct rs

seen-unlisted :
    (a : String) (rs : List Relayer) (seen : List String)
    → was_seen a seen ≡ true
    → is_listed a (unseen seen rs) ≡ false
seen-unlisted a [] seen h = refl
seen-unlisted a (r ∷ rs) seen h = elim (Bool-cases (was_seen r.address seen)) [
  | inl known ↦ let rest = seen-unlisted a rs seen h in ground (arith, known, rest)
  | inr fresh ↦
      let rest = seen-unlisted a rs (r.address ∷ seen) (ground (arith, h)) in
      elim (Bool-cases (r.address === a)) [
        | inl same ↦
            let e : r.address ≡ a = (text_key.same_iff r.address a).0 same in
            let w : was_seen r.address seen ≡ true = ap (λ x. was_seen x seen) e ∙ h in absurd cc
        | inr other ↦ ground (arith, fresh, rest, other)
      ]
]

unseen-AreDistinct : (rs : List Relayer) (seen : List String) → AreDistinct (unseen seen rs)
unseen-AreDistinct [] seen = tt
unseen-AreDistinct (r ∷ rs) seen = elim (Bool-cases (was_seen r.address seen)) [
  | inl known ↦
      let rest = unseen-AreDistinct rs seen in
      subst AreDistinct (let w : unseen seen rs ≡ unseen seen (r ∷ rs) = ground (arith, known) in w)
        rest
  | inr fresh ↦
      let w : r ∷ unseen (r.address ∷ seen) rs ≡ unseen seen (r ∷ rs) = ground (arith, fresh) in
      subst AreDistinct w (
        seen-unlisted r.address rs (r.address ∷ seen) (ground (arith, ===_refl r.address)),
        unseen-AreDistinct rs (r.address ∷ seen),
      )
]

listed-unseen :
    (a : String) (rs : List Relayer) (seen : List String)
    → is_listed a rs ≡ true
    → (was_seen a seen || is_listed a (unseen seen rs)) ≡ true
listed-unseen a [] seen h = absurd cc
listed-unseen a (r ∷ rs) seen h = elim (Bool-cases (r.address === a)) [
  | inl same ↦
      let e : r.address ≡ a = (text_key.same_iff r.address a).0 same in
      elim (Bool-cases (was_seen r.address seen)) [
        | inl known ↦
            let w : was_seen a seen ≡ true = ap (λ x. was_seen x seen) (sym e) ∙ known in
            ground (arith, w)
        | inr fresh ↦ ground (arith, fresh, same)
      ]
  | inr other ↦
      let below : is_listed a rs ≡ true = ground (arith, h, other) in
      elim (Bool-cases (was_seen r.address seen)) [
        | inl known ↦ let rest = listed-unseen a rs seen below in ground (arith, known, rest)
        | inr fresh ↦
            let rest = listed-unseen a rs (r.address ∷ seen) below in
            ground (arith, fresh, rest, other)
      ]
]

module _ {Signer : Type 0} (ports : Ports) (signers : Signers Signer) (pool : Pool Signer) where
  abbrev pub configured : List Relayer
  configured = relayers_in (entries (get_all_relayer_addresses_multi signers pool))

  -- What a check from a nonce on has done, with the relayers of the pool listed once each.
  abbrev pub IsChecked : ℕ → Sentinel → SentinelCheckResult → Sentinel → Type 0
  IsChecked n s result s' =
      let rs = unique_relayers signers pool in
      AreDistinct rs
      × ((a : String) → is_listed a configured ≡ true → is_listed a rs ≡ true)
      × (result.checked ≡ length rs)
      × (s'.is_checking ≡ false)
      × Served ports rs (record s { local_nonce = n }) (result.relayers, result.topped_up, s')

  -- A check that is alone and that reads the account of the treasury lists the relayers of the pool once
  -- each and answers. The transfers that it sends go, in the order of the relayers, to relayers whose
  -- balance is below the threshold, one at most to each, with the amount of a top-up and with consecutive
  -- nonces from the greater of its own and the one of the account; the nonce afterwards and the count
  -- of top-ups agree with them, although callbacks and transfers may throw. Every relayer has its entry,
  -- and an entry without an error has the balance, and says a top-up if and only if that is below the
  -- threshold.
  pub check_and_top_up-IsChecked :
      (now : ℕ) (s : Sentinel) (on_chain : Option ℕ)
      → s.is_checking ≡ false
      → ports.treasury_nonce ≡ ok on_chain
      → (result : SentinelCheckResult) × (s' : Sentinel) × (check_and_top_up ports signers pool now
            s
          ≡ (ok result, s'))
        × IsChecked (max s.local_nonce (or_else on_chain s.local_nonce)) s result s'
  unfolding check_and_top_up run_check
  check_and_top_up-IsChecked now s on_chain alone known =
      let rs = unique_relayers signers pool in
      let synced : Sentinel = record s {
        is_checking = true;
        local_nonce = max s.local_nonce (or_else on_chain s.local_nonce);
      } in
      let run = run_check ports signers pool now on_chain (record s { is_checking = true }) in
      (
        run.0,
        record (run.1) { is_checking = false },
        ground (arith, alone, known),
        (
          unseen-AreDistinct configured [],
          (λ a h. listed-unseen a configured [] h),
          refl,
          refl,
          check_relayers-Served ports now rs synced,
        ),
      )
