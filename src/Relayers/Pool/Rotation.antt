-- ===== src/Relayers/Pool/Rotation.antt =====
-- The rotation of src/services/relayer_pool.ts.
use blockrun_multiversx_plat.Base.{
  ℕ, zero, suc, ◌+◌, ◌-◌, ◌*◌, ◌/◌, ◌%◌, ◌<◌, ◌≡◌, refl, sym, ap, ◌∙◌, some, [], arith, ℕ_key,
  text_key, or_else,
}
use blockrun_multiversx_plat.Base.Dict.{get, get-set_self}
use blockrun_multiversx_plat.Base.Thrown.{ok, or_throw}
use blockrun_multiversx_plat.Base.Lists.{length, get_elem?, get_elem?-total, cons_of_pos}
use native.Mathlib.Nat.{mod-lt, add-mod-mod, add-mul-mod_self_right, mod-eq_of_lt, div-add-mod'}
use blockrun_multiversx_plat.Relayers.Pool.Defs.{Pool, relayers, get_next_relayer_for_shard}

-- From place `i` round a list of `n`, the number of steps to place `j`.
steps_to : (i j n : ℕ) → j < n → (i + (j + n - i % n) % n) % n ≡ j
steps_to i j n h =
    add-mod-mod i (j + n - i % n) n
    ∙ ap (λ (m : ℕ). m % n) regrouped
    ∙ add-mul-mod_self_right j (i / n + 1) n
    ∙ mod-eq_of_lt h
  where
    regrouped : i + (j + n - i % n) ≡ j + (i / n + 1) * n
    regrouped = omega (arith, div-add-mod' i n, mod-lt i {m = n} (omega arith))

module _ {Signer : Type 0} where
  abbrev pub index : Pool Signer → ℕ → ℕ
  index p shard = or_else (get shard p.round_robin_index) 0

  -- The pool after `k` calls of `getNextRelayerForShard`.
  unfoldable pub advance : ℕ → Pool Signer → ℕ → Pool Signer
  advance zero p shard = p
  advance (suc k) p shard = advance k (get_next_relayer_for_shard p shard).1 shard

  -- One call on a shard that has relayers.
  pub next_effect :
      (p : Pool Signer) (shard : ℕ)
      → 0 < length (relayers p shard)
      → ((get_next_relayer_for_shard p shard).0
          ≡ or_throw
              (get_elem? (relayers p shard) (index p shard % length (relayers p shard)))
              "undefined")
        × (index (get_next_relayer_for_shard p shard).1 shard ≡ index p shard + 1)
        × ((get_next_relayer_for_shard p shard).1.shard_relayers ≡ p.shard_relayers)
  unfolding get_next_relayer_for_shard
  next_effect p shard h =
      let (s, ss, e) = cons_of_pos (relayers p shard) h in
      rw (e, get_next_relayer_for_shard) (refl, rw get-set_self, refl)

  advance_effect :
      (k : ℕ) (p : Pool Signer) (shard : ℕ)
      → 0 < length (relayers p shard)
      → (index (advance k p shard) shard ≡ index p shard + k)
        × ((advance k p shard).shard_relayers ≡ p.shard_relayers)
  unfolding advance
  advance_effect zero p shard h = (omega arith, refl)
  advance_effect (suc k) p shard h =
      let (a, b, c) = next_effect p shard h in
      let (d, e) = advance_effect k (get_next_relayer_for_shard p shard).1 shard (rw c h) in
      (omega (arith, b, d), e ∙ c)

  -- The call after `k` calls returns the relayer `k` places after the first one's, round the list;
  -- on a shard that has relayers it never throws.
  pub advance-next :
      (k : ℕ) (p : Pool Signer) (shard : ℕ)
      → 0 < length (relayers p shard)
      → (s : Signer) × ((get_next_relayer_for_shard (advance k p shard) shard).0 ≡ ok s)
        × (get_elem? (relayers p shard) ((index p shard + k) % length (relayers p shard)) ≡ some s)
  advance-next k p shard h =
      let (i, same_lists) = advance_effect k p shard h in
      let lists : relayers (advance k p shard) shard ≡ relayers p shard =
        ap (λ m. or_else (get shard m) []) same_lists in
      let (result, _, _) = next_effect (advance k p shard) shard (rw lists h) in
      let (s, found) =
        get_elem?-total (relayers p shard) ((index p shard + k) % length (relayers p shard))
          (mod-lt _ h) in
      (s, rw (result, lists, i, found), found)

  -- Any number of calls as long as the list serves every relayer of it: for each place there is a
  -- number of calls below the list's length after which the relayer of that place is next.
  pub advance_serves_all :
      (j : ℕ) (p : Pool Signer) (shard : ℕ) {s : Signer}
      → get_elem? (relayers p shard) j ≡ some s
      → j < length (relayers p shard)
      → (k : ℕ) × (k < length (relayers p shard))
        × ((get_next_relayer_for_shard (advance k p shard) shard).0 ≡ ok s)
  advance_serves_all j p shard {s} e h =
      let n = length (relayers p shard) in
      let i = index p shard in
      let k = (j + n - i % n) % n in
      let nonempty : 0 < n = omega arith in
      let (t, served, place) = advance-next k p shard nonempty in
      let same : some t ≡ some s =
        sym place ∙ ap (get_elem? (relayers p shard)) (steps_to i j n h) ∙ e in
      (k, mod-lt (j + n - i % n) nonempty, cc (served, same))
