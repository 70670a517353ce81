-- ===== src/Relayers/Pipelined/Padding.antt =====
-- The padding loop of `fromMnemonic` in src/services/pipelined_relayer_pool.ts.
use blockrun_multiversx_plat.Base.{
  ℕ, zero, suc, ◌<◌, ◌≡◌, refl, inl, inr, none, List, ◌∷◌, ℕ_key, text_key, ===_refl, lt→ltb,
}
use blockrun_multiversx_plat.Base.Lists.{length, list_cases}
use blockrun_multiversx_plat.Relayers.Pool.Defs.{Signers}
use blockrun_multiversx_plat.Relayers.Pipelined.Defs.{Pipeline, listed, register, pad_round, pad}

module _ {Signer : Type 0} (sdk : Signers Signer) where
  -- Registering the first relayer of a shard again changes nothing.
  register_first :
      (p : Pipeline Signer) (shard start : ℕ) (s : Signer) (ss : List Signer)
      → listed p shard ≡ s ∷ ss
      → register sdk p shard s start ≡ p
  unfolding register
  register_first p shard start s ss e = rw e (rw ===_refl)

  pad_round_same : (p : Pipeline Signer) (shard : ℕ) → pad_round sdk p shard ≡ p
  unfolding pad_round
  pad_round_same p shard = elim (list_cases (listed p shard)) [
    | inl e ↦ rw (e, pad_round)
    | inr (s, ss, e) ↦ rw (e, pad_round) (register_first p shard 0 s ss e)
  ]

  -- However many rounds it is given, the padding loop does not end on a shard that has a relayer and
  -- has fewer than asked for: each round registers an address that is there already.
  pub pad_endless :
      (fuel : ℕ) (p : Pipeline Signer) (shard per : ℕ)
      → 0 < length (listed p shard)
      → length (listed p shard) < per
      → pad sdk fuel p shard per ≡ none
  unfolding pad
  pad_endless zero p shard per h few = refl
  pad_endless (suc fuel) p shard per h few =
      rw (pad_round_same, lt→ltb _ _ few) (pad_endless fuel p shard per h few)
