-- ===== src/Relayers/Pool/Scan.antt =====
-- The scan of derivation indexes in src/services/relayer_pool.ts (`fromMnemonic`).
use blockrun_multiversx_plat.Base.{
  ℕ, zero, suc, ◌+◌, ◌≤◌, ◌<◌, max, String, ◌≡◌, refl, sym, ◌∙◌, subst, ◌≢◌, inl, inr, true, false,
  Option, List, [], ◌∷◌, ◌++◌, arith, ltb, if◌then◌else◌, ◌===◌, ℕ_key, text_key, or_else, ltb→lt,
  Bool-cases,
}
use blockrun_multiversx_plat.Base.Dict.{get}
use blockrun_multiversx_plat.Base.Thrown.{ok, err, Thrown-cases, ok_inj}
use blockrun_multiversx_plat.Base.Lists.{length, any, All, length-append, All-append}
use blockrun_multiversx_plat.Relayers.Pool.Defs.{
  Pool, Signers, empty_pool, relayers, has_address, register_relayer, all_filled, scan_index, scan,
  from_mnemonic,
}
use blockrun_multiversx_plat.Relayers.Pool.Distinct.{
  Distinct, Distinct-append, relayers-register_relayer,
}

module _ {Signer : Type 0} (sdk : Signers Signer) (targets : List ℕ) (per : ℕ) where
  -- What the scan keeps of one shard's list: at most `per` relayers, each of that shard, at distinct
  -- addresses, and none for a shard that was not asked for.
  pub record IsPlanned (shard : ℕ) (list : List Signer) : Type 0 where
    pub bounded : length list ≤ per
    pub at_home : All (λ s. sdk.shard_of (sdk.address_of s) ≡ ok shard) list
    pub distinct : Distinct sdk list
    pub wanted : any (λ t. t === shard) targets ≡ false → list ≡ []

  abbrev pub AllPlanned : Pool Signer → Type 0
  AllPlanned p = (shard : ℕ) → IsPlanned shard (relayers p shard)

  empty-AllPlanned : AllPlanned empty_pool
  unfolding empty_pool get
  empty-AllPlanned shard = record {
    bounded = omega arith;
    at_home = tt;
    distinct = tt;
    wanted = λ e. refl;
  }

  append-IsPlanned :
      (shard : ℕ) (list : List Signer) (s : Signer)
      → IsPlanned shard list
      → length list < per
      → sdk.shard_of (sdk.address_of s) ≡ ok shard
      → has_address sdk (sdk.address_of s) list ≡ false
      → any (λ t. t === shard) targets ≡ true
      → IsPlanned shard (list ++ s ∷ [])
  append-IsPlanned shard list s v room home new target = record {
    bounded = omega (arith, length-append list (s ∷ []));
    at_home = All-append _ list (s ∷ []) v.at_home (home, tt);
    distinct = Distinct-append sdk s list new v.distinct;
    wanted = λ e. cc;
  }

  register-AllPlanned :
      (p : Pool Signer) (s : Signer) (shard : ℕ)
      → length (relayers p shard) < per
      → sdk.shard_of (sdk.address_of s) ≡ ok shard
      → any (λ t. t === shard) targets ≡ true
      → AllPlanned p
      → AllPlanned (register_relayer sdk p shard s)
  register-AllPlanned p s shard room home target v other =
      rw (relayers-register_relayer sdk p shard other s)
        (elim (Bool-cases (has_address sdk (sdk.address_of s) (relayers p shard))) [
          | inl known ↦ rw known (v other)
          | inr new ↦ rw new (elim (Bool-cases (shard === other)) [
            | inl same ↦ rw same (
                subst (λ o. IsPlanned o (relayers p shard ++ s ∷ []))
                  ((ℕ_key.same_iff shard other).0 same)
                  (append-IsPlanned shard (relayers p shard) s (v shard) room home new target))
            | inr differs ↦ rw differs (v other)
          ])
        ])

  module _ (derive : ℕ → Signer) where
    scan_index-AllPlanned :
        (p : Pool Signer) (s : Signer) (shard : ℕ)
        → sdk.shard_of (sdk.address_of s) ≡ ok shard
        → AllPlanned p
        → AllPlanned (scan_index sdk derive targets per p s shard)
    unfolding scan_index
    scan_index-AllPlanned p s shard home v = elim (Bool-cases (any (λ t. t === shard) targets)) [
      | inl target ↦ rw target (elim (Bool-cases (ltb (length (relayers p shard)) per)) [
        | inl room ↦ rw room (register-AllPlanned p s shard (ltb→lt _ _ room) home target v)
        | inr full ↦ rw full v
      ])
      | inr other ↦ rw other v
    ]

    scan_known :
        (left i : ℕ) (p : Pool Signer) (shard : ℕ)
        → sdk.shard_of (sdk.address_of (derive i)) ≡ ok shard
        → let p' = scan_index sdk derive targets per p (derive i) shard in
          scan sdk derive targets per (suc left) i p ≡ (
            if all_filled sdk derive targets per p'
            then ok p'
            else scan sdk derive targets per left (i + 1) p')
    unfolding scan
    scan_known left i p shard home = rw (home, scan)

    scan_thrown :
        (left i : ℕ) (p q : Pool Signer) (m : String)
        → sdk.shard_of (sdk.address_of (derive i)) ≡ err m
        → scan sdk derive targets per (suc left) i p ≢ ok q
    unfolding scan
    scan_thrown left i p q m thrown = rw (thrown, scan) (λ e. cc)

    scan-AllPlanned :
        (left i : ℕ) (p q : Pool Signer)
        → AllPlanned p
        → scan sdk derive targets per left i p ≡ ok q
        → AllPlanned q
    unfolding scan
    scan-AllPlanned zero i p q v e = subst AllPlanned (ok_inj p q e) v
    scan-AllPlanned (suc left) i p q v e =
        elim (Thrown-cases (sdk.shard_of (sdk.address_of (derive i)))) [
          | inr (m, thrown) ↦ absurd (scan_thrown left i p q m thrown e)
          | inl (shard, home) ↦
              let p' = scan_index sdk derive targets per p (derive i) shard in
              let v' = scan_index-AllPlanned p (derive i) shard home v in
              let e' = sym (scan_known left i p shard home) ∙ e in
              elim (Bool-cases (all_filled sdk derive targets per p')) [
                | inl filled ↦ subst AllPlanned (ok_inj p' q (rw filled at e')) v'
                | inr short ↦ scan-AllPlanned left (i + 1) p' q v' (rw short at e')
              ]
        ]

-- A pool made from a mnemonic holds, for each shard, at most the number of relayers that was asked
-- for (one if it was less), each a signer of that shard, no two with one address, and none at all for
-- a shard that was not to be covered.
pub from_mnemonic-AllPlanned :
    {Signer : Type 0} (sdk : Signers Signer) (derive : ℕ → Signer) (max_scan_index : Option ℕ)
    (shards_to_cover : Option (List ℕ)) (relayers_per_shard : Option ℕ) (q : Pool Signer)
    → from_mnemonic sdk derive max_scan_index shards_to_cover relayers_per_shard ≡ ok q
    → AllPlanned sdk
        (or_else shards_to_cover (0 ∷ 1 ∷ 2 ∷ []))
        (max 1 (or_else relayers_per_shard 1))
        q
unfolding from_mnemonic
from_mnemonic-AllPlanned sdk derive scan_to cover per q e =
    scan-AllPlanned sdk _ _ derive _ _ _ q (empty-AllPlanned sdk _ _) e
