-- ===== src/Relayers/Pool/Distinct.antt =====
-- Registration in src/services/relayer_pool.ts: a shard never lists one address twice.
use blockrun_multiversx_plat.Base.{
  ℕ, String, ◌≡◌, refl, true, false, ◌||◌, List, [], ◌∷◌, ◌++◌, arith, if◌then◌else◌, ◌===◌, ℕ_key,
  text_key, ===_refl,
}
use blockrun_multiversx_plat.Base.Dict.{get-set}
use blockrun_multiversx_plat.Relayers.Pool.Defs.{
  Pool, Signers, relayers, has_address, register_relayer,
}

module _ {Signer : Type 0} (sdk : Signers Signer) where
  -- No two signers of the list have one address.
  abbrev pub Distinct : List Signer → Type 0
  Distinct [] = Unit {0}
  Distinct (s ∷ ss) = (has_address sdk (sdk.address_of s) ss ≡ false) × Distinct ss

  has_address-append :
      (target : String) (s : Signer) (list : List Signer)
      → has_address sdk target (list ++ s ∷ [])
        ≡ (has_address sdk target list || (sdk.address_of s === target))
  has_address-append target s [] = ground arith
  has_address-append target s (x ∷ xs) = ground (arith, has_address-append target s xs)

  pub Distinct-append :
      (s : Signer) (list : List Signer)
      → has_address sdk (sdk.address_of s) list ≡ false
      → Distinct list
      → Distinct (list ++ s ∷ [])
  Distinct-append s [] h d = (refl, tt)
  Distinct-append s (x ∷ xs) h d = ground (
    arith,
    has_address-append (sdk.address_of x) s xs,
    text_key.same_iff (sdk.address_of x) (sdk.address_of s),
    text_key.same_iff (sdk.address_of s) (sdk.address_of x),
    Distinct-append s xs,
  )

  pub relayers-register_relayer :
      (p : Pool Signer) (shard other : ℕ) (s : Signer)
      → relayers (register_relayer sdk p shard s) other ≡ (
          if has_address sdk (sdk.address_of s) (relayers p shard)
          then relayers p other
          else if shard === other
          then relayers p shard ++ s ∷ []
          else relayers p other)
  unfolding register_relayer
  relayers-register_relayer p shard other s =
      ground (arith, get-set shard other (relayers p shard ++ s ∷ []) p.shard_relayers)

  -- Registration keeps the addresses of every shard distinct, and leaves the signer's address listed
  -- under its shard.
  pub register_relayer-Distinct :
      (p : Pool Signer) (shard : ℕ) (s : Signer)
      → ((other : ℕ) → Distinct (relayers p other))
      → ((other : ℕ) → Distinct (relayers (register_relayer sdk p shard s) other))
        × (has_address sdk (sdk.address_of s) (relayers (register_relayer sdk p shard s) shard)
            ≡ true)
  register_relayer-Distinct p shard s d = (
    λ other.
        rw relayers-register_relayer
          (ground (arith, d other, Distinct-append s (relayers p shard), d shard)),
    rw relayers-register_relayer (
        ground (
          arith,
          has_address-append (sdk.address_of s) s (relayers p shard),
          ===_refl (sdk.address_of s),
        )),
  )
