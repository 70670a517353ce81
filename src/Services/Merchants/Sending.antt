-- ===== src/Services/Merchants/Sending.antt =====
-- Which merchants src/services/merchant_pool.ts sends a payer to.
use blockrun_multiversx_plat.Base.{
  ℕ, String, ◌≡◌, refl, sym, ap, ◌∙◌, subst, ◌⊎◌, inl, inr, true, Option, none, some, arith,
  if◌then◌else◌, ◌===◌, ℕ_key, text_key, or_else, Bool-cases,
}
use blockrun_multiversx_plat.Base.Dict.{get, get-set, get-set_other}
use blockrun_multiversx_plat.Base.Thrown.{Thrown}
use blockrun_multiversx_plat.Base.Text.{truthy, truthy_opt, units_key}
use blockrun_multiversx_plat.Services.Merchants.Defs.{
  MerchantPool, or_default, get_merchant_address_for_shard, register_merchant, get_shard_of_address,
  get_merchant_address_for_user,
}

-- An address that the pool has for a shard, or its default.
abbrev pub IsKnown : MerchantPool → String → Type 0
IsKnown p a = ((shard : ℕ) × (get shard p.merchants_by_shard ≡ some a)) ⊎ (a ≡ p.default_merchant)

or_default-IsKnown :
    (shard : ℕ) (p : MerchantPool) (found : Option String)
    → get shard p.merchants_by_shard ≡ found
    → IsKnown p (or_default found p.default_merchant)
or_default-IsKnown shard p none e = inr refl
or_default-IsKnown shard p (some a) e = elim (Bool-cases (truthy a)) [
  | inl t ↦
      let same : or_default (some a) p.default_merchant ≡ a = ground (arith, t) in
      subst (IsKnown p) (sym same) (inl (shard, e))
  | inr t ↦ inr (ground (arith, t))
]

module _ (shard_of : String → Thrown ℕ) where
  get_merchant_address_for_shard-IsKnown :
      (shard : ℕ) (p : MerchantPool) → IsKnown p (get_merchant_address_for_shard shard p)
  unfolding get_merchant_address_for_shard
  get_merchant_address_for_shard-IsKnown shard p =
      or_default-IsKnown shard p (get shard p.merchants_by_shard) refl

  register_merchant-for_shard :
      (shard s : ℕ) (address : String) (p : MerchantPool)
      → truthy address ≡ true
      → get_merchant_address_for_shard s (register_merchant shard address p)
        ≡ (if shard === s then address else get_merchant_address_for_shard s p)
  unfolding get_merchant_address_for_shard register_merchant
  register_merchant-for_shard shard s address p a =
      let found = get-set shard s address p.merchants_by_shard in
      elim (Bool-cases (shard === s)) [
        | inl same ↦ ground (arith, found, same, a)
        | inr other ↦
            ap (λ x. or_default x p.default_merchant) (get-set_other shard s address _ other)
            ∙ ground (arith, other)
      ]

  for_user-given :
      (user : Option String) (p : MerchantPool)
      → truthy_opt user ≡ true
      → let s = get_shard_of_address shard_of (or_else user "") in
        get_merchant_address_for_user shard_of user p ≡ (get_merchant_address_for_shard s p, s)
  unfolding get_merchant_address_for_user
  for_user-given user p u = ground (arith, u)

  -- A payer is sent to a merchant that the pool knows, whatever the address of the payer is, and once
  -- a merchant with an address is registered for a shard, a payer of that shard is sent to it, while a
  -- payer of another shard is sent where the pool sent it before.
  pub register_merchant-for_user :
      (shard : ℕ) (address : String) (user : Option String) (p : MerchantPool)
      → truthy address ≡ true
      → truthy_opt user ≡ true
      → let before = get_merchant_address_for_user shard_of user p in
        let after =
          get_merchant_address_for_user shard_of user (register_merchant shard address p) in
        IsKnown p before.0
        × (after.1 ≡ before.1)
        × (after.0 ≡ (if shard === after.1 then address else before.0))
  register_merchant-for_user shard address user p a u =
      let s = get_shard_of_address shard_of (or_else user "") in
      let before = for_user-given user p u in
      let after = for_user-given user (register_merchant shard address p) u in
      let P : String × ℕ → String × ℕ → Type 0 =
        λ x y. IsKnown p x.0 × (y.1 ≡ x.1) × (y.0 ≡ (if shard === y.1 then address else x.0)) in
      subst (λ y. P (get_merchant_address_for_user shard_of user p) y) (sym after)
        (subst (λ x. P x (get_merchant_address_for_shard s (register_merchant shard address p), s))
          (sym before)
          (
            get_merchant_address_for_shard-IsKnown s p,
            refl,
            register_merchant-for_shard shard s address p a,
          ))
