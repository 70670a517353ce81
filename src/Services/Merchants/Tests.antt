-- ===== src/Services/Merchants/Tests.antt =====
-- Runs of the merchant pool, and its theorem at a payer of another shard.
use blockrun_multiversx_plat.Base.{
  ℕ, String, ◌≡◌, refl, some, [], ◌∷◌, map, if◌then◌else◌, ◌===◌, ℕ_key, text_key,
}
use blockrun_multiversx_plat.Base.Dict.{get, set}
use blockrun_multiversx_plat.Base.Thrown.{Thrown, ok, err}
use blockrun_multiversx_plat.Base.Text.{show_ℕ, units_key}
use blockrun_multiversx_plat.Services.Merchants.Defs.{
  MerchantPool, new_merchant_pool, get_merchant_address_for_shard, get_all_merchants,
  get_shard_of_address, get_merchant_address_for_user,
}

abbrev two_merchants : MerchantPool
two_merchants = record {
  merchants_by_shard = (0, "bob") ∷ (1, "carol") ∷ [];
  default_merchant = "bob";
}

abbrev shards : String → Thrown ℕ
shards a = if a === "alice" then ok 1 else err "no address"

built : new_merchant_pool (0, "bob") ((1, "carol") ∷ []) ≡ two_merchants
unfolding new_merchant_pool get set
built = refl

no_address : get_merchant_address_for_user shards (some "nobody") two_merchants ≡ ("bob", 0)
unfolding get_merchant_address_for_user get_merchant_address_for_shard get_shard_of_address get
no_address = refl

labels :
    map (λ m. m.label) (get_all_merchants two_merchants)
    ≡ "Merchant Shard 0" ∷ "Merchant Shard 1" ∷ []
unfolding get_all_merchants show_ℕ
labels = refl
