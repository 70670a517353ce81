-- ===== src/Tollbooth/Pricing.antt =====
-- src/tollbooth/toll_pricing_engine.ts: what a crawler pays for a page, by its reputation.
use blockrun_multiversx_plat.Base.{
  ℕ, ◌+◌, ◌-◌, ◌*◌, max, String, Option, none, some, if◌then◌else◌, ℕ_key, text_key,
}
use blockrun_multiversx_plat.Base.Thrown.{Thrown}
use blockrun_multiversx_plat.Base.Text.{units_key}
use blockrun_multiversx_plat.Base.Int.{ℤ, pos, ltb_ℤ, round_div}
use blockrun_multiversx_plat.Services.Merchants.Defs.{MerchantPool, get_merchant_address_for_user}

pub data Tier : Type 0 where
  vip : Tier
  standard : Tier
  probe : Tier

-- The rate per token is the fraction `per_token_num / per_token_den` of a millionth of a dollar.
pub record TollPricingEngine : Type 0 where
  pub base_toll_micro_usdc : ℕ
  pub per_token_num : ℕ
  pub per_token_den : ℕ
  pub vip_discount_percent : ℕ
  pub merchant_pool : MerchantPool

-- The constructor's defaults: 1000, 0.5 and 20.
abbrev pub default_engine : MerchantPool → TollPricingEngine
default_engine pool = record {
  base_toll_micro_usdc = 1000;
  per_token_num = 1;
  per_token_den = 2;
  vip_discount_percent = 20;
  merchant_pool = pool;
}

pub record TollCalculationResult : Type 0 where
  pub micro_usdc : ℕ
  pub estimated_tokens : ℕ
  pub tier : Tier
  pub merchant_address : String
  pub shard : ℕ

unfoldable pub raw_cost : TollPricingEngine → ℕ → ℕ
unfolding round_div
raw_cost e tokens = e.base_toll_micro_usdc + round_div (tokens * e.per_token_num) e.per_token_den

abbrev pub tier_of : Option ℤ → Tier
tier_of none = probe
tier_of (some score) =
    if ltb_ℤ score (pos 90) then (if ltb_ℤ score (pos 50) then probe else standard) else vip

-- The price after the discount or the surcharge; a discount above 100 percent leaves nothing.
unfoldable pub final_cost : TollPricingEngine → Tier → ℕ → ℕ
unfolding round_div
final_cost e vip raw = round_div (raw * (100 - e.vip_discount_percent)) 100
final_cost e standard raw = raw
final_cost e probe raw = raw * 2

module _ (shard_of : String → Thrown ℕ) where
  unfoldable pub calculate_toll :
      TollPricingEngine → ℕ → Option ℤ → Option String → TollCalculationResult
  unfolding raw_cost final_cost get_merchant_address_for_user
  calculate_toll e tokens score client =
      let tier = tier_of score in
      let (address, shard) = get_merchant_address_for_user shard_of client e.merchant_pool in
      record {
        micro_usdc = max 1 (final_cost e tier (raw_cost e tokens));
        estimated_tokens = tokens;
        tier = tier;
        merchant_address = address;
        shard = shard;
      }
