-- ===== src/Services/Merchants/Defs.antt =====
-- src/services/merchant_pool.ts: the merchants by shard, so that a payer pays within the own shard.
use blockrun_multiversx_plat.Base.{
  ℕ, String, Option, none, some, List, [], ◌∷◌, if◌then◌else◌, ℕ_key, text_key, or_else,
}
use blockrun_multiversx_plat.Base.Dict.{Dict, get, set}
use blockrun_multiversx_plat.Base.Thrown.{Thrown, ok, err}
use blockrun_multiversx_plat.Base.Text.{◌<>◌, truthy, truthy_opt, show_ℕ, units_key}

-- A configuration has an entry. `default_merchant` is chosen once, when the pool is built.
pub record MerchantPool : Type 0 where
  pub merchants_by_shard : Dict ℕ String
  pub default_merchant : String

pub record ShardMerchant : Type 0 where
  pub shard : ℕ
  pub address : String
  pub label : String

-- `DEFAULT_SHARD_MERCHANTS`
abbrev pub default_shard_merchants : Dict ℕ String
default_shard_merchants =
    (0, "erd1ka0yrspygvjtktyzxu58ufn0kujkqgx4gq2ch5ev2aqjcem9jcqqkntrmv")
    ∷ (1, "erd17twshvk28u27agmwj7666cxa4jlua9ra5aelwzj2urqm0kwk6k6s2an6gw")
    ∷ (2, "erd1047vneuds803avp9pgan4ve8ug5c9y3tn3x9c0cgxakcsjmktklqh3cy5y")
    ∷ []

-- `a || b` on texts, where the first may be missing.
abbrev pub or_default : Option String → String → String
or_default none b = b
or_default (some a) b = if truthy a then a else b

abbrev pub set_all : Dict ℕ String → Dict ℕ String → Dict ℕ String
set_all [] m = m
set_all ((shard, address) ∷ rest) m = set_all rest (set shard address m)

-- The constructor, for a configuration with a first entry.
unfoldable pub new_merchant_pool : ℕ × String → Dict ℕ String → MerchantPool
new_merchant_pool first rest =
    let m = set_all (first ∷ rest) [] in
    record { merchants_by_shard = m; default_merchant = or_default (get 0 m) first.1 }

unfoldable pub get_merchant_address_for_shard : ℕ → MerchantPool → String
get_merchant_address_for_shard shard p =
    or_default (get shard p.merchants_by_shard) p.default_merchant

unfoldable pub register_merchant : ℕ → String → MerchantPool → MerchantPool
register_merchant shard address p = record p {
  merchants_by_shard = set shard address p.merchants_by_shard;
}

abbrev pub labelled : Dict ℕ String → List ShardMerchant
labelled [] = []
labelled ((shard, address) ∷ m) =
    record { shard = shard; address = address; label = "Merchant Shard " <> show_ℕ shard }
    ∷ labelled m

unfoldable pub get_all_merchants : MerchantPool → List ShardMerchant
get_all_merchants p = labelled p.merchants_by_shard

-- `shard_of` is the SDK's reading of an address and of its shard, which may throw.
module _ (shard_of : String → Thrown ℕ) where
  unfoldable pub get_shard_of_address : String → ℕ
  get_shard_of_address address = elim (shard_of address) [ ok shard ↦ shard | err m ↦ 0 ]

  unfoldable pub get_merchant_address_for_user : Option String → MerchantPool → String × ℕ
  unfolding get_shard_of_address get_merchant_address_for_shard
  get_merchant_address_for_user user p =
      if truthy_opt user
      then (
        get_merchant_address_for_shard (get_shard_of_address (or_else user "")) p,
        get_shard_of_address (or_else user ""),
      )
      else (p.default_merchant, 0)
