-- ===== src/Tollbooth/Prices.antt =====
-- What a toll of src/tollbooth/toll_pricing_engine.ts may be, and how it orders.
use blockrun_multiversx_plat.Base.{
  ℕ, ◌-◌, ◌*◌, ◌/◌, ◌≤◌, ◌<◌, String, Option, none, some, arith, ℕ_key, text_key,
}
use blockrun_multiversx_plat.Base.Thrown.{Thrown}
use blockrun_multiversx_plat.Base.Text.{units_key}
use blockrun_multiversx_plat.Base.Int.{ℤ, ◌≤ℤ◌, round_div}
use blockrun_multiversx_plat.Tollbooth.Pricing.{
  Tier, vip, standard, probe, TollPricingEngine, raw_cost, tier_of, final_cost, calculate_toll,
}
use native.Mathlib.Nat.{le-div_iff_mul-le, div-mul-le_self, mul-le-mul_left, mul-le-mul_right}

-- The score of one agent is at least that of another; no score is below every score.
abbrev pub IsRatedBelow : Option ℤ → Option ℤ → Type 0
IsRatedBelow none b = Unit
IsRatedBelow (some x) none = ⊥
IsRatedBelow (some x) (some y) = x ≤ℤ y

abbrev tier_rank : Tier → ℕ
tier_rank probe = 0
tier_rank standard = 1
tier_rank vip = 2

tier_of_mono : (a b : Option ℤ) → IsRatedBelow a b → tier_rank (tier_of a) ≤ tier_rank (tier_of b)
tier_of_mono none none h = omega arith
tier_of_mono none (some y) h = omega arith
tier_of_mono (some x) none h = absurd h
tier_of_mono (some x) (some y) h = ground (arith, h)

div_mono : (a b k : ℕ) → 0 < k → a ≤ b → a / k ≤ b / k
div_mono a b k p h = (le-div_iff_mul-le p).1 (omega (arith, div-mul-le_self a k, h))

round_div_mono : (d m n : ℕ) → 0 < d → m ≤ n → round_div m d ≤ round_div n d
unfolding round_div
round_div_mono d m n p h = div_mono _ _ _ (omega arith) (omega (arith, h))

raw_cost_mono :
    (e : TollPricingEngine) (m n : ℕ) → 0 < e.per_token_den → m ≤ n → raw_cost e m ≤ raw_cost e n
unfolding raw_cost
raw_cost_mono e m n p h =
    let r =
      round_div_mono e.per_token_den _ _ p (mul-le-mul_right {m = m} {n = n} e.per_token_num h) in
    omega (arith, r)

-- A discount leaves at most the price.
discount_le : (raw p : ℕ) → round_div (raw * (100 - p)) 100 ≤ raw
unfolding round_div
discount_le raw p =
    let h = mul-le-mul_left {m = 100 - p} {n = 100} raw (omega arith) in omega (arith, h)

discount_mono : (p m n : ℕ) → m ≤ n → round_div (m * (100 - p)) 100 ≤ round_div (n * (100 - p)) 100
discount_mono p m n h =
    round_div_mono 100 _ _ (omega arith) (mul-le-mul_right {m = m} {n = n} (100 - p) h)

-- The order of the tiers is the order of their prices.
final_cost_mono :
    (e : TollPricingEngine) (a b : Tier) (m n : ℕ)
    → tier_rank a ≤ tier_rank b
    → m ≤ n
    → final_cost e b m ≤ final_cost e a n
unfolding final_cost
final_cost_mono e probe probe m n r h = omega arith
final_cost_mono e probe standard m n r h = omega arith
final_cost_mono e probe vip m n r h = omega (arith, discount_le m e.vip_discount_percent)
final_cost_mono e standard probe m n r h = absurd (omega (arith, r))
final_cost_mono e standard standard m n r h = h
final_cost_mono e standard vip m n r h = omega (arith, discount_le m e.vip_discount_percent)
final_cost_mono e vip probe m n r h = absurd (omega (arith, r))
final_cost_mono e vip standard m n r h = absurd (omega (arith, r))
final_cost_mono e vip vip m n r h = discount_mono e.vip_discount_percent m n h

-- A toll is at least one millionth of a dollar, and for a rate with a positive denominator a page of
-- no more tokens for an agent with at least the score costs no more; an agent with no score pays at
-- least what one with any score pays.
pub calculate_toll_mono :
    (shard_of : String → Thrown ℕ) (e : TollPricingEngine) (m n : ℕ) (a b : Option ℤ)
    (c d : Option String)
    → 0 < e.per_token_den
    → m ≤ n
    → IsRatedBelow a b
    → let cheaper = calculate_toll shard_of e m b c in
      let dearer = calculate_toll shard_of e n a d in
      (1 ≤ cheaper.micro_usdc) × (cheaper.micro_usdc ≤ dearer.micro_usdc)
unfolding calculate_toll
calculate_toll_mono shard_of e m n a b c d p h r =
    let k =
      final_cost_mono e (tier_of a) (tier_of b) _ _ (tier_of_mono a b r)
        (raw_cost_mono e m n p h) in
    (omega arith, ground (arith, k))
