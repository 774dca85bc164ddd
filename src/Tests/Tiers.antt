-- ===== src/Tests/Tiers.antt =====
-- The plans of synthetic fills.
use rust_trader.Base.{◌≡◌, ◌≤◌, refl, arith, true, false, List, [], ◌∷◌}
use rust_trader.Base.Int.{ℤ, pos, ltb_ℤ, ◌-ℤ◌, ◌*ℤ◌}
use rust_trader.Base.Lists.{length}
use rust_trader.Base.Outcome.{ok, err}
use rust_trader.Decimal.Whole.{whole, whole-IsOrdered, whole-IsExact, whole-IsHalving}
use rust_trader.Core.Tiers.{
  invalid_quantity, too_many_tier_fills, max_tier_fills, tier_max_remaining, cut_lots,
  tier_fill_plan,
}
use rust_trader.Core.Tiers.Plans.{
  plan_sum, Positive, tier_fill_plan_lem, tier_fill_plan-sum, tier_fill_plan-err,
}

-- 1001 to 2000 is half filled.
half_plan : tier_fill_plan (pos 1500) ≡ ok (pos 750 ∷ [])
unfolding tier_fill_plan cut_lots ◌-ℤ◌ ◌*ℤ◌
half_plan = refl

limit_holds : ltb_ℤ tier_max_remaining (pos 2250) ≡ false
unfolding ◌*ℤ◌
limit_holds = ground arith

tier_fill_plan_example :
    (plan : List ℤ) × (tier_fill_plan (pos 2250) ≡ ok plan)
    × (length plan ≤ max_tier_fills)
    × Positive plan
    × (ltb_ℤ (pos 2250) (plan_sum plan) ≡ false)
tier_fill_plan_example =
    tier_fill_plan_lem whole-IsOrdered whole-IsExact whole-IsHalving (pos 2250) refl limit_holds

tier_fill_plan-sum_example :
    (plan : List ℤ) × (tier_fill_plan (pos 2250) ≡ ok plan) × (plan_sum plan ≡ pos 2250)
tier_fill_plan-sum_example =
    tier_fill_plan-sum whole-IsOrdered whole-IsExact (pos 2250) refl limit_holds

tier_fill_plan-err_example :
    (ltb_ℤ (pos 30000) (pos 0) ≡ true → tier_fill_plan (pos 30000) ≡ err invalid_quantity)
    × (ltb_ℤ tier_max_remaining (pos 30000) ≡ true
        → tier_fill_plan (pos 30000) ≡ err too_many_tier_fills)
tier_fill_plan-err_example = tier_fill_plan-err whole-IsOrdered whole-IsExact (pos 30000)
