-- ===== src/Core/Tiers.antt =====
-- src/core/exchange/mod.rs: the errors of the engine and the plan of synthetic fills.
pub mod Plans
use rust_trader.Base.{
  ℕ, zero, suc, ◌*◌, ◌≡◌, Bool, true, false, Option, none, some, List, [], ◌∷◌, if◌then◌else◌,
}
use rust_trader.Base.Eq.{Text}
use rust_trader.Base.Outcome.{Outcome, ok, err, ◌>>=◌, ◌>>◌, unwrap}
use rust_trader.Decimal.{DecimalOps, le}
use rust_trader.Core.Orders.{OrderId}

abbrev pub max_tier_fills : ℕ
max_tier_fills = 256

abbrev pub tier_chunk : ℕ
tier_chunk = 100

-- The texts of an invariant violation are left out.
pub data EngineError : Type 0 where
  order_not_found order_is_not_active invalid_quantity invalid_price : EngineError
  quantity_below_cumulated too_many_tier_fills quote_not_supported_in_tiered : EngineError
  book_invariant_violation : EngineError
  duplicate_order_id invalid_order_id : OrderId → EngineError
  unknown_symbol : Text → EngineError

pub data FillPolicy : Type 0 where
  real tiered : FillPolicy

module _ {D : Type 0} ⦃dec : DecimalOps D⦄ where
  abbrev pub tiered_market_price : D
  tiered_market_price = dec.scaled 6688 2

  abbrev pub tier_max_remaining : D
  tier_max_remaining = dec.mul (dec.from max_tier_fills) (dec.from tier_chunk)

  abbrev onto : D → Option (List D) → Option (List D)
  onto q none = none
  onto q (some plan) = some (q ∷ plan)

  -- The loop that cuts lots off, with fuel; `none` is that the fuel has run out.
  unfoldable pub cut_lots : ℕ → D → Option (List D)
  cut_lots zero rest = none
  cut_lots (suc fuel) rest =
      let more = onto (dec.from tier_chunk) (cut_lots fuel (dec.sub rest (dec.from tier_chunk))) in
      if dec.lt (dec.from tier_chunk) rest
      then more
      else some (if dec.is_zero rest then [] else rest ∷ [])

  unfoldable pub tier_fill_plan : D → Outcome EngineError (List D)
  tier_fill_plan remaining =
      if dec.lt remaining dec.zero
      then err invalid_quantity
      else if le remaining (dec.from tier_chunk)
      then ok []
      else if le remaining (dec.from 1000)
      then ok (remaining ∷ [])
      else if le remaining (dec.from 2000)
      then ok (dec.div remaining (dec.from 2) ∷ [])
      else if dec.lt tier_max_remaining remaining
      then err too_many_tier_fills
      else unwrap (cut_lots max_tier_fills remaining)
