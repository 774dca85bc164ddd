-- ===== src/Core/Engine/Validation.antt =====
-- src/core/exchange/mod.rs: the checks of a request's input.
use rust_trader.Base.{Bool, true, false, not, ◌||◌, ◌&&◌, if◌then◌else◌}
use rust_trader.Base.Int.{pos, leb_ℤ, eqb_ℤ}
use rust_trader.Base.Outcome.{Outcome, ok, err, ◌>>◌, ensure}
use rust_trader.Decimal.{DecimalOps, le}
use rust_trader.Core.Orders.{OrderId, OrderType, market, limit}
use rust_trader.Core.Tiers.{EngineError, invalid_order_id, invalid_quantity, invalid_price}
use rust_trader.Core.Engine.{quote_order_id}

unfoldable pub validate_order_id : OrderId → Outcome EngineError (Unit {0})
validate_order_id id =
    if leb_ℤ id (pos 0) || eqb_ℤ id quote_order_id then err (invalid_order_id id) else ok tt

abbrev pub is_limit : OrderType → Bool
is_limit limit = true
is_limit market = false

module _ {D : Type 0} ⦃dec : DecimalOps D⦄ where
  unfoldable pub validate_order_input : OrderId → OrderType → D → D → Outcome EngineError (Unit {0})
  unfolding validate_order_id
  validate_order_input id order_type price quantity = do
    validate_order_id id
    ensure (not (le quantity dec.zero)) invalid_quantity
    ensure (not (dec.lt price dec.zero || (is_limit order_type && le price dec.zero))) invalid_price
