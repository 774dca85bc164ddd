-- ===== src/Core/Orders.antt =====
-- src/core/order.rs: orders and their states, and `apply_fill` of src/core/orderbook.rs.
-- A text is its bytes, an identifier an integer, and `arrival` a number below 2 ^ 64.
use rust_trader.Base.{ℕ, Bool, true, false, [], if◌then◌else◌}
use rust_trader.Base.Eq.{Text}
use rust_trader.Base.Int.{ℤ}
use rust_trader.Decimal.{DecimalOps}

abbrev pub OrderId : Type 0
OrderId = ℤ

abbrev pub market_buy_price : ℕ
market_buy_price = 9999999999999

pub data Side : Type 0 where
  buy sell : Side

pub data OrderType : Type 0 where
  market limit : OrderType

pub data OrderState : Type 0 where
  fresh booked partial_fill filled cancelled expired rejected : OrderState

abbrev pub is_active : OrderState → Bool
is_active filled = false
is_active cancelled = false
is_active expired = false
is_active rejected = false
is_active _ = true

pub record Order (D : Type 0) : Type 0 where
  pub session_id : Text
  pub id : OrderId
  pub exchange_id : Text
  pub instrument_id : ℤ
  pub side : Side
  pub order_type : OrderType
  pub price : D
  pub quantity : D
  pub remaining : D
  pub cum_quantity : D
  pub avg_price : D
  pub state : OrderState
  pub arrival : ℕ

module _ {D : Type 0} ⦃dec : DecimalOps D⦄ where
  unfoldable pub limit_order : Text → OrderId → ℤ → Side → D → D → ℕ → Order D
  limit_order session_id id instrument_id side price quantity arrival = record {
    session_id = session_id;
    id = id;
    exchange_id = [];
    instrument_id = instrument_id;
    side = side;
    order_type = limit;
    price = price;
    quantity = quantity;
    remaining = quantity;
    cum_quantity = dec.zero;
    avg_price = dec.zero;
    state = fresh;
    arrival = arrival;
  }

  unfoldable pub market_order : Text → OrderId → ℤ → Side → D → ℕ → Order D
  unfolding limit_order
  market_order session_id id instrument_id side quantity arrival =
      record (limit_order session_id id instrument_id side dec.zero quantity arrival) {
        price = dec.zero;
        order_type = market;
      }

  effective_price_of : OrderType → Side → D → D
  effective_price_of market buy price = dec.from market_buy_price
  effective_price_of market sell price = dec.zero
  effective_price_of limit side price = price

  -- Market orders sit at the top of their side.
  unfoldable pub effective_price : Order D → D
  unfolding effective_price_of
  effective_price o = effective_price_of o.order_type o.side o.price

  unfoldable pub min_decimal : D → D → D
  min_decimal a b = if dec.lt a b then a else b

  unfoldable pub apply_fill : Order D → D → D → Order D
  apply_fill o quantity price =
      let new_cum = dec.add o.cum_quantity quantity in
      let left = dec.sub o.remaining quantity in
      record o {
        avg_price =
            if dec.is_zero new_cum
            then dec.zero
            else dec.div (dec.add (dec.mul o.avg_price o.cum_quantity) (dec.mul price quantity))
                new_cum;
        cum_quantity = new_cum;
        remaining = left;
        state = if dec.is_zero left then filled else partial_fill;
      }
