-- ===== src/Core/Engine/Entry/Requested.antt =====
-- src/core/exchange/mod.rs, `create_order`: the order that is made of a request.
use rust_trader.Base.{◌≡◌, refl, sym, subst}
use rust_trader.Base.Eq.{Text}
use rust_trader.Base.Int.{ℤ}
use rust_trader.Base.Texts.{show_int}
use rust_trader.Decimal.{DecimalOps}
use rust_trader.Core.Wrapping.{next_u64, next_i32}
use rust_trader.Core.Orders.{
  Order, OrderId, Side, OrderType, market, limit, fresh, limit_order, market_order,
}
use rust_trader.Core.Tiers.{FillPolicy, real}
use rust_trader.Core.Engine.{Engine, NewOrder}
use rust_trader.Core.Engine.Entry.{count_order, new_order, order_of, priced_for}

module _ {D : Type 0} ⦃dec : DecimalOps D⦄ where
  -- A market order has no price of its own.
  abbrev pub PricedAt : OrderType → D → D → Type 0
  PricedAt limit asked price = price ≡ asked
  PricedAt market asked price = price ≡ dec.zero

  -- The order stands for the request: nothing of it is filled, and it comes after every order before.
  pub record Requested (e : Engine D) (session_id : Text) (id : OrderId) (instrument_id : ℤ)
      (side : Side) (order_type : OrderType) (price quantity : D) (o : Order D) : Type 0 where
    pub session : o.session_id ≡ session_id
    pub identifier : o.id ≡ id
    pub instrument : o.instrument_id ≡ instrument_id
    pub sided : o.side ≡ side
    pub typed : o.order_type ≡ order_type
    pub priced : PricedAt order_type price o.price
    pub whole : o.quantity ≡ quantity
    pub left : o.remaining ≡ quantity
    pub unfilled : o.cum_quantity ≡ dec.zero
    pub average : o.avg_price ≡ dec.zero
    pub state : o.state ≡ fresh
    pub arrived : o.arrival ≡ next_u64 e.arrivals
    pub exchange_id : o.exchange_id ≡ show_int (next_i32 e.exchange_ids)

  module _ (e : Engine D) (session_id : Text) (new : NewOrder D)
      (by_real : e.fill_policy ≡ real) where
    order_of-Requested :
        (t : OrderType)
        → Requested e session_id new.id new.instrument_id new.side t new.price new.quantity
            (record (order_of session_id new t (count_order e)) {
              exchange_id = show_int (next_i32 e.exchange_ids);
            })
    unfolding order_of limit_order market_order
    order_of-Requested limit = record {
      session = refl;
      identifier = refl;
      instrument = refl;
      sided = refl;
      typed = refl;
      priced = refl;
      whole = refl;
      left = refl;
      unfilled = refl;
      average = refl;
      state = refl;
      arrived = refl;
      exchange_id = refl;
    }
    order_of-Requested market = record {
      session = refl;
      identifier = refl;
      instrument = refl;
      sided = refl;
      typed = refl;
      priced = refl;
      whole = refl;
      left = refl;
      unfilled = refl;
      average = refl;
      state = refl;
      arrived = refl;
      exchange_id = refl;
    }

    pub new_order-Requested :
        Requested e session_id new.id new.instrument_id new.side new.order_type new.price
          new.quantity
          (new_order session_id new (count_order e))
    unfolding new_order
    new_order-Requested =
        let o = order_of session_id new new.order_type (count_order e) in
        subst
          (λ (policy : FillPolicy).
            Requested e session_id new.id new.instrument_id new.side new.order_type new.price
              new.quantity
              (record o {
                exchange_id = show_int (next_i32 e.exchange_ids);
                price = priced_for policy o.order_type o.price;
              }))
          (sym by_real) (order_of-Requested new.order_type)
