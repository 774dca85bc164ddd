-- ===== src/Core/Engine/Reports.antt =====
-- src/core/exchange/mod.rs: the reports to sessions, and the records that sessions keep of orders.
pub mod Effects
use rust_trader.Base.{
  ◌+◌, ℕ, Option, none, some, List, [], ◌∷◌, ◌++◌, Bool, true, false, if◌then◌else◌,
}
use rust_trader.Base.Eq.{Text, codes, int_eq, text_eq}
use rust_trader.Base.Int.{ℤ, eqb_ℤ}
use rust_trader.Base.Maps.{lookup, update}
use rust_trader.Base.Texts.{show_nat}
use rust_trader.Queue.{Channel}
use rust_trader.Queue
use rust_trader.Core.Wrapping.{saturating_next_u64, next_i64}
use rust_trader.Core.Orders.{Order, OrderId, OrderState, cancelled, rejected}
use rust_trader.Core.Books.{RawTrade}
use rust_trader.Core.Market.{Instrument, get_by_id}
use rust_trader.Core.Engine.{
  Engine, Session, Report, status, fill, ExecType, new_exec, cancelled_exec, rejected_exec,
  quote_order_id,
}

abbrev pub symbol_of : Option Instrument → Text
symbol_of none = []
symbol_of (some i) = i.symbol

abbrev pub exec_text : ℕ → Text
exec_text n = codes "exec." ++ show_nat n

pub exec_type_of : OrderState → ExecType
exec_type_of cancelled = cancelled_exec
exec_type_of rejected = rejected_exec
exec_type_of _ = new_exec

module _ {D : Type 0} where
  abbrev pub symbol_for : Engine D → ℤ → Text
  symbol_for e id = symbol_of (get_by_id e.instruments id)

  -- The identifier that the engine gives out next, and the engine that has given it out.
  unfoldable pub next_exec_id : Engine D → Text × Engine D
  next_exec_id e =
      let n = saturating_next_u64 e.exec_ids in (exec_text n, record e { exec_ids = n })

  abbrev pub recipient : Report D → Text
  recipient (status r) = r.order.session_id
  recipient (fill r) = r.order.session_id

  -- The result of `try_send` is ignored.
  unfoldable pub send : Engine D → Report D → Engine D
  send e r = elim (lookup (recipient r) e.sessions) [
    | none ↦ e
    | some s ↦ record e {
      sessions = update (recipient r) (record s { sender = (Queue.send s.sender r).1 }) e.sessions;
    }
  ]

  -- A write to the session's record of an order, where there is one.
  abbrev pub with_record : (Order D → Order D) → Order D → Engine D → Engine D
  with_record f o e = elim (lookup o.session_id e.sessions) [
    | none ↦ e
    | some s ↦ elim (lookup o.id s.orders) [
      | none ↦ e
      | some old ↦ record e {
        sessions =
            update o.session_id (record s { orders = update o.id (f old) s.orders }) e.sessions;
      }
    ]
  ]

  unfoldable pub sync_record : Engine D → Order D → Engine D
  sync_record e o = if eqb_ℤ o.id quote_order_id then e else with_record (λ _. o) o e

  -- The fill goes into the session's record; quote legs have none.
  unfoldable pub record_fill : Engine D → Order D → Engine D
  record_fill e o =
      if eqb_ℤ o.id quote_order_id
      then e
      else with_record
          (λ r. record r {
            remaining = o.remaining;
            cum_quantity = o.cum_quantity;
            avg_price = o.avg_price;
            state = o.state;
          })
          o e

  abbrev pub fill_report : Engine D → Order D → D → D → Report D
  fill_report e o last_price last_quantity = fill (record {
    order = o;
    symbol = symbol_for e o.instrument_id;
    last_price = last_price;
    last_quantity = last_quantity;
    exec_id = (next_exec_id e).0;
    orig_cl_ord_id = none;
  })

  unfoldable pub send_fill : Engine D → Order D → D → D → Engine D
  unfolding record_fill send
  send_fill e o last_price last_quantity =
      let recorded = record_fill e o in
      send (next_exec_id recorded).1 (fill_report recorded o last_price last_quantity)

  abbrev pub status_report : Engine D → Order D → OrderId → ExecType → Option OrderId → Report D
  status_report e o cl_ord_id exec_type orig = status (record {
    order = o;
    symbol = symbol_for e o.instrument_id;
    cl_ord_id = cl_ord_id;
    exec_id = (next_exec_id e).0;
    exec_type = exec_type;
    orig_cl_ord_id = orig;
  })

  unfoldable pub send_status_for :
      Engine D → Order D → OrderId → ExecType → Option OrderId → Engine D
  unfolding send
  send_status_for e o cl_ord_id exec_type orig =
      send (next_exec_id e).1 (status_report e o cl_ord_id exec_type orig)

  unfoldable pub send_status : Engine D → Order D → Engine D
  unfolding send_status_for exec_type_of
  send_status e o = send_status_for e o o.id (exec_type_of o.state) none

  unfoldable pub fill_reports : Engine D → List (RawTrade D) → Engine D
  unfolding send_fill
  fill_reports e [] = e
  fill_reports e (t ∷ trades) =
      fill_reports (send_fill (send_fill e t.buyer t.price t.quantity) t.seller t.price t.quantity)
        trades

  -- The identifier that it writes into the trades is read by nobody.
  unfoldable pub send_trade_reports : Engine D → List (RawTrade D) → Engine D
  unfolding fill_reports
  send_trade_reports e [] = e
  send_trade_reports e (t ∷ trades) =
      fill_reports (record e { trade_ids = next_i64 e.trade_ids }) (t ∷ trades)
