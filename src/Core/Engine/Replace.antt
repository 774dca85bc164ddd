-- ===== src/Core/Engine/Replace.antt =====
-- src/core/exchange/mod.rs: `modify_order` and `modify_order_with_type`.
use rust_trader.Base.{not, ◌||◌, Option, none, some, List, [], if◌then◌else◌}
use rust_trader.Base.Eq.{Text, int_eq, text_eq, pair_eq}
use rust_trader.Base.Int.{ℤ, eqb_ℤ}
use rust_trader.Base.Maps.{lookup, insert, erase, update}
use rust_trader.Decimal.{DecimalOps}
use rust_trader.Core.Wrapping.{next_u64}
use rust_trader.Core.Orders.{
  Order, OrderId, OrderType, OrderState, filled, partial_fill, booked, is_active,
}
use rust_trader.Core.Tiers.{
  order_not_found, order_is_not_active, duplicate_order_id, quantity_below_cumulated, FillPolicy,
  real, tiered,
}
use rust_trader.Core.Engine.{
  Engine, Session, Run, done, failed, panicked, Date, replaced_exec, ◌>>=◌, ◌>>◌, pure, get, change,
  attempt, lift, require, some_or, expect,
}
use rust_trader.Core.Engine.Reports.{sync_record, send_status, send_status_for, send_trade_reports}
use rust_trader.Core.Engine.Publishing.{record_market_data, publish_market_data}
use rust_trader.Core.Engine.Validation.{validate_order_input}
use rust_trader.Core.Engine.Booking.{
  add_to_book, remove_from_book, tiered_insert, tiered_fill_existing,
}
use rust_trader.Core.Engine.Entry.{
  has_order, plan_for, priced_for, published, published_failure, with_date,
}

module _ {D : Type 0} where
  sync_final : Option (Order D) → Engine D → Engine D
  sync_final none e = e
  sync_final (some final) e = sync_record e final

  -- The order under its old identifier makes way for the one under the new.
  abbrev pub rekeyed : Text → OrderId → OrderId → Order D → Session D → Engine D → Engine D
  rekeyed session_id orig_id new_id o s e = record e {
    sessions =
        update session_id (record s { orders = insert new_id o (erase orig_id s.orders) })
          e.sessions;
  }

  abbrev pub without_date : Text → OrderId → Engine D → Engine D
  without_date session_id id e = record e { order_dates = erase (session_id, id) e.order_dates }

module _ {D : Type 0} ⦃dec : DecimalOps D⦄ where
  state_of : Order D → OrderState
  state_of o =
      if dec.is_zero o.remaining
      then filled
      else if not (dec.is_zero o.cum_quantity)
      then partial_fill
      else booked

  -- The replacement, from the engine whose arrivals have been advanced.
  unfoldable pub replacement : Order D → OrderId → OrderType → D → D → Engine D → Order D
  unfolding state_of
  replacement entry new_id order_type price quantity e =
      let o : Order D = record entry {
        id = new_id;
        order_type = order_type;
        price = priced_for e.fill_policy order_type price;
        quantity = quantity;
        remaining = dec.sub quantity entry.cum_quantity;
        arrival = e.arrivals;
      } in
      record o { state = state_of o }

  -- The checks, with the record and the plan that they return.
  unfoldable pub check_modify :
      Text → OrderId → OrderId → OrderType → D → D → Run D (Order D × List D)
  check_modify session_id orig_id new_id order_type price quantity = do
    e ← get
    session ← some_or order_not_found (lookup session_id e.sessions)
    entry ← some_or order_not_found (lookup orig_id session.orders)
    require (is_active entry.state) order_is_not_active
    lift (validate_order_input new_id order_type price quantity)
    require (not (dec.lt quantity entry.cum_quantity)) quantity_below_cumulated
    require (eqb_ℤ new_id orig_id || not (has_order e session_id new_id))
        (duplicate_order_id new_id)
    plan ← lift (plan_for e.fill_policy (dec.sub quantity entry.cum_quantity))
    pure (entry, plan)

  -- The order is in the session but not in the book: it is reported and nothing else.
  unfoldable pub report_stray : Text → OrderId → Run D (Unit {0})
  report_stray session_id orig_id = do
    e ← get
    session ← expect (lookup session_id e.sessions)
    stray ← expect (lookup orig_id session.orders)
    change (λ e. send_status e stray)

  -- Tiered: the replacement rests before the session hears of it.
  rest_tiered : FillPolicy → ℤ → Order D → Run D (Option (Order D))
  rest_tiered real instrument_id o = pure none
  rest_tiered tiered instrument_id o = if dec.is_zero o.remaining then pure none else (do
    snapshot ← λ e. published_failure instrument_id (tiered_insert instrument_id o e)
    pure (some snapshot))

  retrade : FillPolicy → Text → ℤ → Order D → Option (Order D) → List D → Run D (Unit {0})
  unfolding sync_final
  retrade real session_id instrument_id o rested plan = do
    (trades, final_state) ← add_to_book o
    change (record_market_data instrument_id trades)
    attempt publish_market_data
    change (λ e. send_trade_reports e trades)
    change (sync_final final_state)
  retrade tiered session_id instrument_id o rested plan = do
    snapshot ← expect rested
    λ e. published instrument_id (tiered_fill_existing session_id instrument_id snapshot plan e)

  unfoldable pub replace :
      Date → Text → OrderId → OrderId → OrderType → D → D → Order D → List D → Run D (Unit {0})
  unfolding replacement rest_tiered retrade
  replace today session_id orig_id new_id order_type price quantity entry plan = do
    change (record_market_data entry.instrument_id [])
    change (λ e. record e { arrivals = next_u64 e.arrivals })
    e ← get
    let o = replacement entry new_id order_type price quantity e
    session ← expect (lookup session_id e.sessions)
    change (rekeyed session_id orig_id new_id o session)
    change (without_date session_id orig_id)
    change (with_date session_id new_id today)
    rested ← rest_tiered e.fill_policy entry.instrument_id o
    change (λ e. send_status_for e o new_id replaced_exec (some orig_id))
    if dec.is_zero o.remaining
        then attempt publish_market_data
        else retrade e.fill_policy session_id entry.instrument_id o rested plan

  unfoldable pub modify_order_with_type :
      Date → Text → OrderId → OrderId → OrderType → D → D → Run D (Unit {0})
  unfolding check_modify report_stray replace
  modify_order_with_type today session_id orig_id new_id order_type price quantity = do
    (entry, plan) ← check_modify session_id orig_id new_id order_type price quantity
    λ e. elim (remove_from_book session_id orig_id entry.side entry.price entry.instrument_id e) [
      | done removed e' ↦
          replace today session_id orig_id new_id order_type price quantity entry plan e'
      | failed x e' ↦ report_stray session_id orig_id e'
      | panicked ↦ panicked
    ]

  unfoldable pub modify_order : Date → Text → OrderId → OrderId → D → D → Run D (Unit {0})
  unfolding modify_order_with_type
  modify_order today session_id orig_id new_id price quantity = do
    e ← get
    session ← some_or order_not_found (lookup session_id e.sessions)
    entry ← some_or order_not_found (lookup orig_id session.orders)
    modify_order_with_type today session_id orig_id new_id entry.order_type price quantity
