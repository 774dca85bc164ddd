-- ===== src/Core/Engine/Entry.antt =====
-- src/core/exchange/mod.rs: `create_order`, `cancel_order` and `cancel_order_with_id`.
pub mod Admission
pub mod Requested
pub mod Trading
pub mod Cancelling
use rust_trader.Base.{
  Bool, true, false, not, ◌&&◌, ◌||◌, Option, none, some, List, [], ◌∷◌, if◌then◌else◌,
}
use rust_trader.Base.Eq.{Text, int_eq, text_eq, pair_eq}
use rust_trader.Base.Int.{ℤ, eqb_ℤ}
use rust_trader.Base.Lists.{is_empty}
use rust_trader.Base.Maps.{lookup, insert, update, contains_key}
use rust_trader.Base.Texts.{show_int}
use rust_trader.Base.Outcome.{Outcome, ok}
use rust_trader.Decimal.{DecimalOps}
use rust_trader.Core.Wrapping.{next_i32, next_u64}
use rust_trader.Core.Orders.{
  Order, OrderId, OrderType, market, limit, OrderState, cancelled, is_active, limit_order,
  market_order,
}
use rust_trader.Core.Tiers.{
  EngineError, unknown_symbol, order_not_found, duplicate_order_id, order_is_not_active, FillPolicy,
  real, tiered, tier_fill_plan, tiered_market_price,
}
use rust_trader.Core.Books.Entry.{is_cancelled, is_market}
use rust_trader.Core.Market.{get_by_id}
use rust_trader.Core.Engine.{
  Engine, Session, NewOrder, Run, Ended, failed, done, panicked, fail, Date, cancelled_exec, ◌>>=◌,
  ◌>>◌, pure, get, change, attempt, lift, require, some_or, expect,
}
use rust_trader.Core.Engine.Reports.{sync_record, send_status, send_status_for, send_trade_reports}
use rust_trader.Core.Engine.Publishing.{record_market_data, publish_market_data}
use rust_trader.Core.Engine.Validation.{validate_order_id, validate_order_input}
use rust_trader.Core.Engine.Booking.{
  add_to_book, remove_from_book, tiered_insert, tiered_fill_existing,
}

module _ {D : Type 0} where
  -- `sessions.get_mut(session_id).unwrap().orders.insert(id, order)`
  abbrev pub with_entry : Text → OrderId → Order D → Session D → Engine D → Engine D
  with_entry session_id id o s e = record e {
    sessions = update session_id (record s { orders = insert id o s.orders }) e.sessions;
  }

  abbrev pub with_date : Text → OrderId → Date → Engine D → Engine D
  with_date session_id id today e = record e {
    order_dates = insert (session_id, id) today e.order_dates;
  }

  -- The two counters that every new order advances.
  abbrev pub count_order : Engine D → Engine D
  count_order e = record e {
    exchange_ids = next_i32 e.exchange_ids;
    arrivals = next_u64 e.arrivals;
  }

  abbrev pub has_order : Engine D → Text → OrderId → Bool
  has_order e session_id id = elim (lookup session_id e.sessions) [
    | none ↦ false
    | some s ↦ contains_key (lookup id s.orders)
  ]

  unfoldable pub order : Engine D → Text → OrderId → Option (Order D)
  order e session_id id = elim (lookup session_id e.sessions) [
    | none ↦ none
    | some s ↦ lookup id s.orders
  ]

module _ {D : Type 0} ⦃dec : DecimalOps D⦄ where
  -- The plan of fills, where the policy makes one.
  unfoldable pub plan_for : FillPolicy → D → Outcome EngineError (List D)
  plan_for real quantity = ok []
  plan_for tiered quantity = tier_fill_plan quantity

  abbrev pub priced_for : FillPolicy → OrderType → D → D
  priced_for tiered market price = tiered_market_price
  priced_for _ _ price = price

  unfoldable pub order_of : Text → NewOrder D → OrderType → Engine D → Order D
  order_of session_id new limit e =
      limit_order session_id new.id new.instrument_id new.side new.price new.quantity e.arrivals
  order_of session_id new market e =
      market_order session_id new.id new.instrument_id new.side new.quantity e.arrivals

  -- The order of a request, from the counters that have been advanced for it.
  unfoldable pub new_order : Text → NewOrder D → Engine D → Order D
  unfolding order_of
  new_order session_id new e =
      let o = order_of session_id new new.order_type e in
      record o {
        exchange_id = show_int e.exchange_ids;
        price = priced_for e.fill_policy o.order_type o.price;
      }

  unfoldable report_final : Bool → OrderType → Option (Order D) → Engine D → Engine D
  report_final untraded order_type none e = e
  report_final untraded order_type (some final) e =
      let synced = sync_record e final in
      if untraded || is_cancelled final.state && is_market order_type
      then send_status synced final
      else synced

  unfoldable trade_real : NewOrder D → Order D → Run D (Unit {0})
  unfolding report_final
  trade_real new o = do
    (trades, final_state) ← add_to_book o
    change (record_market_data new.instrument_id trades)
    attempt publish_market_data
    change (λ e. send_trade_reports e trades)
    change (report_final (is_empty trades) new.order_type final_state)

  abbrev pub publish_book : ℤ → Run D (Unit {0})
  publish_book instrument_id = do
    change (record_market_data instrument_id [])
    attempt publish_market_data

  -- The book is published whether or not the method before has failed; its failure stands.
  abbrev pub published : {A : Type 0} → ℤ → Ended D A → Ended D A
  published instrument_id (done a e) = (publish_book instrument_id >> pure a) e
  published instrument_id (failed x e) = (publish_book instrument_id >> fail x) e
  published instrument_id panicked = panicked

  -- The same for a method whose success publishes nothing yet.
  abbrev pub published_failure : {A : Type 0} → ℤ → Ended D A → Ended D A
  published_failure instrument_id (failed x e) = (publish_book instrument_id >> fail x) e
  published_failure instrument_id r = r

  unfoldable trade_tiered : Text → NewOrder D → Order D → List D → Run D (Unit {0})
  trade_tiered session_id new o plan = do
    snapshot ← λ e. published_failure new.instrument_id (tiered_insert new.instrument_id o e)
    change (λ e. send_status e snapshot)
    λ e.
        published new.instrument_id
          (tiered_fill_existing session_id new.instrument_id snapshot plan e)

  unfoldable trade : FillPolicy → Text → NewOrder D → Order D → List D → Run D (Unit {0})
  unfolding trade_real trade_tiered
  trade real session_id new o plan = trade_real new o
  trade tiered session_id new o plan = trade_tiered session_id new o plan

  -- The checks of `create_order`, and the plan that they return.
  unfoldable pub check_new : Text → NewOrder D → Run D (List D)
  unfolding plan_for
  check_new session_id new = do
    e ← get
    require (contains_key (get_by_id e.instruments new.instrument_id))
        (unknown_symbol (show_int new.instrument_id))
    lift (validate_order_input new.id new.order_type new.price new.quantity)
    session ← some_or order_not_found (lookup session_id e.sessions)
    require (not (contains_key (lookup new.id session.orders))) (duplicate_order_id new.id)
    lift (plan_for e.fill_policy new.quantity)

  unfoldable pub create_order : Date → Text → NewOrder D → Run D OrderId
  unfolding check_new new_order trade
  create_order today session_id new = do
    plan ← check_new session_id new
    change count_order
    e ← get
    let o = new_order session_id new e
    session ← some_or order_not_found (lookup session_id e.sessions)
    change (with_entry session_id o.id o session)
    change (with_date session_id o.id today)
    trade e.fill_policy session_id new o plan
    pure new.id

  -- The checks of `cancel_order_with_id`, and the record that they return.
  unfoldable pub check_cancel : Text → OrderId → OrderId → Run D (Order D)
  check_cancel session_id orig_id cl_ord_id = do
    lift (validate_order_id cl_ord_id)
    e ← get
    session ← some_or order_not_found (lookup session_id e.sessions)
    entry ← some_or order_not_found (lookup orig_id session.orders)
    require (eqb_ℤ cl_ord_id orig_id || not (has_order e session_id cl_ord_id))
        (duplicate_order_id cl_ord_id)
    require (is_active entry.state) order_is_not_active
    pure entry

  unfoldable cancelled_if_active : Order D → Order D
  cancelled_if_active o = if is_active o.state then record o { state = cancelled } else o

  unfoldable pub cancel_order_with_id : Text → OrderId → OrderId → Run D (Unit {0})
  unfolding check_cancel cancelled_if_active
  cancel_order_with_id session_id orig_id cl_ord_id = do
    entry ← check_cancel session_id orig_id cl_ord_id
    removed ← remove_from_book session_id orig_id entry.side entry.price entry.instrument_id
    let final = cancelled_if_active removed
    e ← get
    session ← expect (lookup session_id e.sessions)
    change (with_entry session_id orig_id final session)
    publish_book final.instrument_id
    change (λ e. send_status_for e final cl_ord_id cancelled_exec (some orig_id))

  unfoldable pub cancel_order : Text → OrderId → Run D (Unit {0})
  unfolding cancel_order_with_id
  cancel_order session_id id = cancel_order_with_id session_id id id
