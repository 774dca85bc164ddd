-- ===== src/Core/Engine/Stray.antt =====
-- src/core/exchange/mod.rs, `cancel_order_with_id` and `modify_order_with_type`: requests for an order
-- that its session has and the book does not.
use rust_trader.Base.{◌≡◌, refl, some, none, List}
use rust_trader.Base.Eq.{Text, int_eq, text_eq}
use rust_trader.Base.Maps.{lookup}
use rust_trader.Decimal.{DecimalOps}
use rust_trader.Core.Orders.{Order, OrderId, OrderType}
use rust_trader.Core.Books.{OrderBook}
use rust_trader.Core.Books.Matching.{BookInv}
use rust_trader.Core.Books.Entry.{locate_in}
use rust_trader.Core.Books.Entry.Removal.{remove_absent}
use rust_trader.Core.Tiers.{order_not_found}
use rust_trader.Core.Engine.{Engine, Session, Date, done, failed, after}
use rust_trader.Core.Engine.Reports.{send_status}
use rust_trader.Core.Engine.Reports.Effects.{market, market-send_status, order-send_status_for}
use rust_trader.Core.Engine.Booking.{remove_from_book, removed_from}
use rust_trader.Core.Engine.Entry.{order, check_cancel, cancel_order_with_id}
use rust_trader.Core.Engine.Replace.{check_modify, report_stray, modify_order_with_type}

module _ {D : Type 0} ⦃dec : DecimalOps D⦄ where
  -- The session has the order, and the well-formed book of its instrument does not.
  pub record Stray (e : Engine D) (session_id : Text) (id : OrderId) (entry : Order D)
      (b : OrderBook D) : Type 0 where
    pub session : Session D
    pub present : lookup session_id e.sessions ≡ some session
    pub entered : lookup id session.orders ≡ some entry
    pub booked : lookup entry.instrument_id e.books ≡ some b
    pub inv : BookInv b
    pub missing : locate_in b (session_id, id) entry.side entry.price ≡ none

  unbooked :
      (e : Engine D) (session_id : Text) (id : OrderId) (entry : Order D) (b : OrderBook D)
      → Stray e session_id id entry b
      → remove_from_book session_id id entry.side entry.price entry.instrument_id e
        ≡ failed order_not_found e
  unfolding remove_from_book
  unbooked e session_id id entry b s =
      rw (s.booked, remove_from_book)
        (rw (remove_absent b (session_id, id) entry.side entry.price s.inv s.missing, removed_from)
          refl)

  order-send_status :
      (e : Engine D) (o : Order D) (session_id : Text) (id : OrderId)
      → order (send_status e o) session_id id ≡ order e session_id id
  unfolding send_status
  order-send_status e o session_id id = order-send_status_for e o o.id _ none session_id id

  report_stray_lem :
      (e : Engine D) (session_id : Text) (id : OrderId) (entry : Order D) (b : OrderBook D)
      → Stray e session_id id entry b
      → report_stray session_id id e ≡ done tt (send_status e entry)
  unfolding report_stray
  report_stray_lem e session_id id entry b s = rw (s.present, s.entered, report_stray) refl

  -- For an order that its session has and the well-formed book of its instrument does not, a
  -- cancellation that passes its checks fails with the engine as it was, while a replacement that
  -- passes its checks returns no error: it sends the status of the order as it stands, and neither the
  -- books and the market data nor the record of any order change.
  pub modify_order-Stray :
      (e : Engine D) (today : Date) (session_id : Text) (orig_id new_id : OrderId)
      (order_type : OrderType) (price quantity : D) (entry : Order D) (plan : List D)
      (b : OrderBook D)
      → Stray e session_id orig_id entry b
      → check_cancel session_id orig_id new_id e ≡ done entry e
      → check_modify session_id orig_id new_id order_type price quantity e ≡ done (entry, plan) e
      → (cancel_order_with_id session_id orig_id new_id e ≡ failed order_not_found e)
        × (modify_order_with_type today session_id orig_id new_id order_type price quantity e
            ≡ done tt (send_status e entry))
        × (market (send_status e entry) ≡ market e)
        × ((owner : Text) (id : OrderId) → order (send_status e entry) owner id ≡ order e owner id)
  unfolding cancel_order_with_id modify_order_with_type
  modify_order-Stray e today session_id orig_id new_id order_type price quantity entry plan b s c
        k =
      (
        rw (c, cancel_order_with_id) (rw (unbooked e session_id orig_id entry b s, after) refl),
        rw (k, modify_order_with_type)
            (rw (unbooked e session_id orig_id entry b s, after)
              (report_stray_lem e session_id orig_id entry b s)),
        market-send_status e entry,
        order-send_status e entry,
      )
