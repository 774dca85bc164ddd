-- ===== src/Core/Engine/Reports/Effects.antt =====
-- src/core/exchange/mod.rs: reports leave the books, the market data and what is pending as they are.
use rust_trader.Base.{
  ℕ, ◌≡◌, refl, ap, sym, ◌∙◌, inl, inr, Option, none, some, List, [], ◌∷◌, Bool-cases, Option-cases,
}
use rust_trader.Base.Eq.{Text, int_eq, text_eq}
use rust_trader.Base.Int.{ℤ, eqb_ℤ}
use rust_trader.Base.Maps.{lookup, update, lookup-update, lookup-update_ne}
use rust_trader.Core.Orders.{Order, OrderId}
use rust_trader.Core.Books.{OrderBook, RawTrade}
use rust_trader.Core.Market.{MarketDataPublisher}
use rust_trader.Core.Engine.{Engine, Report, Session, ExecType, quote_order_id}
use rust_trader.Core.Engine.Entry.{order}
use rust_trader.Queue
use rust_trader.Core.Wrapping.{next_i64}
use rust_trader.Core.Engine.Reports.{
  recipient, send, with_record, sync_record, send_fill, next_exec_id, record_fill, fill_report,
  status_report, send_status_for, send_status, exec_type_of, fill_reports, send_trade_reports,
}

module _ {D : Type 0} where
  -- What readers and the books depend on.
  unfoldable pub market :
      Engine D → List (ℤ × OrderBook D) × MarketDataPublisher D × List (ℤ × ℕ) × ℕ
  market e = (e.books, e.market_data, e.pending_market_data, e.sequence)

  market-send : (e : Engine D) (r : Report D) → market (send e r) ≡ market e
  unfolding send market
  market-send e r = elim (Option-cases (lookup (recipient r) e.sessions)) [
    | inl n ↦ rw (n, send) refl
    | inr (s, h) ↦ rw (h, send) refl
  ]

  market-with_record :
      (f : Order D → Order D) (o : Order D) (e : Engine D) → market (with_record f o e) ≡ market e
  unfolding market
  market-with_record f o e = elim (Option-cases (lookup o.session_id e.sessions)) [
    | inl n ↦ rw (n, with_record) refl
    | inr (s, h) ↦ elim (Option-cases (lookup o.id s.orders)) [
      | inl n ↦ rw (h, n, with_record) refl
      | inr (old, k) ↦ rw (h, k, with_record) refl
    ]
  ]

  pub market-sync_record : (e : Engine D) (o : Order D) → market (sync_record e o) ≡ market e
  unfolding sync_record
  market-sync_record e o = elim (Bool-cases (eqb_ℤ o.id quote_order_id)) [
    | inl q ↦ rw (q, sync_record) refl
    | inr n ↦ rw (n, sync_record) (market-with_record (λ _. o) o e)
  ]

  market-next_exec_id : (e : Engine D) → market (next_exec_id e).1 ≡ market e
  unfolding market next_exec_id
  market-next_exec_id e = refl

  pub market-send_status_for :
      (e : Engine D) (o : Order D) (id : OrderId) (t : ExecType) (orig : Option OrderId)
      → market (send_status_for e o id t orig) ≡ market e
  unfolding send_status_for
  market-send_status_for e o id t orig =
      market-send (next_exec_id e).1 (status_report e o id t orig) ∙ market-next_exec_id e

  pub market-send_status : (e : Engine D) (o : Order D) → market (send_status e o) ≡ market e
  unfolding send_status
  market-send_status e o = market-send_status_for e o o.id (exec_type_of o.state) none

  market-record_fill : (e : Engine D) (o : Order D) → market (record_fill e o) ≡ market e
  unfolding record_fill
  market-record_fill e o = elim (Bool-cases (eqb_ℤ o.id quote_order_id)) [
    | inl q ↦ rw (q, record_fill) refl
    | inr n ↦ rw (n, record_fill) (market-with_record _ o e)
  ]

  pub market-send_fill :
      (e : Engine D) (o : Order D) (price quantity : D)
      → market (send_fill e o price quantity) ≡ market e
  unfolding send_fill
  market-send_fill e o price quantity =
      market-send (next_exec_id (record_fill e o)).1
        (fill_report (record_fill e o) o price quantity)
      ∙ market-next_exec_id (record_fill e o)
      ∙ market-record_fill e o

  market-fill_reports :
      (e : Engine D) (trades : List (RawTrade D)) → market (fill_reports e trades) ≡ market e
  unfolding fill_reports
  market-fill_reports e [] = refl
  market-fill_reports e (t ∷ trades) =
      market-fill_reports
        (send_fill (send_fill e t.buyer t.price t.quantity) t.seller t.price t.quantity) trades
      ∙ market-send_fill (send_fill e t.buyer t.price t.quantity) t.seller t.price t.quantity
      ∙ market-send_fill e t.buyer t.price t.quantity

  pub market-send_trade_reports :
      (e : Engine D) (trades : List (RawTrade D)) → market (send_trade_reports e trades) ≡ market e
  unfolding send_trade_reports market
  market-send_trade_reports e [] = refl
  market-send_trade_reports e (t ∷ trades) =
      market-fill_reports (record e { trade_ids = next_i64 e.trade_ids }) (t ∷ trades)

  pub record SameMarket (e e' : Engine D) : Type 0 where
    pub books : e'.books ≡ e.books
    pub market_data : e'.market_data ≡ e.market_data
    pub pending : e'.pending_market_data ≡ e.pending_market_data

  pub market-parts : (e e' : Engine D) → market e' ≡ market e → SameMarket e e'
  unfolding market
  market-parts e e' h = record {
    books = ap (λ m. m.0) h;
    market_data = ap (λ m. m.1) h;
    pending = ap (λ m. m.2) h;
  }

  order-send :
      (e : Engine D) (r : Report D) (session_id : Text) (id : OrderId)
      → order (send e r) session_id id ≡ order e session_id id
  unfolding send order
  order-send e r session_id id = elim (Option-cases (lookup (recipient r) e.sessions)) [
    | inl n ↦ rw (n, send) refl
    | inr (s, h) ↦ elim (Bool-cases (text_eq.beq (recipient r) session_id)) [
      | inl same ↦
          let q : recipient r ≡ session_id = (text_eq.beq_iff (recipient r) session_id).0 same in
          let s' : Session D = record s { sender = (Queue.send s.sender r).1 } in
          let was : lookup session_id e.sessions ≡ some s =
            ap (λ t. lookup t e.sessions) (sym q) ∙ h in
          let is : lookup session_id (update (recipient r) s' e.sessions) ≡ some s' =
            ap (λ t. lookup t (update (recipient r) s' e.sessions)) (sym q)
            ∙ lookup-update (recipient r) s' s e.sessions h in
          rw (h, send) (rw (is, order) (rw (was, order) refl))
      | inr other ↦
          rw (h, send)
            (rw
              (
                lookup-update_ne (recipient r) session_id
                    (record s { sender = (Queue.send s.sender r).1 }) e.sessions other,
                order,
              )
              refl)
    ]
  ]

  -- A status report changes no record of an order.
  pub order-send_status_for :
      (e : Engine D) (o : Order D) (cl_ord_id : OrderId) (t : ExecType) (orig : Option OrderId)
      (session_id : Text) (id : OrderId)
      → order (send_status_for e o cl_ord_id t orig) session_id id ≡ order e session_id id
  unfolding send_status_for next_exec_id order
  order-send_status_for e o cl_ord_id t orig session_id id =
      order-send (next_exec_id e).1 (status_report e o cl_ord_id t orig) session_id id
