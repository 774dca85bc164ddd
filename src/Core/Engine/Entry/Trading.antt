-- ===== src/Core/Engine/Entry/Trading.antt =====
-- src/core/exchange/mod.rs, `create_order` with real matching: an admissible order goes through.
use rust_trader.Base.{
  ◌≡◌, refl, ap, subst, ◌∙◌, inl, inr, Bool, false, ◌||◌, ◌&&◌, Option, none, some, List, [],
  Bool-cases,
}
use rust_trader.Base.Eq.{Text, int_eq, text_eq}
use rust_trader.Base.Int.{ℤ}
use rust_trader.Base.Lists.{is_empty}
use rust_trader.Base.Maps.{lookup}
use rust_trader.Decimal.{DecimalOps, IsOrdered}
use rust_trader.Core.Wrapping.{next_u64}
use rust_trader.Core.Orders.{Order, OrderType, market, limit, limit_order, market_order}
use rust_trader.Core.Tiers.{FillPolicy, real}
use rust_trader.Core.Books.{OrderBook, new_book, or_new}
use rust_trader.Core.Books.Matching.{BookInv}
use rust_trader.Core.Books.Uncrossed.{Uncrossed}
use rust_trader.Core.Books.Entry.{Added, add, is_cancelled, is_market}
use rust_trader.Core.Books.Entry.Adding.{Fits}
use rust_trader.Core.Books.Entry.Concluding.{booking, add_lem}
use rust_trader.Core.Books.Entry.Numbering.{add-instrument_id}
use rust_trader.Core.Market.{InstrumentSnapshot, Statistics, snapshot}
use rust_trader.Core.Engine.{
  Engine, Session, NewOrder, Run, Ended, done, after, attempt, pure, Date,
}
use rust_trader.Core.Engine.Reports.{sync_record, send_trade_reports}
use rust_trader.Core.Engine.Reports.Effects.{
  market-parts, market-sync_record, market-send_status, market-send_trade_reports,
}
use rust_trader.Core.Engine.Reports.Effects
use rust_trader.Core.Engine.Publishing.{
  book_for, add_trades, statistics_of, record_market_data, publish_market_data,
}
use rust_trader.Core.Engine.Publishing.Recorded.{publish-Refreshed, book_for-with_book}
use rust_trader.Core.Engine.Publishing.Depicted.{Depicts}
use rust_trader.Core.Engine.Entry.Requested.{Requested, new_order-Requested}
use rust_trader.Core.Engine.Booking.{add_to_book, with_book}
use rust_trader.Core.Engine.Entry.{
  with_entry, with_date, count_order, new_order, order_of, report_final, trade_real, trade,
  create_order,
}
use rust_trader.Core.Engine.Entry.Admission.{Admissible, check_new-Admissible}

module _ {D : Type 0} ⦃dec : DecimalOps D⦄ where
  abbrev pub incoming : Engine D → Text → NewOrder D → Order D
  incoming e session_id new = new_order session_id new (count_order e)

  -- The engine when the order goes to its book.
  abbrev recorded : Engine D → Date → Text → NewOrder D → Session D → Engine D
  recorded e today session_id new session =
      with_date session_id (incoming e session_id new).id today (
        with_entry session_id (incoming e session_id new).id (incoming e session_id new) session
          (count_order e))

  create_order-trade :
      IsOrdered D
      → (e : Engine D) (today : Date) (session_id : Text) (new : NewOrder D) (plan : List D)
      → (a : Admissible e session_id new plan)
      → create_order today session_id new e
        ≡ after
            (trade e.fill_policy session_id new
              (incoming e session_id new)
              plan
              (recorded e today session_id new a.session))
            (λ _. pure new.id)
  unfolding create_order
  create_order-trade ord e today session_id new plan a =
      rw (check_new-Admissible ord e session_id new plan a, create_order) (rw (a.present) refl)

  trade-trade_real :
      (policy : FillPolicy) (session_id : Text) (new : NewOrder D) (o : Order D) (plan : List D)
      → policy ≡ real
      → trade policy session_id new o plan ≡ trade_real new o
  unfolding trade
  trade-trade_real policy session_id new o plan h = rw h refl

  market-report_final :
      (untraded : Bool) (t : OrderType) (final : Option (Order D)) (e : Engine D)
      → Effects.market (report_final untraded t final e) ≡ Effects.market e
  unfolding report_final
  market-report_final untraded t none e = refl
  market-report_final untraded t (some final) e =
      elim (Bool-cases (untraded || is_cancelled final.state && is_market t)) [
        | inl s ↦
            rw (s, report_final)
              (market-send_status (sync_record e final) final ∙ market-sync_record e final)
        | inr q ↦ rw (q, report_final) (market-sync_record e final)
      ]

  -- An order that went through.
  pub record Traded (e e' : Engine D) (id : ℤ) (o : Order D) (a : Added D) : Type 0 where
    pub added : add (book_for e id) o ≡ some a
    pub book : book_for e' id ≡ a.book
    pub inv : BookInv a.book
    pub uncrossed : Uncrossed a.book
    pub stats : Statistics D
    pub counted : stats ≡ add_trades (statistics_of e id) a.trades
    pub view : InstrumentSnapshot D
    pub seen : snapshot e'.market_data id ≡ some view
    pub depicts : Depicts a.book stats (next_u64 e.sequence) view
    pub others :
        (j : ℤ) → int_eq.beq id j ≡ false → snapshot e'.market_data j ≡ snapshot e.market_data j
    pub settled : e'.pending_market_data ≡ []

  -- The rounds of `trade_real`, one after the other.
  trade_real-steps :
      (e e' : Engine D) (new : NewOrder D) (o : Order D) (a : Added D)
      → o.instrument_id ≡ new.instrument_id
      → add (book_for e new.instrument_id) o ≡ some a
      → publish_market_data
          (record_market_data new.instrument_id a.trades (with_book e new.instrument_id a.book))
        ≡ some e'
      → trade_real new o e
        ≡ done tt (
            report_final
              (is_empty a.trades)
              new.order_type
              a.final_state
              (send_trade_reports e' a.trades))
  unfolding trade_real add_to_book
  trade_real-steps e e' new o a n h k =
      let h' : add (book_for e o.instrument_id) o ≡ some a = ap (λ i. add (book_for e i) o) n ∙ h in
      let k' : publish_market_data
            (record_market_data new.instrument_id a.trades (with_book e o.instrument_id a.book))
          ≡ some e' =
        ap
          (λ i.
            publish_market_data
              (record_market_data new.instrument_id a.trades (with_book e i a.book)))
          n
        ∙ k in
      rw (h', trade_real, add_to_book) (rw (k', after, attempt) refl)

  trade_real_lem :
      IsOrdered D
      → (e : Engine D) (new : NewOrder D) (o : Order D) (old : InstrumentSnapshot D)
      → o.instrument_id ≡ new.instrument_id
      → e.pending_market_data ≡ []
      → BookInv (book_for e new.instrument_id)
      → Fits (book_for e new.instrument_id) (booking o)
      → (book_for e new.instrument_id).instrument_id ≡ new.instrument_id
      → snapshot e.market_data new.instrument_id ≡ some old
      → (a : Added D) × (e' : Engine D) × (trade_real new o e ≡ done tt e')
        × Traded e e' new.instrument_id o a
  trade_real_lem ord e new o old n p v f k s =
      let id = new.instrument_id in
      let (a, m, added, matches, ending, inv, uncrossed) = add_lem ord (book_for e id) o v f in
      let b = book_for-with_book e id a.book in
      let (e', returns, r) =
        publish-Refreshed (with_book e id a.book) id a.trades old p
          (ap (λ (c : OrderBook D). c.instrument_id) b
            ∙ add-instrument_id (book_for e id) o a added
            ∙ k)
          s in
      let e1 = send_trade_reports e' a.trades in
      let e2 = report_final (is_empty a.trades) new.order_type a.final_state e1 in
      let same = market-parts e' e2 (
        market-report_final (is_empty a.trades) new.order_type a.final_state e1
        ∙ market-send_trade_reports e' a.trades) in
      (
        a,
        e2,
        trade_real-steps e e' new o a n added returns,
        record {
          added = added;
          book =
              ap (λ (bs : List (ℤ × OrderBook D)). or_new (lookup id bs) (new_book id)) same.books
              ∙ r.books id
              ∙ b;
          inv = inv;
          uncrossed = uncrossed;
          stats = r.stats;
          counted = r.counted;
          view = r.view;
          seen = ap (λ q. snapshot q id) same.market_data ∙ r.seen;
          depicts =
              subst (λ (c : OrderBook D). Depicts c r.stats (next_u64 e.sequence) r.view) b
                r.depicts;
          others = λ j d. ap (λ q. snapshot q j) same.market_data ∙ r.others j d;
          settled = same.pending ∙ r.settled;
        },
      )

  new_order-instrument_id :
      (e : Engine D) (session_id : Text) (new : NewOrder D)
      → (new_order session_id new e).instrument_id ≡ new.instrument_id
  unfolding new_order order_of limit_order market_order
  new_order-instrument_id e session_id new = by_type new.order_type
    where
      by_type : (t : OrderType) → (order_of session_id new t e).instrument_id ≡ new.instrument_id
      by_type limit = refl
      by_type market = refl

  -- With real matching, nothing pending, and an instrument with a registered slot and a well-formed
  -- book in which the order fits, an admissible request is executed, and where no decimal overflows it
  -- does not panic. The order that is added to the book is the one asked for, with all of its quantity
  -- left and a later arrival; the book stays well-formed and uncrossed, and readers see its levels and
  -- its best prices, at the next version, with the trades in its statistics.
  pub create_order-Traded :
      IsOrdered D
      → (e : Engine D) (today : Date) (session_id : Text) (new : NewOrder D) (plan : List D)
        (old : InstrumentSnapshot D)
      → Admissible e session_id new plan
      → e.fill_policy ≡ real
      → e.pending_market_data ≡ []
      → BookInv (book_for e new.instrument_id)
      → Fits (book_for e new.instrument_id) (booking (incoming e session_id new))
      → (book_for e new.instrument_id).instrument_id ≡ new.instrument_id
      → snapshot e.market_data new.instrument_id ≡ some old
      → (o : Order D) × (a : Added D) × (e' : Engine D) × (create_order today session_id new e
          ≡ done new.id e')
        × Requested e session_id new.id new.instrument_id new.side new.order_type new.price
            new.quantity o
        × Traded e e' new.instrument_id o a
  create_order-Traded ord e today session_id new plan old ad r p v f k s =
      let o = incoming e session_id new in
      let start = recorded e today session_id new ad.session in
      let (a, e', returns, t) =
        trade_real_lem ord start new o old (new_order-instrument_id (count_order e) session_id new)
          p v f k s in
      (
        o,
        a,
        e',
        create_order-trade ord e today session_id new plan ad
            ∙ ap (λ (run : Run D (Unit {0})). after (run start) (λ _. pure new.id))
                (trade-trade_real e.fill_policy session_id new o plan r)
            ∙ ap (λ (q : Ended D (Unit {0})). after q (λ _. pure new.id)) returns,
        new_order-Requested e session_id new r,
        record {
          added = t.added;
          book = t.book;
          inv = t.inv;
          uncrossed = t.uncrossed;
          stats = t.stats;
          view = t.view;
          seen = t.seen;
          depicts = t.depicts;
          counted = t.counted;
          others = t.others;
          settled = t.settled;
        },
      )
