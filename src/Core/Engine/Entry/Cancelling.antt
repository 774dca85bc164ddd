-- ===== src/Core/Engine/Entry/Cancelling.antt =====
-- src/core/exchange/mod.rs, `cancel_order_with_id`: an active order that rests is cancelled.
use rust_trader.Base.{
  ◌≡◌, refl, sym, ap, subst, ◌∙◌, ◌⊎◌, inl, inr, Bool, true, false, not, ◌||◌, none, some, List, [],
  Bool-cases,
}
use rust_trader.Base.Eq.{Text, int_eq, text_eq}
use rust_trader.Base.Int.{ℤ, pos, ltb_ℤ, eqb_ℤ, eqb_ℤ_iff}
use rust_trader.Base.Maps.{lookup, insert, lookup-insert, lookup-update, beq_self}
use rust_trader.Base.Outcome.{ok}
use rust_trader.Decimal.{DecimalOps, IsOrdered}
use rust_trader.Core.Orders.{Order, OrderId, is_active}
use rust_trader.Core.Books.{OrderBook, new_book, or_new}
use rust_trader.Core.Books.Matching.{BookInv}
use rust_trader.Core.Books.Entry.{locate_in, cancel_active, remove}
use rust_trader.Core.Books.Entry.Removal.{Taken, remove_lem}
use rust_trader.Core.Books.Entry.Numbering.{remove-instrument_id}
use rust_trader.Core.Market.{InstrumentSnapshot, Statistics, snapshot}
use rust_trader.Core.Engine.{Engine, Session, done, after, attempt, cancelled_exec}
use rust_trader.Core.Engine.Reports.{send_status_for}
use rust_trader.Core.Engine.Reports.Effects.{
  market-parts, market-send_status_for, order-send_status_for,
}
use rust_trader.Core.Engine.Publishing.{book_for, record_market_data, publish_market_data}
use rust_trader.Core.Engine.Publishing.Recorded.{publish-Refreshed, book_for-with_book}
use rust_trader.Core.Engine.Publishing.Depicted.{Depicts}
use rust_trader.Core.Wrapping.{next_u64}
use rust_trader.Core.Engine.Booking.{remove_from_book, removed_from, with_book}
use rust_trader.Core.Engine.Entry.{
  with_entry, has_order, order, check_cancel, cancelled_if_active, cancel_order_with_id,
}
use rust_trader.Core.Engine.Entry.Admission.{validate_order_id_lem}

or_true : (b : Bool) → (b || not false) ≡ true
or_true true = refl
or_true false = refl

module _ {D : Type 0} ⦃dec : DecimalOps D⦄ where
  -- An order that can be cancelled: its record is active, and it rests in a well-formed book.
  pub record Cancellable (e : Engine D) (session_id : Text) (orig_id cl_ord_id : OrderId)
      (entry o : Order D) (b : OrderBook D) : Type 0 where
    pub session : Session D
    pub present : lookup session_id e.sessions ≡ some session
    pub entered : lookup orig_id session.orders ≡ some entry
    pub active : is_active entry.state ≡ true
    pub identified : ltb_ℤ (pos 0) cl_ord_id ≡ true
    pub unused : (cl_ord_id ≡ orig_id) ⊎ (lookup cl_ord_id session.orders ≡ none)
    pub booked : lookup entry.instrument_id e.books ≡ some b
    pub inv : BookInv b
    pub numbered : b.instrument_id ≡ entry.instrument_id
    pub rests : locate_in b (session_id, orig_id) entry.side entry.price ≡ some o
    pub traded_in : o.instrument_id ≡ entry.instrument_id
    pub old : InstrumentSnapshot D
    pub slot : snapshot e.market_data entry.instrument_id ≡ some old
    pub idle : e.pending_market_data ≡ []

  unheld :
      (e : Engine D) (session_id : Text) (id : OrderId) (session : Session D)
      → lookup session_id e.sessions ≡ some session
      → lookup id session.orders ≡ none
      → has_order e session_id id ≡ false
  unheld e session_id id session h k = rw (h, has_order) (rw k refl)

  unused_test :
      (e : Engine D) (session_id : Text) (orig_id cl_ord_id : OrderId) (entry o : Order D)
      (b : OrderBook D)
      → (c : Cancellable e session_id orig_id cl_ord_id entry o b)
      → (eqb_ℤ cl_ord_id orig_id || not (has_order e session_id cl_ord_id)) ≡ true
  unused_test e session_id orig_id cl_ord_id entry o b c = elim c.unused [
    | inl same ↦ rw ((eqb_ℤ_iff cl_ord_id orig_id).1 same) refl
    | inr absent ↦
        rw (unheld e session_id cl_ord_id c.session c.present absent)
          (or_true (eqb_ℤ cl_ord_id orig_id))
  ]

  check_cancel_lem :
      (e : Engine D) (session_id : Text) (orig_id cl_ord_id : OrderId) (entry o : Order D)
      (b : OrderBook D)
      → Cancellable e session_id orig_id cl_ord_id entry o b
      → check_cancel session_id orig_id cl_ord_id e ≡ done entry e
  unfolding check_cancel
  check_cancel_lem e session_id orig_id cl_ord_id entry o b c =
      elim (validate_order_id_lem cl_ord_id) [
        | inr (n, f) ↦ cc (c.identified)
        | inl (i, f) ↦
            rw (f, c.present, c.entered, check_cancel)
              (rw (unused_test e session_id orig_id cl_ord_id entry o b c, c.active) refl)
      ]

  remove_from_book_lem :
      (e : Engine D) (session_id : Text) (orig_id : OrderId) (entry o : Order D)
      (b b' : OrderBook D)
      → lookup entry.instrument_id e.books ≡ some b
      → remove b (session_id, orig_id) entry.side entry.price ≡ ok (o, b')
      → remove_from_book session_id orig_id entry.side entry.price entry.instrument_id e
        ≡ done o (with_book e entry.instrument_id b')
  unfolding remove_from_book
  remove_from_book_lem e session_id orig_id entry o b b' h k =
      rw (h, remove_from_book) (rw (k, removed_from) refl)

  already_cancelled : (o : Order D) → is_active o.state ≡ false → cancelled_if_active o ≡ o
  unfolding cancelled_if_active
  already_cancelled o h = rw (h, cancelled_if_active) refl

  cancel_active-instrument_id : (o : Order D) → (cancel_active o).instrument_id ≡ o.instrument_id
  unfolding cancel_active
  cancel_active-instrument_id o = elim (Bool-cases (is_active o.state)) [
    | inl a ↦ rw (a, cancel_active) refl
    | inr n ↦ rw (n, cancel_active) refl
  ]

  -- The steps of a cancellation that goes through.
  cancel-steps :
      (e e1 e2 : Engine D) (session_id : Text) (orig_id cl_ord_id : OrderId) (entry o : Order D)
      (session : Session D)
      → check_cancel session_id orig_id cl_ord_id e ≡ done entry e
      → remove_from_book session_id orig_id entry.side entry.price entry.instrument_id e ≡ done o e1
      → cancelled_if_active o ≡ o
      → lookup session_id e1.sessions ≡ some session
      → publish_market_data
          (record_market_data o.instrument_id [] (with_entry session_id orig_id o session e1))
        ≡ some e2
      → cancel_order_with_id session_id orig_id cl_ord_id e
        ≡ done tt (send_status_for e2 o cl_ord_id cancelled_exec (some orig_id))
  unfolding cancel_order_with_id
  cancel-steps e e1 e2 session_id orig_id cl_ord_id entry o session c r k h p =
      rw (c, cancel_order_with_id)
        (rw (r, after) (rw (k, after) (rw (h, after) (rw (p, after, attempt) refl))))

  -- The effect of a cancellation.
  pub record CancelledOrder (e e' : Engine D) (session_id : Text) (orig_id : OrderId)
      (entry o : Order D) (b : OrderBook D) : Type 0 where
    pub taken : Taken b (book_for e' entry.instrument_id) (session_id, orig_id) entry.side o
    pub gone :
        locate_in (book_for e' entry.instrument_id) (session_id, orig_id) entry.side entry.price
        ≡ none
    pub final : Order D
    pub inactive : is_active final.state ≡ false
    pub mirrored : order e' session_id orig_id ≡ some final
    pub stats : Statistics D
    pub view : InstrumentSnapshot D
    pub seen : snapshot e'.market_data entry.instrument_id ≡ some view
    pub depicts : Depicts (book_for e' entry.instrument_id) stats (next_u64 e.sequence) view
    pub settled : e'.pending_market_data ≡ []

  order-with_entry :
      (e e' : Engine D) (session_id : Text) (id : OrderId) (o : Order D) (s session : Session D)
      → lookup session_id e.sessions ≡ some s
      → e'.sessions ≡ (with_entry session_id id o session e).sessions
      → order e' session_id id ≡ some o
  unfolding order
  order-with_entry e e' session_id id o s session h k =
      let s' : Session D = record session { orders = insert id o session.orders } in
      let is : lookup session_id e'.sessions ≡ some s' =
        ap (lookup session_id) k ∙ lookup-update session_id s' s e.sessions h in
      rw (is, order) (lookup-insert id id o session.orders ∙ rw (beq_self id) refl)

  -- A cancellation of an active order that rests in the well-formed book of a registered instrument
  -- goes through, with no panic where no decimal overflows: the order is taken out of the queue of its side, alone, its record in
  -- the session is inactive, and readers see the levels and the best prices of the
  -- book without it, at the next version.
  pub cancel_order-CancelledOrder :
      IsOrdered D
      → (e : Engine D) (session_id : Text) (orig_id cl_ord_id : OrderId) (entry o : Order D)
        (b : OrderBook D)
      → Cancellable e session_id orig_id cl_ord_id entry o b
      → (e' : Engine D) × (cancel_order_with_id session_id orig_id cl_ord_id e ≡ done tt e')
        × CancelledOrder e e' session_id orig_id entry o b
  cancel_order-CancelledOrder ord e session_id orig_id cl_ord_id entry o b c =
      let id = entry.instrument_id in
      let (b', removed, taken, gone, inactive) =
        remove_lem ord b (session_id, orig_id) entry.side entry.price o c.inv c.rests in
      let final = cancel_active o in
      let e1 = with_book e id b' in
      let e2 = with_entry session_id orig_id final c.session e1 in
      let kept = book_for-with_book e id b' in
      let (e3, returns, r) =
        publish-Refreshed e2 id [] c.old c.idle
          (ap (λ (x : OrderBook D). x.instrument_id) kept
            ∙ remove-instrument_id b (session_id, orig_id) entry.side entry.price (final, b')
                removed
            ∙ c.numbered)
          c.slot in
      let traded = cancel_active-instrument_id o ∙ c.traded_in in
      let e' = send_status_for e3 final cl_ord_id cancelled_exec (some orig_id) in
      let same =
        market-parts e3 e'
          (market-send_status_for e3 final cl_ord_id cancelled_exec (some orig_id)) in
      let now : book_for e' id ≡ b' =
        ap (λ (bs : List (ℤ × OrderBook D)). or_new (lookup id bs) (new_book id)) same.books
        ∙ r.books id
        ∙ kept in
      (
        e',
        cancel-steps e e1 e3 session_id orig_id cl_ord_id entry final c.session
            (check_cancel_lem e session_id orig_id cl_ord_id entry o b c)
            (remove_from_book_lem e session_id orig_id entry final b b' c.booked removed)
            (already_cancelled final inactive) c.present
            (ap (λ i. publish_market_data (record_market_data i [] e2)) traded ∙ returns),
        record {
          taken = subst (λ x. Taken b x (session_id, orig_id) entry.side o) (sym now) taken;
          gone = ap (λ x. locate_in x (session_id, orig_id) entry.side entry.price) now ∙ gone;
          final = final;
          inactive = inactive;
          mirrored =
              order-send_status_for e3 final cl_ord_id cancelled_exec (some orig_id) session_id
                orig_id
              ∙ order-with_entry e1 e3 session_id orig_id final c.session c.session c.present
                  r.sessions;
          stats = r.stats;
          view = r.view;
          seen = ap (λ q. snapshot q id) same.market_data ∙ r.seen;
          depicts =
              subst (λ (x : OrderBook D). Depicts x r.stats (next_u64 e.sequence) r.view)
                (kept ∙ sym now) r.depicts;
          settled = same.pending ∙ r.settled;
        },
      )
