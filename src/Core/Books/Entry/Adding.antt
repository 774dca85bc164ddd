-- ===== src/Core/Books/Entry/Adding.antt =====
-- `OrderBook::add`: it does not panic, and what it leaves of the incoming order.
use rust_trader.Base.{
  ◌≡◌, ◌<◌, refl, ap, ◌∙◌, ◌⊎◌, inl, inr, true, false, ◌&&◌, none, some, arith, Bool-cases,
}
use rust_trader.Base.Eq.{nat_eq, int_eq, text_eq, pair_eq}
use rust_trader.Base.Maps.{lookup, update, erase, lookup-update, erase-update, update-update}
use rust_trader.Base.Outcome.{ok}
use rust_trader.Decimal.{DecimalOps, IsOrdered, decimal_eq}
use rust_trader.Core.Orders.{Order, Side, buy, sell, cancelled, effective_price}
use rust_trader.Core.Levels.{PriceLevel, Identity, identity, i64_max, remove_order}
use rust_trader.Core.Levels.Invariant.{stored, dropped, store_held}
use rust_trader.Core.Books.{Ladder, OrderBook, ladder, with_ladder, settle, insert}
use rust_trader.Core.Books.Ladders.{queue}
use rust_trader.Core.Books.Matching.{BookInv}
use rust_trader.Core.Books.Placing.{level_for, enqueue, placed_at}
use rust_trader.Core.Books.Enqueue.{queue-placed_at, placed_at-LadderInv, push_at-placed_at}
use rust_trader.Core.Books.Entry.{
  locate_in, store_in, remove, cancel_active, rest_or_cancel, is_market, is_cancelled,
}
use rust_trader.Core.Books.Entry.Removal.{
  Rests, rests, Taken, without, without-Taken, without_gone, side_inv, with_ladder-BookInv,
  ladder-with_ladder, opposite, remove-Rests,
}

module _ {D : Type 0} ⦃dec : DecimalOps D⦄ where
  settle-update :
      (price : D) (l m : PriceLevel D) (levels : Ladder D)
      → settle price m (update price l levels) ≡ settle price m levels
  unfolding settle
  settle-update price l m levels =
      ground (arith, erase-update price l levels, update-update price m l levels)

  -- The new version of an order, written where it rests.
  abbrev with_order :
      (b : OrderBook D) (i : Identity) (side : Side) (price : D) (o o' : Order D)
      → Rests b i side price o
      → OrderBook D
  with_order b i side price o o' r =
      with_ladder b side (update price (stored r.level r.key o') (ladder b side))

  store_in-Rests :
      (b : OrderBook D) (i : Identity) (side : Side) (price : D) (o o' : Order D)
      → (r : Rests b i side price o)
      → store_in b i side price o' ≡ some (with_order b i side price o o' r)
  unfolding store_in
  store_in-Rests b i side price o o' r =
      rw (r.at_price) (rw (store_held r.level i r.key o' r.indexed r.row))

  remove_order-stored :
      (b : OrderBook D) (i : Identity) (side : Side) (price : D) (o o' : Order D)
      → (r : Rests b i side price o) → o'.remaining ≡ o.remaining
      → remove_order (stored r.level r.key o') i ≡ ok (o', dropped r.level i r.key o)
  unfolding remove_order
  remove_order-stored b i side price o o' r e = rw (r.indexed) (
      rw (lookup-update r.key o' r.row.row r.level.orders r.row.found) (
        rw (erase-update r.key o' r.level.orders) (
          ap
            (λ q. ok (
              o',
              record r.level {
                index = erase i r.level.index;
                orders = erase r.key r.level.orders;
                total = dec.sub r.level.total q;
              },
            ))
            e)))

  remove_stored :
      (b : OrderBook D) (i : Identity) (side : Side) (price : D) (o o' : Order D)
      → (r : Rests b i side price o) → o'.remaining ≡ o.remaining
      → remove (with_order b i side price o o' r) i side price
        ≡ ok (cancel_active o', without b i side price o r)
  unfolding remove
  remove_stored b i buy price o o' r e =
      rw (lookup-update price (stored r.level r.key o') r.level b.bids r.at_price) (
        rw (remove_order-stored b i buy price o o' r e)
          (rw (settle-update price (stored r.level r.key o') (dropped r.level i r.key o) b.bids)))
  remove_stored b i sell price o o' r e =
      rw (lookup-update price (stored r.level r.key o') r.level b.asks r.at_price) (
        rw (remove_order-stored b i sell price o o' r e)
          (rw (settle-update price (stored r.level r.key o') (dropped r.level i r.key o) b.asks)))

  abbrev cancelled_version : Order D → Order D
  cancelled_version o = record o { state = cancelled }

  still_cancelled :
      (o : Order D) → is_cancelled o.state ≡ true → (cancel_active o).state ≡ cancelled
  unfolding cancel_active
  still_cancelled o h = ground arith

  -- What becomes of the order where it still rests after matching.
  abbrev pub Outlives : (m : OrderBook D) (o resting : Order D) (a : Order D × OrderBook D) → Type 0
  Outlives m o resting a =
      (((is_market o.order_type && dec.lt dec.zero resting.remaining) ≡ false) × (a ≡ (resting, m)))
      ⊎ (((a.0).state ≡ cancelled)
          × Taken m a.1 (identity o) o.side resting
          × (locate_in a.1 (identity o) o.side (effective_price o) ≡ none))

  pub rest_or_cancel_lem :
      IsOrdered D
      → (m : OrderBook D) (o resting : Order D) → BookInv m
      → locate_in m (identity o) o.side (effective_price o) ≡ some resting
      → (a : Order D × OrderBook D) × (rest_or_cancel m o resting ≡ some a) × Outlives m o resting a
  unfolding rest_or_cancel cancel_active
  rest_or_cancel_lem ord m o resting v h =
      let i = identity o in
      let p = effective_price o in
      let r = rests m i o.side p resting v h in
      let gone = without_gone ord m i o.side p resting v r in
      let taken = without-Taken m i o.side p resting v r in
      elim (Bool-cases (is_market o.order_type && dec.lt dec.zero resting.remaining)) [
        | inl unfilled ↦ (
          (cancelled_version resting, without m i o.side p resting r),
          rw unfilled (
              rw (store_in-Rests m i o.side p resting (cancelled_version resting) r)
                (rw (remove_stored m i o.side p resting (cancelled_version resting) r refl))),
          inr (refl, taken, gone),
        )
        | inr other ↦ elim (Bool-cases (is_cancelled resting.state)) [
          | inl c ↦ (
            (cancel_active resting, without m i o.side p resting r),
            rw (other, c) (rw (remove-Rests m i o.side p resting r)),
            inr (still_cancelled resting c, taken, gone),
          )
          | inr k ↦ ((resting, m), rw (other, k), inl (other, refl))
        ]
      ]

  -- The book with a new order in its place, before it trades.
  abbrev pub inserted : OrderBook D → Order D → OrderBook D
  inserted b o = with_ladder b o.side (placed_at o.side (effective_price o) o (ladder b o.side))

  -- The order's level has room, and holds no order of the same identity.
  pub record Fits (b : OrderBook D) (o : Order D) : Type 0 where
    pub absent : lookup (identity o) (level_for (effective_price o) (ladder b o.side)).index ≡ none
    pub room : (level_for (effective_price o) (ladder b o.side)).next < i64_max

  pub insert-inserted :
      (b : OrderBook D) (o : Order D) → BookInv b → Fits b o → insert b o ≡ some (inserted b o)
  unfolding insert
  insert-inserted b o v f = rw (
      push_at-placed_at o.side (effective_price o) o (ladder b o.side) (side_inv b o.side v)
        f.absent f.room)

  pub inserted-BookInv :
      IsOrdered D → (b : OrderBook D) (o : Order D) → BookInv b → Fits b o → BookInv (inserted b o)
  inserted-BookInv ord b o v f = with_ladder-BookInv b o.side _ v (
      placed_at-LadderInv ord o.side (effective_price o) o (ladder b o.side) (side_inv b o.side v)
        refl refl f.absent)

  -- An order takes its place behind every order of its side with a price as good as its own or
  -- better, and before the others; the other side and the invariant are kept.
  pub insert-enqueue :
      IsOrdered D
      → (b : OrderBook D) (o : Order D) → BookInv b
      → Fits b o
      → (b' : OrderBook D) × (insert b o ≡ some b')
        × (queue (ladder b' o.side)
            ≡ enqueue o.side (effective_price o) o (queue (ladder b o.side)))
        × (ladder b' (opposite o.side) ≡ ladder b (opposite o.side))
        × BookInv b'
  insert-enqueue ord b o v f =
      let a =
        ladder-with_ladder b o.side (placed_at o.side (effective_price o) o (ladder b o.side)) in
      (
        inserted b o,
        insert-inserted b o v f,
        ap queue a.0
            ∙ queue-placed_at ord o.side (effective_price o) o (ladder b o.side)
                (side_inv b o.side v),
        a.1,
        inserted-BookInv ord b o v f,
      )
