-- ===== src/Core/Books/Entry.antt =====
-- src/core/orderbook.rs, `OrderBook`: adding an order with matching, removal, the tiered paths that
-- rest and fill without matching, and the aggregated snapshot.
pub mod Removal
pub mod Adding
pub mod Concluding
pub mod Numbering
pub mod Tiered
use rust_trader.Base.{
  Bool, true, false, not, ◌&&◌, Option, none, some, List, [], ◌∷◌, if◌then◌else◌,
}
use rust_trader.Base.Eq.{nat_eq, int_eq, text_eq, pair_eq}
use rust_trader.Base.Maps.{lookup, update, contains_key}
use rust_trader.Base.Outcome.{Outcome, ok, ◌>>=◌, ◌>>◌, ok_or, unwrap, unwrap_ok, ensure}
use rust_trader.Decimal.{DecimalOps, decimal_eq, le}
use rust_trader.Core.Orders.{
  Order, OrderState, OrderType, Side, market, limit, booked, partial_fill, cancelled, is_active,
  effective_price, apply_fill,
}
use rust_trader.Core.Levels.{
  Identity, identity, new_level, locate, store, remove_order, update_fill,
}
use rust_trader.Core.Books.{
  Ladder, OrderBook, RawTrade, BookLevel, Book, TieredBookError, order_not_found, duplicate_order,
  invalid_execution, ladder, with_ladder, or_new, ◌>>=?◌, push_at, insert, settle, match_trades,
}

abbrev pub is_cancelled : OrderState → Bool
is_cancelled cancelled = true
is_cancelled _ = false

abbrev pub is_market : OrderType → Bool
is_market market = true
is_market limit = false

-- What `add` returns beside the book: the trades, and the final state of the incoming order.
pub record Added (D : Type 0) : Type 0 where
  pub trades : List (RawTrade D)
  pub final_state : Option (Order D)
  pub book : OrderBook D

module _ {D : Type 0} ⦃dec : DecimalOps D⦄ where
  unfoldable pub locate_in : OrderBook D → Identity → Side → D → Option (Order D)
  locate_in b i side price = elim (lookup price (ladder b side)) [
    | none ↦ none
    | some l ↦ locate l i
  ]

  unfoldable pub cancel_active : Order D → Order D
  cancel_active o = if is_active o.state then record o { state = cancelled } else o

  unfoldable pub remove :
      OrderBook D → Identity → Side → D → Outcome (Unit {0}) (Order D × OrderBook D)
  unfolding cancel_active
  remove b i side price = do
    level ← ok_or tt (lookup price (ladder b side))
    removed ← remove_order level i
    ok (cancel_active removed.0, with_ladder b side (settle price removed.1 (ladder b side)))

  -- A write through the reference that `locate_mut` returned.
  unfoldable pub store_in : OrderBook D → Identity → Side → D → Order D → Option (OrderBook D)
  store_in b i side price o = lookup price (ladder b side) >>=? λ l.
      store l i o >>=? λ l'. some (with_ladder b side (update price l' (ladder b side)))

  abbrev named : Order D → Order D → Bool
  named o t = text_eq.beq t.session_id o.session_id && int_eq.beq t.id o.id

  -- The last snapshot of the order among the trades.
  unfoldable pub last_fill : Order D → Option (Order D) → List (RawTrade D) → Option (Order D)
  last_fill o found [] = found
  last_fill o found (t ∷ ts) =
      let bought = if named o t.buyer then some t.buyer else found in
      last_fill o (if named o t.seller then some t.seller else bought) ts

  -- A market order never rests: what is left of it is cancelled.
  unfoldable pub rest_or_cancel : OrderBook D → Order D → Order D → Option (Order D × OrderBook D)
  unfolding remove store_in
  rest_or_cancel b o resting =
      if is_market o.order_type && dec.lt dec.zero resting.remaining
      then (store_in b (identity o) o.side (effective_price o)
            (record resting { state = cancelled })
          >>=? λ b'. unwrap_ok (remove b' (identity o) o.side (effective_price o)))
      else if is_cancelled resting.state
      then unwrap_ok (remove b (identity o) o.side (effective_price o))
      else some (resting, b)

  unfoldable pub conclude : Order D → List (RawTrade D) → OrderBook D → Option (Added D)
  unfolding locate_in rest_or_cancel last_fill
  conclude o trades b = elim (locate_in b (identity o) o.side (effective_price o)) [
    | none ↦ some (record { trades = trades; final_state = last_fill o none trades; book = b })
    | some resting ↦ rest_or_cancel b o resting >>=? λ r.
        some (record { trades = trades; final_state = some r.0; book = r.1 })
  ]

  -- `None` is a panic.
  unfoldable pub add : OrderBook D → Order D → Option (Added D)
  unfolding insert match_trades conclude
  add b new =
      let o = record new { state = booked } in
      insert b o >>=? λ b'. match_trades b' >>=? λ m. conclude o m.0 m.1

  -- Tiered mode: rest an order at its plain price, with no matching.
  unfoldable pub insert_only :
      OrderBook D → Order D → Outcome TieredBookError (Order D × OrderBook D)
  unfolding push_at
  insert_only b new = do
    ensure (dec.lt dec.zero new.remaining) invalid_execution
    let o = record new { state = if dec.is_zero new.cum_quantity then booked else partial_fill }
    let level = or_new (lookup o.price (ladder b o.side)) (new_level o.price)
    ensure (not (contains_key (lookup (identity o) level.index))) duplicate_order
    levels ← unwrap (push_at o.side o.price o (ladder b o.side))
    ok (o, with_ladder b o.side levels)

  -- Tiered mode: one fixed fill of an order that rests at `key_price`.
  unfoldable pub execute :
      OrderBook D → Identity → Side → D → D → D → Outcome TieredBookError (Order D × OrderBook D)
  execute b i side key_price quantity fill_price = do
    ensure (dec.lt dec.zero quantity && dec.lt dec.zero fill_price) invalid_execution
    level ← ok_or order_not_found (lookup key_price (ladder b side))
    order ← ok_or order_not_found (locate level i)
    ensure (is_active order.state) invalid_execution
    ensure (le quantity order.remaining) invalid_execution
    let filled = apply_fill order quantity fill_price
    level' ← unwrap (update_fill level filled quantity)
    ok (filled, with_ladder b side (settle key_price level' (ladder b side)))

  unfoldable pub build_levels : Ladder D → List (BookLevel D)
  build_levels [] = []
  build_levels ((k, l) ∷ levels) =
      record { price = l.price; quantity = l.total } ∷ build_levels levels

  unfoldable pub build_book : OrderBook D → Book D
  unfolding build_levels
  build_book b = record {
    instrument_id = b.instrument_id;
    sequence = 0;
    bids = build_levels b.bids;
    asks = build_levels b.asks;
  }
