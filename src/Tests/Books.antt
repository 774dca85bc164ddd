-- ===== src/Tests/Books.antt =====
-- The order book.
use rust_trader.Base.{◌≡◌, refl, List, [], ◌∷◌, some, none, arith, false, map}
use rust_trader.Base.Int.{ℤ, pos, ◌+ℤ◌, ◌-ℤ◌, ◌*ℤ◌}
use rust_trader.Base.Eq.{codes}
use rust_trader.Base.Lists.{All}
use rust_trader.Base.Maps.{lookup, update, erase}
use rust_trader.Base.Outcome.{ok, err}
use rust_trader.Decimal.{IsExact}
use rust_trader.Decimal.Whole.{whole, whole-IsOrdered, whole-IsExact}
use rust_trader.Core.Orders.{
  Order, buy, sell, limit_order, market_order, effective_price, min_decimal, apply_fill, is_active,
}
use rust_trader.Core.Levels.{PriceLevel, top, update_fill, identity, locate, new_level}
use rust_trader.Core.Books.{
  OrderBook, RawTrade, ladder, match_trades, match_loop, next_trade, execute_trade, trade_of,
  insert, with_ladder, settle,
}
use rust_trader.Core.Books.Ladders.{queue}
use rust_trader.Core.Books.Priority.{Matches}
use rust_trader.Core.Books.Matching.{
  BookInv, BookExact, match_trades-Matches, match_trades-BookExact,
}
use rust_trader.Core.Books.Uncrossed.{Uncrossed, match_trades-Uncrossed}
use rust_trader.Core.Books.Trades.{
  remaining_of, traded, Positive, AtEarlier, WithinLimits, Open, match_trades-traded,
  match_trades-Positive,
}
use rust_trader.Core.Books.Placing.{enqueue, level_for, placed_at}
use rust_trader.Core.Books.Entry.{
  execute, insert_only, Added, add, remove, locate_in, cancel_active,
}
use rust_trader.Core.Books.Entry.Removal.{Taken, opposite, remove_lem, remove_absent}
use rust_trader.Core.Books.Entry.Adding.{Fits, inserted, insert-enqueue}
use rust_trader.Core.Books.Entry.Tiered.{Fillable, Filled, execute_lem, rested, insert_only_lem}
use rust_trader.Core.Levels.Invariant.{LevelInv, pushed}
use rust_trader.Core.Levels.Totals.{TotalExact}
use rust_trader.Core.Books.Entry.Concluding.{Ending, booking, add_lem}
use rust_trader.Tests.Samples.{bid, ask, crossed, crossed-BookInv, level_of, level_of-LevelInv}

abbrev quantities : List (RawTrade ℤ) → List (ℤ × ℤ)
quantities = map (λ t. (t.price, t.quantity))

abbrev crossed_result : List (RawTrade ℤ) × OrderBook ℤ
crossed_result = elim (match_trades crossed) [ none ↦ ([], crossed) | some r ↦ r ]

crossed_run : match_trades crossed ≡ some crossed_result
unfolding limit_order match_trades match_loop next_trade execute_trade trade_of top min_decimal
    apply_fill effective_price ◌+ℤ◌ ◌-ℤ◌ ◌*ℤ◌ lookup update erase update_fill
crossed_run = refl

-- They trade 4 at the price of the order that came first.
crossed_trades : quantities crossed_result.0 ≡ (pos 100, pos 4) ∷ []
unfolding limit_order match_trades match_loop next_trade execute_trade trade_of top min_decimal
    apply_fill effective_price ◌+ℤ◌ ◌-ℤ◌ ◌*ℤ◌ lookup update erase update_fill
crossed_trades = refl

match_trades-Matches_example :
    (made : List (RawTrade ℤ)) × (b : OrderBook ℤ) × (match_trades crossed ≡ some (made, b))
    × Matches (queue crossed.bids) (queue crossed.asks) made (queue b.bids) (queue b.asks)
    × BookInv b
match_trades-Matches_example = match_trades-Matches whole-IsOrdered crossed crossed-BookInv

match_trades-Uncrossed_example : Uncrossed crossed_result.1
match_trades-Uncrossed_example =
    match_trades-Uncrossed whole-IsOrdered crossed crossed-BookInv crossed_run

crossed-BookExact : BookExact crossed
unfolding ◌+ℤ◌ limit_order
crossed-BookExact = ((refl, tt), (refl, tt))

match_trades-BookExact_example : BookExact crossed_result.1
match_trades-BookExact_example =
    match_trades-BookExact whole-IsOrdered whole-IsExact crossed crossed-BookInv crossed-BookExact
      crossed_run

match_trades-traded_example :
    (remaining_of (queue crossed.bids)
      ≡ remaining_of (queue (crossed_result.1).bids) +ℤ traded crossed_result.0)
    × (remaining_of (queue crossed.asks)
        ≡ remaining_of (queue (crossed_result.1).asks) +ℤ traded crossed_result.0)
match_trades-traded_example =
    match_trades-traded whole-IsOrdered whole-IsExact crossed crossed-BookInv crossed_run

bids-Open : All Open (queue crossed.bids)
unfolding limit_order
bids-Open = (refl, tt)

asks-Open : All Open (queue crossed.asks)
unfolding limit_order
asks-Open = (refl, tt)

match_trades-Positive_example :
    All Positive crossed_result.0
    × All AtEarlier crossed_result.0
    × All WithinLimits crossed_result.0
    × All Open (queue (crossed_result.1).bids)
    × All Open (queue (crossed_result.1).asks)
match_trades-Positive_example =
    match_trades-Positive whole-IsOrdered whole-IsExact crossed crossed-BookInv bids-Open asks-Open
      crossed_run

-- A market order to sell 25 into a bid for 10.
abbrev market_sell : Order ℤ
unfolding market_order
market_sell = market_order (codes "c") (pos 3) (pos 7) sell (pos 25) 3

market_sell-Fits : Fits crossed (booking market_sell)
unfolding market_order effective_price lookup new_level limit_order
market_sell-Fits = record { absent = refl; room = omega arith }

add_example :
    (a : Added ℤ) × (m : OrderBook ℤ) × (add crossed market_sell ≡ some a)
    × Matches
        (queue (inserted crossed (booking market_sell)).bids)
        (queue (inserted crossed (booking market_sell)).asks)
        a.trades
        (queue m.bids)
        (queue m.asks)
    × Ending m (booking market_sell) a
    × BookInv a.book
    × Uncrossed a.book
add_example = add_lem whole-IsOrdered crossed market_sell crossed-BookInv market_sell-Fits

insert-enqueue_example :
    (b : OrderBook ℤ) × (insert crossed (booking market_sell) ≡ some b)
    × (queue (ladder b (booking market_sell).side)
        ≡ enqueue
            (booking market_sell).side
            (effective_price (booking market_sell))
            (booking market_sell)
            (queue (ladder crossed (booking market_sell).side)))
    × (ladder b (opposite (booking market_sell).side)
        ≡ ladder crossed (opposite (booking market_sell).side))
    × BookInv b
insert-enqueue_example =
    insert-enqueue whole-IsOrdered crossed (booking market_sell) crossed-BookInv market_sell-Fits

bid_rests : locate_in crossed (identity bid) buy (pos 100) ≡ some bid
unfolding locate_in lookup locate limit_order
bid_rests = refl

remove_example :
    (b : OrderBook ℤ) × (remove crossed (identity bid) buy (pos 100) ≡ ok (cancel_active bid, b))
    × Taken crossed b (identity bid) buy bid
    × (locate_in b (identity bid) buy (pos 100) ≡ none)
    × (is_active (cancel_active bid).state ≡ false)
remove_example =
    remove_lem whole-IsOrdered crossed (identity bid) buy (pos 100) bid crossed-BookInv bid_rests

ask_elsewhere : locate_in crossed (identity ask) buy (pos 100) ≡ none
unfolding locate_in lookup locate limit_order
ask_elsewhere = refl

remove_absent_example : remove crossed (identity ask) buy (pos 100) ≡ err tt
remove_absent_example =
    remove_absent crossed (identity ask) buy (pos 100) crossed-BookInv ask_elsewhere

-- A fill of 3 at the order's own price.
bid-Fillable : Fillable crossed (identity bid) buy (pos 100) (pos 3) (pos 100) (level_of bid) bid
unfolding lookup locate limit_order
bid-Fillable = record {
  at_price = refl;
  inv = level_of-LevelInv bid;
  rests = refl;
  active = refl;
  sized = refl;
  priced = refl;
  covered = refl;
}

execute_example :
    (l : PriceLevel ℤ) × (execute crossed (identity bid) buy (pos 100) (pos 3) (pos 100)
      ≡ ok (
        apply_fill bid (pos 3) (pos 100),
        with_ladder crossed buy (settle (pos 100) l (ladder crossed buy)),
      ))
    × Filled (level_of bid) l
execute_example =
    execute_lem crossed (identity bid) buy (pos 100) (pos 3) (pos 100) (level_of bid) bid
      bid-Fillable

-- An order that rests without trading, at a price where there is a level.
abbrev resting_bid : Order ℤ
unfolding limit_order
resting_bid = limit_order (codes "c") (pos 4) (pos 7) buy (pos 100) (pos 5) 4

joined : level_for (pos 100) (ladder crossed buy) ≡ level_of bid
unfolding lookup limit_order
joined = refl

insert_only_example :
    (insert_only crossed resting_bid
      ≡ ok (
        rested resting_bid,
        with_ladder crossed buy (placed_at buy (pos 100) (rested resting_bid) (ladder crossed buy)),
      ))
    × LevelInv (pushed (level_for (pos 100) (ladder crossed buy)) (rested resting_bid))
    × (IsExact ℤ
        → TotalExact (level_for (pos 100) (ladder crossed buy))
        → TotalExact (pushed (level_for (pos 100) (ladder crossed buy)) (rested resting_bid)))
unfolding lookup limit_order
insert_only_example =
    insert_only_lem crossed resting_bid refl (level_of-LevelInv bid) refl (omega arith)
