-- ===== src/Core/Books.antt =====
-- src/core/orderbook.rs, `OrderBook`: the price levels of the two sides, matching, and the entry
-- points of the engine. Each side is its `BTreeMap` listed from the best price to the worst, so the
-- `last_key_value` of the bids and the `first_key_value` of the asks are heads. The time stamp of a
-- trade, which no code reads, and the texts of errors are left out.
pub mod Entry
pub mod Ladders
pub mod Priority
pub mod Matching
pub mod Uncrossed
pub mod Trades
pub mod Placing
pub mod Enqueue
pub mod Spots
use rust_trader.Base.{
  ℕ, suc, zero, ◌+◌, Bool, Option, none, some, List, [], ◌∷◌, ltb, if◌then◌else◌,
}
use rust_trader.Base.Eq.{nat_eq, int_eq, text_eq, pair_eq}
use rust_trader.Base.Int.{ℤ, pos}
use rust_trader.Base.Lists.{length, is_empty}
use rust_trader.Base.Maps.{lookup, update, erase, insert_by}
use rust_trader.Decimal.{DecimalOps, decimal_eq}
use rust_trader.Core.Orders.{Order, Side, buy, sell, effective_price, min_decimal, apply_fill}
use rust_trader.Core.Levels.{PriceLevel, top, new_level, push_back, update_fill}

abbrev pub Ladder : Type 0 → Type 0
Ladder D = List (D × PriceLevel D)

pub record OrderBook (D : Type 0) : Type 0 where
  pub instrument_id : ℤ
  pub bids : Ladder D
  pub asks : Ladder D

pub record RawTrade (D : Type 0) : Type 0 where
  pub buyer : Order D
  pub seller : Order D
  pub price : D
  pub quantity : D
  pub trade_id : ℤ

pub record BookLevel (D : Type 0) : Type 0 where
  pub price : D
  pub quantity : D

-- The snapshot that readers get.
pub record Book (D : Type 0) : Type 0 where
  pub instrument_id : ℤ
  pub sequence : ℕ
  pub bids : List (BookLevel D)
  pub asks : List (BookLevel D)

pub data TieredBookError : Type 0 where
  order_not_found duplicate_order invalid_execution : TieredBookError

unfoldable pub new_book : {D : Type 0} → ℤ → OrderBook D
new_book id = record { instrument_id = id; bids = []; asks = [] }

abbrev pub ladder : {D : Type 0} → OrderBook D → Side → Ladder D
ladder b buy = b.bids
ladder b sell = b.asks

abbrev pub with_ladder : {D : Type 0} → OrderBook D → Side → Ladder D → OrderBook D
with_ladder b buy levels = record b { bids = levels }
with_ladder b sell levels = record b { asks = levels }

abbrev pub or_new : {A : Type 0} → Option A → A → A
or_new none a = a
or_new (some x) a = x

abbrev pub best : {D : Type 0} → Ladder D → Option (PriceLevel D)
best [] = none
best ((k, l) ∷ levels) = some l

abbrev pub orders_in : {D : Type 0} → Ladder D → ℕ
orders_in [] = 0
orders_in ((k, l) ∷ levels) = length l.orders + orders_in levels

infixl 5 ◌>>=?◌
-- The steps of a computation that may panic.
abbrev pub ◌>>=?◌ : {A B : Type 0} → Option A → (A → Option B) → Option B
none >>=? f = none
some a >>=? f = f a

module _ {D : Type 0} ⦃dec : DecimalOps D⦄ where
  -- The order in which the levels of a side are listed.
  abbrev pub better : Side → D → D → Bool
  better buy a b = dec.lt b a
  better sell a b = dec.lt a b

  -- `entry(price).or_insert_with(new).push_back(order)`
  unfoldable pub push_at : Side → D → Order D → Ladder D → Option (Ladder D)
  push_at side price o levels =
      push_back (or_new (lookup price levels) (new_level price)) o >>=? λ l.
      some (insert_by (better side) price l levels)

  unfoldable pub insert : OrderBook D → Order D → Option (OrderBook D)
  unfolding push_at
  insert b o = push_at o.side (effective_price o) o (ladder b o.side) >>=? λ levels.
      some (with_ladder b o.side levels)

  -- The body of the loop over the two sides: `update_fill`, and a level left empty is dropped.
  unfoldable pub settle : D → PriceLevel D → Ladder D → Ladder D
  settle key l levels = if is_empty l.orders then erase key levels else update key l levels

  unfoldable pub fill_in : Ladder D → Order D → D → Option (Ladder D)
  unfolding settle
  fill_in levels o quantity = lookup (effective_price o) levels >>=? λ l.
      update_fill l o quantity >>=? λ l'. some (settle (effective_price o) l' levels)

  unfoldable pub trade_of : Order D → Order D → RawTrade D
  trade_of bid ask =
      let price = if ltb bid.arrival ask.arrival then bid.price else ask.price in
      let quantity = min_decimal bid.remaining ask.remaining in
      record {
        buyer = apply_fill bid quantity price;
        seller = apply_fill ask quantity price;
        price = price;
        quantity = quantity;
        trade_id = pos 0;
      }

  unfoldable pub execute_trade : OrderBook D → RawTrade D → Option (OrderBook D)
  unfolding fill_in
  execute_trade b t = fill_in b.bids t.buyer t.quantity >>=? λ bids.
      fill_in b.asks t.seller t.quantity >>=? λ asks. some (record b { bids = bids; asks = asks })

  -- The two best orders, if both sides have a level; `top` panics on an empty one.
  unfoldable pub tops : OrderBook D → Option (Option (Order D × Order D))
  tops b = elim (best b.bids) [
    | none ↦ some none
    | some l ↦ elim (best b.asks) [
      | none ↦ some none
      | some m ↦ top l.orders >>=? λ bid. top m.orders >>=? λ ask. some (some (bid, ask))
    ]
  ]

  crossing : Option (Order D × Order D) → Option (RawTrade D)
  crossing none = none
  crossing (some (bid, ask)) =
      if dec.lt (effective_price bid) (effective_price ask) then none else some (trade_of bid ask)

  -- The trade that one round of the loop makes; `some none` is its `break`.
  unfoldable pub next_trade : OrderBook D → Option (Option (RawTrade D))
  unfolding tops crossing
  next_trade b = tops b >>=? λ t. some (crossing t)

  -- The loop with fuel. `none` is a panic, or that the fuel has run out.
  unfoldable pub match_loop : ℕ → OrderBook D → Option (List (RawTrade D) × OrderBook D)
  match_loop zero b = none
  match_loop (suc fuel) b = elim (next_trade b) [
    | none ↦ none
    | some none ↦ some ([], b)
    | some (some t) ↦ execute_trade b t >>=? λ b'. match_loop fuel b' >>=? λ r. some (t ∷ r.0, r.1)
  ]

  -- Each round consumes an order, so the number of orders bounds the rounds.
  unfoldable pub match_trades : OrderBook D → Option (List (RawTrade D) × OrderBook D)
  match_trades b = match_loop (suc (orders_in b.bids + orders_in b.asks)) b
