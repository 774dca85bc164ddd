-- ===== src/Core/Engine/Publishing/Depicted.antt =====
-- src/core/exchange/mod.rs, `publish_market_data`: what a snapshot says of a book.
use rust_trader.Base.{ℕ, ◌≡◌, refl, List, [], ◌∷◌}
use rust_trader.Decimal.{DecimalOps}
use rust_trader.Core.Books.{Ladder, OrderBook, BookLevel}
use rust_trader.Core.Books.Entry.{build_book, build_levels}
use rust_trader.Core.Market.{Statistics, InstrumentSnapshot}
use rust_trader.Core.Engine.Publishing.{with_best, first_level}

module _ {D : Type 0} ⦃dec : DecimalOps D⦄ where
  -- One row for each level, the best first, with the level's price and its total.
  abbrev pub Depth : Ladder D → List (BookLevel D) → Type 0
  Depth [] [] = Unit {0}
  Depth ((k, l) ∷ levels) (row ∷ rows) =
      (row.price ≡ l.price) × (row.quantity ≡ l.total) × Depth levels rows
  Depth _ _ = ⊥

  -- The price and the quantity of the best level, or zeros on an empty side.
  abbrev pub Best : Ladder D → D → D → Type 0
  Best [] price quantity = (price ≡ dec.zero) × (quantity ≡ dec.zero)
  Best ((k, l) ∷ levels) price quantity = (price ≡ l.price) × (quantity ≡ l.total)

  -- A snapshot of the book at a version, with its best prices in the statistics, of which the rest is
  -- that of the trades.
  pub record Depicts (b : OrderBook D) (counted : Statistics D) (n : ℕ) (s : InstrumentSnapshot D)
      : Type 0 where
    pub instrument : s.book.instrument_id ≡ b.instrument_id
    pub bids : Depth b.bids s.book.bids
    pub asks : Depth b.asks s.book.asks
    pub best_bid : Best b.bids s.stats.bid_price s.stats.bid_qty
    pub best_ask : Best b.asks s.stats.ask_price s.stats.ask_qty
    pub symbol : s.stats.symbol ≡ counted.symbol
    pub volume : s.stats.volume ≡ counted.volume
    pub high : s.stats.high ≡ counted.high
    pub low : s.stats.low ≡ counted.low
    pub traded : s.stats.has_high_low ≡ counted.has_high_low
    pub sequence : s.book.sequence ≡ n
    pub version : s.version ≡ n

  build_levels-Depth : (levels : Ladder D) → Depth levels (build_levels levels)
  unfolding build_levels
  build_levels-Depth [] = tt
  build_levels-Depth ((k, l) ∷ levels) = (refl, refl, build_levels-Depth levels)

  first_level-Best :
      (levels : Ladder D)
      → Best levels (first_level (build_levels levels)).0 (first_level (build_levels levels)).1
  unfolding build_levels
  first_level-Best [] = (refl, refl)
  first_level-Best ((k, l) ∷ levels) = (refl, refl)

  -- What the publisher makes of a book.
  abbrev pub snapshot_at : OrderBook D → Statistics D → ℕ → InstrumentSnapshot D
  snapshot_at b stats n = record {
    book = record (build_book b) { sequence = n };
    stats = with_best stats (record (build_book b) { sequence = n });
    version = n;
  }

  pub snapshot_at-Depicts :
      (b : OrderBook D) (stats : Statistics D) (n : ℕ) → Depicts b stats n (snapshot_at b stats n)
  unfolding build_book with_best build_levels
  snapshot_at-Depicts b stats n = record {
    instrument = refl;
    bids = build_levels-Depth b.bids;
    asks = build_levels-Depth b.asks;
    best_bid = first_level-Best b.bids;
    best_ask = first_level-Best b.asks;
    symbol = refl;
    volume = refl;
    high = refl;
    low = refl;
    traded = refl;
    sequence = refl;
    version = refl;
  }
