-- ===== src/Core/Engine/Publishing.antt =====
-- src/core/exchange/mod.rs: the statistics of trades, and the publication of snapshots.
pub mod Depicted
pub mod Extremes
pub mod Snapshots
pub mod Recorded
use rust_trader.Base.{
  ℕ, ◌+◌, Bool, true, false, not, Option, none, some, List, [], ◌∷◌, if◌then◌else◌,
}
use rust_trader.Base.Eq.{Text, int_eq}
use rust_trader.Base.Int.{ℤ}
use rust_trader.Base.Maps.{lookup, insert, update}
use rust_trader.Decimal.{DecimalOps}
use rust_trader.Core.Wrapping.{next_u64}
use rust_trader.Core.Books.{Book, BookLevel, OrderBook, RawTrade, new_book, or_new}
use rust_trader.Core.Books.Entry
use rust_trader.Core.Market.{Statistics, no_statistics, publish}
use rust_trader.Core.Engine.{Engine}
use rust_trader.Core.Engine.Reports.{symbol_for}

module _ {D : Type 0} ⦃dec : DecimalOps D⦄ where
  -- The effect of one trade on the statistics.
  unfoldable pub add_trade : Statistics D → RawTrade D → Statistics D
  add_trade s t =
      let counted = record s { volume = dec.add s.volume t.quantity } in
      if not s.has_high_low
      then record counted { high = t.price; low = t.price; has_high_low = true }
      else record counted {
        high = if dec.lt s.high t.price then t.price else s.high;
        low = if dec.lt t.price s.low then t.price else s.low;
      }

  unfoldable pub add_trades : Statistics D → List (RawTrade D) → Statistics D
  unfolding add_trade
  add_trades s [] = s
  add_trades s (t ∷ trades) = add_trades (add_trade s t) trades

  abbrev pub statistics_of : Engine D → ℤ → Statistics D
  statistics_of e id = or_new (lookup id e.stats_cache) (no_statistics (symbol_for e id))

  unfoldable pub record_market_data : ℤ → List (RawTrade D) → Engine D → Engine D
  unfolding add_trades
  record_market_data id trades e = record e {
    sequence = next_u64 e.sequence;
    pending_market_data = insert id (next_u64 e.sequence) e.pending_market_data;
    stats_cache = insert id (add_trades (statistics_of e id) trades) e.stats_cache;
  }

  -- `entry(id).or_insert_with(new)`
  abbrev pub book_for : Engine D → ℤ → OrderBook D
  book_for e id = or_new (lookup id e.books) (new_book id)

  -- The snapshot of a book, and the engine, in which the book now exists.
  unfoldable pub build_book : Engine D → ℤ → Book D × Engine D
  build_book e id =
      let b = book_for e id in (Entry.build_book b, record e { books = insert id b e.books })

  abbrev pub first_level : List (BookLevel D) → D × D
  first_level [] = (dec.zero, dec.zero)
  first_level (l ∷ levels) = (l.price, l.quantity)

  unfoldable pub with_best : Statistics D → Book D → Statistics D
  with_best s b =
      let bid = first_level b.bids in
      let ask = first_level b.asks in
      record s { bid_price = bid.0; bid_qty = bid.1; ask_price = ask.0; ask_qty = ask.1 }

  -- One round of the loop.
  unfoldable pub publish_one : ℤ → ℕ → Engine D → Option (Engine D)
  unfolding build_book with_best
  publish_one id sequence e =
      let (built, made) = build_book e id in
      let book = record built { sequence = sequence } in
      elim (lookup id made.stats_cache) [
        | none ↦ none
        | some s ↦ elim (publish made.market_data book (with_best s book)) [
          | none ↦ none
          | some p ↦ some (record made {
            stats_cache = update id (with_best s book) made.stats_cache;
            market_data = p;
          })
        ]
      ]

  unfoldable pub publish_all : List (ℤ × ℕ) → Engine D → Option (Engine D)
  unfolding publish_one
  publish_all [] e = some e
  publish_all ((id, sequence) ∷ pending) e = elim (publish_one id sequence e) [
    | none ↦ none
    | some e' ↦ publish_all pending e'
  ]

  -- `None` is a panic.
  unfoldable pub publish_market_data : Engine D → Option (Engine D)
  unfolding publish_all
  publish_market_data e = publish_all e.pending_market_data (record e { pending_market_data = [] })
