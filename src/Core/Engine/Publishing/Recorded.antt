-- ===== src/Core/Engine/Publishing/Recorded.antt =====
-- src/core/exchange/mod.rs: `record_market_data` with `publish_market_data` after it.
use rust_trader.Base.{ℕ, ◌≡◌, refl, sym, ap, subst, ◌∙◌, false, none, some, List, [], ◌∷◌}
use mathlib.Core.Option.{some-injective}
use rust_trader.Base.Eq.{int_eq}
use rust_trader.Base.Int.{ℤ}
use rust_trader.Base.Lists.{All}
use rust_trader.Base.Index.{Distinct}
use rust_trader.Base.Maps.{lookup, insert, lookup-insert, beq_self}
use rust_trader.Decimal.{DecimalOps}
use rust_trader.Core.Wrapping.{next_u64}
use rust_trader.Core.Books.{OrderBook, RawTrade}
use rust_trader.Core.Market.{InstrumentSnapshot, Statistics, snapshot}
use rust_trader.Core.Engine.{Engine}
use rust_trader.Core.Engine.Booking.{with_book}
use rust_trader.Core.Engine.Publishing.{
  book_for, add_trades, statistics_of, record_market_data, publish_market_data,
}
use rust_trader.Core.Engine.Publishing.Depicted.{Depicts}
use rust_trader.Core.Engine.Publishing.Snapshots.{Ready, Shown, publish_market_data-Published}

alone : (id : ℤ) (n : ℕ) → Distinct ((id, n) ∷ [])
unfolding lookup
alone id n = (refl, tt)

lookup-other : (id j : ℤ) (n : ℕ) → int_eq.beq id j ≡ false → lookup j ((id, n) ∷ []) ≡ none
unfolding lookup
lookup-other id j n h = rw h refl

module _ {D : Type 0} ⦃dec : DecimalOps D⦄ where
  -- The engine `e` has recorded trades of an instrument and published them.
  pub record Refreshed (e e' : Engine D) (id : ℤ) (trades : List (RawTrade D)) : Type 0 where
    pub stats : Statistics D
    pub counted : stats ≡ add_trades (statistics_of e id) trades
    pub view : InstrumentSnapshot D
    pub seen : snapshot e'.market_data id ≡ some view
    pub depicts : Depicts (book_for e id) stats (next_u64 e.sequence) view
    pub others :
        (j : ℤ) → int_eq.beq id j ≡ false → snapshot e'.market_data j ≡ snapshot e.market_data j
    pub books : (j : ℤ) → book_for e' j ≡ book_for e j
    pub sessions : e'.sessions ≡ e.sessions
    pub settled : e'.pending_market_data ≡ []

  recorded-cached :
      (e : Engine D) (id : ℤ) (trades : List (RawTrade D))
      → lookup id (record_market_data id trades e).stats_cache
        ≡ some (add_trades (statistics_of e id) trades)
  unfolding record_market_data
  recorded-cached e id trades =
      lookup-insert id id (add_trades (statistics_of e id) trades) e.stats_cache
      ∙ rw (beq_self id) refl

  recorded-Ready :
      (e : Engine D) (id : ℤ) (trades : List (RawTrade D)) (old : InstrumentSnapshot D)
      → (book_for e id).instrument_id ≡ id
      → snapshot e.market_data id ≡ some old
      → Ready (record_market_data id trades e) id
  unfolding record_market_data
  recorded-Ready e id trades old n s = record {
    stats = add_trades (statistics_of e id) trades;
    cached = recorded-cached e id trades;
    old = old;
    slot = s;
    numbered = n;
  }

  recorded-pending :
      (e : Engine D) (id : ℤ) (trades : List (RawTrade D))
      → e.pending_market_data ≡ []
      → (record_market_data id trades e).pending_market_data ≡ (id, next_u64 e.sequence) ∷ []
  unfolding record_market_data insert
  recorded-pending e id trades p = ap (insert id (next_u64 e.sequence)) p

  -- What recording leaves as it is.
  recorded-rest :
      (e : Engine D) (id : ℤ) (trades : List (RawTrade D))
      → ((j : ℤ) → book_for (record_market_data id trades e) j ≡ book_for e j)
        × ((record_market_data id trades e).sessions ≡ e.sessions)
        × ((record_market_data id trades e).market_data ≡ e.market_data)
  unfolding record_market_data
  recorded-rest e id trades = (λ j. refl, refl, refl)

  pub publish-Refreshed :
      (e : Engine D) (id : ℤ) (trades : List (RawTrade D)) (old : InstrumentSnapshot D)
      → e.pending_market_data ≡ []
      → (book_for e id).instrument_id ≡ id
      → snapshot e.market_data id ≡ some old
      → (e' : Engine D) × (publish_market_data (record_market_data id trades e) ≡ some e')
        × Refreshed e e' id trades
  publish-Refreshed e id trades old p n s =
      let e1 = record_market_data id trades e in
      let rest = recorded-rest e id trades in
      let pending = recorded-pending e id trades p in
      let (e', returns, pubd) =
        publish_market_data-Published e1
          (subst Distinct (sym pending) (alone id (next_u64 e.sequence)))
          (subst (All (λ (entry : ℤ × ℕ). Ready e1 entry.0)) (sym pending)
            (recorded-Ready e id trades old n s, tt)) in
      let shown =
        (subst (All (Shown (record e1 { pending_market_data = [] }) e')) pending pubd.each).0 in
      (
        e',
        returns,
        record {
          stats = shown.stats;
          counted = some-injective _ _ (sym shown.cached ∙ recorded-cached e id trades);
          view = shown.view;
          seen = shown.seen;
          depicts =
              subst (λ (b : OrderBook D). Depicts b shown.stats (next_u64 e.sequence) shown.view)
                (rest.0 id) shown.depicts;
          others = λ j d.
              pubd.others j (
                subst (λ t. lookup j t ≡ none) (sym pending)
                  (lookup-other id j (next_u64 e.sequence) d))
              ∙ ap (λ q. snapshot q j) rest.2;
          books = λ j. pubd.books j ∙ rest.0 j;
          sessions = pubd.sessions ∙ rest.1;
          settled = pubd.emptied;
        },
      )

  pub book_for-with_book :
      (e : Engine D) (id : ℤ) (b : OrderBook D) → book_for (with_book e id b) id ≡ b
  book_for-with_book e id b = rw (lookup-insert id id b e.books) (rw (beq_self id) refl)
