-- ===== src/Core/Engine/Booking.antt =====
-- src/core/exchange/mod.rs: the engine's calls of its order books.
use rust_trader.Base.{Option, none, some, List, [], ◌∷◌}
use rust_trader.Base.Eq.{Text, int_eq}
use rust_trader.Base.Int.{ℤ}
use rust_trader.Base.Maps.{lookup, insert}
use rust_trader.Base.Outcome.{Outcome, ok, err, panics}
use rust_trader.Decimal.{DecimalOps}
use rust_trader.Core.Orders.{Order, OrderId, Side}
use rust_trader.Core.Books.{OrderBook, RawTrade, TieredBookError}
use rust_trader.Core.Books.Entry.{add, remove, insert_only, execute}
use rust_trader.Core.Tiers.{order_not_found, book_invariant_violation}
use rust_trader.Core.Engine.{Engine, Run, Ended, done, failed, panicked, ◌>>=◌, ◌>>◌, pure, change}
use rust_trader.Core.Engine.Reports.{sync_record, send_fill}
use rust_trader.Core.Engine.Publishing.{book_for}

module _ {D : Type 0} where
  abbrev pub with_book : Engine D → ℤ → OrderBook D → Engine D
  with_book e id b = record e { books = insert id b e.books }

module _ {D : Type 0} ⦃dec : DecimalOps D⦄ where
  unfoldable pub add_to_book : Order D → Run D (List (RawTrade D) × Option (Order D))
  add_to_book o e = elim (add (book_for e o.instrument_id) o) [
    | none ↦ panicked
    | some a ↦ done (a.trades, a.final_state) (with_book e o.instrument_id a.book)
  ]

  unfoldable pub removed_from :
      Engine D → ℤ → Outcome (Unit {0}) (Order D × OrderBook D) → Ended D (Order D)
  removed_from e id (ok (o, b)) = done o (with_book e id b)
  removed_from e id (err x) = failed order_not_found e
  removed_from e id panics = panicked

  unfoldable pub remove_from_book : Text → OrderId → Side → D → ℤ → Run D (Order D)
  unfolding removed_from
  remove_from_book session_id id side price instrument_id e = elim (lookup instrument_id e.books) [
    | none ↦ failed order_not_found e
    | some b ↦ removed_from e instrument_id (remove b (session_id, id) side price)
  ]

  -- The books' errors of the tiered paths are violations of the engine's invariants.
  tiered_result : Engine D → ℤ → Outcome TieredBookError (Order D × OrderBook D) → Ended D (Order D)
  tiered_result e id (ok (o, b)) = done o (with_book e id b)
  tiered_result e id (err x) = failed book_invariant_violation e
  tiered_result e id panics = panicked

  -- Where `insert_only` fails, the book that `or_insert_with` made is there all the same.
  unfoldable pub tiered_insert : ℤ → Order D → Run D (Order D)
  unfolding tiered_result sync_record
  tiered_insert instrument_id o = do
    change (λ e. with_book e instrument_id (book_for e instrument_id))
    snapshot ← λ e. tiered_result e instrument_id (insert_only (book_for e instrument_id) o)
    change (λ e. sync_record e snapshot)
    pure snapshot

  execute_in : Text → ℤ → Order D → D → Run D (Order D)
  unfolding tiered_result
  execute_in session_id instrument_id o quantity e = elim (lookup instrument_id e.books) [
    | none ↦ failed book_invariant_violation e
    | some b ↦
        tiered_result e instrument_id (execute b (session_id, o.id) o.side o.price quantity o.price)
  ]

  unfoldable pub tiered_fill_existing : Text → ℤ → Order D → List D → Run D (Unit {0})
  unfolding execute_in
  tiered_fill_existing session_id instrument_id o [] = pure tt
  tiered_fill_existing session_id instrument_id o (quantity ∷ plan) = do
    filled ← execute_in session_id instrument_id o quantity
    change (λ e. send_fill e filled o.price quantity)
    tiered_fill_existing session_id instrument_id o plan
