-- ===== src/Core/Books/Entry/Concluding.antt =====
-- `OrderBook::add` as a whole.
use rust_trader.Base.{
  ◌≡◌, refl, ap, sym, subst, inl, inr, true, none, some, List, ◌++◌, Option-cases,
}
use rust_trader.Base.Lists.{All, All-drop, All-map}
use rust_trader.Decimal.{DecimalOps, IsOrdered}
use rust_trader.Core.Orders.{Order, Side, buy, sell, booked, effective_price}
use rust_trader.Core.Levels.{Identity, identity}
use rust_trader.Core.Books.{OrderBook, RawTrade}
use rust_trader.Core.Books.Ladders.{queue}
use rust_trader.Core.Books.Priority.{Matches}
use rust_trader.Core.Books.Matching.{BookInv, match_trades-Matches}
use rust_trader.Core.Books.Uncrossed.{Uncrossed, match_trades-Uncrossed}
use rust_trader.Core.Books.Entry.{Added, add, locate_in, conclude, last_fill}
use rust_trader.Core.Books.Entry.Removal.{Taken}
use rust_trader.Core.Books.Entry.Adding.{
  Outlives, rest_or_cancel_lem, inserted, Fits, insert-inserted, inserted-BookInv,
}

module _ {D : Type 0} ⦃dec : DecimalOps D⦄ where
  -- The order is used up, or it stays in the book, or what was left of it was cancelled.
  pub data Ending (m : OrderBook D) (o : Order D) (a : Added D) : Type 0 where
    used_up :
        locate_in m (identity o) o.side (effective_price o) ≡ none
        → a.book ≡ m
        → a.final_state ≡ last_fill o none a.trades
        → Ending m o a
    outlived :
        (resting final : Order D)
        → locate_in m (identity o) o.side (effective_price o) ≡ some resting
        → a.final_state ≡ some final
        → Outlives m o resting (final, a.book)
        → Ending m o a

  conclude_lem :
      IsOrdered D
      → (o : Order D) (made : List (RawTrade D)) (m : OrderBook D) → BookInv m
      → (a : Added D) × (conclude o made m ≡ some a) × (a.trades ≡ made) × Ending m o a
  unfolding conclude
  conclude_lem ord o made m v =
      elim (Option-cases (locate_in m (identity o) o.side (effective_price o))) [
        | inl e ↦ (
          record { trades = made; final_state = last_fill o none made; book = m },
          rw (e, conclude),
          refl,
          used_up e refl refl,
        )
        | inr (resting, e) ↦
            let ((final, b), returns, out) = rest_or_cancel_lem ord m o resting v e in
            (
              record { trades = made; final_state = some final; book = b },
              rw (e, conclude) (rw returns),
              refl,
              outlived resting final e refl out,
            )
      ]

  -- The incoming order as `add` books it.
  abbrev pub booking : Order D → Order D
  booking new = record new { state = booked }

  abbrev Below : Order D → List (Order D) → Type 0
  Below bid = All (λ ask. dec.lt (effective_price bid) (effective_price ask) ≡ true)

  Uncrossed-Taken :
      (side : Side) (m b : OrderBook D) (i : Identity) (o : Order D)
      → Taken m b i side o
      → Uncrossed m
      → Uncrossed b
  Uncrossed-Taken buy m b i o t u =
      let kept =
        All-drop (λ bid. Below bid (queue m.asks)) t.front o t.back
          (subst (All (λ bid. Below bid (queue m.asks))) t.before u) in
      rw (t.after, t.other_side) kept
  Uncrossed-Taken sell m b i o t u =
      rw (t.after, t.other_side)
        (All-map (λ bid. Below bid (queue m.asks)) (λ bid. Below bid (t.front ++ t.back))
          (queue m.bids)
          (λ bid h.
            All-drop (λ ask. dec.lt (effective_price bid) (effective_price ask) ≡ true) t.front o
              t.back (subst (Below bid) t.before h))
          u)

  Ending-keeps :
      (m : OrderBook D) (o : Order D) (a : Added D)
      → Ending m o a
      → BookInv m
      → Uncrossed m
      → BookInv a.book × Uncrossed a.book
  Ending-keeps m o a (used_up e b f) v u = (subst BookInv (sym b) v, subst Uncrossed (sym b) u)
  Ending-keeps m o a (outlived resting final e f (inl (n, s))) v u =
      let same : a.book ≡ m = ap (λ (p : Order D × OrderBook D). p.1) s in
      (subst BookInv (sym same) v, subst Uncrossed (sym same) u)
  Ending-keeps m o a (outlived resting final e f (inr (c, t, n))) v u =
      (t.inv, Uncrossed-Taken o.side m a.book (identity o) resting t u)

  -- In a book that satisfies the invariant, `add` does not panic on an order that fits where no decimal
  -- overflows. Its trades are those of matching the queues with the order in its place; then the order is used up, or
  -- stays, or what a market order has left is taken out and cancelled.
  pub add_lem :
      IsOrdered D
      → (b : OrderBook D) (new : Order D) → BookInv b
      → Fits b (booking new)
      → (a : Added D) × (m : OrderBook D) × (add b new ≡ some a)
        × Matches
            (queue (inserted b (booking new)).bids)
            (queue (inserted b (booking new)).asks)
            a.trades
            (queue m.bids)
            (queue m.asks)
        × Ending m (booking new) a
        × BookInv a.book
        × Uncrossed a.book
  unfolding add
  add_lem ord b new v f =
      let o = booking new in
      let (made, m, returns, matches, inv) =
        match_trades-Matches ord (inserted b o) (inserted-BookInv ord b o v f) in
      let (a, concluded, same, ending) = conclude_lem ord o made m inv in
      let kept =
        Ending-keeps m o a ending inv
          (match_trades-Uncrossed ord (inserted b o) (inserted-BookInv ord b o v f) returns) in
      (
        a,
        m,
        rw (insert-inserted b o v f) (rw returns (rw concluded)),
        rw same matches,
        ending,
        kept.0,
        kept.1,
      )
