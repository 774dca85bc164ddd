-- ===== src/Core/Books/Uncrossed.antt =====
-- Price priority, and what it gives when the best prices do not cross.
use rust_trader.Base.{ℕ, ◌≡◌, ap, sym, subst, true, false, List, [], ◌∷◌, ◌++◌, some, ◌∙◌}
use mathlib.Core.Option.{some-injective}
use rust_trader.Base.Lists.{All, All-append}
use rust_trader.Base.Maps.{values}
use rust_trader.Decimal.{DecimalOps, IsOrdered}
use rust_trader.Decimal.Order.{lt_of_le_of_lt, lt_of_lt_of_le, lt_asymm}
use rust_trader.Core.Orders.{Order, Side, buy, sell, effective_price}
use rust_trader.Core.Books.{Ladder, OrderBook, RawTrade, better, match_trades}
use rust_trader.Core.Books.Ladders.{queue, LadderInv, Placed, Worse}
use rust_trader.Core.Books.Priority.{Apart, no_bid, no_ask, prices, Matches, settled, trades}
use rust_trader.Core.Books.Matching.{BookInv, match_trades-Matches}

module _ {D : Type 0} ⦃dec : DecimalOps D⦄ where
  -- No later order of the queue has a better price.
  abbrev pub ByPrice : Side → List (Order D) → Type 0
  ByPrice side [] = Unit
  ByPrice side (o ∷ os) =
      All (λ p. better side (effective_price p) (effective_price o) ≡ false) os × ByPrice side os

  -- Every bid is below every ask.
  abbrev pub Uncrossed : OrderBook D → Type 0
  Uncrossed b =
      All
        (λ bid.
          All (λ ask. dec.lt (effective_price bid) (effective_price ask) ≡ true) (queue b.asks))
        (queue b.bids)

module _ {D : Type 0} ⦃dec : DecimalOps D⦄ (o : IsOrdered D) where
  pub better_irrefl : (side : Side) (a : D) → better side a a ≡ false
  better_irrefl buy a = o.lt_irrefl a
  better_irrefl sell a = o.lt_irrefl a

  pub better_asymm : (side : Side) (a b : D) → better side a b ≡ true → better side b a ≡ false
  better_asymm buy a b h = lt_asymm o b a h
  better_asymm sell a b h = lt_asymm o a b h

  -- The orders of one level are no better than a price, if the level is not.
  pub level_not_better :
      (side : Side) (p q : D) (t : List (ℕ × Order D))
      → All (Placed side q) t
      → better side q p ≡ false
      → All (λ x. better side (effective_price x) p ≡ false) (values t)
  level_not_better side p q [] a h = tt
  level_not_better side p q ((k, x) ∷ t) a h = (rw a.0.0 h, level_not_better side p q t a.1 h)

  ladder_not_better :
      (side : Side) (p : D) (levels : Ladder D)
      → LadderInv side levels
      → Worse side p levels
      → All (λ x. better side (effective_price x) p ≡ false) (queue levels)
  ladder_not_better side p [] v w = tt
  ladder_not_better side p ((q, l) ∷ levels) v w =
      All-append _ (values l.orders) (queue levels)
        (level_not_better side p q l.orders v.0.placed (better_asymm side p q w.0))
        (ladder_not_better side p levels v.2 w.1)

  level-ByPrice :
      (side : Side) (p : D) (t : List (ℕ × Order D)) (later : List (Order D))
      → All (Placed side p) t
      → All (λ x. better side (effective_price x) p ≡ false) later
      → ByPrice side later
      → ByPrice side (values t ++ later)
  level-ByPrice side p [] later a n s = s
  level-ByPrice side p ((k, x) ∷ t) later a n s = (
    All-append _ (values t) later
        (rw a.0.0 (level_not_better side p p t a.1 (better_irrefl side p))) (rw a.0.0 n),
    level-ByPrice side p t later a.1 n s,
  )

  pub queue-ByPrice :
      (side : Side) (levels : Ladder D) → LadderInv side levels → ByPrice side (queue levels)
  queue-ByPrice side [] v = tt
  queue-ByPrice side ((p, l) ∷ levels) v =
      level-ByPrice side p l.orders (queue levels) v.0.placed
        (ladder_not_better side p levels v.2 v.1) (queue-ByPrice side levels v.2)

  above_asks :
      (bid ask : D) (asks : List (Order D))
      → dec.lt bid ask ≡ true
      → All (λ p. dec.lt (effective_price p) ask ≡ false) asks
      → All (λ p. dec.lt bid (effective_price p) ≡ true) asks
  above_asks bid ask [] h a = tt
  above_asks bid ask (p ∷ asks) h a =
      (lt_of_lt_of_le o bid ask (effective_price p) h a.0, above_asks bid ask asks h a.1)

  below_asks :
      (bid ask : Order D) (bids asks : List (Order D))
      → dec.lt (effective_price bid) (effective_price ask) ≡ true
      → All (λ p. dec.lt (effective_price bid) (effective_price p) ≡ false) bids
      → All (λ p. dec.lt (effective_price p) (effective_price ask) ≡ false) asks
      → All
          (λ b. All (λ a. dec.lt (effective_price b) (effective_price a) ≡ true) (ask ∷ asks))
          bids
  below_asks bid ask [] asks h a c = tt
  below_asks bid ask (p ∷ bids) asks h a c =
      let h' =
        lt_of_le_of_lt o (effective_price p) (effective_price bid) (effective_price ask) a.0 h in
      (
        (h', above_asks (effective_price p) (effective_price ask) asks h' c),
        below_asks bid ask bids asks h a.1 c,
      )

  no_asks :
      (bids : List (Order D))
      → All
          (λ b. All (λ (a : Order D). dec.lt (effective_price b) (effective_price a) ≡ true) [])
          bids
  no_asks [] = tt
  no_asks (b ∷ bids) = (tt, no_asks bids)

  Apart-pairs :
      {bids asks : List (Order D)}
      → Apart bids asks
      → ByPrice buy bids
      → ByPrice sell asks
      → All (λ b. All (λ a. dec.lt (effective_price b) (effective_price a) ≡ true) asks) bids
  Apart-pairs no_bid s r = tt
  Apart-pairs (no_ask {bids}) s r = no_asks bids
  Apart-pairs (prices {bid} {ask} {bids} {asks} h) s r = (
    (h, above_asks (effective_price bid) (effective_price ask) asks h r.0),
    below_asks bid ask bids asks h s.0 r.0,
  )

  Matches-Apart :
      {bids asks bids' asks' : List (Order D)} {made : List (RawTrade D)}
      → Matches bids asks made bids' asks'
      → Apart bids' asks'
  Matches-Apart (settled a) = a
  Matches-Apart (trades c e m) = Matches-Apart m

  -- After matching, every bid left in the book is below every ask left in it.
  pub match_trades-Uncrossed :
      (b : OrderBook D) {made : List (RawTrade D)} {b' : OrderBook D}
      → BookInv b
      → match_trades b ≡ some (made, b')
      → Uncrossed b'
  match_trades-Uncrossed b {made} {b'} v e =
      let (made', c, returns, matches, inv) = match_trades-Matches o b v in
      let same : c ≡ b' =
        ap (λ (r : List (RawTrade D) × OrderBook D). r.1) (some-injective _ _ (sym returns ∙ e)) in
      subst Uncrossed same (
        Apart-pairs (Matches-Apart matches) (queue-ByPrice buy c.bids inv.bids)
          (queue-ByPrice sell c.asks inv.asks))
