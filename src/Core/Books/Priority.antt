-- ===== src/Core/Books/Priority.antt =====
-- What matching promises, with no price levels and no index: two queues of orders, of which the
-- heads trade as long as their prices cross.
use rust_trader.Base.{
  ◌+◌, ◌<◌, ◌≡◌, refl, ◌⊎◌, inl, inr, true, false, List, [], ◌∷◌, arith, Bool-cases,
}
use rust_trader.Base.Lists.{length}
use rust_trader.Decimal.{DecimalOps, IsOrdered}
use rust_trader.Core.Orders.{Order, effective_price, min_decimal, apply_fill}
use rust_trader.Core.Levels.{identity}
use rust_trader.Core.Books.{RawTrade, trade_of}
use rust_trader.Core.Books.Ladders.{left}

module _ {D : Type 0} ⦃dec : DecimalOps D⦄ where
  abbrev pub Crosses : Order D → Order D → Type 0
  Crosses bid ask = dec.lt (effective_price bid) (effective_price ask) ≡ false

  -- The best bid and the best ask do not cross.
  pub data Apart : List (Order D) → List (Order D) → Type 0 where
    no_bid : {asks : List (Order D)} → Apart [] asks
    no_ask : {bids : List (Order D)} → Apart bids []
    prices :
        {bid ask : Order D} {bids asks : List (Order D)}
        → dec.lt (effective_price bid) (effective_price ask) ≡ true
        → Apart (bid ∷ bids) (ask ∷ asks)

  -- `Matches bids asks trades bids' asks'`: the queues trade until they are apart.
  pub data Matches
      : List (Order D)
        → List (Order D)
        → List (RawTrade D)
        → List (Order D)
        → List (Order D)
        → Type 0 where
    settled : {bids asks : List (Order D)} → Apart bids asks → Matches bids asks [] bids asks
    trades :
        {bid ask : Order D} {bids asks bids' asks' : List (Order D)} {t : RawTrade D}
        {ts : List (RawTrade D)}
        → Crosses bid ask
        → t ≡ trade_of bid ask
        → Matches (left t.buyer bids) (left t.seller asks) ts bids' asks'
        → Matches (bid ∷ bids) (ask ∷ asks) (t ∷ ts) bids' asks'

  -- A trade uses one of the two orders up.
  pub trade_consumes :
      IsOrdered D
      → (bid ask : Order D)
      → (dec.is_zero (trade_of bid ask).buyer.remaining ≡ true)
        ⊎ (dec.is_zero (trade_of bid ask).seller.remaining ≡ true)
  unfolding trade_of min_decimal apply_fill
  trade_consumes o bid ask = elim (Bool-cases (dec.lt bid.remaining ask.remaining)) [
    | inl less ↦ inl (rw less ((o.is_zero_iff _).1 (o.sub_self bid.remaining)))
    | inr more ↦ inr (rw more ((o.is_zero_iff _).1 (o.sub_self ask.remaining)))
  ]

  pub left-shrinks :
      IsOrdered D
      → (bid ask : Order D) (bids asks : List (Order D))
      → length (left (trade_of bid ask).buyer bids) + length (left (trade_of bid ask).seller asks)
        < length (bid ∷ bids) + length (ask ∷ asks)
  left-shrinks o bid ask bids asks = ground (arith, trade_consumes o bid ask)

  pub buyer_kept :
      (bid ask : Order D)
      → (identity (trade_of bid ask).buyer ≡ identity bid)
        × (effective_price (trade_of bid ask).buyer ≡ effective_price bid)
        × ((trade_of bid ask).buyer.side ≡ bid.side)
  unfolding trade_of apply_fill effective_price
  buyer_kept bid ask = (refl, refl, refl)

  pub seller_kept :
      (bid ask : Order D)
      → (identity (trade_of bid ask).seller ≡ identity ask)
        × (effective_price (trade_of bid ask).seller ≡ effective_price ask)
        × ((trade_of bid ask).seller.side ≡ ask.side)
  unfolding trade_of apply_fill effective_price
  seller_kept bid ask = (refl, refl, refl)

  pub bought :
      (bid ask : Order D)
      → (trade_of bid ask).buyer.remaining ≡ dec.sub bid.remaining (trade_of bid ask).quantity
  unfolding trade_of apply_fill
  bought bid ask = refl

  pub sold :
      (bid ask : Order D)
      → (trade_of bid ask).seller.remaining ≡ dec.sub ask.remaining (trade_of bid ask).quantity
  unfolding trade_of apply_fill
  sold bid ask = refl
