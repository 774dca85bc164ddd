-- ===== src/Core/Books/Trades.antt =====
-- What the trades of a match do to the orders and to the quantities in the two queues.
use rust_trader.Base.{
  ◌<◌, ◌≤◌, ◌≡◌, ap, sym, ◌∙◌, ◌⊎◌, inl, inr, true, false, List, [], ◌∷◌, arith, Bool-cases, some,
}
use rust_trader.Base.Lists.{All}
use rust_trader.Decimal.{DecimalOps, IsOrdered, IsExact}
use rust_trader.Decimal.Sums.{zero_add, lt-sub, transfer, swap_last}
use rust_trader.Core.Orders.{Order, market, effective_price, min_decimal, apply_fill}
use rust_trader.Core.Books.{OrderBook, RawTrade, trade_of, match_trades}
use rust_trader.Core.Books.Matching.{BookInv, match_trades_inv}
use rust_trader.Core.Books.Ladders.{queue, left}
use rust_trader.Core.Books.Priority.{Crosses, Matches, settled, trades, bought, sold}

module _ {D : Type 0} ⦃dec : DecimalOps D⦄ where
  -- Something of the order is left to trade.
  abbrev pub Open : Order D → Type 0
  Open o = dec.lt dec.zero o.remaining ≡ true

  -- Neither side of two limit orders trades at a worse price than its own.
  abbrev pub WithinLimits : RawTrade D → Type 0
  WithinLimits t =
      (t.buyer.order_type ≡ market)
      ⊎ ((t.seller.order_type ≡ market)
          ⊎ ((dec.lt t.price t.seller.price ≡ false) × (dec.lt t.buyer.price t.price ≡ false)))

  -- The price is that of the order which arrived first, of the ask when they arrived together.
  pub record AtEarlier (t : RawTrade D) : Type 0 where
    pub by_buyer : t.buyer.arrival < t.seller.arrival → t.price ≡ t.buyer.price
    pub by_seller : t.seller.arrival ≤ t.buyer.arrival → t.price ≡ t.seller.price

  abbrev pub Positive : RawTrade D → Type 0
  Positive t = dec.lt dec.zero t.quantity ≡ true

  abbrev pub remaining_of : List (Order D) → D
  remaining_of [] = dec.zero
  remaining_of (o ∷ os) = dec.add o.remaining (remaining_of os)

  abbrev pub traded : List (RawTrade D) → D
  traded [] = dec.zero
  traded (t ∷ ts) = dec.add t.quantity (traded ts)

  -- An order's filled and remaining quantity, together.
  abbrev pub whole_quantity : Order D → D
  whole_quantity o = dec.add o.cum_quantity o.remaining

  trade-WithinLimits :
      IsOrdered D → (bid ask : Order D) → Crosses bid ask → WithinLimits (trade_of bid ask)
  unfolding trade_of apply_fill effective_price
  trade-WithinLimits o bid ask c = ground (arith, o.lt_irrefl bid.price, o.lt_irrefl ask.price)

  trade-AtEarlier : (bid ask : Order D) → AtEarlier (trade_of bid ask)
  unfolding trade_of apply_fill
  trade-AtEarlier bid ask = record { by_buyer = λ h. ground arith; by_seller = λ h. ground arith }

  trade-Positive : (bid ask : Order D) → Open bid → Open ask → Positive (trade_of bid ask)
  unfolding trade_of min_decimal
  trade-Positive bid ask b a = ground arith

module _ {D : Type 0} ⦃dec : DecimalOps D⦄ (o : IsOrdered D) (x : IsExact D) where
  -- A trade moves its quantity from what remains to what is filled, on both sides.
  pub trade-whole_quantity :
      (bid ask : Order D)
      → (whole_quantity (trade_of bid ask).buyer ≡ whole_quantity bid)
        × (whole_quantity (trade_of bid ask).seller ≡ whole_quantity ask)
  unfolding trade_of apply_fill
  trade-whole_quantity bid ask =
      (transfer x bid.cum_quantity bid.remaining _, transfer x ask.cum_quantity ask.remaining _)

  -- A difference with the lesser of two is zero, or positive.
  sub-min_left :
      (a b : D)
      → (dec.is_zero (dec.sub a (min_decimal a b)) ≡ true)
        ⊎ (dec.lt dec.zero (dec.sub a (min_decimal a b)) ≡ true)
  unfolding min_decimal
  sub-min_left a b =
      ground
        (arith, (o.is_zero_iff (dec.sub a a)).1 (o.sub_self a), lt-sub x a b, o.lt_connected a b)

  sub-min_right :
      (a b : D)
      → (dec.is_zero (dec.sub b (min_decimal a b)) ≡ true)
        ⊎ (dec.lt dec.zero (dec.sub b (min_decimal a b)) ≡ true)
  unfolding min_decimal
  sub-min_right a b = ground (arith, (o.is_zero_iff (dec.sub b b)).1 (o.sub_self b), lt-sub x b a)

  buyer_left :
      (bid ask : Order D)
      → (dec.is_zero (trade_of bid ask).buyer.remaining ≡ true) ⊎ Open (trade_of bid ask).buyer
  unfolding trade_of apply_fill
  buyer_left bid ask = sub-min_left bid.remaining ask.remaining

  seller_left :
      (bid ask : Order D)
      → (dec.is_zero (trade_of bid ask).seller.remaining ≡ true) ⊎ Open (trade_of bid ask).seller
  unfolding trade_of apply_fill
  seller_left bid ask = sub-min_right bid.remaining ask.remaining

  left-Open :
      (p : Order D) (rest : List (Order D))
      → (dec.is_zero p.remaining ≡ true) ⊎ Open p
      → All Open rest
      → All Open (left p rest)
  left-Open p rest h a = elim (Bool-cases (dec.is_zero p.remaining)) [
    | inl z ↦ rw z a
    | inr n ↦ rw n (ground arith, a)
  ]

  left-remaining_of :
      (p : Order D) (rest : List (Order D))
      → remaining_of (left p rest) ≡ dec.add p.remaining (remaining_of rest)
  left-remaining_of p rest = elim (Bool-cases (dec.is_zero p.remaining)) [
    | inl z ↦ rw z (
        sym (
          ap (λ r. dec.add r (remaining_of rest)) ((o.is_zero_iff p.remaining).0 z)
          ∙ zero_add x (remaining_of rest)))
    | inr n ↦ rw n
  ]

  -- What the trades of a match have in common: they are for positive quantities, at the price of the
  -- order that arrived first, and within the limits of both orders when both have a limit.
  pub Matches-Positive :
      {bids asks bids' asks' : List (Order D)} {made : List (RawTrade D)}
      → Matches bids asks made bids' asks'
      → All Open bids
      → All Open asks
      → All Positive made
        × All AtEarlier made
        × All WithinLimits made
        × All Open bids'
        × All Open asks'
  Matches-Positive (settled a) p q = (tt, tt, tt, p, q)
  Matches-Positive (trades {bid} {ask} {bids} {asks} {t = t} c e m) p q =
      let pb = left-Open t.buyer bids (rw e (buyer_left bid ask)) p.1 in
      let qa = left-Open t.seller asks (rw e (seller_left bid ask)) q.1 in
      let (r, early, w, p', q') = Matches-Positive m pb qa in
      (
        (rw e (trade-Positive bid ask p.0 q.0), r),
        (rw e (trade-AtEarlier bid ask), early),
        (rw e (trade-WithinLimits o bid ask c), w),
        p',
        q',
      )

  consumed :
      (p p' : Order D) (rest : List (Order D)) (q s r : D)
      → p'.remaining ≡ dec.sub p.remaining q
      → remaining_of (left p' rest) ≡ dec.add r s
      → dec.add p.remaining (remaining_of rest) ≡ dec.add r (dec.add q s)
  consumed p p' rest q s r e h =
      ap (λ a. dec.add a (remaining_of rest))
        (sym (x.sub_add p.remaining q) ∙ ap (λ a. dec.add a q) (sym e))
      ∙ swap_last x p'.remaining q (remaining_of rest)
      ∙ ap (λ a. dec.add a q) (sym (left-remaining_of p' rest) ∙ h)
      ∙ x.add_assoc r s q
      ∙ ap (dec.add r) (x.add_comm s q)

  -- Each side gives up exactly what is traded.
  pub Matches-traded :
      {bids asks bids' asks' : List (Order D)} {made : List (RawTrade D)}
      → Matches bids asks made bids' asks'
      → (remaining_of bids ≡ dec.add (remaining_of bids') (traded made))
        × (remaining_of asks ≡ dec.add (remaining_of asks') (traded made))
  Matches-traded (settled {bids} {asks} a) =
      (sym (x.add_zero (remaining_of bids)), sym (x.add_zero (remaining_of asks)))
  Matches-traded (trades {bid} {ask} {bids} {asks} {bids'} {asks'} {t} {ts} c e m) =
      let (b, a) = Matches-traded m in
      (
        consumed bid t.buyer bids t.quantity (traded ts) (remaining_of bids')
            (rw e (bought bid ask)) b,
        consumed ask t.seller asks t.quantity (traded ts) (remaining_of asks') (rw e (sold bid ask))
            a,
      )

  -- Matching takes from each side of the book exactly the quantity that its trades are for.
  pub match_trades-traded :
      (b : OrderBook D) {made : List (RawTrade D)} {b' : OrderBook D}
      → BookInv b
      → match_trades b ≡ some (made, b')
      → (remaining_of (queue b.bids) ≡ dec.add (remaining_of (queue b'.bids)) (traded made))
        × (remaining_of (queue b.asks) ≡ dec.add (remaining_of (queue b'.asks)) (traded made))
  match_trades-traded b v e = Matches-traded (match_trades_inv o b v e).0

  -- If all orders of the book have something left, every trade is for a positive quantity and at the
  -- price of the order that arrived first (of the ask when both arrived together), between two limit
  -- orders it is within the limits of both, and all orders that stay have something left.
  pub match_trades-Positive :
      (b : OrderBook D) {made : List (RawTrade D)} {b' : OrderBook D}
      → BookInv b
      → All Open (queue b.bids)
      → All Open (queue b.asks)
      → match_trades b ≡ some (made, b')
      → All Positive made
        × All AtEarlier made
        × All WithinLimits made
        × All Open (queue b'.bids)
        × All Open (queue b'.asks)
  match_trades-Positive b v p q e = Matches-Positive (match_trades_inv o b v e).0 p q
