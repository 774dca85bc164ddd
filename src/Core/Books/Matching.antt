-- ===== src/Core/Books/Matching.antt =====
-- `match_trades` refines the matching of two queues: it ends, does not panic, and the level tables,
-- their indexes and their ladders stay in step with the queues.
use rust_trader.Base.{
  ℕ, zero, suc, ◌+◌, ◌<◌, ◌≡◌, refl, ap, sym, subst, ◌∙◌, inl, inr, false, none, some, List, [],
  ◌∷◌, ◌++◌, arith, if◌then◌else◌, Bool-cases,
}
use mathlib.Core.Option.{some-injective}
use rust_trader.Base.Lists.{length, length-append, is_empty}
use rust_trader.Base.Maps.{values}
use rust_trader.Decimal.{DecimalOps, IsOrdered, IsExact}
use rust_trader.Core.Orders.{Order, buy, sell, effective_price}
use rust_trader.Core.Levels.{PriceLevel, top}
use rust_trader.Core.Books.{
  Ladder, OrderBook, RawTrade, fill_in, execute_trade, next_trade, match_loop, match_trades,
  trade_of, orders_in, tops,
}
use rust_trader.Core.Books.Ladders.{LadderExact, queue, LadderInv, left, fill_in_best}
use rust_trader.Core.Books.Priority.{
  Crosses, Apart, no_bid, no_ask, prices, Matches, settled, trades, left-shrinks, buyer_kept,
  seller_kept, bought, sold,
}

length-values : {D : Type 0} (t : List (ℕ × Order D)) → length (values t) ≡ length t
length-values [] = refl
length-values ((k, o) ∷ t) = ap suc (length-values t)

orders_in-queue : {D : Type 0} (levels : Ladder D) → orders_in levels ≡ length (queue levels)
orders_in-queue [] = refl
orders_in-queue ((k, l) ∷ levels) = omega (
  arith,
  length-append (values l.orders) (queue levels),
  length-values l.orders,
  orders_in-queue levels,
)

module _ {D : Type 0} ⦃dec : DecimalOps D⦄ where
  pub record BookInv (b : OrderBook D) : Type 0 where
    pub bids : LadderInv buy b.bids
    pub asks : LadderInv sell b.asks

  -- The totals of all levels are exact.
  abbrev pub BookExact : OrderBook D → Type 0
  BookExact b = LadderExact b.bids × LadderExact b.asks

  -- A run of the loop, with what it leaves.
  pub record Matched (fuel : ℕ) (b : OrderBook D) : Type 0 where
    pub made : List (RawTrade D)
    pub book : OrderBook D
    pub returns : match_loop fuel b ≡ some (made, book)
    pub matches : Matches (queue b.bids) (queue b.asks) made (queue book.bids) (queue book.asks)
    pub inv : BookInv book
    pub instrument : book.instrument_id ≡ b.instrument_id
    pub exact : IsExact D → BookExact b → BookExact book

  idle :
      (fuel : ℕ) (b : OrderBook D)
      → BookInv b
      → next_trade b ≡ some none
      → Apart (queue b.bids) (queue b.asks)
      → Matched (suc fuel) b
  unfolding match_loop
  idle fuel b v e a = record {
    made = [];
    book = b;
    returns = rw (e, match_loop);
    matches = settled a;
    inv = v;
    instrument = refl;
    exact = λ x t. t;
  }

  next_trade_tops :
      (b : OrderBook D) (p q : D) (l m : PriceLevel D) (ls ms : Ladder D) (j k : ℕ)
      (bid ask : Order D) (r s : List (ℕ × Order D))
      → b.bids ≡ (p, l) ∷ ls
      → b.asks ≡ (q, m) ∷ ms
      → l.orders ≡ (j, bid) ∷ r
      → m.orders ≡ (k, ask) ∷ s
      → next_trade b
        ≡ some (
            if dec.lt (effective_price bid) (effective_price ask)
            then none
            else some (trade_of bid ask))
  unfolding next_trade top
  next_trade_tops b p q l m ls ms j k bid ask r s eb ea el em =
      rw (eb, ea, el, em, next_trade, tops, top)

  round :
      (fuel : ℕ) (b b' : OrderBook D) (bid ask : Order D) (bids asks : List (Order D))
      → queue b.bids ≡ bid ∷ bids
      → queue b.asks ≡ ask ∷ asks
      → Crosses bid ask
      → next_trade b ≡ some (some (trade_of bid ask))
      → execute_trade b (trade_of bid ask) ≡ some b'
      → queue b'.bids ≡ left (trade_of bid ask).buyer bids
      → queue b'.asks ≡ left (trade_of bid ask).seller asks
      → b'.instrument_id ≡ b.instrument_id
      → (IsExact D → BookExact b → BookExact b')
      → Matched fuel b'
      → Matched (suc fuel) b
  unfolding match_loop
  round fuel b b' bid ask bids asks qb qa c n x qb' qa' i y m = record {
    made = trade_of bid ask ∷ m.made;
    book = m.book;
    returns = rw (n, x, m.returns, match_loop);
    matches = rw (qb, qa) (trades c refl (rw (← qb', ← qa') m.matches));
    inv = m.inv;
    instrument = m.instrument ∙ i;
    exact = λ e t. m.exact e (y e t);
  }

  execute_trade_lem :
      (b : OrderBook D) (t : RawTrade D) (bids asks : Ladder D)
      → fill_in b.bids t.buyer t.quantity ≡ some bids
      → fill_in b.asks t.seller t.quantity ≡ some asks
      → execute_trade b t ≡ some (record b { bids = bids; asks = asks })
  unfolding execute_trade
  execute_trade_lem b t bids asks e f = rw (e, f)

  no_bid_left : (b : OrderBook D) → b.bids ≡ [] → next_trade b ≡ some none
  unfolding next_trade
  no_bid_left b e = rw (e, next_trade, tops)

  no_ask_left :
      (b : OrderBook D) (p : D) (l : PriceLevel D) (ls : Ladder D)
      → b.bids ≡ (p, l) ∷ ls
      → b.asks ≡ []
      → next_trade b ≡ some none
  unfolding next_trade
  no_ask_left b p l ls e f = rw (e, f, next_trade, tops)

  -- The measure of the loop.
  abbrev pub size : OrderBook D → ℕ
  size b = length (queue b.bids) + length (queue b.asks)

  -- Both sides have an order: the loop ends, or makes one trade and goes on.
  pub head_to_head :
      IsOrdered D
      → (fuel : ℕ) (b : OrderBook D) (p q : D) (l m : PriceLevel D) (ls ms : Ladder D) (j k : ℕ)
        (bid ask : Order D) (r s : List (ℕ × Order D))
      → BookInv b
      → b.bids ≡ (p, l) ∷ ls
      → b.asks ≡ (q, m) ∷ ms
      → l.orders ≡ (j, bid) ∷ r
      → m.orders ≡ (k, ask) ∷ s
      → size b < suc fuel
      → ((b' : OrderBook D) → BookInv b' → size b' < fuel → Matched fuel b')
      → Matched (suc fuel) b
  unfolding top
  head_to_head o fuel b p q l m ls ms j k bid ask r s v eb ea el em h again =
      let n = next_trade_tops b p q l m ls ms j k bid ask r s eb ea el em in
      let qb : queue b.bids ≡ bid ∷ values r ++ queue ls = rw (eb) (rw el) in
      let qa : queue b.asks ≡ ask ∷ values s ++ queue ms = rw (ea) (rw em) in
      elim (Bool-cases (dec.lt (effective_price bid) (effective_price ask))) [
        | inl less ↦ idle fuel b v (n ∙ rw less) (rw (qb, qa) (prices less))
        | inr crosses ↦
            let t = trade_of bid ask in
            let kb = buyer_kept bid ask in
            let ka = seller_kept bid ask in
            let fb =
              fill_in_best buy p l ls j bid t.buyer r t.quantity (subst (LadderInv buy) eb v.bids)
                el kb.0 kb.1 kb.2 in
            let fa =
              fill_in_best sell q m ms k ask t.seller s t.quantity
                (subst (LadderInv sell) ea v.asks) em ka.0 ka.1 ka.2 in
            let b' : OrderBook D = record b { bids = fb.ladder; asks = fa.ladder } in
            round fuel b b' bid ask (values r ++ queue ls) (values s ++ queue ms) qb qa crosses
              (n ∙ rw crosses)
              (execute_trade_lem b t fb.ladder fa.ladder (rw eb fb.returns) (rw ea fa.returns))
              fb.queued fa.queued refl
              (λ x t. (
                fb.exact x bid (rw el) (bought bid ask) (subst LadderExact eb t.0),
                fa.exact x ask (rw em) (sold bid ask) (subst LadderExact ea t.1),
              ))
              (again b' (record { bids = fb.inv; asks = fa.inv })
                (omega (
                  arith,
                  ap length fb.queued,
                  ap length fa.queued,
                  ap length qb,
                  ap length qa,
                  left-shrinks o bid ask (values r ++ queue ls) (values s ++ queue ms),
                )))
      ]

  occupied_tables :
      IsOrdered D
      → (fuel : ℕ) (b : OrderBook D) (p q : D) (l m : PriceLevel D) (ls ms : Ladder D)
        (xs ys : List (ℕ × Order D))
      → BookInv b
      → b.bids ≡ (p, l) ∷ ls
      → b.asks ≡ (q, m) ∷ ms
      → is_empty xs ≡ false
      → is_empty ys ≡ false
      → l.orders ≡ xs
      → m.orders ≡ ys
      → size b < suc fuel
      → ((b' : OrderBook D) → BookInv b' → size b' < fuel → Matched fuel b')
      → Matched (suc fuel) b
  occupied_tables o fuel b p q l m ls ms ((j, bid) ∷ r) ((k, ask) ∷ s) v eb ea ox oy el em h again =
      head_to_head o fuel b p q l m ls ms j k bid ask r s v eb ea el em h again
  occupied_tables o fuel b p q l m ls ms [] ys v eb ea ox oy el em h again = cc
  occupied_tables o fuel b p q l m ls ms (x ∷ xs) [] v eb ea ox oy el em h again = cc

  both_sides :
      IsOrdered D
      → (fuel : ℕ) (b : OrderBook D) (bids asks : Ladder D) → BookInv b
      → b.bids ≡ bids
      → b.asks ≡ asks
      → size b < suc fuel
      → ((b' : OrderBook D) → BookInv b' → size b' < fuel → Matched fuel b')
      → Matched (suc fuel) b
  both_sides o fuel b [] asks v eb ea h again = idle fuel b v (no_bid_left b eb) (rw eb no_bid)
  both_sides o fuel b ((p, l) ∷ ls) [] v eb ea h again =
      idle fuel b v (no_ask_left b p l ls eb ea) (rw ea no_ask)
  both_sides o fuel b ((p, l) ∷ ls) ((q, m) ∷ ms) v eb ea h again =
      let lv : LadderInv buy ((p, l) ∷ ls) = subst (LadderInv buy) eb v.bids in
      let mv : LadderInv sell ((q, m) ∷ ms) = subst (LadderInv sell) ea v.asks in
      occupied_tables o fuel b p q l m ls ms l.orders m.orders v eb ea lv.0.occupied mv.0.occupied
        refl refl h again

  pub match_loop-Matched :
      IsOrdered D → (fuel : ℕ) (b : OrderBook D) → BookInv b → size b < fuel → Matched fuel b
  match_loop-Matched o zero b v h = absurd (omega arith)
  match_loop-Matched o (suc fuel) b v h =
      both_sides o fuel b b.bids b.asks v refl refl h (match_loop-Matched o fuel)

  -- In a book that satisfies the invariant, `match_trades` returns, with no panic where no decimal overflows and within its
  -- fuel. Its trades and the orders that stay are those of matching the two queues of orders head
  -- against head, by price and then time, until the best prices are apart; and the invariant holds
  -- again.
  pub match_trades-Matches :
      IsOrdered D
      → (b : OrderBook D) → BookInv b
      → (made : List (RawTrade D)) × (b' : OrderBook D) × (match_trades b ≡ some (made, b'))
        × Matches (queue b.bids) (queue b.asks) made (queue b'.bids) (queue b'.asks)
        × BookInv b'
  unfolding match_trades
  match_trades-Matches o b v =
      let m =
        match_loop-Matched o (suc (orders_in b.bids + orders_in b.asks)) b v
          (omega (arith, orders_in-queue b.bids, orders_in-queue b.asks)) in
      (m.made, m.book, m.returns, m.matches, m.inv)

  pub match_trades_inv :
      IsOrdered D
      → (b : OrderBook D) {made : List (RawTrade D)} {b' : OrderBook D} → BookInv b
      → match_trades b ≡ some (made, b')
      → Matches (queue b.bids) (queue b.asks) made (queue b'.bids) (queue b'.asks) × BookInv b'
  match_trades_inv o b {made} {b'} v e =
      let (made', c, returns, matches, inv) = match_trades-Matches o b v in
      subst
        (λ (r : List (RawTrade D) × OrderBook D).
          Matches (queue b.bids) (queue b.asks) r.0 (queue (r.1).bids) (queue (r.1).asks)
          × BookInv r.1)
        (some-injective (made', c) (made, b') (sym returns ∙ e)) (matches, inv)

  -- Matching keeps the total of every level, which readers of the book see, equal to the sum of what
  -- its orders have left.
  pub match_trades-BookExact :
      IsOrdered D
      → IsExact D
      → (b : OrderBook D) {made : List (RawTrade D)} {b' : OrderBook D} → BookInv b
      → BookExact b
      → match_trades b ≡ some (made, b')
      → BookExact b'
  unfolding match_trades
  match_trades-BookExact o x b {made} {b'} v t e =
      let m =
        match_loop-Matched o (suc (orders_in b.bids + orders_in b.asks)) b v
          (omega (arith, orders_in-queue b.bids, orders_in-queue b.asks)) in
      let same : m.book ≡ b' =
        ap (λ (r : List (RawTrade D) × OrderBook D). r.1)
          (some-injective _ _ (sym m.returns ∙ e)) in
      subst BookExact same (m.exact x t)
