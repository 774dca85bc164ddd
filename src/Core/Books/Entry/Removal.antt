-- ===== src/Core/Books/Entry/Removal.antt =====
-- `OrderBook::remove`: it takes out exactly the order that was asked for, or fails and does nothing.
use rust_trader.Base.{
  ℕ, ◌≡◌, refl, ap, sym, subst, ◌∙◌, inl, inr, true, false, none, some, List, [], ◌∷◌, ◌++◌, arith,
  Bool-cases, Option-cases,
}
use mathlib.Core.List.{append_assoc}
use mathlib.Core.Option.{some-injective}
use rust_trader.Base.Eq.{nat_eq, int_eq, text_eq, pair_eq}
use rust_trader.Base.Lists.{All, is_empty}
use rust_trader.Base.Maps.{lookup, update, erase}
use rust_trader.Base.Index.{Found}
use rust_trader.Base.Outcome.{ok, err}
use rust_trader.Decimal.{DecimalOps, IsOrdered, decimal_eq}
use rust_trader.Core.Orders.{Order, Side, buy, sell, is_active}
use rust_trader.Core.Levels.{PriceLevel, Identity, identity, locate}
use rust_trader.Core.Levels.Invariant.{
  LevelInv, Held, absent, held, Held-cases, dropped, dropped-LevelInv, remove_order_absent,
  remove_order_held, locate_held, dropped_absent,
}
use rust_trader.Core.Books.{Ladder, OrderBook, ladder, with_ladder, settle}
use rust_trader.Core.Books.Ladders.{queue, LadderInv, Placed, Worse}
use rust_trader.Core.Books.Matching.{BookInv}
use rust_trader.Core.Books.Enqueue.{lookup-Worse}
use rust_trader.Core.Books.Spots.{cut, spot, settle_same, settle_other}
use rust_trader.Core.Books.Entry.{locate_in, cancel_active, remove}

abbrev pub opposite : Side → Side
opposite buy = sell
opposite sell = buy

module _ {D : Type 0} ⦃dec : DecimalOps D⦄ where
  pub side_inv : (b : OrderBook D) (side : Side) → BookInv b → LadderInv side (ladder b side)
  side_inv b buy v = v.bids
  side_inv b sell v = v.asks

  pub with_ladder-BookInv :
      (b : OrderBook D) (side : Side) (levels : Ladder D)
      → BookInv b
      → LadderInv side levels
      → BookInv (with_ladder b side levels)
  with_ladder-BookInv b buy levels v i = record { bids = i; asks = v.asks }
  with_ladder-BookInv b sell levels v i = record { bids = v.bids; asks = i }

  pub ladder-with_ladder :
      (b : OrderBook D) (side : Side) (levels : Ladder D)
      → (ladder (with_ladder b side levels) side ≡ levels)
        × (ladder (with_ladder b side levels) (opposite side) ≡ ladder b (opposite side))
  ladder-with_ladder b buy levels = (refl, refl)
  ladder-with_ladder b sell levels = (refl, refl)

  pub All-erase :
      (side : Side) (price : D) (key : ℕ) (t : List (ℕ × Order D))
      → All (Placed side price) t
      → All (Placed side price) (erase key t)
  unfolding erase
  All-erase side price key [] a = tt
  All-erase side price key ((k, o) ∷ t) a = elim (Bool-cases (nat_eq.beq k key)) [
    | inl same ↦ rw same a.1
    | inr other ↦ rw other (a.0, All-erase side price key t a.1)
  ]

  pub locate_in-none :
      (b : OrderBook D) (i : Identity) (side : Side) (price : D)
      → lookup price (ladder b side) ≡ none
      → locate_in b i side price ≡ none
  unfolding locate_in
  locate_in-none b i side price e = rw (e, locate_in)

  pub locate_in_level :
      (b : OrderBook D) (i : Identity) (side : Side) (price : D) (l : PriceLevel D)
      → lookup price (ladder b side) ≡ some l
      → locate_in b i side price ≡ locate l i
  unfolding locate_in
  locate_in_level b i side price l e = rw (e, locate_in)

  -- What `locate_in` has found: the level, and the order in its index.
  pub record Rests (b : OrderBook D) (i : Identity) (side : Side) (price : D) (o : Order D)
      : Type 0 where
    pub level : PriceLevel D
    pub key : ℕ
    pub at_price : lookup price (ladder b side) ≡ some level
    pub indexed : lookup i level.index ≡ some key
    pub row : Found identity i 0 key level.orders
    pub is_order : row.row ≡ o

  pub locate_absent :
      (l : PriceLevel D) (i : Identity) → lookup i l.index ≡ none → locate l i ≡ none
  unfolding locate
  locate_absent l i h = rw (h, locate)

  Rests-in_level :
      (b : OrderBook D) (i : Identity) (side : Side) (price : D) (o : Order D) (l : PriceLevel D)
      → lookup price (ladder b side) ≡ some l
      → locate l i ≡ some o
      → Held l i
      → Rests b i side price o
  Rests-in_level b i side price o l e h (absent a) = cc (locate_absent l i a)
  Rests-in_level b i side price o l e h (held key k f) = record {
    level = l;
    key = key;
    at_price = e;
    indexed = k;
    row = f;
    is_order = some-injective f.row o (sym (locate_held l i key k f) ∙ h);
  }

  pub rests :
      (b : OrderBook D) (i : Identity) (side : Side) (price : D) (o : Order D)
      → BookInv b
      → locate_in b i side price ≡ some o
      → Rests b i side price o
  unfolding locate_in
  rests b i side price o v h = elim (Option-cases (lookup price (ladder b side))) [
    | inl e ↦ cc (rw (e, locate_in) at h)
    | inr (l, e) ↦
        Rests-in_level b i side price o l e (rw (e, locate_in) at h)
          (Held-cases l i (spot side price l (ladder b side) (side_inv b side v) e).stands.inv)
  ]

  -- The level after the removal.
  abbrev level_without :
      {b : OrderBook D} {i : Identity} {side : Side} {price : D} {o : Order D}
      → Rests b i side price o
      → PriceLevel D
  level_without {i = i} {o = o} r = dropped r.level i r.key o

  pub remove-Rests :
      (b : OrderBook D) (i : Identity) (side : Side) (price : D) (o : Order D)
      → (r : Rests b i side price o)
      → remove b i side price
        ≡ ok (cancel_active o, with_ladder b side (settle price (level_without r) (ladder b side)))
  unfolding remove
  remove-Rests b i side price o r =
      rw (r.at_price) (rw (remove_order_held r.level i r.key r.indexed r.row) (rw r.is_order))

  -- The effect of a removal on a book.
  pub record Taken (b b' : OrderBook D) (i : Identity) (side : Side) (o : Order D) : Type 0 where
    pub front : List (Order D)
    pub back : List (Order D)
    pub before : queue (ladder b side) ≡ front ++ o ∷ back
    pub after : queue (ladder b' side) ≡ front ++ back
    pub other_side : ladder b' (opposite side) ≡ ladder b (opposite side)
    pub named : identity o ≡ i
    pub inv : BookInv b'

  -- The book without an order that rests in it.
  abbrev pub without :
      (b : OrderBook D) (i : Identity) (side : Side) (price : D) (o : Order D)
      → Rests b i side price o
      → OrderBook D
  without b i side price o r = with_ladder b side (settle price (level_without r) (ladder b side))

  pub without-Taken :
      (b : OrderBook D) (i : Identity) (side : Side) (price : D) (o : Order D)
      → BookInv b
      → (r : Rests b i side price o) → Taken b (without b i side price o r) i side o
  without-Taken b i side price o v r =
      let s = spot side price r.level (ladder b side) (side_inv b side v) r.at_price in
      let c = cut r.key o r.level.orders (r.row.found ∙ ap some r.is_order) in
      let l = level_without r in
      let inv : LevelInv l =
        subst (λ p. LevelInv (dropped r.level i r.key p)) r.is_order
          (dropped-LevelInv r.level i r.key s.stands.inv r.row) in
      let after = ladder-with_ladder b side (settle price l (ladder b side)) in
      record {
        front = s.ahead ++ c.front;
        back = c.back ++ s.behind;
        before = s.queued ∙ rw c.whole (regroup s.ahead c.front (o ∷ c.back) s.behind);
        after =
            ap queue after.0
            ∙ s.requeued l
            ∙ rw c.without (regroup s.ahead c.front c.back s.behind);
        other_side = after.1;
        named = rw (← r.is_order) r.row.named;
        inv =
            with_ladder-BookInv b side _ v
              (s.keeps l inv refl (All-erase side price r.key r.level.orders s.stands.placed));
      }
    where
      regroup : (a f g z : List (Order D)) → a ++ ((f ++ g) ++ z) ≡ (a ++ f) ++ (g ++ z)
      regroup a f g z = simp append_assoc

module _ {D : Type 0} ⦃dec : DecimalOps D⦄ (ord : IsOrdered D) where
  lookup-settle_empty :
      (side : Side) (price : D) (m : PriceLevel D) (levels : Ladder D)
      → LadderInv side levels
      → is_empty m.orders ≡ true
      → lookup price (settle price m levels) ≡ none
  unfolding lookup
  lookup-settle_empty side price m [] v e = unfold settle erase update in ground arith
  lookup-settle_empty side price m ((q, l) ∷ levels) v e = elim (Bool-cases (dec.eq q price)) [
    | inl same ↦
        let p : q ≡ price = (dec.eq_iff q price).0 same in
        rw (settle_same q price m l levels same)
          (rw e (lookup-Worse ord side price levels (subst (λ c. Worse side c levels) p v.1)))
    | inr other ↦
        rw (settle_other q price m l levels other)
          (rw other (lookup-settle_empty side price m levels v.2 e))
  ]

  lookup-settle_occupied :
      (price : D) (l m : PriceLevel D) (levels : Ladder D)
      → lookup price levels ≡ some l
      → is_empty m.orders ≡ false
      → lookup price (settle price m levels) ≡ some m
  unfolding lookup
  lookup-settle_occupied price l m [] h e = cc
  lookup-settle_occupied price l m ((q, k) ∷ levels) h e = elim (Bool-cases (dec.eq q price)) [
    | inl same ↦ rw (settle_same q price m k levels same) (rw e (rw same))
    | inr other ↦
        let h' : lookup price levels ≡ some l = rw other at h in
        rw (settle_other q price m k levels other)
          (rw other (lookup-settle_occupied price l m levels h' e))
  ]

  -- The removed order is not in the book any more.
  pub without_gone :
      (b : OrderBook D) (i : Identity) (side : Side) (price : D) (o : Order D)
      → BookInv b
      → (r : Rests b i side price o) → locate_in (without b i side price o r) i side price ≡ none
  without_gone b i side price o v r =
      let l = level_without r in
      let a = ladder-with_ladder b side (settle price l (ladder b side)) in
      let s = spot side price r.level (ladder b side) (side_inv b side v) r.at_price in
      elim (Bool-cases (is_empty l.orders)) [
        | inl e ↦ locate_in-none (without b i side price o r) i side price (
            ap (lookup price) a.0
            ∙ lookup-settle_empty side price l (ladder b side) (side_inv b side v) e)
        | inr e ↦
            locate_in_level (without b i side price o r) i side price l (
              ap (lookup price) a.0
              ∙ lookup-settle_occupied price r.level l (ladder b side) r.at_price e)
            ∙ locate_absent l i (dropped_absent r.level i r.key o s.stands.inv)
      ]

  -- Where the order rests, `remove` takes it out of the queue of its side, alone, keeps the
  -- invariant and the other side, marks an active order as cancelled, and the order is gone.
  pub remove_lem :
      (b : OrderBook D) (i : Identity) (side : Side) (price : D) (o : Order D)
      → BookInv b
      → locate_in b i side price ≡ some o
      → (b' : OrderBook D) × (remove b i side price ≡ ok (cancel_active o, b'))
        × Taken b b' i side o
        × (locate_in b' i side price ≡ none)
        × (is_active (cancel_active o).state ≡ false)
  unfolding cancel_active
  remove_lem b i side price o v h =
      let r = rests b i side price o v h in
      (
        without b i side price o r,
        remove-Rests b i side price o r,
        without-Taken b i side price o v r,
        without_gone b i side price o v r,
        ground arith,
      )

module _ {D : Type 0} ⦃dec : DecimalOps D⦄ where
  -- Where the order does not rest, `remove` fails.
  pub remove_absent :
      (b : OrderBook D) (i : Identity) (side : Side) (price : D)
      → BookInv b
      → locate_in b i side price ≡ none
      → remove b i side price ≡ err tt
  unfolding remove
  remove_absent b i side price v h = elim (Option-cases (lookup price (ladder b side))) [
    | inl e ↦ rw e
    | inr (l, e) ↦
        elim (Held-cases l i (spot side price l (ladder b side) (side_inv b side v) e).stands.inv) [
          | absent a ↦ rw e (rw (remove_order_absent l i a))
          | held key k f ↦
              let found : none ≡ some f.row =
                sym h ∙ locate_in_level b i side price l e ∙ locate_held l i key k f in
              cc
        ]
  ]
