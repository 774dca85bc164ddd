-- ===== src/Core/Books/Ladders.antt =====
-- One side of the book as a queue of orders: its levels from the best price, and the orders of a
-- level by their priority.
use rust_trader.Base.{
  ℕ, ◌≡◌, ap, sym, subst, ◌∙◌, inl, inr, true, false, some, List, [], ◌∷◌, ◌++◌, arith,
  if◌then◌else◌, Bool-cases,
}
use rust_trader.Base.Eq.{nat_eq, int_eq, text_eq, pair_eq}
use rust_trader.Base.Maps.{lookup, update, erase, values}
use rust_trader.Base.Lists.{All, is_empty}
use rust_trader.Base.Index.{follow}
use mathlib.Core.Option.{some-injective}
use rust_trader.Decimal.{DecimalOps, IsExact, decimal_eq}
use rust_trader.Core.Levels.Totals.{TotalExact, filled_level-TotalExact}
use rust_trader.Core.Orders.{Order, Side, effective_price}
use rust_trader.Core.Levels.{PriceLevel, identity, top, update_fill}
use rust_trader.Core.Levels.Invariant.{LevelInv}
use rust_trader.Core.Levels.Fill.{
  filled_level, update_fill_lem, filled_level-LevelInv, lookup_top, filled_level_orders,
  filled_level_price,
}
use rust_trader.Core.Books.{Ladder, better, best, fill_in, ◌>>=?◌}

-- The orders of a side, first to trade first.
abbrev pub queue : {D : Type 0} → Ladder D → List (Order D)
queue [] = []
queue ((k, l) ∷ levels) = values l.orders ++ queue levels

module _ {D : Type 0} ⦃dec : DecimalOps D⦄ where
  -- An order that rests on its side at its price.
  abbrev pub Placed : Side → D → ℕ × Order D → Type 0
  Placed side price (key, o) = (effective_price o ≡ price) × (o.side ≡ side)

  pub record LevelAt (side : Side) (price : D) (l : PriceLevel D) : Type 0 where
    pub inv : LevelInv l
    pub priced : l.price ≡ price
    pub occupied : is_empty l.orders ≡ false
    pub placed : All (Placed side price) l.orders

  -- Every later level has a worse price.
  abbrev pub Worse : Side → D → Ladder D → Type 0
  Worse side price = All (λ (e : D × PriceLevel D). better side price e.0 ≡ true)

  abbrev pub LadderInv : Side → Ladder D → Type 0
  LadderInv side [] = Unit
  LadderInv side ((price, l) ∷ levels) =
      LevelAt side price l × Worse side price levels × LadderInv side levels

  -- Every level's total is the sum of what its orders have left.
  abbrev pub LadderExact : Ladder D → Type 0
  LadderExact = All (λ (e : D × PriceLevel D). TotalExact e.1)

  -- What is left of a queue whose head becomes `o`.
  abbrev pub left : Order D → List (Order D) → List (Order D)
  left o rest = if dec.is_zero o.remaining then rest else o ∷ rest

  lookup_first :
      (l : PriceLevel D) (key : ℕ) (o : Order D) (rest : List (ℕ × Order D))
      → l.orders ≡ (key, o) ∷ rest
      → lookup key l.orders ≡ some o
  unfolding lookup
  lookup_first l key o rest e = rw e (ground arith)

  top_first :
      (l : PriceLevel D) (key : ℕ) (o : Order D) (rest : List (ℕ × Order D))
      → l.orders ≡ (key, o) ∷ rest
      → top l.orders ≡ some o
  unfolding top
  top_first l key o rest e = rw e

  -- `update_fill` of the best order of a level.
  pub record Refilled (l : PriceLevel D) (key : ℕ) (o : Order D) (rest : List (ℕ × Order D))
      (quantity : D) : Type 0 where
    pub level : PriceLevel D
    pub returns : update_fill l o quantity ≡ some level
    pub inv : LevelInv level
    pub orders : level.orders ≡ (if dec.is_zero o.remaining then rest else (key, o) ∷ rest)
    pub price : level.price ≡ l.price
    pub exact :
        IsExact D
        → (old : Order D) → lookup key l.orders ≡ some old
        → o.remaining ≡ dec.sub old.remaining quantity
        → TotalExact l
        → TotalExact level

  pub refill :
      (l : PriceLevel D) (key : ℕ) (o o' : Order D) (rest : List (ℕ × Order D)) (quantity : D)
      → LevelInv l
      → l.orders ≡ (key, o) ∷ rest
      → identity o' ≡ identity o
      → Refilled l key o' rest quantity
  refill l key o o' rest quantity v e n =
      let found : lookup (identity o') l.index ≡ some key = rw n (lookup_top l key o rest v e) in
      let f =
        follow identity (identity o') 0 l.next key l.orders v.ascending
          (subst (λ m. lookup (identity o') m ≡ some key) v.mirrored found) in
      record {
        level = filled_level l key f.row o' quantity;
        returns = update_fill_lem l key o' quantity found f;
        inv = filled_level-LevelInv l key o' quantity v f;
        orders = filled_level_orders l key f.row o o' rest quantity e;
        price = filled_level_price l key f.row o' quantity;
        exact = λ x old h m t.
            filled_level-TotalExact x l key f.row o' quantity f.found
              (m
                ∙ ap (λ (r : Order D). dec.sub r.remaining quantity)
                    (some-injective old f.row (sym h ∙ f.found)))
              t;
      }

  -- What `fill_in` leaves of a side whose best order is filled.
  pub record FilledIn (side : Side) (levels : Ladder D) (o : Order D) (rest : List (Order D))
      (quantity : D) : Type 0 where
    pub ladder : Ladder D
    pub returns : fill_in levels o quantity ≡ some ladder
    pub queued : queue ladder ≡ left o rest
    pub inv : LadderInv side ladder
    pub exact :
        IsExact D
        → (old : Order D) → (best levels >>=? λ l. top l.orders) ≡ some old
        → o.remaining ≡ dec.sub old.remaining quantity
        → LadderExact levels
        → LadderExact ladder

  -- The side with its best level refilled, or dropped when empty.
  abbrev pub refilled : D → PriceLevel D → Ladder D → Ladder D
  refilled price l levels = if is_empty l.orders then levels else (price, l) ∷ levels

  fill_in-refilled :
      (price : D) (l l' : PriceLevel D) (levels : Ladder D) (o : Order D) (quantity : D)
      → effective_price o ≡ price
      → update_fill l o quantity ≡ some l'
      → fill_in ((price, l) ∷ levels) o quantity ≡ some (refilled price l' levels)
  unfolding fill_in lookup erase update
  fill_in-refilled price l l' levels o quantity p e =
      ground (arith, p, e, dec.eq_iff price (effective_price o))

  pub refilled-LadderInv :
      (side : Side) (price : D) (l l' : PriceLevel D) (levels : Ladder D)
      → LadderInv side ((price, l) ∷ levels)
      → LevelInv l'
      → l'.price ≡ l.price
      → All (Placed side price) l'.orders
      → LadderInv side (refilled price l' levels)
  refilled-LadderInv side price l l' levels v i p a = elim (Bool-cases (is_empty l'.orders)) [
    | inl e ↦ rw e v.2
    | inr e ↦ rw e (record { inv = i; priced = p ∙ v.0.priced; occupied = e; placed = a }, v.1, v.2)
  ]

  pub queue-refilled :
      (price : D) (l : PriceLevel D) (levels : Ladder D) (orders : List (ℕ × Order D))
      → l.orders ≡ orders
      → queue (refilled price l levels) ≡ values orders ++ queue levels
  queue-refilled price l levels [] e = rw e
  queue-refilled price l levels ((k, o) ∷ t) e = rw e

  left-values :
      (key : ℕ) (o : Order D) (rest : List (ℕ × Order D)) (later : List (Order D))
      → values (if dec.is_zero o.remaining then rest else (key, o) ∷ rest) ++ later
        ≡ left o (values rest ++ later)
  left-values key o rest later = elim (Bool-cases (dec.is_zero o.remaining)) [
    | inl z ↦ rw z
    | inr n ↦ rw n
  ]

  Placed-left :
      (side : Side) (price : D) (key : ℕ) (o : Order D) (rest : List (ℕ × Order D))
      → Placed side price (key, o)
      → All (Placed side price) rest
      → All (Placed side price) (if dec.is_zero o.remaining then rest else (key, o) ∷ rest)
  Placed-left side price key o rest p a = elim (Bool-cases (dec.is_zero o.remaining)) [
    | inl z ↦ rw z a
    | inr n ↦ rw n (p, a)
  ]

  pub refilled-LadderExact :
      (price : D) (l : PriceLevel D) (levels : Ladder D)
      → TotalExact l
      → LadderExact levels
      → LadderExact (refilled price l levels)
  refilled-LadderExact price l levels t a = elim (Bool-cases (is_empty l.orders)) [
    | inl e ↦ rw e a
    | inr e ↦ rw e (t, a)
  ]

  pub fill_in_best :
      (side : Side) (price : D) (l : PriceLevel D) (levels : Ladder D) (key : ℕ) (o o' : Order D)
      (rest : List (ℕ × Order D)) (quantity : D)
      → LadderInv side ((price, l) ∷ levels)
      → l.orders ≡ (key, o) ∷ rest
      → identity o' ≡ identity o
      → effective_price o' ≡ effective_price o
      → o'.side ≡ o.side
      → FilledIn side ((price, l) ∷ levels) o' (values rest ++ queue levels) quantity
  fill_in_best side price l levels key o o' rest quantity v e n p s =
      let r = refill l key o o' rest quantity v.0.inv e n in
      let placed : All (Placed side price) ((key, o) ∷ rest) =
        subst (All (Placed side price)) e v.0.placed in
      record {
        ladder = refilled price r.level levels;
        returns = fill_in-refilled price l r.level levels o' quantity (p ∙ placed.0.0) r.returns;
        queued =
            queue-refilled price r.level levels _ r.orders ∙ left-values key o' rest (queue levels);
        inv = refilled-LadderInv side price l r.level levels v r.inv r.price (
            rw r.orders
              (Placed-left side price key o' rest (p ∙ placed.0.0, s ∙ placed.0.1) placed.1));
        exact = λ x old h m t.
            let same : o ≡ old = ground (arith, top_first l key o rest e) in
            refilled-LadderExact price r.level levels
              (r.exact x o (lookup_first l key o rest e)
                (m ∙ ap (λ (a : Order D). dec.sub a.remaining quantity) (sym same)) t.0)
              t.1;
      }
