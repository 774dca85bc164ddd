-- ===== src/Core/Books/Placing.antt =====
-- `push_at` and `insert`: an order takes its place behind all orders of its side at the same price
-- or a better one.
use rust_trader.Base.{
  ℕ, ◌≡◌, refl, sym, subst, ◌∙◌, inl, inr, true, false, none, List, [], ◌∷◌, ◌++◌, arith,
  if◌then◌else◌, Bool-cases,
}
use rust_trader.Base.Eq.{nat_eq, int_eq, text_eq, pair_eq}
use rust_trader.Base.Lists.{All, All-append, is_empty}
use rust_trader.Base.Maps.{lookup, insert_by}
use rust_trader.Decimal.{DecimalOps, IsOrdered, decimal_eq}
use rust_trader.Core.Orders.{Order, Side, buy, sell, effective_price}
use rust_trader.Core.Levels.{PriceLevel, identity, new_level}
use rust_trader.Core.Levels.Invariant.{LevelInv, new_level-LevelInv, pushed, pushed-LevelInv}
use rust_trader.Core.Books.{Ladder, better, or_new}
use rust_trader.Core.Books.Ladders.{LadderInv, LevelAt, Placed, Worse}

module _ {D : Type 0} ⦃dec : DecimalOps D⦄ where
  abbrev pub level_for : D → Ladder D → PriceLevel D
  level_for price levels = or_new (lookup price levels) (new_level price)

  -- The place of an order in a queue.
  abbrev pub enqueue : Side → D → Order D → List (Order D) → List (Order D)
  enqueue side price o [] = o ∷ []
  enqueue side price o (p ∷ ps) =
      if better side price (effective_price p) then o ∷ p ∷ ps else p ∷ enqueue side price o ps

  abbrev pub placed_at : Side → D → Order D → Ladder D → Ladder D
  placed_at side price o levels =
      insert_by (better side) price (pushed (level_for price levels) o) levels

  pub level_for-LevelInv :
      (side : Side) (price : D) (levels : Ladder D)
      → LadderInv side levels
      → LevelInv (level_for price levels)
        × ((level_for price levels).price ≡ price)
        × All (Placed side price) (level_for price levels).orders
  unfolding lookup
  level_for-LevelInv side price [] v =
      (new_level-LevelInv price, unfold new_level in refl, unfold new_level in tt)
  level_for-LevelInv side price ((q, l) ∷ levels) v = elim (Bool-cases (dec.eq q price)) [
    | inl same ↦
        let e : q ≡ price = (dec.eq_iff q price).0 same in
        rw same (v.0.inv, v.0.priced ∙ e, subst (λ c. All (Placed side c) l.orders) e v.0.placed)
    | inr other ↦ rw other (level_for-LevelInv side price levels v.2)
  ]

  pushed_occupied : (l : PriceLevel D) (o : Order D) → is_empty (pushed l o).orders ≡ false
  pushed_occupied l o = occupied l.orders
    where
      occupied : (t : List (ℕ × Order D)) → is_empty (t ++ (l.next, o) ∷ []) ≡ false
      occupied [] = refl
      occupied (e ∷ t) = refl

  pub pushed-LevelAt :
      (side : Side) (price : D) (o : Order D) (levels : Ladder D)
      → LadderInv side levels
      → effective_price o ≡ price
      → o.side ≡ side
      → lookup (identity o) (level_for price levels).index ≡ none
      → LevelAt side price (pushed (level_for price levels) o)
  pushed-LevelAt side price o levels v p s absent =
      let (inv, priced, placed) = level_for-LevelInv side price levels v in
      let l = level_for price levels in
      record {
        inv = pushed-LevelInv l o inv absent;
        priced = priced;
        occupied = pushed_occupied l o;
        placed = All-append (Placed side price) l.orders ((l.next, o) ∷ []) placed ((p, s), tt);
      }

module _ {D : Type 0} ⦃dec : DecimalOps D⦄ (ord : IsOrdered D) where
  better_trans :
      (side : Side) (a b c : D)
      → better side a b ≡ true
      → better side b c ≡ true
      → better side a c ≡ true
  better_trans buy a b c h k = ord.lt_trans c b a k h
  better_trans sell a b c h k = ord.lt_trans a b c h k

  pub better_connected :
      (side : Side) (a b : D) → better side a b ≡ false → better side b a ≡ false → a ≡ b
  better_connected buy a b h k = ord.lt_connected a b k h
  better_connected sell a b h k = ord.lt_connected a b h k

  pub Worse-trans :
      (side : Side) (p q : D) (levels : Ladder D)
      → better side p q ≡ true
      → Worse side q levels
      → Worse side p levels
  Worse-trans side p q [] h w = tt
  Worse-trans side p q ((r, l) ∷ levels) h w =
      (better_trans side p q r h w.0, Worse-trans side p q levels h w.1)

  Worse-insert :
      (side : Side) (p q : D) (m : PriceLevel D) (levels : Ladder D)
      → better side q p ≡ true
      → Worse side q levels
      → Worse side q (insert_by (better side) p m levels)
  unfolding insert_by
  Worse-insert side p q m [] h w = (h, tt)
  Worse-insert side p q m ((r, l) ∷ levels) h w =
      ground (arith, Worse-insert side p q m levels h w.1)

  pub insert_by-LadderInv :
      (side : Side) (p : D) (m : PriceLevel D) (levels : Ladder D)
      → LevelAt side p m
      → LadderInv side levels
      → LadderInv side (insert_by (better side) p m levels)
  unfolding insert_by
  insert_by-LadderInv side p m [] a v = (a, tt, tt)
  insert_by-LadderInv side p m ((q, l) ∷ levels) a v = elim (Bool-cases (better side p q)) [
    | inl before ↦ rw before (a, (before, Worse-trans side p q levels before v.1), v)
    | inr h ↦ elim (Bool-cases (better side q p)) [
      | inl later ↦
          rw (h, later)
            (
              v.0,
              Worse-insert side p q m levels later v.1,
              insert_by-LadderInv side p m levels a v.2,
            )
      | inr k ↦
          let e : q ≡ p = better_connected side q p k h in
          rw (h, k) (subst (λ c. LevelAt side c m) (sym e) a, v.1, v.2)
    ]
  ]
