-- ===== src/Core/Books/Enqueue.antt =====
-- Inserting into the price levels is inserting into the queue of a side, by price and then time.
use rust_trader.Base.{
  ℕ, ◌<◌, ◌≡◌, refl, ap, sym, subst, ◌∙◌, inl, inr, true, false, none, some, List, [], ◌∷◌, ◌++◌,
  arith, Bool-cases,
}
use rust_trader.Base.Eq.{nat_eq, int_eq, text_eq, pair_eq}
use rust_trader.Base.Lists.{All, is_empty}
use rust_trader.Base.Maps.{lookup, insert_by, values}
use rust_trader.Decimal.{DecimalOps, IsOrdered, decimal_eq}
use rust_trader.Core.Orders.{Order, Side, effective_price}
use rust_trader.Core.Levels.{PriceLevel, identity, new_level, i64_max}
use rust_trader.Core.Levels.Invariant.{pushed, push_back-pushed}
use rust_trader.Core.Books.{Ladder, better, push_at}
use rust_trader.Core.Books.Ladders.{queue, LadderInv, Placed, Worse}
use rust_trader.Core.Books.Placing.{
  level_for, level_for-LevelInv, enqueue, placed_at, pushed-LevelAt, insert_by-LadderInv,
  better_connected, Worse-trans,
}
use rust_trader.Core.Books.Uncrossed.{better_irrefl}

module _ {D : Type 0} ⦃dec : DecimalOps D⦄ (ord : IsOrdered D) where
  enqueue-skip :
      (side : Side) (price q : D) (o : Order D) (t : List (ℕ × Order D)) (later : List (Order D))
      → All (Placed side q) t
      → better side price q ≡ false
      → enqueue side price o (values t ++ later) ≡ values t ++ enqueue side price o later
  enqueue-skip side price q o [] later a h = refl
  enqueue-skip side price q o ((k, p) ∷ t) later a h =
      let n : better side price (effective_price p) ≡ false = rw a.0.0 h in
      rw n (ap (◌∷◌ p) (enqueue-skip side price q o t later a.1 h))

  enqueue-front :
      (side : Side) (price q : D) (o : Order D) (t : List (ℕ × Order D)) (later : List (Order D))
      → is_empty t ≡ false
      → All (Placed side q) t
      → better side price q ≡ true
      → enqueue side price o (values t ++ later) ≡ o ∷ (values t ++ later)
  enqueue-front side price q o [] later n a h = cc
  enqueue-front side price q o ((k, p) ∷ t) later n a h =
      let b : better side price (effective_price p) ≡ true = rw a.0.0 h in rw b

  enqueue_before :
      (side : Side) (price : D) (o : Order D) (levels : Ladder D)
      → LadderInv side levels
      → Worse side price levels
      → enqueue side price o (queue levels) ≡ o ∷ queue levels
  enqueue_before side price o [] v w = refl
  enqueue_before side price o ((q, l) ∷ levels) v w =
      enqueue-front side price q o l.orders (queue levels) v.0.occupied v.0.placed w.0

  pub lookup-Worse :
      (side : Side) (price : D) (levels : Ladder D)
      → Worse side price levels
      → lookup price levels ≡ none
  unfolding lookup
  lookup-Worse side price [] w = refl
  lookup-Worse side price ((q, l) ∷ levels) w = elim (Bool-cases (dec.eq q price)) [
    | inl same ↦
        let e : q ≡ price = (dec.eq_iff q price).0 same in
        let b : better side price price ≡ true = subst (λ c. better side price c ≡ true) e w.0 in
        absurd (ground (arith, better_irrefl ord side price))
    | inr other ↦ rw other (lookup-Worse side price levels w.1)
  ]

  -- The key of a level that is not at the price.
  eq_of_better : (side : Side) (p q : D) → better side p q ≡ true → dec.eq q p ≡ false
  eq_of_better side p q h = elim (Bool-cases (dec.eq q p)) [
    | inl same ↦
        let b : better side p p ≡ true =
          subst (λ c. better side p c ≡ true) ((dec.eq_iff q p).0 same) h in
        absurd (ground (arith, better_irrefl ord side p))
    | inr other ↦ other
  ]

  eq_of_worse : (side : Side) (p q : D) → better side q p ≡ true → dec.eq q p ≡ false
  eq_of_worse side p q h = elim (Bool-cases (dec.eq q p)) [
    | inl same ↦
        let b : better side p p ≡ true =
          subst (λ c. better side c p ≡ true) ((dec.eq_iff q p).0 same) h in
        absurd (ground (arith, better_irrefl ord side p))
    | inr other ↦ other
  ]

  values-append :
      (t : List (ℕ × Order D)) (k : ℕ) (o : Order D) (later : List (Order D))
      → values (t ++ (k, o) ∷ []) ++ later ≡ values t ++ o ∷ later
  values-append [] k o later = refl
  values-append ((j, p) ∷ t) k o later = ap (◌∷◌ p) (values-append t k o later)

  placed_at_later :
      (side : Side) (price q : D) (o : Order D) (l : PriceLevel D) (levels : Ladder D)
      → better side price q ≡ false
      → better side q price ≡ true
      → placed_at side price o ((q, l) ∷ levels) ≡ (q, l) ∷ placed_at side price o levels
  unfolding insert_by lookup
  placed_at_later side price q o l levels h later =
      let same : level_for price ((q, l) ∷ levels) ≡ level_for price levels =
        rw (eq_of_worse side price q later) in
      ap (λ m. insert_by (better side) price (pushed m o) ((q, l) ∷ levels)) same ∙ rw (h, later)

  pub queue-placed_at :
      (side : Side) (price : D) (o : Order D) (levels : Ladder D)
      → LadderInv side levels
      → queue (placed_at side price o levels) ≡ enqueue side price o (queue levels)
  unfolding insert_by lookup new_level
  queue-placed_at side price o [] v = refl
  queue-placed_at side price o ((q, l) ∷ levels) v = elim (Bool-cases (better side price q)) [
    | inl before ↦
        let w = Worse-trans ord side price q levels before v.1 in
        rw (before, eq_of_better side price q before, lookup-Worse side price levels w)
          (sym
            (enqueue-front side price q o l.orders (queue levels) v.0.occupied v.0.placed before))
    | inr h ↦ elim (Bool-cases (better side q price)) [
      | inl later ↦
          ap queue (placed_at_later side price q o l levels h later)
          ∙ ap (◌++◌ (values l.orders)) (queue-placed_at side price o levels v.2)
          ∙ sym (enqueue-skip side price q o l.orders (queue levels) v.0.placed h)
      | inr k ↦
          let e : q ≡ price = better_connected ord side q price k h in
          rw (h, k, (dec.eq_iff q price).1 e)
            (values-append l.orders l.next o (queue levels)
              ∙ ap (◌++◌ (values l.orders)) (
                  sym (
                    enqueue_before side price o levels v.2
                      (subst (λ c. Worse side c levels) e v.1)))
              ∙ sym (enqueue-skip side price q o l.orders (queue levels) v.0.placed h))
    ]
  ]

  pub placed_at-LadderInv :
      (side : Side) (price : D) (o : Order D) (levels : Ladder D)
      → LadderInv side levels
      → effective_price o ≡ price
      → o.side ≡ side
      → lookup (identity o) (level_for price levels).index ≡ none
      → LadderInv side (placed_at side price o levels)
  placed_at-LadderInv side price o levels v p s absent =
      insert_by-LadderInv ord side price (pushed (level_for price levels) o) levels
        (pushed-LevelAt side price o levels v p s absent) v

module _ {D : Type 0} ⦃dec : DecimalOps D⦄ where
  pub push_at-placed_at :
      (side : Side) (price : D) (o : Order D) (levels : Ladder D)
      → LadderInv side levels
      → lookup (identity o) (level_for price levels).index ≡ none
      → (level_for price levels).next < i64_max
      → push_at side price o levels ≡ some (placed_at side price o levels)
  unfolding push_at
  push_at-placed_at side price o levels v absent room = rw (
      push_back-pushed (level_for price levels) o (level_for-LevelInv side price levels v).0 absent
        room)
