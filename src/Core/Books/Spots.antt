-- ===== src/Core/Books/Spots.antt =====
-- The level at a price, wherever it stands on its side, and what replacing it does to the queue.
use rust_trader.Base.{
  ℕ, ◌≡◌, refl, ap, sym, subst, ◌∙◌, inl, inr, true, false, some, List, [], ◌∷◌, ◌++◌, arith,
  Bool-cases,
}
use mathlib.Core.List.{append_assoc}
use mathlib.Core.Option.{some-injective}
use rust_trader.Base.Eq.{nat_eq, int_eq, text_eq, pair_eq}
use rust_trader.Base.Lists.{All, is_empty}
use rust_trader.Base.Maps.{lookup, update, erase, values}
use rust_trader.Decimal.{DecimalOps, decimal_eq}
use rust_trader.Core.Orders.{Order, Side}
use rust_trader.Core.Levels.{PriceLevel}
use rust_trader.Core.Levels.Invariant.{LevelInv}
use rust_trader.Core.Levels.Totals.{TotalExact}
use rust_trader.Core.Books.{Ladder, settle}
use rust_trader.Core.Books.Ladders.{
  queue, LadderInv, LevelAt, Placed, Worse, LadderExact, refilled, refilled-LadderInv,
  queue-refilled, refilled-LadderExact,
}

-- An order in a table of orders, and what taking it out does to the order of the rest.
pub record Cut {D : Type 0} (key : ℕ) (o : Order D) (t : List (ℕ × Order D)) : Type 0 where
  pub front : List (Order D)
  pub back : List (Order D)
  pub whole : values t ≡ front ++ o ∷ back
  pub without : values (erase key t) ≡ front ++ back

pub cut :
    {D : Type 0} (key : ℕ) (o : Order D) (t : List (ℕ × Order D))
    → lookup key t ≡ some o
    → Cut key o t
unfolding lookup erase
cut key o [] h = cc
cut key o ((k, p) ∷ t) h = elim (Bool-cases (nat_eq.beq k key)) [
  | inl same ↦
      let e : some p ≡ some o = rw same at h in
      let e' : p ≡ o = ground arith in
      record { front = []; back = values t; whole = rw e'; without = rw same }
  | inr other ↦
      let h' : lookup key t ≡ some o = rw other at h in
      let c = cut key o t h' in
      record {
        front = p ∷ c.front;
        back = c.back;
        whole = ap (◌∷◌ p) c.whole;
        without = rw other (ap (◌∷◌ p) c.without);
      }
]

module _ {D : Type 0} ⦃dec : DecimalOps D⦄ where
  pub record Spot (side : Side) (price : D) (l : PriceLevel D) (levels : Ladder D) : Type 0 where
    pub ahead : List (Order D)
    pub behind : List (Order D)
    pub queued : queue levels ≡ ahead ++ (values l.orders ++ behind)
    pub stands : LevelAt side price l
    pub requeued :
        (m : PriceLevel D) → queue (settle price m levels) ≡ ahead ++ (values m.orders ++ behind)
    pub keeps :
        (m : PriceLevel D)
        → LevelInv m
        → m.price ≡ l.price
        → All (Placed side price) m.orders
        → LadderInv side (settle price m levels)
    pub exact :
        LadderExact levels
        → TotalExact l × ((m : PriceLevel D) → TotalExact m → LadderExact (settle price m levels))

  pub settle_same :
      (q price : D) (m k : PriceLevel D) (levels : Ladder D)
      → dec.eq q price ≡ true
      → settle price m ((q, k) ∷ levels) ≡ refilled q m levels
  unfolding settle erase update
  settle_same q price m k levels h = elim (Bool-cases (is_empty m.orders)) [
    | inl e ↦ rw (e, h)
    | inr n ↦ rw (n, h)
  ]

  pub settle_other :
      (q price : D) (m k : PriceLevel D) (levels : Ladder D)
      → dec.eq q price ≡ false
      → settle price m ((q, k) ∷ levels) ≡ (q, k) ∷ settle price m levels
  unfolding settle erase update
  settle_other q price m k levels h = elim (Bool-cases (is_empty m.orders)) [
    | inl e ↦ rw (e, h)
    | inr n ↦ rw (n, h)
  ]

  refilled-Worse :
      (side : Side) (p q : D) (m k : PriceLevel D) (levels : Ladder D)
      → Worse side p ((q, k) ∷ levels)
      → Worse side p (refilled q m levels)
  refilled-Worse side p q m k levels w = elim (Bool-cases (is_empty m.orders)) [
    | inl e ↦ rw e w.1
    | inr n ↦ rw n w
  ]

  settle-Worse :
      (side : Side) (p price : D) (m : PriceLevel D) (levels : Ladder D)
      → Worse side p levels
      → Worse side p (settle price m levels)
  settle-Worse side p price m [] w = unfold settle erase update in ground arith
  settle-Worse side p price m ((q, k) ∷ levels) w = elim (Bool-cases (dec.eq q price)) [
    | inl same ↦ rw (settle_same q price m k levels same) (refilled-Worse side p q m k levels w)
    | inr other ↦
        rw (settle_other q price m k levels other) (w.0, settle-Worse side p price m levels w.1)
  ]

  Spot-here :
      (side : Side) (q price : D) (l : PriceLevel D) (levels : Ladder D)
      → LadderInv side ((q, l) ∷ levels)
      → q ≡ price
      → Spot side price l ((q, l) ∷ levels)
  Spot-here side q price l levels v e =
      let h = (dec.eq_iff q price).1 e in
      record {
        ahead = [];
        behind = queue levels;
        queued = refl;
        stands = subst (λ c. LevelAt side c l) e v.0;
        requeued = λ m.
            ap queue (settle_same q price m l levels h) ∙ queue-refilled q m levels m.orders refl;
        keeps = λ m i p a. rw (settle_same q price m l levels h) (
            refilled-LadderInv side q l m levels v i p
              (subst (λ c. All (Placed side c) m.orders) (sym e) a));
        exact = λ t. (
          t.0,
          λ m x. rw (settle_same q price m l levels h) (refilled-LadderExact q m levels x t.1),
        );
      }

  Spot-further :
      (side : Side) (q price : D) (k l : PriceLevel D) (levels : Ladder D)
      → LadderInv side ((q, k) ∷ levels)
      → dec.eq q price ≡ false
      → Spot side price l levels
      → Spot side price l ((q, k) ∷ levels)
  Spot-further side q price k l levels v h s = record {
    ahead = values k.orders ++ s.ahead;
    behind = s.behind;
    queued =
        ap (◌++◌ (values k.orders)) s.queued
        ∙ sym (append_assoc (values k.orders) s.ahead (values l.orders ++ s.behind));
    stands = s.stands;
    requeued = λ m.
        ap queue (settle_other q price m k levels h)
        ∙ ap (◌++◌ (values k.orders)) (s.requeued m)
        ∙ sym (append_assoc (values k.orders) s.ahead (values m.orders ++ s.behind));
    keeps = λ m i p a.
        rw (settle_other q price m k levels h)
          (v.0, settle-Worse side q price m levels v.1, s.keeps m i p a);
    exact = λ t.
        let x = s.exact t.1 in (x.0, λ m y. rw (settle_other q price m k levels h) (t.0, x.1 m y));
  }

  pub spot :
      (side : Side) (price : D) (l : PriceLevel D) (levels : Ladder D)
      → LadderInv side levels
      → lookup price levels ≡ some l
      → Spot side price l levels
  unfolding lookup
  spot side price l [] v h = cc
  spot side price l ((q, k) ∷ levels) v h = elim (Bool-cases (dec.eq q price)) [
    | inl same ↦
        let e : some k ≡ some l = rw same at h in
        subst (λ m. Spot side price m ((q, k) ∷ levels)) (some-injective k l e)
          (Spot-here side q price k levels v ((dec.eq_iff q price).0 same))
    | inr other ↦
        let h' : lookup price levels ≡ some l = rw other at h in
        Spot-further side q price k l levels v other (spot side price l levels v.2 h')
  ]
