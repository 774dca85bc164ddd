-- ===== src/Core/Books/Entry/Tiered.antt =====
-- src/core/orderbook.rs, `insert_only` and `execute`: the tiered paths do not panic. The orders of a
-- level need no common effective price here, since market orders rest at their plain price.
use rust_trader.Base.{◌≡◌, ◌<◌, refl, ap, sym, subst, ◌∙◌, true, false, none, some, if◌then◌else◌}
use mathlib.Core.Option.{some-injective}
use rust_trader.Base.Eq.{nat_eq, int_eq, text_eq, pair_eq}
use rust_trader.Base.Maps.{lookup}
use rust_trader.Base.Index.{Found}
use rust_trader.Base.Outcome.{ok, ok_or}
use rust_trader.Decimal.{DecimalOps, IsExact, decimal_eq}
use rust_trader.Core.Orders.{Order, Side, apply_fill, is_active, booked, partial_fill}
use rust_trader.Core.Levels.{PriceLevel, Identity, identity, locate, update_fill, i64_max}
use rust_trader.Core.Levels.Invariant.{
  LevelInv, absent, held, Held-cases, locate_held, pushed, push_back-pushed, pushed-LevelInv,
}
use rust_trader.Core.Levels.Fill.{
  filled_level, update_fill_lem, filled_level-LevelInv, filled_level_price,
}
use rust_trader.Core.Levels.Totals.{TotalExact, filled_level-TotalExact, pushed-TotalExact}
use rust_trader.Core.Books.{OrderBook, ladder, with_ladder, settle, push_at}
use rust_trader.Core.Books.Placing.{level_for, placed_at}
use rust_trader.Core.Books.Entry.{execute, insert_only}
use rust_trader.Core.Books.Entry.Removal.{locate_absent}

module _ {D : Type 0} ⦃dec : DecimalOps D⦄ where
  -- A fill that the level can take: the order rests in it, is active, and has enough left.
  pub record Fillable (b : OrderBook D) (i : Identity) (side : Side)
      (key_price quantity fill_price : D) (l : PriceLevel D) (o : Order D) : Type 0 where
    pub at_price : lookup key_price (ladder b side) ≡ some l
    pub inv : LevelInv l
    pub rests : locate l i ≡ some o
    pub active : is_active o.state ≡ true
    pub sized : dec.lt dec.zero quantity ≡ true
    pub priced : dec.lt dec.zero fill_price ≡ true
    pub covered : dec.lt o.remaining quantity ≡ false

  -- The level that a fill leaves.
  pub record Filled (l l' : PriceLevel D) : Type 0 where
    pub inv : LevelInv l'
    pub price : l'.price ≡ l.price
    pub exact : IsExact D → TotalExact l → TotalExact l'

  identity-apply_fill :
      (o : Order D) (quantity price : D) → identity (apply_fill o quantity price) ≡ identity o
  unfolding apply_fill
  identity-apply_fill o quantity price = refl

  remaining-apply_fill :
      (o : Order D) (quantity price : D)
      → (apply_fill o quantity price).remaining ≡ dec.sub o.remaining quantity
  unfolding apply_fill
  remaining-apply_fill o quantity price = refl

  execute-steps :
      (b : OrderBook D) (i : Identity) (side : Side) (key_price quantity fill_price : D)
      (l l' : PriceLevel D) (o : Order D)
      → Fillable b i side key_price quantity fill_price l o
      → update_fill l (apply_fill o quantity fill_price) quantity ≡ some l'
      → execute b i side key_price quantity fill_price
        ≡ ok (
          apply_fill o quantity fill_price,
          with_ladder b side (settle key_price l' (ladder b side)),
        )
  unfolding execute
  execute-steps b i side key_price quantity fill_price l l' o f u =
      rw (f.sized, f.priced, execute)
        (rw (f.at_price, ok_or) (rw (f.rests, ok_or) (rw (f.active, f.covered) (rw u refl))))

  -- A fill of an active order for a positive quantity that it has left, at a positive price, goes
  -- through, with no panic where no decimal overflows: it returns the order with the fill, in a book where the level at the price
  -- is still well-formed, with an exact total, and gone if it is empty.
  pub execute_lem :
      (b : OrderBook D) (i : Identity) (side : Side) (key_price quantity fill_price : D)
      (l : PriceLevel D) (o : Order D)
      → Fillable b i side key_price quantity fill_price l o
      → (l' : PriceLevel D) × (execute b i side key_price quantity fill_price
          ≡ ok (
            apply_fill o quantity fill_price,
            with_ladder b side (settle key_price l' (ladder b side)),
          ))
        × Filled l l'
  execute_lem b i side key_price quantity fill_price l o f = elim (Held-cases l i f.inv) [
    | absent n ↦ let bad : none ≡ some o = sym (locate_absent l i n) ∙ f.rests in cc
    | held key k row ↦
        let filled = apply_fill o quantity fill_price in
        let same : row.row ≡ o =
          some-injective row.row o (sym (locate_held l i key k row) ∙ f.rests) in
        let named : i ≡ identity filled =
          sym row.named ∙ ap identity same ∙ sym (identity-apply_fill o quantity fill_price) in
        let row' : Found identity (identity filled) 0 key l.orders =
          subst (λ j. Found identity j 0 key l.orders) named row in
        let k' : lookup (identity filled) l.index ≡ some key =
          subst (λ j. lookup j l.index ≡ some key) named k in
        let here : row'.row ≡ o =
          some-injective row'.row o (sym row'.found ∙ row.found ∙ ap some same) in
        (
          filled_level l key row'.row filled quantity,
          execute-steps b i side key_price quantity fill_price l
              (filled_level l key row'.row filled quantity) o f
              (update_fill_lem l key filled quantity k' row'),
          record {
            inv = filled_level-LevelInv l key filled quantity f.inv row';
            price = filled_level_price l key row'.row filled quantity;
            exact = λ x t.
                filled_level-TotalExact x l key row'.row filled quantity row'.found
                  (remaining-apply_fill o quantity fill_price
                    ∙ ap (λ (r : Order D). dec.sub r.remaining quantity) (sym here))
                  t;
          },
        )
  ]

  -- The order as `insert_only` lets it rest.
  abbrev pub rested : Order D → Order D
  rested new = record new { state = if dec.is_zero new.cum_quantity then booked else partial_fill }

  -- An order with something left, at a price where its level is well-formed, has room and does not
  -- hold it yet, comes to rest there, with no panic where no decimal overflows, behind the others of the level, which stays
  -- well-formed and keeps an exact total.
  pub insert_only_lem :
      (b : OrderBook D) (new : Order D)
      → dec.lt dec.zero new.remaining ≡ true
      → LevelInv (level_for new.price (ladder b new.side))
      → lookup (identity new) (level_for new.price (ladder b new.side)).index ≡ none
      → (level_for new.price (ladder b new.side)).next < i64_max
      → (insert_only b new
          ≡ ok (
            rested new,
            with_ladder b new.side (placed_at new.side new.price (rested new) (ladder b new.side)),
          ))
        × LevelInv (pushed (level_for new.price (ladder b new.side)) (rested new))
        × (IsExact D
            → TotalExact (level_for new.price (ladder b new.side))
            → TotalExact (pushed (level_for new.price (ladder b new.side)) (rested new)))
  unfolding insert_only push_at
  insert_only_lem b new p v n room =
      let l = level_for new.price (ladder b new.side) in
      (
        rw (p, n, insert_only) (rw (push_back-pushed l (rested new) v n room) refl),
        pushed-LevelInv l (rested new) v n,
        λ x t. pushed-TotalExact x l (rested new) t,
      )
