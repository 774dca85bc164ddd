-- ===== src/Core/Levels/Fill.antt =====
-- `PriceLevel::update_fill` under the invariant: it never panics, and either drops the filled order
-- or keeps its new version in its place.
use rust_trader.Base.{ℕ, ◌≡◌, refl, some, List, ◌∷◌, arith, if◌then◌else◌, inl, inr, Bool-cases}
use rust_trader.Base.Eq.{nat_eq, int_eq, text_eq, pair_eq}
use rust_trader.Base.Maps.{erase, update, lookup, beq_self}
use rust_trader.Base.Index.{Found}
use rust_trader.Decimal.{DecimalOps}
use rust_trader.Core.Orders.{Order}
use rust_trader.Core.Levels.{PriceLevel, identity, update_fill}
use rust_trader.Core.Levels.Invariant.{
  LevelInv, dropped, stored, remove_order_held, store_held, dropped-LevelInv, stored-LevelInv,
}

module _ {D : Type 0} ⦃dec : DecimalOps D⦄ where
  -- The level after a fill: the order is gone if nothing of it is left.
  abbrev pub filled_level : PriceLevel D → ℕ → Order D → Order D → D → PriceLevel D
  filled_level l key row o quantity =
      if dec.is_zero o.remaining
      then dropped l (identity o) key row
      else stored (record l { total = dec.sub l.total quantity }) key o

  pub update_fill_lem :
      (l : PriceLevel D) (key : ℕ) (o : Order D) (quantity : D)
      → lookup (identity o) l.index ≡ some key
      → (f : Found identity (identity o) 0 key l.orders)
      → update_fill l o quantity ≡ some (filled_level l key f.row o quantity)
  unfolding update_fill
  update_fill_lem l key o quantity h f = ground (
    arith,
    remove_order_held l (identity o) key h f,
    store_held (record l { total = dec.sub l.total quantity }) (identity o) key o h f,
  )

  pub filled_level-LevelInv :
      (l : PriceLevel D) (key : ℕ) (o : Order D) (quantity : D)
      → LevelInv l
      → (f : Found identity (identity o) 0 key l.orders)
      → LevelInv (filled_level l key f.row o quantity)
  filled_level-LevelInv l key o quantity v f = elim (Bool-cases (dec.is_zero o.remaining)) [
    | inl z ↦ rw z (dropped-LevelInv l (identity o) key v f)
    | inr n ↦ rw n (
        stored-LevelInv (record l { total = dec.sub l.total quantity }) (identity o) key o
          (record { mirrored = v.mirrored; ascending = v.ascending; distinct = v.distinct }) f refl)
  ]

  -- The index leads to the first order in the queue.
  pub lookup_top :
      (l : PriceLevel D) (key : ℕ) (o : Order D) (rest : List (ℕ × Order D))
      → LevelInv l
      → l.orders ≡ (key, o) ∷ rest
      → lookup (identity o) l.index ≡ some key
  unfolding lookup
  lookup_top l key o rest v e = rw (v.mirrored, e) (ground (arith, beq_self (identity o)))

  pub filled_level_orders :
      (l : PriceLevel D) (key : ℕ) (row o o' : Order D) (rest : List (ℕ × Order D)) (quantity : D)
      → l.orders ≡ (key, o) ∷ rest
      → (filled_level l key row o' quantity).orders
        ≡ (if dec.is_zero o'.remaining then rest else (key, o') ∷ rest)
  unfolding erase update
  filled_level_orders l key row o o' rest quantity e =
      elim (Bool-cases (dec.is_zero o'.remaining)) [
        | inl z ↦ rw z (rw e (ground arith))
        | inr n ↦ rw n (rw e (ground arith))
      ]

  pub filled_level_price :
      (l : PriceLevel D) (key : ℕ) (row o : Order D) (quantity : D)
      → (filled_level l key row o quantity).price ≡ l.price
  filled_level_price l key row o quantity = ground arith
