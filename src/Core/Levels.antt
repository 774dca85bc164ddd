-- ===== src/Core/Levels.antt =====
-- src/core/orderbook.rs, `PriceLevel`: the orders of one price by their priority, an index from an
-- order's identity to its priority, and the running total of what remains. A priority is an `i64`
-- that counts up from 0. In an `Option` result `none` is a panic.
pub mod Invariant
pub mod Fill
pub mod Totals
use rust_trader.Base.{ℕ, ◌+◌, Option, none, some, List, [], ◌∷◌, ltb, ◌==◌, if◌then◌else◌}
use rust_trader.Base.Eq.{Text, nat_eq, int_eq, text_eq, pair_eq}
use rust_trader.Base.Maps.{lookup, insert, erase, update, insert_by, contains_key}
use rust_trader.Base.Outcome.{Outcome, ok, ◌>>=◌, ok_or, unwrap, unwrap_ok}
use rust_trader.Decimal.{DecimalOps}
use rust_trader.Core.Orders.{Order, OrderId}

abbrev pub i64_max : ℕ
i64_max = 9223372036854775807

abbrev pub Identity : Type 0
Identity = Text × OrderId

pub record PriceLevel (D : Type 0) : Type 0 where
  pub price : D
  pub orders : List (ℕ × Order D)
  pub index : List (Identity × ℕ)
  pub total : D
  pub next : ℕ

abbrev pub identity : {D : Type 0} → Order D → Identity
identity o = (o.session_id, o.id)

-- `first_key_value().unwrap().1`
unfoldable pub top : {D : Type 0} → List (ℕ × Order D) → Option (Order D)
top [] = none
top ((k, o) ∷ rest) = some o

module _ {D : Type 0} ⦃dec : DecimalOps D⦄ where
  unfoldable pub new_level : D → PriceLevel D
  new_level price = record { price = price; orders = []; index = []; total = dec.zero; next = 0 }

  unfoldable pub insert_at : PriceLevel D → ℕ → Order D → Option (PriceLevel D)
  insert_at l key o =
      if contains_key (lookup (identity o) l.index)
      then none
      else some (record l {
        total = dec.add l.total o.remaining;
        index = insert (identity o) key l.index;
        orders = insert_by ltb key o l.orders;
      })

  unfoldable pub push_back : PriceLevel D → Order D → Option (PriceLevel D)
  unfolding insert_at
  push_back l o =
      if l.next == i64_max then none else insert_at (record l { next = l.next + 1 }) l.next o

  -- `locate_mut`, for the read; `store` is the write through the reference that it returns.
  unfoldable pub locate : PriceLevel D → Identity → Option (Order D)
  locate l i = elim (lookup i l.index) [ none ↦ none | some key ↦ lookup key l.orders ]

  unfoldable pub store : PriceLevel D → Identity → Order D → Option (PriceLevel D)
  store l i o = elim (lookup i l.index) [
    | none ↦ none
    | some key ↦ elim (lookup key l.orders) [
      | none ↦ none
      | some _ ↦ some (record l { orders = update key o l.orders })
    ]
  ]

  -- The removed order comes with the level that is left.
  unfoldable pub remove_order :
      PriceLevel D → Identity → Outcome (Unit {0}) (Order D × PriceLevel D)
  remove_order l i = do
    key ← ok_or tt (lookup i l.index)
    order ← unwrap (lookup key l.orders)
    ok (
      order,
      record l {
        index = erase i l.index;
        orders = erase key l.orders;
        total = dec.sub l.total order.remaining;
      },
    )

  abbrev second : Option (Order D × PriceLevel D) → Option (PriceLevel D)
  second none = none
  second (some (o, l)) = some l

  unfoldable pub update_fill : PriceLevel D → Order D → D → Option (PriceLevel D)
  unfolding remove_order store
  update_fill l o quantity =
      if dec.is_zero o.remaining
      then second (unwrap_ok (remove_order l (identity o)))
      else store (record l { total = dec.sub l.total quantity }) (identity o) o
