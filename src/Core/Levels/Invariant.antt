-- ===== src/Core/Levels/Invariant.antt =====
-- The invariant of `PriceLevel`: its index lists exactly its orders, each identity once, and
-- priorities ascend below `next`.
use rust_trader.Base.{
  ℕ, ◌+◌, ◌<◌, ◌≡◌, refl, sym, ap, subst, ◌∙◌, inl, inr, none, some, List, [], ◌∷◌, ◌++◌, arith,
  Option-cases,
}
use rust_trader.Base.Eq.{nat_eq, int_eq, text_eq, pair_eq}
use rust_trader.Base.Maps.{lookup, update, erase}
use rust_trader.Base.Index.{
  entries, Ascending, Distinct, insert_by-append, Ascending-append, Ascending-update,
  Ascending-erase, insert_absent, Distinct-append, lookup-erase_self, Distinct-erase,
  entries-append, Found, follow,
}
use rust_trader.Base.Outcome.{ok, err}
use rust_trader.Decimal.{DecimalOps}
use rust_trader.Core.Orders.{Order}
use rust_trader.Core.Levels.{
  PriceLevel, Identity, identity, new_level, push_back, locate, store, remove_order, i64_max,
}

module _ {D : Type 0} where
  abbrev pub index_of : List (ℕ × Order D) → List (Identity × ℕ)
  index_of orders = entries identity orders

  pub record LevelInv (l : PriceLevel D) : Type 0 where
    pub mirrored : l.index ≡ index_of l.orders
    pub ascending : Ascending 0 l.next l.orders
    pub distinct : Distinct (index_of l.orders)

module _ {D : Type 0} ⦃dec : DecimalOps D⦄ where
  pub new_level-LevelInv : (price : D) → LevelInv (new_level price)
  unfolding new_level
  new_level-LevelInv price = record { mirrored = refl; ascending = omega arith; distinct = tt }

  -- An order at the back of the queue.
  abbrev pub pushed : PriceLevel D → Order D → PriceLevel D
  pushed l o = record l {
    orders = l.orders ++ (l.next, o) ∷ [];
    index = l.index ++ (identity o, l.next) ∷ [];
    total = dec.add l.total o.remaining;
    next = l.next + 1;
  }

  pub push_back-pushed :
      (l : PriceLevel D) (o : Order D)
      → LevelInv l
      → lookup (identity o) l.index ≡ none
      → l.next < i64_max
      → push_back l o ≡ some (pushed l o)
  unfolding push_back
  push_back-pushed l o v absent room = ground (
    arith,
    insert_absent (identity o) l.next l.index absent,
    insert_by-append 0 l.next o l.orders v.ascending,
  )

  pub pushed-LevelInv :
      (l : PriceLevel D) (o : Order D)
      → LevelInv l
      → lookup (identity o) l.index ≡ none
      → LevelInv (pushed l o)
  pushed-LevelInv l o v absent = record {
    mirrored =
        ap (λ m. m ++ (identity o, l.next) ∷ []) v.mirrored
        ∙ sym (entries-append identity l.next o l.orders);
    ascending = Ascending-append 0 l.next o l.orders v.ascending;
    distinct = rw (entries-append identity l.next o l.orders) (
        Distinct-append (identity o) l.next (index_of l.orders)
          (subst (λ m. lookup (identity o) m ≡ none) v.mirrored absent) v.distinct);
  }

  -- A level without the order at a priority.
  abbrev pub dropped : PriceLevel D → Identity → ℕ → Order D → PriceLevel D
  dropped l i key o = record l {
    index = erase i l.index;
    orders = erase key l.orders;
    total = dec.sub l.total o.remaining;
  }

  -- What the index says of an identity, in a level that satisfies the invariant.
  pub data Held (l : PriceLevel D) (i : Identity) : Type 0 where
    absent : lookup i l.index ≡ none → Held l i
    held : (key : ℕ) → lookup i l.index ≡ some key → Found identity i 0 key l.orders → Held l i

  pub Held-cases : (l : PriceLevel D) (i : Identity) → LevelInv l → Held l i
  Held-cases l i v = elim (Option-cases (lookup i l.index)) [
    | inl e ↦ absent e
    | inr (key, e) ↦ held key e (
        follow identity i 0 l.next key l.orders v.ascending
          (subst (λ m. lookup i m ≡ some key) v.mirrored e))
  ]

  pub dropped-LevelInv :
      (l : PriceLevel D) (i : Identity) (key : ℕ)
      → LevelInv l
      → (f : Found identity i 0 key l.orders) → LevelInv (dropped l i key f.row)
  dropped-LevelInv l i key v f = record {
    mirrored = ap (erase i) v.mirrored ∙ sym f.erased;
    ascending = Ascending-erase 0 l.next key l.orders v.ascending;
    distinct = rw f.erased (Distinct-erase i (index_of l.orders) v.distinct);
  }

  pub remove_order_absent :
      (l : PriceLevel D) (i : Identity) → lookup i l.index ≡ none → remove_order l i ≡ err tt
  unfolding remove_order
  remove_order_absent l i h = ground arith

  pub remove_order_held :
      (l : PriceLevel D) (i : Identity) (key : ℕ)
      → lookup i l.index ≡ some key
      → (f : Found identity i 0 key l.orders) → remove_order l i ≡ ok (f.row, dropped l i key f.row)
  unfolding remove_order
  remove_order_held l i key h f = ground (arith, f.found)

  -- A removed order is not in the level any more.
  pub dropped_absent :
      (l : PriceLevel D) (i : Identity) (key : ℕ) (o : Order D)
      → LevelInv l
      → lookup i (dropped l i key o).index ≡ none
  dropped_absent l i key o v = rw v.mirrored (lookup-erase_self i (index_of l.orders) v.distinct)

  pub locate_held :
      (l : PriceLevel D) (i : Identity) (key : ℕ)
      → lookup i l.index ≡ some key
      → (f : Found identity i 0 key l.orders) → locate l i ≡ some f.row
  unfolding locate
  locate_held l i key h f = ground (arith, f.found)

  -- The level with a new version of an order that it holds.
  abbrev pub stored : PriceLevel D → ℕ → Order D → PriceLevel D
  stored l key o = record l { orders = update key o l.orders }

  pub store_held :
      (l : PriceLevel D) (i : Identity) (key : ℕ) (o : Order D)
      → lookup i l.index ≡ some key
      → (f : Found identity i 0 key l.orders) → store l i o ≡ some (stored l key o)
  unfolding store
  store_held l i key o h f = ground (arith, f.found)

  pub stored-LevelInv :
      (l : PriceLevel D) (i : Identity) (key : ℕ) (o : Order D)
      → LevelInv l
      → (f : Found identity i 0 key l.orders) → identity o ≡ i
      → LevelInv (stored l key o)
  stored-LevelInv l i key o v f n = record {
    mirrored = v.mirrored ∙ sym (f.updated o n);
    ascending = Ascending-update 0 l.next key o l.orders v.ascending;
    distinct = rw (f.updated o n) v.distinct;
  }
