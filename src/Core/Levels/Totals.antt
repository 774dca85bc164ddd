-- ===== src/Core/Levels/Totals.antt =====
-- The running total of a level against the sum of what its orders have left.
use rust_trader.Base.{
  ℕ, ◌≡◌, refl, ap, sym, ◌∙◌, inl, inr, some, List, [], ◌∷◌, ◌++◌, arith, ◌==◌, Bool-cases,
}
use rust_trader.Base.Eq.{nat_eq, int_eq, text_eq, pair_eq}
use rust_trader.Base.Maps.{lookup, update, erase}
use rust_trader.Decimal.{DecimalOps, IsExact}
use rust_trader.Decimal.Sums.{sub-eq, swap_last}
use rust_trader.Core.Orders.{Order}
use rust_trader.Core.Levels.{PriceLevel, identity, new_level}
use rust_trader.Core.Levels.Invariant.{pushed, dropped}
use rust_trader.Core.Levels.Fill.{filled_level}

module _ {D : Type 0} ⦃dec : DecimalOps D⦄ where
  abbrev pub remaining_sum : List (ℕ × Order D) → D
  remaining_sum [] = dec.zero
  remaining_sum ((k, o) ∷ t) = dec.add o.remaining (remaining_sum t)

  abbrev pub TotalExact : PriceLevel D → Type 0
  TotalExact l = l.total ≡ remaining_sum l.orders

  pub new_level-TotalExact : (price : D) → TotalExact (new_level price)
  unfolding new_level
  new_level-TotalExact price = refl

module _ {D : Type 0} ⦃dec : DecimalOps D⦄ (x : IsExact D) where
  remaining_sum-append :
      (k : ℕ) (o : Order D) (t : List (ℕ × Order D))
      → remaining_sum (t ++ (k, o) ∷ []) ≡ dec.add (remaining_sum t) o.remaining
  remaining_sum-append k o [] = x.add_comm o.remaining dec.zero
  remaining_sum-append k o ((j, p) ∷ t) =
      ap (dec.add p.remaining) (remaining_sum-append k o t)
      ∙ sym (x.add_assoc p.remaining (remaining_sum t) o.remaining)

  remaining_sum-erase :
      (k : ℕ) (o : Order D) (t : List (ℕ × Order D))
      → lookup k t ≡ some o
      → remaining_sum t ≡ dec.add (remaining_sum (erase k t)) o.remaining
  unfolding lookup erase
  remaining_sum-erase k o [] h = cc
  remaining_sum-erase k o ((j, p) ∷ t) h = elim (Bool-cases (j == k)) [
    | inl same ↦
        let e : some p ≡ some o = rw same at h in
        let e' : p ≡ o = ground arith in rw same (rw e' (x.add_comm o.remaining (remaining_sum t)))
    | inr other ↦
        let h' : lookup k t ≡ some o = rw other at h in
        rw other (
          ap (dec.add p.remaining) (remaining_sum-erase k o t h')
          ∙ sym (x.add_assoc p.remaining (remaining_sum (erase k t)) o.remaining))
  ]

  remaining_sum-update :
      (k : ℕ) (o o' : Order D) (q : D) (t : List (ℕ × Order D))
      → lookup k t ≡ some o
      → o.remaining ≡ dec.add o'.remaining q
      → remaining_sum t ≡ dec.add (remaining_sum (update k o' t)) q
  unfolding lookup update
  remaining_sum-update k o o' q [] h e = cc
  remaining_sum-update k o o' q ((j, p) ∷ t) h e = elim (Bool-cases (j == k)) [
    | inl same ↦
        let s : some p ≡ some o = rw same at h in
        let s' : p ≡ o = ground arith in
        rw same (rw s' (rw e (swap_last x o'.remaining q (remaining_sum t))))
    | inr other ↦
        let h' : lookup k t ≡ some o = rw other at h in
        rw other (
          ap (dec.add p.remaining) (remaining_sum-update k o o' q t h' e)
          ∙ sym (x.add_assoc p.remaining (remaining_sum (update k o' t)) q))
  ]

  pub pushed-TotalExact : (l : PriceLevel D) (o : Order D) → TotalExact l → TotalExact (pushed l o)
  pushed-TotalExact l o h =
      ap (λ s. dec.add s o.remaining) h ∙ sym (remaining_sum-append l.next o l.orders)

  pub dropped-TotalExact :
      (l : PriceLevel D) (key : ℕ) (o : Order D)
      → lookup key l.orders ≡ some o
      → TotalExact l
      → TotalExact (dropped l (identity o) key o)
  dropped-TotalExact l key o f h =
      sub-eq x l.total o.remaining (remaining_sum (erase key l.orders))
        (h ∙ remaining_sum-erase key o l.orders f)

  -- A fill debits the total by its quantity, and by what the order had left if it is used up.
  pub filled_level-TotalExact :
      (l : PriceLevel D) (key : ℕ) (row o : Order D) (quantity : D)
      → lookup key l.orders ≡ some row
      → o.remaining ≡ dec.sub row.remaining quantity
      → TotalExact l
      → TotalExact (filled_level l key row o quantity)
  filled_level-TotalExact l key row o quantity f e h = elim (Bool-cases (dec.is_zero o.remaining)) [
    | inl z ↦ rw z (
        sub-eq x l.total row.remaining (remaining_sum (erase key l.orders))
          (h ∙ remaining_sum-erase key row l.orders f))
    | inr n ↦ rw n (
        sub-eq x l.total quantity (remaining_sum (update key o l.orders)) (
          h
          ∙ remaining_sum-update key row o quantity l.orders f
              (rw e (sym (x.sub_add row.remaining quantity)))))
  ]
