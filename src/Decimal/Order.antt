-- ===== src/Decimal/Order.antt =====
-- Consequences of the order laws.
use rust_trader.Base.{◌≡◌, sym, subst, inl, inr, true, false, arith, Bool-cases}
use rust_trader.Decimal.Defs.{DecimalOps, IsOrdered}

module _ {D : Type 0} ⦃dec : DecimalOps D⦄ (o : IsOrdered D) where
  pub lt_of_le_of_lt : (a b c : D) → dec.lt b a ≡ false → dec.lt b c ≡ true → dec.lt a c ≡ true
  lt_of_le_of_lt a b c h k = elim (Bool-cases (dec.lt a b)) [
    | inl less ↦ o.lt_trans a b c less k
    | inr more ↦ subst (λ x. dec.lt x c ≡ true) (sym (o.lt_connected a b more h)) k
  ]

  pub lt_of_lt_of_le : (a b c : D) → dec.lt a b ≡ true → dec.lt c b ≡ false → dec.lt a c ≡ true
  lt_of_lt_of_le a b c h k = elim (Bool-cases (dec.lt b c)) [
    | inl less ↦ o.lt_trans a b c h less
    | inr more ↦ subst (λ x. dec.lt a x ≡ true) (o.lt_connected b c more k) h
  ]

  pub lt_asymm : (a b : D) → dec.lt a b ≡ true → dec.lt b a ≡ false
  lt_asymm a b h = ground (arith, o.lt_trans a b a h, o.lt_irrefl a)

  pub le_trans : (a b c : D) → dec.lt b a ≡ false → dec.lt c b ≡ false → dec.lt c a ≡ false
  le_trans a b c h k = ground (arith, lt_of_lt_of_le c a b)
