-- ===== src/Decimal/Defs.antt =====
-- The interface to `rust_decimal::Decimal`.
use rust_trader.Base.{ℕ, ◌+◌, ◌*◌, ◌≡◌, ◌↔◌, Bool, true, false, not}
use rust_trader.Base.Eq.{Eq}

pub record DecimalOps (D : Type 0) : Type 0 where
  pub zero : D
  pub add : D → D → D
  pub sub : D → D → D
  pub mul : D → D → D
  pub div : D → D → D
  pub lt : D → D → Bool
  pub eq : D → D → Bool
  pub eq_iff : (a b : D) → (eq a b ≡ true) ↔ (a ≡ b)
  pub is_zero : D → Bool
  -- `Decimal::from` of an integer, and `Decimal::new(mantissa, scale)`.
  pub from : ℕ → D
  pub scaled : ℕ → ℕ → D

-- `lt` is the strict part of a total order, and `is_zero` decides what it says.
pub record IsOrdered (D : Type 0) ⦃o : DecimalOps D⦄ : Type 0 where
  pub lt_irrefl : (a : D) → o.lt a a ≡ false
  pub lt_trans : (a b c : D) → o.lt a b ≡ true → o.lt b c ≡ true → o.lt a c ≡ true
  pub lt_connected : (a b : D) → o.lt a b ≡ false → o.lt b a ≡ false → a ≡ b
  pub is_zero_iff : (a : D) → (o.is_zero a ≡ true) ↔ (a ≡ o.zero)
  pub sub_self : (a : D) → o.sub a a ≡ o.zero

-- Sums and differences are exact, and integers are read as what they are.
pub record IsExact (D : Type 0) ⦃o : DecimalOps D⦄ : Type 0 where
  pub add_comm : (a b : D) → o.add a b ≡ o.add b a
  pub add_assoc : (a b c : D) → o.add (o.add a b) c ≡ o.add a (o.add b c)
  pub add_zero : (a : D) → o.add a o.zero ≡ a
  pub add_sub : (a b : D) → o.sub (o.add a b) b ≡ a
  pub sub_add : (a b : D) → o.add (o.sub a b) b ≡ a
  pub lt_add : (a b c : D) → o.lt (o.add a c) (o.add b c) ≡ o.lt a b
  pub from_zero : o.from 0 ≡ o.zero
  pub from_add : (m n : ℕ) → o.from (m + n) ≡ o.add (o.from m) (o.from n)
  pub from_mul : (m n : ℕ) → o.from (m * n) ≡ o.mul (o.from m) (o.from n)
  pub from_pos : (n : ℕ) → o.lt o.zero (o.from (n + 1)) ≡ true

-- Half of a number lies below it, and is positive if the number is not small.
pub record IsHalving (D : Type 0) ⦃o : DecimalOps D⦄ : Type 0 where
  pub half_le : (a : D) → o.lt o.zero a ≡ true → o.lt a (o.div a (o.from 2)) ≡ false
  pub half_pos : (a : D) → o.lt (o.from 1) a ≡ true → o.lt o.zero (o.div a (o.from 2)) ≡ true

module _ {D : Type 0} ⦃o : DecimalOps D⦄ where
  -- `a <= b`
  abbrev pub le : D → D → Bool
  le a b = not (o.lt b a)

instance abbrev pub decimal_eq : {D : Type 0} ⦃o : DecimalOps D⦄ → Eq D
decimal_eq ⦃o⦄ = record { beq = o.eq; beq_iff = o.eq_iff }
