-- ===== src/Decimal/Whole.antt =====
-- Whole numbers satisfy the laws: what the witnesses compute with. `div` by zero gives zero.
use rust_trader.Base.{◌≡◌, true, false, arith, ◌/◌, ◌^◌}
use rust_trader.Base.Int.{ℤ, pos, negsuc, ◌+ℤ◌, ◌-ℤ◌, ◌*ℤ◌, ltb_ℤ, eqb_ℤ, eqb_ℤ_iff}
use rust_trader.Decimal.Defs.{DecimalOps, IsOrdered, IsExact, IsHalving}

abbrev quotient : ℤ → ℤ → ℤ
quotient (pos a) (pos b) = pos (a / b)
quotient _ _ = pos 0

instance abbrev pub whole : DecimalOps ℤ
whole = record {
  zero = pos 0;
  add = ◌+ℤ◌;
  sub = ◌-ℤ◌;
  mul = ◌*ℤ◌;
  div = quotient;
  lt = ltb_ℤ;
  eq = eqb_ℤ;
  eq_iff = eqb_ℤ_iff;
  is_zero = λ a. eqb_ℤ a (pos 0);
  from = pos;
  scaled = λ m s. pos (m / 10 ^ s);
}

pub whole-IsOrdered : IsOrdered ℤ
unfolding ◌-ℤ◌
whole-IsOrdered = record {
  lt_irrefl = λ a. ground arith;
  lt_trans = λ a b c h k. ground arith;
  lt_connected = λ a b h k. ground arith;
  is_zero_iff = λ a. eqb_ℤ_iff a (pos 0);
  sub_self = λ a. ground arith;
}

pub whole-IsExact : IsExact ℤ
unfolding ◌+ℤ◌ ◌-ℤ◌ ◌*ℤ◌
whole-IsExact = record {
  add_comm = λ a b. ground arith;
  add_assoc = λ a b c. ground arith;
  add_zero = λ a. ground arith;
  add_sub = λ a b. ground arith;
  sub_add = λ a b. ground arith;
  lt_add = λ a b c. ground arith;
  from_zero = ground arith;
  from_add = λ m n. ground arith;
  from_mul = λ m n. ground arith;
  from_pos = λ n. ground arith;
}

half_le : (a : ℤ) → ltb_ℤ (pos 0) a ≡ true → ltb_ℤ a (quotient a (pos 2)) ≡ false
half_le (pos a) h = ground arith
half_le (negsuc a) h = ground arith

half_pos : (a : ℤ) → ltb_ℤ (pos 1) a ≡ true → ltb_ℤ (pos 0) (quotient a (pos 2)) ≡ true
half_pos (pos a) h = ground arith
half_pos (negsuc a) h = ground arith

pub whole-IsHalving : IsHalving ℤ
whole-IsHalving = record { half_le = half_le; half_pos = half_pos }
