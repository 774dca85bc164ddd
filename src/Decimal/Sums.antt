-- ===== src/Decimal/Sums.antt =====
-- Consequences of exact arithmetic.
use rust_trader.Base.{ℕ, ◌+◌, subst, ◌≡◌, sym, ap, ◌∙◌, true}
use rust_trader.Decimal.Defs.{DecimalOps, IsExact}

module _ {D : Type 0} ⦃dec : DecimalOps D⦄ (x : IsExact D) where
  pub zero_add : (a : D) → dec.add dec.zero a ≡ a
  zero_add a = x.add_comm dec.zero a ∙ x.add_zero a

  pub sub_zero : (a : D) → dec.sub a dec.zero ≡ a
  sub_zero a = ap (λ b. dec.sub b dec.zero) (sym (x.add_zero a)) ∙ x.add_sub a dec.zero

  -- What a difference is.
  pub sub-eq : (a b c : D) → a ≡ dec.add c b → dec.sub a b ≡ c
  sub-eq a b c h = rw h (x.add_sub c b)

  pub lt-sub : (a b : D) → dec.lt dec.zero (dec.sub a b) ≡ dec.lt b a
  lt-sub a b = sym (x.lt_add dec.zero (dec.sub a b) b) ∙ rw (x.sub_add a b, zero_add b)

  -- A quantity moved from one summand to the other.
  pub transfer : (a b q : D) → dec.add (dec.add a q) (dec.sub b q) ≡ dec.add a b
  transfer a b q =
      x.add_assoc a q (dec.sub b q) ∙ ap (dec.add a) (x.add_comm q (dec.sub b q) ∙ x.sub_add b q)

  pub swap_last : (a b c : D) → dec.add (dec.add a b) c ≡ dec.add (dec.add a c) b
  swap_last a b c = x.add_assoc a b c ∙ ap (dec.add a) (x.add_comm b c) ∙ sym (x.add_assoc a c b)

  -- Greater integers are greater numbers.
  pub from-lt : (m k : ℕ) → dec.lt (dec.from m) (dec.from (m + (k + 1))) ≡ true
  from-lt m k =
      rw (x.from_add m (k + 1), x.add_comm (dec.from m) (dec.from (k + 1)))
        (subst (λ a. dec.lt a (dec.add (dec.from (k + 1)) (dec.from m)) ≡ true)
          (zero_add (dec.from m))
          (x.lt_add dec.zero (dec.from (k + 1)) (dec.from m) ∙ x.from_pos k))

  -- Taking `b` off both sides of a comparison.
  pub lt-sub_right : (a b c : D) → dec.lt a (dec.sub c b) ≡ dec.lt (dec.add a b) c
  lt-sub_right a b c = sym (x.lt_add a (dec.sub c b) b) ∙ rw (x.sub_add c b)
