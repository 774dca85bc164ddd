-- ===== src/Base/Texts/Numbers.antt =====
-- Integers that are printed and read back.
use Prim.Native.Nat.{ℕ, zero, suc, ◌+◌, ◌*◌, ◌/◌, ◌%◌, ◌^◌, ◌<◌, ◌≤◌}
use mathlib.Core.Path.{◌≡◌, refl, sym, ap, ◌∙◌}
use mathlib.Core.Bool.{true, false}
use mathlib.Core.Logic.{inl, inr}
use mathlib.Core.Option.{Option, none, some}
use mathlib.Core.List.{List, [], ◌∷◌}
use mathlib.Core.Option.{some-injective}
use native.Mathlib.Omega.{arith}
use native.Mathlib.Numerals.{unary_clauses}
use rust_trader.Base.Bools.{ltb, ◌==◌, Bool-cases}
use rust_trader.Base.Int.{pos}
use rust_trader.Base.Lists.{All, is_empty, length}
use rust_trader.Base.Eq.{Text}
use rust_trader.Base.Texts.Parts.{all}
use rust_trader.Base.Texts.{
  digits, backwards, show_nat, read_digits, parse_nat, parse_u64, below, positive, negated,
  parse_int, parse_i64, u64_bound, is_digit,
}

-- The number that reading the digits, last first, makes of what has been read.
abbrev value : ℕ → List ℕ → ℕ
value acc [] = acc
value acc (d ∷ ds) = value acc ds * 10 + d

read_digit :
    (acc d : ℕ) (s : Text) → d < 10 → read_digits acc ((48 + d) ∷ s) ≡ read_digits (acc * 10 + d) s
unfolding read_digits
read_digit acc d s h = ground arith

read_digits-backwards :
    (acc : ℕ) (ds : List ℕ) (onto : Text)
    → All (λ d. d < 10) ds
    → read_digits acc (backwards ds onto) ≡ read_digits (value acc ds) onto
unfolding backwards
read_digits-backwards acc [] onto a = refl
read_digits-backwards acc (d ∷ ds) onto a =
    read_digits-backwards acc ds ((48 + d) ∷ onto) a.1 ∙ read_digit (value acc ds) d onto a.0

pow_step : (n : ℕ) → 10 ^ suc n ≡ 10 * 10 ^ n
pow_step n = simp unary_clauses (omega arith)

digits_lem :
    (fuel n : ℕ) → n < 10 ^ fuel → All (λ d. d < 10) (digits fuel n) × (value 0 (digits fuel n) ≡ n)
unfolding digits
digits_lem zero n h = (tt, omega arith)
digits_lem (suc fuel) n h = elim (Bool-cases (ltb n 10)) [
  | inl small ↦ rw small ((ground arith, tt), omega arith)
  | inr large ↦
      let r = digits_lem fuel (n / 10) (omega (arith, pow_step fuel)) in
      rw large ((omega arith, r.0), omega (arith, r.1))
]

backwards_occupied :
    (ds : List ℕ) (c : ℕ) (onto : Text) → is_empty (backwards ds (c ∷ onto)) ≡ false
unfolding backwards
backwards_occupied [] c onto = refl
backwards_occupied (d ∷ ds) c onto = backwards_occupied ds (48 + d) (c ∷ onto)

pub show_nat_occupied : (n : ℕ) → is_empty (show_nat n) ≡ false
unfolding show_nat digits backwards
show_nat_occupied n = elim (Bool-cases (ltb n 10)) [
  | inl small ↦ rw (small, digits) (backwards_occupied [] (48 + n) [])
  | inr large ↦ rw (large, digits) (backwards_occupied (digits 19 (n / 10)) (48 + n % 10) [])
]

plus_no_digit : (c : ℕ) (s : Text) → (c == 43) ≡ true → read_digits 0 (c ∷ s) ≡ none
unfolding read_digits
plus_no_digit c s h = ground arith

-- What is all digits is read as they say.
parse_nat-digits :
    (bound v : ℕ) (t : Text)
    → is_empty t ≡ false
    → read_digits 0 t ≡ some v
    → v < bound
    → parse_nat bound t ≡ some v
unfolding parse_nat
parse_nat-digits bound v [] e h b = cc
parse_nat-digits bound v (c ∷ []) e h b = rw h (ground arith)
parse_nat-digits bound v (c ∷ d ∷ s) e h b = elim (Bool-cases (c == 43)) [
  | inl plus ↦ cc (plus_no_digit c (d ∷ s) plus)
  | inr plain ↦ rw plain (rw h (ground arith))
]

-- A 64-bit number is read back as it was printed, by a parser whose bound it keeps.
pub parse_nat-show_nat :
    (bound n : ℕ) → n < u64_bound → n < bound → parse_nat bound (show_nat n) ≡ some n
unfolding show_nat read_digits
parse_nat-show_nat bound n h k =
    let d = digits_lem 20 n (omega (arith, h)) in
    parse_nat-digits bound n (show_nat n) (show_nat_occupied n)
      (read_digits-backwards 0 (digits 20 n) [] d.0 ∙ ap some d.1) k

pub parse_u64-show_nat : (n : ℕ) → n < u64_bound → parse_u64 (show_nat n) ≡ some n
unfolding parse_u64
parse_u64-show_nat n h = parse_nat-show_nat u64_bound n h h

all-backwards :
    (ds : List ℕ) (onto : Text)
    → All (λ d. d < 10) ds
    → all is_digit onto ≡ true
    → all is_digit (backwards ds onto) ≡ true
unfolding backwards
all-backwards [] onto a h = h
all-backwards (d ∷ ds) onto a h = all-backwards ds ((48 + d) ∷ onto) a.1 (ground arith)

-- A number prints as digits, of which there is one at least.
pub all-show_nat : (n : ℕ) → n < u64_bound → all is_digit (show_nat n) ≡ true
unfolding show_nat
all-show_nat n h = all-backwards (digits 20 n) [] (digits_lem 20 n (omega (arith, h))).0 refl

pub show_nat-injective : (m n : ℕ) → m < u64_bound → n < u64_bound → show_nat m ≡ show_nat n → m ≡ n
show_nat-injective m n h k e =
    some-injective m n (sym (parse_u64-show_nat m h) ∙ ap parse_u64 e ∙ parse_u64-show_nat n k)

length-backwards :
    (ds : List ℕ) (onto : Text) → length (backwards ds onto) ≡ length ds + length onto
unfolding backwards
length-backwards [] onto = omega arith
length-backwards (d ∷ ds) onto = omega (arith, length-backwards ds ((48 + d) ∷ onto))

length-digits : (fuel n : ℕ) → length (digits fuel n) ≤ fuel
unfolding digits
length-digits zero n = omega arith
length-digits (suc fuel) n = ground (arith, length-digits fuel (n / 10))

pub length-show_nat : (n : ℕ) → length (show_nat n) ≤ 20
unfolding show_nat
length-show_nat n = omega (arith, length-backwards (digits 20 n) [], length-digits 20 n)

below_lem : (bound n : ℕ) (o : Option ℕ) → below bound o ≡ some n → n < bound
below_lem bound n none h = cc
below_lem bound n (some k) h = ground arith

parse_nat_below : (bound n : ℕ) (s : Text) → parse_nat bound s ≡ some n → n < bound
unfolding parse_nat
parse_nat_below bound n [] h = cc
parse_nat_below bound n (c ∷ []) h = below_lem bound n (read_digits 0 (c ∷ [])) h
parse_nat_below bound n (c ∷ d ∷ s) h = elim (Bool-cases (c == 43)) [
  | inl e ↦ below_lem bound n (read_digits 0 (d ∷ s)) (rw e at h)
  | inr e ↦ below_lem bound n (read_digits 0 (c ∷ d ∷ s)) (rw e at h)
]

positive_lem : (n : ℕ) (o : Option ℕ) → positive o ≡ some (pos n) → o ≡ some n
positive_lem n none h = cc
positive_lem n (some k) h = ap (λ k. some k) (ground arith)

negated_lem : (n : ℕ) (o : Option ℕ) → negated o ≡ some (pos n) → n ≡ 0
negated_lem n none h = cc
negated_lem n (some zero) h = ground arith
negated_lem n (some (suc k)) h = ground arith

-- A number that is read as an `i64` and is not negative is below the bound.
pub parse_i64_below : (n : ℕ) (s : Text) → parse_i64 s ≡ some (pos n) → n < 9223372036854775808
unfolding parse_i64 parse_int
parse_i64_below n [] h = cc
parse_i64_below n (c ∷ []) h =
    parse_nat_below 9223372036854775808 n (c ∷ [])
      (positive_lem n (parse_nat 9223372036854775808 (c ∷ [])) h)
parse_i64_below n (c ∷ d ∷ s) h = elim (Bool-cases (c == 45)) [
  | inl e ↦
      omega (arith, negated_lem n (below 9223372036854775809 (read_digits 0 (d ∷ s))) (rw e at h))
  | inr e ↦
      parse_nat_below 9223372036854775808 n (c ∷ d ∷ s)
        (positive_lem n (parse_nat 9223372036854775808 (c ∷ d ∷ s)) (rw e at h))
]
