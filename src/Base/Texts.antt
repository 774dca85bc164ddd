-- ===== src/Base/Texts.antt =====
-- Texts as the standard library handles them: their order, and integers printed and parsed.
pub mod Numbers
pub mod Parts
pub mod Splitting
use Prim.Native.Nat.{ℕ, zero, suc, ◌+◌, ◌*◌, ◌-◌, ◌/◌, ◌%◌}
use mathlib.Core.Bool.{Bool, true, false}
use mathlib.Core.Option.{Option, none, some}
use mathlib.Core.List.{List, [], ◌∷◌}
use rust_trader.Base.Bools.{ltb, ◌==◌, if◌then◌else◌}
use rust_trader.Base.Int.{ℤ, pos, negsuc}
use rust_trader.Base.Eq.{Text}

-- `Ord` of `String`: by bytes, a prefix first.
abbrev pub ltb_text : Text → Text → Bool
ltb_text [] [] = false
ltb_text [] (y ∷ ys) = true
ltb_text (x ∷ xs) [] = false
ltb_text (x ∷ xs) (y ∷ ys) = if ltb x y then true else if ltb y x then false else ltb_text xs ys

-- The decimal digits, least significant first.
unfoldable pub digits : ℕ → ℕ → List ℕ
digits zero n = []
digits (suc fuel) n =
    let more = digits fuel (n / 10) in if ltb n 10 then n ∷ [] else (n % 10) ∷ more

unfoldable pub backwards : List ℕ → Text → Text
backwards [] onto = onto
backwards (d ∷ ds) onto = backwards ds ((48 + d) ∷ onto)

-- `to_string` of an integer of 64 bits, which has at most 20 digits.
unfoldable pub show_nat : ℕ → Text
unfolding digits backwards
show_nat n = backwards (digits 20 n) []

unfoldable pub show_int : ℤ → Text
unfolding show_nat
show_int (pos n) = show_nat n
show_int (negsuc n) = 45 ∷ show_nat (suc n)

abbrev pub is_digit : ℕ → Bool
is_digit c = if ltb c 48 then false else ltb c 58

-- A number in decimal digits, after what has been read.
unfoldable pub read_digits : ℕ → Text → Option ℕ
read_digits acc [] = some acc
read_digits acc (c ∷ s) =
    let rest = read_digits (acc * 10 + (c - 48)) s in if is_digit c then rest else none

abbrev pub below : ℕ → Option ℕ → Option ℕ
below bound none = none
below bound (some n) = if ltb n bound then some n else none

-- `parse` of an unsigned integer below a bound: a sign `+` may stand before the digits.
unfoldable pub parse_nat : ℕ → Text → Option ℕ
unfolding read_digits
parse_nat bound [] = none
parse_nat bound (c ∷ []) = below bound (read_digits 0 (c ∷ []))
parse_nat bound (c ∷ s) =
    let signed = below bound (read_digits 0 s) in
    let plain = below bound (read_digits 0 (c ∷ s)) in if c == 43 then signed else plain

abbrev pub u64_bound : ℕ
u64_bound = 18446744073709551616

unfoldable pub parse_u64 : Text → Option ℕ
unfolding parse_nat
parse_u64 s = parse_nat u64_bound s

abbrev pub negated : Option ℕ → Option ℤ
negated none = none
negated (some zero) = some (pos 0)
negated (some (suc n)) = some (negsuc n)

abbrev pub positive : Option ℕ → Option ℤ
positive none = none
positive (some n) = some (pos n)

-- `parse::<i32>`
unfoldable pub parse_i32 : Text → Option ℤ
unfolding parse_nat read_digits
parse_i32 [] = none
parse_i32 (c ∷ []) = positive (parse_nat 2147483648 (c ∷ []))
parse_i32 (c ∷ d ∷ s) =
    let minus = negated (below 2147483649 (read_digits 0 (d ∷ s))) in
    let plus = positive (parse_nat 2147483648 (c ∷ d ∷ s)) in if c == 45 then minus else plus

-- `parse` of a signed integer of at least -bound and below the bound.
unfoldable pub parse_int : ℕ → Text → Option ℤ
unfolding parse_nat read_digits
parse_int bound [] = none
parse_int bound (c ∷ []) = positive (parse_nat bound (c ∷ []))
parse_int bound (c ∷ d ∷ s) =
    let minus = negated (below (suc bound) (read_digits 0 (d ∷ s))) in
    let plus = positive (parse_nat bound (c ∷ d ∷ s)) in if c == 45 then minus else plus

-- `parse::<i64>`
unfoldable pub parse_i64 : Text → Option ℤ
unfolding parse_int
parse_i64 s = parse_int 9223372036854775808 s
