-- ===== src/Base/Texts/Splitting.antt =====
-- Texts that are put together and taken apart again.
use Prim.Native.Nat.{ℕ}
use mathlib.Core.Path.{◌≡◌, refl, ap, ◌∙◌}
use mathlib.Core.Logic.{inl, inr}
use mathlib.Core.Bool.{Bool, true, false}
use mathlib.Core.Option.{some}
use mathlib.Core.List.{List, [], ◌∷◌, ◌++◌}
use native.Mathlib.Omega.{arith}
use rust_trader.Base.Bools.{◌==◌, Bool-cases}
use rust_trader.Base.Eq.{Text}
use rust_trader.Base.Lists.{All, length, take, drop, is_empty}
use rust_trader.Base.Texts.Parts.{all, contains_byte, ends_with, split, split_once, strip_last}

abbrev pub Clean : ℕ → Text → Type 0
Clean c s = contains_byte c s ≡ false

pub split_once-Clean : (c : ℕ) (s t : Text) → Clean c s → split_once c (s ++ c ∷ t) ≡ some (s, t)
unfolding split_once
split_once-Clean c [] t h = ground arith
split_once-Clean c (b ∷ s) t h = ground (arith, split_once-Clean c s t)

split-Clean : (c : ℕ) (s : Text) → Clean c s → split c s ≡ s ∷ []
unfolding split
split-Clean c [] h = refl
split-Clean c (b ∷ s) h = ground (arith, split-Clean c s)

split-append : (c : ℕ) (s t : Text) → Clean c s → split c (s ++ c ∷ t) ≡ s ∷ split c t
unfolding split
split-append c [] t h = ground arith
split-append c (b ∷ s) t h = ground (arith, split-append c s t)

-- Parts that each end with the byte.
abbrev pub lines : ℕ → List Text → Text
lines c [] = []
lines c (s ∷ parts) = s ++ c ∷ lines c parts

strip_last-one : (c : ℕ) (s : Text) → strip_last c (s ++ c ∷ []) ≡ s
unfolding strip_last
strip_last-one c [] = ground arith
strip_last-one c (b ∷ []) = ground arith
strip_last-one c (b ∷ d ∷ s) = ap (◌∷◌ b) (strip_last-one c (d ∷ s))

strip_last-append :
    (c : ℕ) (s : Text) (b : ℕ) (t : Text) → strip_last c (s ++ b ∷ t) ≡ s ++ strip_last c (b ∷ t)
unfolding strip_last
strip_last-append c [] b t = refl
strip_last-append c (d ∷ []) b t = refl
strip_last-append c (d ∷ e ∷ s) b t = ap (◌∷◌ d) (strip_last-append c (e ∷ s) b t)

strip_last-occupied :
    (c b : ℕ) (t : Text) → is_empty t ≡ false → strip_last c (b ∷ t) ≡ b ∷ strip_last c t
unfolding strip_last
strip_last-occupied c b [] h = cc
strip_last-occupied c b (d ∷ t) h = refl

lines_occupied : (c : ℕ) (s : Text) (parts : List Text) → is_empty (lines c (s ∷ parts)) ≡ false
lines_occupied c [] parts = refl
lines_occupied c (b ∷ s) parts = refl

pub split-lines :
    (c : ℕ) (s : Text) (parts : List Text)
    → All (Clean c) (s ∷ parts)
    → split c (strip_last c (lines c (s ∷ parts))) ≡ s ∷ parts
split-lines c s [] a = ap (split c) (strip_last-one c s) ∙ split-Clean c s a.0
split-lines c s (t ∷ parts) a =
    ap (split c) (
      strip_last-append c s c (lines c (t ∷ parts))
      ∙ ap (◌++◌ s) (strip_last-occupied c c (lines c (t ∷ parts)) (lines_occupied c t parts)))
    ∙ split-append c s (strip_last c (lines c (t ∷ parts))) a.0
    ∙ ap (◌∷◌ s) (split-lines c t parts a.1)

ends_with-append :
    (c : ℕ) (s : Text) (b : ℕ) (t : Text) → ends_with c (s ++ b ∷ t) ≡ ends_with c (b ∷ t)
ends_with-append c [] b t = refl
ends_with-append c (d ∷ []) b t = refl
ends_with-append c (d ∷ e ∷ s) b t = ends_with-append c (e ∷ s) b t

ends_with-cons : (c b : ℕ) (t : Text) → is_empty t ≡ false → ends_with c (b ∷ t) ≡ ends_with c t
ends_with-cons c b [] h = cc
ends_with-cons c b (d ∷ t) h = refl

pub ends_with-lines :
    (c : ℕ) (s : Text) (parts : List Text) → ends_with c (lines c (s ∷ parts)) ≡ true
ends_with-lines c s [] = ends_with-append c s c [] ∙ ground arith
ends_with-lines c s (t ∷ parts) =
    ends_with-append c s c (lines c (t ∷ parts))
    ∙ ends_with-cons c c (lines c (t ∷ parts)) (lines_occupied c t parts)
    ∙ ends_with-lines c t parts

pub all-append :
    (p : ℕ → Bool) (s t : Text) → all p s ≡ true → all p t ≡ true → all p (s ++ t) ≡ true
all-append p [] t h k = k
all-append p (b ∷ s) t h k = ground (arith, all-append p s t)

pub contains_byte-append : (c : ℕ) (s t : Text) → Clean c s → Clean c t → Clean c (s ++ t)
contains_byte-append c [] t h k = k
contains_byte-append c (b ∷ s) t h k = ground (arith, contains_byte-append c s t)

-- A byte that the property excludes is not in a text of which it holds.
pub all-Clean : (p : ℕ → Bool) (c : ℕ) (s : Text) → p c ≡ false → all p s ≡ true → Clean c s
all-Clean p c [] n h = refl
all-Clean p c (b ∷ s) n h = elim (Bool-cases (b == c)) [
  | inl same ↦ let e : b ≡ c = ground arith in let bad : p b ≡ false = ap p e ∙ n in ground arith
  | inr other ↦ rw other (ground (arith, all-Clean p c s))
]

pub all-implies :
    (p q : ℕ → Bool) (s : Text)
    → ((b : ℕ) → p b ≡ true → q b ≡ true)
    → all p s ≡ true
    → all q s ≡ true
all-implies p q [] f h = refl
all-implies p q (b ∷ s) f h = ground (arith, f b, all-implies p q s f)

module _ {ℓ} {A : Type ℓ} where
  pub take-append : (xs ys : List A) → take (length xs) (xs ++ ys) ≡ xs
  take-append [] ys = refl
  take-append (x ∷ xs) ys = ap (◌∷◌ x) (take-append xs ys)

  pub drop-append : (xs ys : List A) → drop (length xs) (xs ++ ys) ≡ ys
  drop-append [] ys = refl
  drop-append (x ∷ xs) ys = drop-append xs ys
