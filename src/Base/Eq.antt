-- ===== src/Base/Eq.antt =====
-- Rust's `Eq`, as an interface: a Boolean test that decides equality. It is what the keys of the
-- standard library's maps need. A text is its bytes.
use Prim.Native.Nat.{ℕ}
use Prim.Native.Char.{code}
use Prim.Native.String.{String}
use mathlib.Core.Path.{◌≡◌}
use mathlib.Core.Logic.{◌↔◌}
use mathlib.Core.Bool.{Bool, true, false, ◌&&◌}
use mathlib.Core.List.{List, [], ◌∷◌}
use native.Mathlib.Omega.{arith}
use rust_trader.Base.Bools.{◌==◌}
use rust_trader.Base.Int.{ℤ, eqb_ℤ, eqb_ℤ_iff}

pub record Eq (A : Type 0) : Type 0 where
  pub beq : A → A → Bool
  pub beq_iff : (a b : A) → (beq a b ≡ true) ↔ (a ≡ b)

abbrev pub Text : Type 0
Text = List ℕ

-- The bytes of an ASCII literal.
abbrev pub codes : String → Text
codes String.[] = []
codes (String.◌∷◌ c s) = code c ∷ codes s

abbrev pub eqb_text : Text → Text → Bool
eqb_text [] [] = true
eqb_text (x ∷ xs) (y ∷ ys) = x == y && eqb_text xs ys
eqb_text _ _ = false

pub eqb_text_iff : (a b : Text) → (eqb_text a b ≡ true) ↔ (a ≡ b)
eqb_text_iff (x ∷ xs) (y ∷ ys) = ground (arith, eqb_text_iff xs ys)
eqb_text_iff _ _ = ground arith

abbrev pub eqb_pair : {A B : Type 0} → Eq A → Eq B → A × B → A × B → Bool
eqb_pair e f (a, b) (c, d) = e.beq a c && f.beq b d

pub eqb_pair_iff :
    {A B : Type 0} (e : Eq A) (f : Eq B) (p q : A × B) → (eqb_pair e f p q ≡ true) ↔ (p ≡ q)
eqb_pair_iff e f (a, b) (c, d) = ground (arith, e.beq_iff a c, f.beq_iff b d)

pub ==_iff_nat : (a b : ℕ) → ((a == b) ≡ true) ↔ (a ≡ b)
==_iff_nat a b = ground arith

instance abbrev pub nat_eq : Eq ℕ
nat_eq = record { beq = ◌==◌; beq_iff = ==_iff_nat }

instance abbrev pub int_eq : Eq ℤ
int_eq = record { beq = eqb_ℤ; beq_iff = eqb_ℤ_iff }

instance abbrev pub text_eq : Eq Text
text_eq = record { beq = eqb_text; beq_iff = eqb_text_iff }

instance abbrev pub pair_eq : {A B : Type 0} ⦃e : Eq A⦄ ⦃f : Eq B⦄ → Eq (A × B)
pair_eq ⦃e⦄ ⦃f⦄ = record { beq = eqb_pair e f; beq_iff = eqb_pair_iff e f }
