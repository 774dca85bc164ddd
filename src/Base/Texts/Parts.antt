-- ===== src/Base/Texts/Parts.antt =====
-- Texts taken apart: `split`, `split_once`, `strip_suffix` at one byte, `starts_with` and `all`.
use Prim.Native.Nat.{ℕ}
use mathlib.Core.Bool.{Bool, true, false, ◌&&◌}
use mathlib.Core.Option.{Option, none, some}
use mathlib.Core.List.{List, [], ◌∷◌}
use rust_trader.Base.Bools.{◌==◌, if◌then◌else◌}
use rust_trader.Base.Eq.{Text}

abbrev pub all : (ℕ → Bool) → Text → Bool
all p [] = true
all p (b ∷ s) = p b && all p s

abbrev pub starts_with : Text → Text → Bool
starts_with s [] = true
starts_with [] (c ∷ prefix) = false
starts_with (b ∷ s) (c ∷ prefix) = b == c && starts_with s prefix

abbrev before : ℕ → Option (Text × Text) → Option (Text × Text)
before b none = none
before b (some (s, t)) = some (b ∷ s, t)

-- What stands before and after the first such byte.
unfoldable pub split_once : ℕ → Text → Option (Text × Text)
split_once c [] = none
split_once c (b ∷ s) = let later = split_once c s in if b == c then some ([], s) else before b later

abbrev onto_first : ℕ → List Text → List Text
onto_first b [] = (b ∷ []) ∷ []
onto_first b (s ∷ parts) = (b ∷ s) ∷ parts

-- The parts between such bytes; a text without one is one part.
unfoldable pub split : ℕ → Text → List Text
split c [] = [] ∷ []
split c (b ∷ s) = let parts = split c s in if b == c then [] ∷ parts else onto_first b parts

-- `strip_suffix(c).unwrap_or(s)`
unfoldable pub strip_last : ℕ → Text → Text
strip_last c [] = []
strip_last c (b ∷ []) = if b == c then [] else b ∷ []
strip_last c (b ∷ d ∷ s) = b ∷ strip_last c (d ∷ s)

abbrev pub ends_with : ℕ → Text → Bool
ends_with c [] = false
ends_with c (b ∷ []) = b == c
ends_with c (b ∷ d ∷ s) = ends_with c (d ∷ s)

-- `position` of the byte is that of the first part's end.
abbrev pub contains_byte : ℕ → Text → Bool
contains_byte c [] = false
contains_byte c (b ∷ s) = if b == c then true else contains_byte c s
