-- ===== src/Fix/Frames/Reader/Progress.antt =====
-- src/fix/frame.rs, `read_message`: what the first two fields of a frame say while it arrives.
use rust_trader.Base.{
  ℕ, ◌+◌, ◌<◌, ◌≤◌, ◌≡◌, refl, sym, ap, ◌∙◌, some, [], ◌∷◌, ◌++◌, ◌==◌, Bool-cases, Option-cases,
  inl, inr, arith,
}
use rust_trader.Base.Eq.{Text}
use rust_trader.Base.Lists.{length}
use rust_trader.Base.Texts.Parts.{split_once}
use rust_trader.Fix.Frames.{soh}
use rust_trader.Fix.Frames.Reader.{find_header}

split_once-append :
    (c : ℕ) (s d a r : Text)
    → split_once c s ≡ some (a, r)
    → split_once c (s ++ d) ≡ some (a, r ++ d)
unfolding split_once
split_once-append c [] d a r h = cc
split_once-append c (b ∷ s) d a r h = elim (Bool-cases (b == c)) [
  | inl same ↦ ground arith
  | inr other ↦ elim (Option-cases (split_once c s)) [
    | inl n ↦ ground arith
    | inr ((a', r'), k) ↦ ground (arith, split_once-append c s d a' r' k)
  ]
]

length-split_once :
    (c : ℕ) (s a r : Text) → split_once c s ≡ some (a, r) → length s ≡ length a + 1 + length r
unfolding split_once
length-split_once c [] a r h = cc
length-split_once c (b ∷ s) a r h = elim (Bool-cases (b == c)) [
  | inl same ↦ ground arith
  | inr other ↦ elim (Option-cases (split_once c s)) [
    | inl n ↦ ground arith
    | inr ((a', r'), k) ↦ ground (arith, length-split_once c s a' r' k)
  ]
]

-- A part that is long enough holds the byte as well.
split_once-prefix :
    (c : ℕ) (s d a r : Text)
    → split_once c (s ++ d) ≡ some (a, r)
    → length a < length s
    → (r' : Text) × (split_once c s ≡ some (a, r')) × (r ≡ r' ++ d)
unfolding split_once
split_once-prefix c [] d a r h k = absurd (omega arith)
split_once-prefix c (b ∷ s) d a r h k = elim (Bool-cases (b == c)) [
  | inl same ↦ (s, ground arith, ground arith)
  | inr other ↦ elim (Option-cases (split_once c (s ++ d))) [
    | inl n ↦ absurd (ground arith)
    | inr ((a', t), k') ↦
        let e : (b ∷ a' ≡ a) × (t ≡ r) = (ground arith, ground arith) in
        let (r', found, rest) = split_once-prefix c s d a' t k' (ground (arith, e.0)) in
        (r', ground (arith, e.0), sym e.1 ∙ rest)
  ]
]

header-parts :
    (p a b r : Text)
    → find_header p ≡ some (a, b, r)
    → (after : Text) × (split_once soh p ≡ some (a, after)) × (split_once soh after ≡ some (b, r))
unfolding find_header
header-parts p a b r h = elim (Option-cases (split_once soh p)) [
  | inl n ↦ absurd (ground arith)
  | inr ((a', after), k) ↦ elim (Option-cases (split_once soh after)) [
    | inl n ↦ absurd (ground arith)
    | inr ((b', r'), k') ↦ (after, ground arith, ground arith)
  ]
]

parts-header :
    (p a after b r : Text)
    → split_once soh p ≡ some (a, after)
    → split_once soh after ≡ some (b, r)
    → find_header p ≡ some (a, b, r)
unfolding find_header
parts-header p a after b r h k = rw (h, find_header) (rw k refl)

-- What has arrived of the first two fields stays.
pub find_header-append :
    (p d a b r : Text) → find_header p ≡ some (a, b, r) → find_header (p ++ d) ≡ some (a, b, r ++ d)
find_header-append p d a b r h =
    let (after, k, l) = header-parts p a b r h in
    parts-header (p ++ d) a (after ++ d) b (r ++ d) (split_once-append soh p d a after k)
      (split_once-append soh after d b r l)

pub length-find_header :
    (p a b r : Text)
    → find_header p ≡ some (a, b, r)
    → length p ≡ length a + length b + 2 + length r
length-find_header p a b r h =
    let (after, k, l) = header-parts p a b r h in
    omega (arith, length-split_once soh p a after k, length-split_once soh after b r l)

-- Where the two fields end within what has arrived, they are found.
pub find_header-prefix :
    (p d a b r : Text)
    → find_header (p ++ d) ≡ some (a, b, r)
    → length a + length b + 2 ≤ length p
    → (r' : Text) × (find_header p ≡ some (a, b, r'))
find_header-prefix p d a b r h n =
    let (after, k, l) = header-parts (p ++ d) a b r h in
    let (after', k', e) = split_once-prefix soh p d a after k (omega arith) in
    let long = length-split_once soh p a after' k' in
    let (r', l', e') =
      split_once-prefix soh after' d b r (ap (split_once soh) (sym e) ∙ l) (omega arith) in
    (r', parts-header p a after' b r' k' l')
