-- ===== src/Fix/Sequences/Order.antt =====
-- src/fix/session.rs, `SequenceState`: messages wait under their own numbers, are taken in order, and
-- what is expected only grows.
use rust_trader.Base.{
  ℕ, ◌+◌, ◌≤◌, ◌≡◌, refl, ap, subst, ◌∙◌, inl, inr, false, none, some, List, [], ◌∷◌, arith, ltb,
  leb, if◌then◌else◌, Bool-cases,
}
use mathlib.Core.Option.{some-injective}
use rust_trader.Base.Eq.{nat_eq}
use rust_trader.Base.Lists.{length, All}
use rust_trader.Base.Maps.{lookup, erase, insert_by}
use rust_trader.Base.Index.{Distinct}
use rust_trader.Base.Outcome.{ok}
use rust_trader.Fix.Messages.{FixMessage, parse_required_seq}
use rust_trader.Fix.Sequences.{SequenceState, max_queued_messages, from_seq}

-- A waiting message: under its own number, which is not below what is expected.
abbrev pub Waits : ℕ → ℕ × FixMessage → Type 0
Waits expected (n, m) = (expected ≤ n) × (parse_required_seq m ≡ ok n)

pub record SequenceInv (s : SequenceState) : Type 0 where
  pub waiting : All (Waits s.expected) s.queued
  pub distinct : Distinct s.queued
  pub bounded : length s.queued ≤ max_queued_messages
  pub asked : (n : ℕ) → s.resend_from ≡ some n → n ≡ s.expected

pub insert_by_lem :
    (P : ℕ × FixMessage → Type 0) (n : ℕ) (m : FixMessage) (q : List (ℕ × FixMessage))
    → lookup n q ≡ none
    → Distinct q
    → P (n, m)
    → All P q
    → All P (insert_by ltb n m q)
      × Distinct (insert_by ltb n m q)
      × (length (insert_by ltb n m q) ≡ length q + 1)
      × ((j : ℕ) → nat_eq.beq n j ≡ false → lookup j (insert_by ltb n m q) ≡ lookup j q)
unfolding insert_by lookup
insert_by_lem P n m [] h d p a = ((p, tt), (refl, tt), refl, λ j k. rw k refl)
insert_by_lem P n m ((i, w) ∷ q) h d p a = elim (Bool-cases (ltb n i)) [
  | inl before ↦ rw before ((p, a), (h, d), omega arith, λ j k. rw k refl)
  | inr later ↦ elim (Bool-cases (ltb i n)) [
    | inl after ↦
        let h' : lookup n q ≡ none = ground arith in
        let r = insert_by_lem P n m q h' d.1 p a.1 in
        rw (later, after)
          (
            (a.0, r.0),
            (r.3 i (ground arith) ∙ d.0, r.1),
            omega (arith, r.2),
            λ j k. ap (λ t. if nat_eq.beq i j then some w else t) (r.3 j k),
          )
    | inr same ↦ absurd (ground arith)
  ]
]

pub erase_lem :
    (P : ℕ × FixMessage → Type 0) (n : ℕ) (q : List (ℕ × FixMessage))
    → All P q
    → All P (erase n q) × (length (erase n q) ≤ length q)
unfolding erase
erase_lem P n [] a = (tt, omega arith)
erase_lem P n ((i, w) ∷ q) a = elim (Bool-cases (nat_eq.beq i n)) [
  | inl same ↦ rw same (a.1, omega arith)
  | inr other ↦ let r = erase_lem P n q a.1 in rw other ((a.0, r.0), omega (arith, r.1))
]

-- What waits without what is expected waits for the next number.
pub Waits-on :
    (expected : ℕ) (q : List (ℕ × FixMessage))
    → lookup expected q ≡ none
    → All (Waits expected) q
    → All (Waits (expected + 1)) q
unfolding lookup
Waits-on expected [] h a = tt
Waits-on expected ((i, w) ∷ q) h a = elim (Bool-cases (nat_eq.beq i expected)) [
  | inl same ↦ cc (rw same at h)
  | inr other ↦
      let h' : lookup expected q ≡ none = rw other at h in
      ((ground arith, a.0.1), Waits-on expected q h' a.1)
]

pub found_lem :
    (P : ℕ × FixMessage → Type 0) (n : ℕ) (m : FixMessage) (q : List (ℕ × FixMessage))
    → lookup n q ≡ some m
    → All P q
    → P (n, m)
unfolding lookup
found_lem P n m [] h a = cc
found_lem P n m ((i, w) ∷ q) h a = elim (Bool-cases (nat_eq.beq i n)) [
  | inl same ↦
      let e : some w ≡ some m = rw same at h in
      let i' : i ≡ n = (nat_eq.beq_iff i n).0 same in
      subst (λ k. P (k, m)) i' (subst (λ v. P (i, v)) (some-injective w m e) a.0)
  | inr other ↦ let h' : lookup n q ≡ some m = rw other at h in found_lem P n m q h' a.1
]

pub from_seq_lem :
    (old new : ℕ) (q : List (ℕ × FixMessage))
    → All (Waits old) q
    → Distinct q
    → All (Waits new) (from_seq new q)
      × Distinct (from_seq new q)
      × (length (from_seq new q) ≤ length q)
      × ((j : ℕ) → lookup j q ≡ none → lookup j (from_seq new q) ≡ none)
unfolding from_seq lookup
from_seq_lem old new [] a d = (tt, tt, omega arith, λ j h. refl)
from_seq_lem old new ((i, w) ∷ q) a d = elim (Bool-cases (leb new i)) [
  | inl kept ↦
      let r = from_seq_lem old new q a.1 d.1 in
      rw kept (
        ((ground arith, a.0.1), r.0),
        (r.3 i d.0, r.1),
        omega (arith, r.2),
        λ j h. ground (arith, r.3 j),
      )
  | inr gone ↦
      let r = from_seq_lem old new q a.1 d.1 in
      rw gone (r.0, r.1, omega (arith, r.2), λ j h. ground (arith, r.3 j))
]
