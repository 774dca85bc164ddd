-- ===== src/Base/Index.antt =====
-- A table whose keys ascend, beside an index from a name of each row to its key. As long as the
-- index lists the rows of the table, what is done to both by one key keeps them in step.
use Prim.Native.Nat.{ℕ, suc, ◌≤◌, ◌+◌}
use mathlib.Core.Path.{◌≡◌, refl, ap}
use mathlib.Core.Bool.{false}
use mathlib.Core.Logic.{inl, inr}
use mathlib.Core.Option.{none, some}
use mathlib.Core.List.{List, [], ◌∷◌, ◌++◌}
use native.Mathlib.Omega.{arith}
use rust_trader.Base.Bools.{ltb, Bool-cases}
use rust_trader.Base.Eq.{Eq, nat_eq}
use rust_trader.Base.Maps.{lookup, insert, update, erase, insert_by}

abbrev pub entries : {K V : Type 0} → (V → K) → List (ℕ × V) → List (K × ℕ)
entries name [] = []
entries name ((k, v) ∷ t) = (name v, k) ∷ entries name t

-- The keys ascend from `lo`, below `hi`.
abbrev pub Ascending : {V : Type 0} → ℕ → ℕ → List (ℕ × V) → Type 0
Ascending lo hi [] = lo ≤ hi
Ascending lo hi ((k, v) ∷ t) = (lo ≤ k) × Ascending (suc k) hi t

-- No name is listed twice.
abbrev pub Distinct : {K V : Type 0} ⦃e : Eq K⦄ → List (K × V) → Type 0
Distinct [] = Unit
Distinct ((k, v) ∷ m) = (lookup k m ≡ none) × Distinct m

module _ {V : Type 0} where
  pub Ascending-le : (lo hi : ℕ) (t : List (ℕ × V)) → Ascending lo hi t → lo ≤ hi
  Ascending-le lo hi [] a = a
  Ascending-le lo hi ((k, v) ∷ t) a = omega (arith, Ascending-le (suc k) hi t a.1)

  pub Ascending-lower :
      (lo lo' hi : ℕ) (t : List (ℕ × V)) → lo' ≤ lo → Ascending lo hi t → Ascending lo' hi t
  Ascending-lower lo lo' hi [] h a = omega arith
  Ascending-lower lo lo' hi ((k, v) ∷ t) h a = (omega arith, a.1)

  -- A key that is at least every other goes to the end.
  pub insert_by-append :
      (lo key : ℕ) (v : V) (t : List (ℕ × V))
      → Ascending lo key t
      → insert_by ltb key v t ≡ t ++ (key, v) ∷ []
  unfolding insert_by
  insert_by-append lo key v [] a = refl
  insert_by-append lo key v ((k, w) ∷ t) a =
      ground (arith, Ascending-le (suc k) key t a.1, insert_by-append (suc k) key v t a.1)

  pub Ascending-append :
      (lo key : ℕ) (v : V) (t : List (ℕ × V))
      → Ascending lo key t
      → Ascending lo (key + 1) (t ++ (key, v) ∷ [])
  Ascending-append lo key v [] a = omega arith
  Ascending-append lo key v ((k, w) ∷ t) a = (a.0, Ascending-append (suc k) key v t a.1)

  pub Ascending-update :
      (lo hi key : ℕ) (v : V) (t : List (ℕ × V))
      → Ascending lo hi t
      → Ascending lo hi (update key v t)
  unfolding update
  Ascending-update lo hi key v [] a = a
  Ascending-update lo hi key v ((k, w) ∷ t) a =
      ground (arith, Ascending-update (suc k) hi key v t a.1)

  pub Ascending-erase :
      (lo hi key : ℕ) (t : List (ℕ × V)) → Ascending lo hi t → Ascending lo hi (erase key t)
  unfolding erase
  Ascending-erase lo hi key [] a = a
  Ascending-erase lo hi key ((k, w) ∷ t) a = ground (
    arith,
    Ascending-erase (suc k) hi key t a.1,
    Ascending-lower (suc k) lo hi t (omega arith) a.1,
  )

pub beq_comm_false : {K : Type 0} ⦃e : Eq K⦄ (a b : K) → e.beq a b ≡ false → e.beq b a ≡ false
beq_comm_false ⦃e⦄ a b h = ground (arith, e.beq_iff a b, e.beq_iff b a)

module _ {K V : Type 0} ⦃e : Eq K⦄ where
  pub insert_absent :
      (k : K) (v : V) (m : List (K × V)) → lookup k m ≡ none → insert k v m ≡ m ++ (k, v) ∷ []
  unfolding lookup insert
  insert_absent k v [] h = refl
  insert_absent k v ((j, w) ∷ m) h = ground (arith, insert_absent k v m)

  lookup-append_none :
      (j k : K) (v : V) (m : List (K × V))
      → lookup j m ≡ none
      → e.beq k j ≡ false
      → lookup j (m ++ (k, v) ∷ []) ≡ none
  unfolding lookup
  lookup-append_none j k v [] h n = ground arith
  lookup-append_none j k v ((i, w) ∷ m) h n = ground (arith, lookup-append_none j k v m)

  pub Distinct-append :
      (k : K) (v : V) (m : List (K × V))
      → lookup k m ≡ none
      → Distinct m
      → Distinct (m ++ (k, v) ∷ [])
  unfolding lookup
  Distinct-append k v [] h d = (refl, tt)
  Distinct-append k v ((j, w) ∷ m) h d = elim (Bool-cases (e.beq j k)) [
    | inl same ↦ cc (rw same at h)
    | inr other ↦
        let h' : lookup k m ≡ none = rw other at h in
        (lookup-append_none j k v m d.0 (beq_comm_false j k other), Distinct-append k v m h' d.1)
  ]

  pub lookup-erase_self : (k : K) (m : List (K × V)) → Distinct m → lookup k (erase k m) ≡ none
  unfolding lookup erase
  lookup-erase_self k [] d = refl
  lookup-erase_self k ((j, w) ∷ m) d = ground (arith, e.beq_iff j k, lookup-erase_self k m d.1)

  lookup-erase-none : (j k : K) (m : List (K × V)) → lookup j m ≡ none → lookup j (erase k m) ≡ none
  unfolding lookup erase
  lookup-erase-none j k [] h = refl
  lookup-erase-none j k ((i, w) ∷ m) h = ground (arith, lookup-erase-none j k m)

  pub Distinct-erase : (k : K) (m : List (K × V)) → Distinct m → Distinct (erase k m)
  unfolding erase
  Distinct-erase k [] d = tt
  Distinct-erase k ((j, w) ∷ m) d =
      ground (arith, Distinct-erase k m d.1, lookup-erase-none j k m d.0)

module _ {K V : Type 0} ⦃e : Eq K⦄ (name : V → K) where
  pub entries-append :
      (k : ℕ) (v : V) (t : List (ℕ × V))
      → entries name (t ++ (k, v) ∷ []) ≡ entries name t ++ (name v, k) ∷ []
  entries-append k v [] = refl
  entries-append k v ((j, w) ∷ t) = ap (◌∷◌ (name w, j)) (entries-append k v t)

  -- The row that the index leads to.
  pub record Found (i : K) (lo key : ℕ) (t : List (ℕ × V)) : Type 0 where
    pub row : V
    pub found : lookup key t ≡ some row
    pub named : name row ≡ i
    pub above : lo ≤ key
    pub erased : entries name (erase key t) ≡ erase i (entries name t)
    pub updated : (w : V) → name w ≡ i → entries name (update key w t) ≡ entries name t

  pub follow :
      (i : K) (lo hi key : ℕ) (t : List (ℕ × V))
      → Ascending lo hi t
      → lookup i (entries name t) ≡ some key
      → Found i lo key t
  unfolding lookup erase update
  follow i lo hi key [] a h = cc
  follow i lo hi key ((k, v) ∷ t) a h = elim (Bool-cases (e.beq (name v) i)) [
    | inl same ↦ record {
      row = v;
      found = ground arith;
      named = (e.beq_iff (name v) i).0 same;
      above = ground arith;
      erased = ground arith;
      updated = λ w n. ground (arith, e.beq_iff (name v) i);
    }
    | inr other ↦
        let h' : lookup i (entries name t) ≡ some key = rw other at h in
        let f = follow i (suc k) hi key t a.1 h' in
        record {
          row = f.row;
          found = ground (arith, f.found, f.above);
          named = f.named;
          above = omega (arith, f.above);
          erased = ground (arith, f.erased, f.above);
          updated = λ w n. ground (arith, f.updated w n, f.above);
        }
  ]
