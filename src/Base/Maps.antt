-- ===== src/Base/Maps.antt =====
-- The standard library's maps as association lists. A `HashMap` keeps its entries in the order of
-- insertion here; Rust promises no order, and nothing is proved of it. A `BTreeMap` is the list of
-- its entries in the order of its keys.
use mathlib.Core.Path.{◌≡◌, refl, ◌∙◌}
use mathlib.Core.Bool.{Bool, true, false}
use mathlib.Core.Option.{Option, none, some}
use mathlib.Core.List.{List, [], ◌∷◌}
use native.Mathlib.Omega.{arith}
use rust_trader.Base.Bools.{if◌then◌else◌}
use rust_trader.Base.Eq.{Eq}

module _ {K V : Type 0} ⦃e : Eq K⦄ where
  -- `get`
  unfoldable pub lookup : K → List (K × V) → Option V
  lookup k [] = none
  lookup k ((j, v) ∷ m) = if e.beq j k then some v else lookup k m

  -- `HashMap::insert`
  unfoldable pub insert : K → V → List (K × V) → List (K × V)
  insert k v [] = (k, v) ∷ []
  insert k v ((j, w) ∷ m) = if e.beq j k then (j, v) ∷ m else (j, w) ∷ insert k v m

  -- A write through `get_mut`; nothing happens where the key is absent.
  unfoldable pub update : K → V → List (K × V) → List (K × V)
  update k v [] = []
  update k v ((j, w) ∷ m) = if e.beq j k then (j, v) ∷ m else (j, w) ∷ update k v m

  -- `remove`
  unfoldable pub erase : K → List (K × V) → List (K × V)
  erase k [] = []
  erase k ((j, w) ∷ m) = if e.beq j k then m else (j, w) ∷ erase k m

  pub lookup-insert :
      (k j : K) (v : V) (m : List (K × V))
      → lookup j (insert k v m) ≡ (if e.beq k j then some v else lookup j m)
  unfolding lookup insert
  lookup-insert k j v [] = refl
  lookup-insert k j v ((i, w) ∷ m) =
      ground (arith, e.beq_iff k j, e.beq_iff i k, e.beq_iff i j, lookup-insert k j v m)

  pub lookup-erase_ne :
      (k j : K) (m : List (K × V)) → e.beq k j ≡ false → lookup j (erase k m) ≡ lookup j m
  unfolding lookup erase
  lookup-erase_ne k j [] h = refl
  lookup-erase_ne k j ((i, w) ∷ m) h =
      ground (arith, e.beq_iff k j, e.beq_iff i k, e.beq_iff i j, lookup-erase_ne k j m h)

module _ {K V : Type 0} ⦃e : Eq K⦄ where
  pub lookup-update :
      (k : K) (v w : V) (m : List (K × V)) → lookup k m ≡ some w → lookup k (update k v m) ≡ some v
  unfolding lookup update
  lookup-update k v w [] h = cc
  lookup-update k v w ((j, u) ∷ m) h = ground (arith, lookup-update k v w m)

  pub lookup-update_ne :
      (k j : K) (v : V) (m : List (K × V))
      → e.beq k j ≡ false
      → lookup j (update k v m) ≡ lookup j m
  unfolding lookup update
  lookup-update_ne k j v [] h = refl
  lookup-update_ne k j v ((i, w) ∷ m) h =
      ground (arith, e.beq_iff k j, e.beq_iff i k, e.beq_iff i j, lookup-update_ne k j v m h)

  pub erase-update : (k : K) (v : V) (m : List (K × V)) → erase k (update k v m) ≡ erase k m
  unfolding erase update
  erase-update k v [] = refl
  erase-update k v ((j, u) ∷ m) = ground (arith, erase-update k v m)

  pub update-update :
      (k : K) (v w : V) (m : List (K × V)) → update k v (update k w m) ≡ update k v m
  unfolding update
  update-update k v w [] = refl
  update-update k v w ((j, u) ∷ m) = ground (arith, update-update k v w m)

pub beq_self : {K : Type 0} ⦃e : Eq K⦄ (k : K) → e.beq k k ≡ true
beq_self ⦃e⦄ k = (e.beq_iff k k).1 refl

module _ {K V : Type 0} ⦃e : Eq K⦄ where
  pub lookup-insert_at :
      (k j : K) (v : V) (m : List (K × V)) → e.beq k j ≡ true → lookup j (insert k v m) ≡ some v
  lookup-insert_at k j v m h = lookup-insert k j v m ∙ rw h refl

  pub lookup-insert_ne :
      (k j : K) (v : V) (m : List (K × V))
      → e.beq k j ≡ false
      → lookup j (insert k v m) ≡ lookup j m
  lookup-insert_ne k j v m h = lookup-insert k j v m ∙ rw h refl

-- `BTreeMap::insert`, where `before` is the order in which the entries are listed.
module _ {K V : Type 0} (before : K → K → Bool) where
  unfoldable pub insert_by : K → V → List (K × V) → List (K × V)
  insert_by k v [] = (k, v) ∷ []
  insert_by k v ((j, w) ∷ m) =
      if before k j
      then (k, v) ∷ (j, w) ∷ m
      else if before j k
      then (j, w) ∷ insert_by k v m
      else (j, v) ∷ m

abbrev pub contains_key : {V : Type 0} → Option V → Bool
contains_key none = false
contains_key (some v) = true

-- `values`
abbrev pub values : {K V : Type 0} → List (K × V) → List V
values [] = []
values ((k, v) ∷ m) = v ∷ values m

abbrev pub keys : {K V : Type 0} → List (K × V) → List K
keys [] = []
keys ((k, v) ∷ m) = k ∷ keys m
