-- ===== src/Fix/WireIds/Choosing.antt =====
-- src/fix/session.rs, `WireIdMap::intern`: the identifier that is chosen for a new text.
use rust_trader.Base.{
  ℕ, zero, suc, ◌+◌, ◌-◌, ◌≡◌, refl, subst, inl, inr, Bool, true, false, not, ◌&&◌, Option, none,
  some, arith, ltb, Bool-cases, Option-cases,
}
use mathlib.Core.Option.{some-injective}
use rust_trader.Base.Eq.{int_eq, text_eq}
use rust_trader.Base.Int.{ℤ, pos, ltb_ℤ, eqb_ℤ}
use rust_trader.Base.Maps.{lookup}
use rust_trader.Base.Outcome.{ok, bind-eq-ok, ok-injective}
use rust_trader.Core.Orders.{OrderId}
use rust_trader.Core.Engine.{quote_order_id}
use rust_trader.Fix.WireIds.{
  WireIdMap, usable, taken, free, search_id, at_least_one, next_free, choose, i32_max,
}

-- Only the counter may differ.
pub record SameMaps (m m' : WireIdMap) : Type 0 where
  pub wires : m'.wire_to_internal ≡ m.wire_to_internal
  pub ids : m'.internal_to_wire ≡ m.internal_to_wire

-- What `choose` chooses.
pub record Chosen (m : WireIdMap) (r : OrderId × WireIdMap) : Type 0 where
  pub unused : lookup r.0 m.internal_to_wire ≡ none
  pub positive : ltb_ℤ (pos 0) r.0 ≡ true
  pub same : SameMaps m r.1

untaken : (m : WireIdMap) (id : OrderId) → taken m id ≡ false → lookup id m.internal_to_wire ≡ none
untaken m id h = elim (Option-cases (lookup id m.internal_to_wire)) [
  | inl e ↦ e
  | inr (w, e) ↦ cc (rw e at h)
]

free_lem :
    (m : WireIdMap) (n : ℕ)
    → free m n ≡ true
    → (lookup (pos n) m.internal_to_wire ≡ none) × (ltb_ℤ (pos 0) (pos n) ≡ true)
free_lem m n h = elim (Option-cases (lookup (pos n) m.internal_to_wire)) [
  | inl e ↦ (e, ground arith)
  | inr (w, e) ↦
      let h' : (ltb 0 n && not (eqb_ℤ (pos n) quote_order_id) && false) ≡ true = rw e at h in
      absurd (ground arith)
]

search_id_lem :
    (m : WireIdMap) (room candidate id : ℕ) → search_id m room candidate ≡ ok id → free m id ≡ true
unfolding search_id
search_id_lem m zero candidate id h = elim (Bool-cases (free m candidate)) [
  | inl f ↦
      subst (λ k. free m k ≡ true) (ok-injective _ candidate id refl (rw (f, search_id) at h)) f
  | inr n ↦ cc (rw n at h)
]
search_id_lem m (suc room) candidate id h = elim (Bool-cases (free m candidate)) [
  | inl f ↦
      subst (λ k. free m k ≡ true) (ok-injective _ candidate id refl (rw (f, search_id) at h)) f
  | inr n ↦ search_id_lem m room (candidate + 1) id (rw (n, search_id) at h)
]

next_free_lem : (m : WireIdMap) (r : OrderId × WireIdMap) → next_free m ≡ ok r → Chosen m r
unfolding next_free
next_free_lem m r h =
    let start = at_least_one m.next_internal in
    let (id, e, f) = bind-eq-ok (search_id m (i32_max - start) start) _ h in
    let u = free_lem m id (search_id_lem m (i32_max - start) start id e) in
    subst (Chosen m) (ok-injective _ _ r refl f)
      (record { unused = u.0; positive = u.1; same = record { wires = refl; ids = refl } })

pub usable_lem : (o : Option ℤ) (id : ℤ) → usable o ≡ some id → ltb_ℤ (pos 0) id ≡ true
usable_lem none id h = cc
usable_lem (some i) id h = elim (Bool-cases (ltb_ℤ (pos 0) i && not (eqb_ℤ i quote_order_id))) [
  | inl u ↦
      let e : some i ≡ some id = rw u at h in
      subst (λ k. ltb_ℤ (pos 0) k ≡ true) (some-injective i id e) (and_left (ltb_ℤ (pos 0) i) _ u)
  | inr n ↦ cc (rw n at h)
]
  where
    and_left : (a b : Bool) → (a && b) ≡ true → a ≡ true
    and_left true b e = refl
    and_left false b e = cc

pub choose_lem :
    (m : WireIdMap) (o : Option OrderId) (r : OrderId × WireIdMap)
    → ((id : OrderId) → o ≡ some id → ltb_ℤ (pos 0) id ≡ true)
    → choose m o ≡ ok r
    → Chosen m r
unfolding choose
choose_lem m none r p h = next_free_lem m r h
choose_lem m (some id) r p h = elim (Bool-cases (taken m id)) [
  | inl t ↦ next_free_lem m r (rw t at h)
  | inr f ↦ subst (Chosen m) (ok-injective _ (id, m) r refl (rw f at h)) (record {
    unused = untaken m id f;
    positive = p id refl;
    same = record { wires = refl; ids = refl };
  })
]
