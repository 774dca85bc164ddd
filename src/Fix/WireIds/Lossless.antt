-- ===== src/Fix/WireIds/Lossless.antt =====
-- src/fix/session.rs, `WireIdMap`: the two maps are inverse to each other, and no pair is ever lost.
use rust_trader.Base.{
  ℕ, zero, suc, ◌+◌, ◌-◌, ◌≡◌, refl, sym, ap, subst, ◌∙◌, ◌≤◌, ◌⊎◌, inl, inr, true, false, not,
  Option, none, some, List, arith, Bool-cases, Option-cases,
}
use mathlib.Core.Option.{some-injective}
use rust_trader.Base.Eq.{Eq, Text, int_eq, text_eq}
use rust_trader.Base.Int.{pos, ltb_ℤ}
use rust_trader.Base.Lists.{is_empty}
use rust_trader.Base.Maps.{lookup, insert, lookup-insert_at, lookup-insert_ne, beq_self}
use rust_trader.Base.Outcome.{ok, err, ensure, bind-eq-ok, ok-injective}
use rust_trader.Base.Texts.{parse_i32}
use rust_trader.Core.Orders.{OrderId}
use rust_trader.Fix.WireIds.{
  WireError, duplicate_id, fresh_id, WireIdMap, empty_id, too_many_ids, preferred, taken, free,
  search_id, at_least_one, saturating_i32, next_free, choose, mapped, intern, wire_for, i32_max,
}
use rust_trader.Fix.WireIds.Choosing.{SameMaps, choose_lem, usable_lem}

pub record WireInv (m : WireIdMap) : Type 0 where
  pub back :
      (w : Text) (id : OrderId) → lookup w m.wire_to_internal ≡ some id → wire_for m id ≡ some w
  pub forth :
      (id : OrderId) (w : Text) → wire_for m id ≡ some w → lookup w m.wire_to_internal ≡ some id
  pub positive : (id : OrderId) (w : Text) → wire_for m id ≡ some w → ltb_ℤ (pos 0) id ≡ true

-- A pair that is new to both of two maps, the second of which inverts the first.
inverts-insert :
    {K V : Type 0} ⦃e : Eq K⦄ ⦃f : Eq V⦄ (a : List (K × V)) (b : List (V × K)) (k : K) (v : V)
    → ((i : K) (w : V) → lookup i a ≡ some w → lookup w b ≡ some i)
    → lookup v b ≡ none
    → (i : K) (w : V) → lookup i (insert k v a) ≡ some w
    → lookup w (insert v k b) ≡ some i
inverts-insert ⦃e⦄ ⦃f⦄ a b k v inv n i w h = elim (Bool-cases (e.beq k i)) [
  | inl same ↦
      let q : k ≡ i = (e.beq_iff k i).0 same in
      let s : some v ≡ some w = sym (lookup-insert_at k i v a same) ∙ h in
      subst (λ x. lookup x (insert v k b) ≡ some i) (some-injective v w s)
        (lookup-insert_at v v k b (beq_self v) ∙ ap some q)
  | inr other ↦
      let h' : lookup i a ≡ some w = sym (lookup-insert_ne k i v a other) ∙ h in
      elim (Bool-cases (f.beq v w)) [
        | inl same ↦
            let q : v ≡ w = (f.beq_iff v w).0 same in
            let bad : none ≡ some i = sym n ∙ ap (λ x. lookup x b) q ∙ inv i w h' in cc
        | inr apart ↦ lookup-insert_ne v w k b apart ∙ inv i w h'
      ]
]

-- The maps with a new pair.
mapped-WireInv :
    (m m' : WireIdMap) (wire : Text) (id : OrderId)
    → WireInv m
    → SameMaps m m'
    → lookup wire m.wire_to_internal ≡ none
    → lookup id m.internal_to_wire ≡ none
    → ltb_ℤ (pos 0) id ≡ true
    → WireInv (mapped m' wire id)
unfolding wire_for
mapped-WireInv m m' wire id v s n u p = record {
  back =
      inverts-insert m'.wire_to_internal m'.internal_to_wire wire id (rw (s.wires, s.ids) v.back)
        (rw (s.ids) u);
  forth =
      inverts-insert m'.internal_to_wire m'.wire_to_internal id wire (rw (s.wires, s.ids) v.forth)
        (rw (s.wires) n);
  positive = λ j w h. elim (Bool-cases (int_eq.beq id j)) [
    | inl same ↦ subst (λ k. ltb_ℤ (pos 0) k ≡ true) ((int_eq.beq_iff id j).0 same) p
    | inr other ↦
        v.positive j w (
          ap (lookup j) (sym s.ids)
          ∙ sym (lookup-insert_ne id j wire m'.internal_to_wire other)
          ∙ h)
  ];
}

kept_pair :
    (m m' : WireIdMap) (wire : Text) (id j : OrderId) (w : Text)
    → SameMaps m m'
    → lookup id m.internal_to_wire ≡ none
    → wire_for m j ≡ some w
    → wire_for (mapped m' wire id) j ≡ some w
unfolding wire_for
kept_pair m m' wire id j w s u h = elim (Bool-cases (int_eq.beq id j)) [
  | inl same ↦
      let bad : none ≡ some w =
        sym u ∙ ap (λ x. lookup x m.internal_to_wire) ((int_eq.beq_iff id j).0 same) ∙ h in
      cc
  | inr other ↦ lookup-insert_ne id j wire m'.internal_to_wire other ∙ ap (lookup j) s.ids ∙ h
]

-- What `intern` returns.
pub record Interned (m : WireIdMap) (wire : Text) (r : OrderId × WireIdMap) : Type 0 where
  pub inv : WireInv r.1
  pub known : wire_for r.1 r.0 ≡ some wire
  pub kept : (j : OrderId) (w : Text) → wire_for m j ≡ some w → wire_for r.1 j ≡ some w

intern-Interned :
    (m : WireIdMap) (wire : Text) {r : OrderId × WireIdMap}
    → WireInv m
    → intern m wire ≡ ok r
    → Interned m wire r
unfolding intern preferred wire_for
intern-Interned m wire {r} v h =
    let (x, c, f) = bind-eq-ok (ensure (not (is_empty wire)) empty_id) _ h in
    elim (Option-cases (lookup wire m.wire_to_internal)) [
      | inr (id, e) ↦
          subst (Interned m wire) (ok-injective _ (id, m) r refl (rw e at f))
            (record { inv = v; known = v.back wire id e; kept = λ j w k. k })
      | inl e ↦
          let (q, g, k) = bind-eq-ok (choose m (preferred wire)) _ (rw e at f) in
          let t = choose_lem m (preferred wire) q (λ id u. usable_lem (parse_i32 wire) id u) g in
          subst (Interned m wire) (ok-injective _ _ r refl k) (record {
            inv = mapped-WireInv m q.1 wire q.0 v t.same e t.unused t.positive;
            known = lookup-insert_at q.0 q.0 wire (q.1).internal_to_wire (beq_self q.0);
            kept = λ j w l. kept_pair m q.1 wire q.0 j w t.same t.unused l;
          })
    ]

-- No number from the next one to the largest is free.
abbrev pub Exhausted : WireIdMap → ℕ → ℕ → Type 0
Exhausted m room candidate = (k : ℕ) → k ≤ room → free m (candidate + k) ≡ false

Exhausted-zero : (m : WireIdMap) (c : ℕ) → free m c ≡ false → Exhausted m 0 c
Exhausted-zero m c n k h = let e : c ≡ c + k = omega (arith, h) in subst (λ i. free m i ≡ false) e n

Exhausted-suc :
    (m : WireIdMap) (room c : ℕ)
    → free m c ≡ false
    → Exhausted m room (c + 1)
    → Exhausted m (suc room) c
Exhausted-suc m room c n x zero h =
    let e : c ≡ c + 0 = omega arith in subst (λ i. free m i ≡ false) e n
Exhausted-suc m room c n x (suc j) h =
    let e : c + 1 + j ≡ c + suc j = omega arith in
    subst (λ i. free m i ≡ false) e (x j (omega (arith, h)))

search_id-cases :
    (m : WireIdMap) (room candidate : ℕ)
    → ((id : ℕ) × (search_id m room candidate ≡ ok id))
      ⊎ ((search_id m room candidate ≡ err too_many_ids) × Exhausted m room candidate)
unfolding search_id
search_id-cases m zero candidate = elim (Bool-cases (free m candidate)) [
  | inl f ↦ inl (candidate, rw f refl)
  | inr n ↦ inr (rw n refl, Exhausted-zero m candidate n)
]
search_id-cases m (suc room) candidate = elim (Bool-cases (free m candidate)) [
  | inl f ↦ inl (candidate, rw (f, search_id) refl)
  | inr n ↦ elim (search_id-cases m room (candidate + 1)) [
    | inl (id, e) ↦ inl (id, rw (n, search_id) e)
    | inr (e, x) ↦ inr (rw (n, search_id) e, Exhausted-suc m room candidate n x)
  ]
]

-- The start of the search, and how many numbers follow it.
abbrev pub start : WireIdMap → ℕ
start m = at_least_one m.next_internal

abbrev pub Full : WireIdMap → Type 0
Full m = Exhausted m (i32_max - start m) (start m)

next_free-cases :
    (m : WireIdMap)
    → ((r : OrderId × WireIdMap) × (next_free m ≡ ok r))
      ⊎ ((next_free m ≡ err too_many_ids) × Full m)
unfolding next_free
next_free-cases m = elim (search_id-cases m (i32_max - start m) (start m)) [
  | inl (id, e) ↦ inl (
    (pos id, record m { next_internal = at_least_one (saturating_i32 id) }),
    rw (e, next_free) refl,
  )
  | inr (e, x) ↦ inr (rw (e, next_free) refl, x)
]

choose-cases :
    (m : WireIdMap) (o : Option OrderId)
    → ((r : OrderId × WireIdMap) × (choose m o ≡ ok r)) ⊎ ((choose m o ≡ err too_many_ids) × Full m)
unfolding choose
choose-cases m none = next_free-cases m
choose-cases m (some id) = elim (Bool-cases (taken m id)) [
  | inl t ↦ rw t (next_free-cases m)
  | inr f ↦ inl ((id, m), rw f refl)
]

-- For a text that is not empty, `intern` gives an identifier, unless every number from the next one on
-- is taken. The identifier stands for that text, and for no other; every pair from before is still
-- there; and it is positive, so it is never that of a quote.
pub intern_lem :
    (m : WireIdMap) (wire : Text)
    → WireInv m
    → is_empty wire ≡ false
    → ((r : OrderId × WireIdMap) × (intern m wire ≡ ok r) × Interned m wire r)
      ⊎ ((intern m wire ≡ err too_many_ids) × Full m)
unfolding intern preferred
intern_lem m wire v n = elim (Option-cases (lookup wire m.wire_to_internal)) [
  | inr (id, e) ↦
      let h : intern m wire ≡ ok (id, m) = rw (n, e, intern) refl in
      inl ((id, m), h, intern-Interned m wire v h)
  | inl e ↦ elim (choose-cases m (preferred wire)) [
    | inl (q, g) ↦
        let h : intern m wire ≡ ok (q.0, mapped q.1 wire q.0) = rw (n, e, g, intern) refl in
        inl ((q.0, mapped q.1 wire q.0), h, intern-Interned m wire v h)
    | inr (g, x) ↦ inr (rw (n, e, g, intern) refl, x)
  ]
]

fresh_id-intern :
    (m : WireIdMap) (wire : Text)
    → lookup wire m.wire_to_internal ≡ none
    → fresh_id m wire ≡ intern m wire
unfolding fresh_id intern
fresh_id-intern m wire e = rw e refl

-- `fresh_id` gives an identifier that stands for the text, or none.
pub fresh_id-cases :
    (m : WireIdMap) (wire : Text)
    → WireInv m
    → ((r : OrderId × WireIdMap) × (fresh_id m wire ≡ ok r) × Interned m wire r)
      ⊎ ((x : WireError) × (fresh_id m wire ≡ err x))
unfolding fresh_id
fresh_id-cases m wire v = elim (Option-cases (lookup wire m.wire_to_internal)) [
  | inr (id, e) ↦ inr (duplicate_id, rw e refl)
  | inl e ↦
      let same = fresh_id-intern m wire e in
      elim (Bool-cases (is_empty wire)) [
        | inl n ↦ inr (empty_id, same ∙ rw (n, intern) refl)
        | inr n ↦ elim (intern_lem m wire v n) [
          | inl (r, h, i) ↦ inl (r, same ∙ h, i)
          | inr (h, x) ↦ inr (too_many_ids, same ∙ h)
        ]
      ]
]
