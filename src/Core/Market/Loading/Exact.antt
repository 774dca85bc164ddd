-- ===== src/Core/Market/Loading/Exact.antt =====
-- src/core/instrument.rs, `load_from_reader`: a loaded registry holds what its lines state.
use rust_trader.Base.{
  ℕ, ◌<◌, ◌≤◌, ◌≡◌, refl, ap, subst, ◌∙◌, ◌⊎◌, inl, inr, true, false, not, Option, none, some, List,
  [], ◌∷◌, arith,
}
use rust_trader.Base.Eq.{Text, int_eq, text_eq}
use rust_trader.Base.Lists.{All, is_empty}
use rust_trader.Base.Maps.{lookup}
use rust_trader.Base.Outcome.{ok, ensure, bind-eq-ok, ok-injective, ensure-eq-ok}
use rust_trader.Core.Market.{Instrument, InstrumentMap, new_instruments}
use rust_trader.Core.Market.Registry.{RegistryInv, new_instruments-RegistryInv}
use rust_trader.Core.Market.Loading.{
  no_instrument, parse_line, load_line, load_lines, load_from_reader,
}
use rust_trader.Core.Market.Loading.Numbered.{parse_line-Numbered}
use rust_trader.Core.Market.Loading.Entering.{Entered, enter-Entered}

-- The line states the instrument.
abbrev pub States : Instrument → Option Text → Type 0
States i none = ⊥
States i (some s) = parse_line s ≡ ok (some i)

abbrev pub Stated : Instrument → List (Option Text) → Type 0
Stated i [] = ⊥
Stated i (line ∷ lines) = States i line ⊎ Stated i lines

-- The instruments that the line states are in the registry.
abbrev pub Holds : InstrumentMap → Option Text → Type 0
Holds m line = (i : Instrument) → States i line → lookup i.symbol m.by_symbol ≡ some i

-- What the lines make of a registry.
record Read (m m' : InstrumentMap) (n : ℕ) (lines : List (Option Text)) : Type 0 where
  last : ℕ
  above : n ≤ last
  bounded : last < 9223372036854775807
  inv : RegistryInv m' last
  kept :
      (s : Text) (i : Instrument) → lookup s m.by_symbol ≡ some i → lookup s m'.by_symbol ≡ some i
  found : All (Holds m') lines
  only :
      (s : Text) (i : Instrument)
      → lookup s m'.by_symbol ≡ some i
      → (lookup s m.by_symbol ≡ some i) ⊎ Stated i lines

module _ (m : InstrumentMap) (n : ℕ) (m' : InstrumentMap) (v : RegistryInv m n)
    (small : n < 9223372036854775807) where
  load_text :
      (s : Text)
      → load_line m (some s) ≡ ok m'
      → (entry : Option Instrument) × (parse_line s ≡ ok entry) × Entered m m' n entry
  unfolding load_line
  load_text s h =
      let (entry, e, f) = bind-eq-ok (parse_line s) _ h in
      (
        entry,
        e,
        enter-Entered m n entry m' v small (λ i k. parse_line-Numbered s i (e ∙ ap ok k)) f,
      )

load_lines-Read :
    (lines : List (Option Text)) (m : InstrumentMap) (n : ℕ) (m' : InstrumentMap)
    → RegistryInv m n
    → n < 9223372036854775807
    → load_lines m lines ≡ ok m'
    → Read m m' n lines
unfolding load_lines load_line
load_lines-Read [] m n m' v small h =
    subst (λ m'. Read m m' n []) (ok-injective _ m m' refl h)
      (record {
        last = n;
        above = omega arith;
        bounded = small;
        inv = v;
        kept = λ s i k. k;
        found = tt;
        only = λ s i k. inl k;
      })
load_lines-Read (none ∷ lines) m n m' v small h = cc
load_lines-Read (some s ∷ lines) m n m' v small h =
    let (mid, e, f) = bind-eq-ok (load_line m (some s)) _ h in
    let (entry, g, r) = load_text m n mid v small s e in
    let t = load_lines-Read lines mid r.last m' r.inv r.bounded f in
    record {
      last = t.last;
      above = omega (arith, r.above, t.above);
      bounded = t.bounded;
      inv = t.inv;
      kept = λ z i k. t.kept z i (r.kept z i k);
      found = (λ i k. t.kept i.symbol i (r.found i (ok-injective _ entry (some i) g k)), t.found);
      only = λ z i k. elim (t.only z i k) [
        | inr later ↦ inr (inr later)
        | inl known ↦ elim (r.only z i known) [
          | inl first ↦ inl first
          | inr here ↦ inr (inl (g ∙ ap ok here))
        ]
      ];
    }

-- What the lines of a file make a registry of.
pub record Loaded (m : InstrumentMap) (lines : List (Option Text)) : Type 0 where
  pub last : ℕ
  pub bounded : last < 9223372036854775807
  pub inv : RegistryInv m last
  pub occupied : is_empty m.by_id ≡ false
  pub found : All (Holds m) lines
  pub only : (s : Text) (i : Instrument) → lookup s m.by_symbol ≡ some i → Stated i lines

not_empty : {A : Type 0} (xs : List A) → not (is_empty xs) ≡ true → is_empty xs ≡ false
not_empty [] h = cc
not_empty (x ∷ xs) h = refl

read-Loaded :
    (m : InstrumentMap) (lines : List (Option Text))
    → Read new_instruments m 0 lines
    → is_empty m.by_id ≡ false
    → Loaded m lines
unfolding new_instruments lookup
read-Loaded m lines r o = record {
  last = r.last;
  bounded = r.bounded;
  inv = r.inv;
  occupied = o;
  found = r.found;
  only = λ s i k. elim (r.only s i k) [ inl h ↦ cc | inr stated ↦ stated ];
}

pub load_from_reader-Loaded :
    (lines : List (Option Text)) (m : InstrumentMap)
    → load_from_reader lines ≡ ok m
    → Loaded m lines
unfolding load_from_reader
load_from_reader-Loaded lines m h =
    let (loaded, e, f) = bind-eq-ok (load_lines new_instruments lines) _ h in
    let (t, c, g) = bind-eq-ok (ensure (not (is_empty loaded.by_id)) no_instrument) _ f in
    subst (λ m. Loaded m lines) (ok-injective _ loaded m refl g)
      (read-Loaded loaded lines
        (load_lines-Read lines new_instruments 0 loaded new_instruments-RegistryInv (omega arith) e)
        (not_empty loaded.by_id (ensure-eq-ok _ no_instrument c)))
