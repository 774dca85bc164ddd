-- ===== src/Core/Market/Loading/Entering.antt =====
-- src/core/instrument.rs, `load_from_reader`: one entry added to a registry.
use rust_trader.Base.{
  ℕ, ◌<◌, ◌≤◌, ◌≡◌, refl, sym, ap, subst, ◌∙◌, ◌⊎◌, inl, inr, true, not, ltb, Option, none, some,
  if◌then◌else◌, Bool-cases, arith,
}
use mathlib.Core.Option.{some-injective}
use rust_trader.Base.Eq.{Text, int_eq, text_eq}
use rust_trader.Base.Int.{pos}
use rust_trader.Base.Maps.{lookup, lookup-insert_at, lookup-insert_ne, beq_self, contains_key}
use rust_trader.Base.Outcome.{ok, ensure, bind-eq-ok, ok-injective, ensure-eq-ok}
use rust_trader.Core.Market.{Instrument, InstrumentMap, get_by_symbol, get_by_id, put}
use rust_trader.Core.Market.Registry.{RegistryInv, numbered_as, grown, grown-RegistryInv}
use rust_trader.Core.Market.Loading.{duplicate_id, taken_symbol, max_ℤ, enter}
use rust_trader.Core.Market.Loading.Numbered.{Numbered}

-- What the entry of a line makes of a registry.
pub record Entered (m m' : InstrumentMap) (n : ℕ) (entry : Option Instrument) : Type 0 where
  pub last : ℕ
  pub above : n ≤ last
  pub bounded : last < 9223372036854775807
  pub inv : RegistryInv m' last
  pub kept :
      (s : Text) (i : Instrument) → lookup s m.by_symbol ≡ some i → lookup s m'.by_symbol ≡ some i
  pub found : (i : Instrument) → entry ≡ some i → lookup i.symbol m'.by_symbol ≡ some i
  pub only :
      (s : Text) (i : Instrument)
      → lookup s m'.by_symbol ≡ some i
      → (lookup s m.by_symbol ≡ some i) ⊎ (entry ≡ some i)

not_contained : {A : Type 0} (o : Option A) → not (contains_key o) ≡ true → o ≡ none
not_contained none h = refl
not_contained (some a) h = cc

module _ (m : InstrumentMap) (n k : ℕ) (symbol : Text) (v : RegistryInv m n) where
  abbrev highest : ℕ
  highest = if ltb n k then k else n

  highest_lem : max_ℤ m.last_id (pos k) ≡ pos highest
  highest_lem = rw v.counted (ground arith)

  only_grown :
      (s : Text) (i : Instrument)
      → lookup s (grown m highest k symbol).by_symbol ≡ some i
      → (lookup s m.by_symbol ≡ some i) ⊎ (some (numbered_as k symbol) ≡ some i)
  unfolding put
  only_grown s i h = elim (Bool-cases (text_eq.beq symbol s)) [
    | inl same ↦ inr (sym (lookup-insert_at symbol s (numbered_as k symbol) m.by_symbol same) ∙ h)
    | inr other ↦ inl (sym (lookup-insert_ne symbol s (numbered_as k symbol) m.by_symbol other) ∙ h)
  ]

  kept_grown :
      lookup symbol m.by_symbol ≡ none
      → (s : Text) (i : Instrument) → lookup s m.by_symbol ≡ some i
      → lookup s (grown m highest k symbol).by_symbol ≡ some i
  unfolding put
  kept_grown u s i h = elim (Bool-cases (text_eq.beq symbol s)) [
    | inl same ↦
        let eq = (text_eq.beq_iff symbol s).0 same in
        let bad : none ≡ some i = sym u ∙ ap (λ t. lookup t m.by_symbol) eq ∙ h in cc
    | inr other ↦ lookup-insert_ne symbol s (numbered_as k symbol) m.by_symbol other ∙ h
  ]

  grown-Entered :
      n < 9223372036854775807
      → k < 9223372036854775807
      → lookup symbol m.by_symbol ≡ none
      → lookup (pos k) m.by_id ≡ none
      → Entered m (grown m highest k symbol) n (some (numbered_as k symbol))
  unfolding put
  grown-Entered small p u w = record {
    last = highest;
    above = ground arith;
    bounded = ground arith;
    inv = grown-RegistryInv m n highest k symbol v u w (ground arith) (ground arith);
    kept = kept_grown u;
    found = λ i e.
        subst (λ (j : Instrument). lookup j.symbol (grown m highest k symbol).by_symbol ≡ some j)
          (some-injective _ i e)
          (lookup-insert_at symbol symbol (numbered_as k symbol) m.by_symbol (beq_self symbol));
    only = only_grown;
  }

  enter-numbered :
      n < 9223372036854775807
      → k < 9223372036854775807
      → (m' : InstrumentMap) → enter m (some (numbered_as k symbol)) ≡ ok m'
      → Entered m m' n (some (numbered_as k symbol))
  unfolding enter get_by_id get_by_symbol
  enter-numbered small p m' h =
      let (t, c, g) =
        bind-eq-ok (ensure (not (contains_key (lookup (pos k) m.by_id))) duplicate_id) _ h in
      let (u, d, f) =
        bind-eq-ok (ensure (not (contains_key (lookup symbol m.by_symbol))) taken_symbol) _ g in
      subst (λ m'. Entered m m' n (some (numbered_as k symbol)))
        (ok-injective _ (grown m highest k symbol) m'
          (ap (λ l. ok (put (record m { last_id = l }) (numbered_as k symbol))) highest_lem) f)
        (grown-Entered small p (not_contained _ (ensure-eq-ok _ taken_symbol d))
          (not_contained _ (ensure-eq-ok _ duplicate_id c)))

pub enter-Entered :
    (m : InstrumentMap) (n : ℕ) (entry : Option Instrument) (m' : InstrumentMap)
    → RegistryInv m n
    → n < 9223372036854775807
    → ((i : Instrument) → entry ≡ some i → Numbered i)
    → enter m entry ≡ ok m'
    → Entered m m' n entry
unfolding enter
enter-Entered m n none m' v small c h =
    subst (λ m'. Entered m m' n none) (ok-injective _ m m' refl h)
      (record {
        last = n;
        above = omega arith;
        bounded = small;
        inv = v;
        kept = λ s i k. k;
        found = λ i e. cc;
        only = λ s i k. inl k;
      })
enter-Entered m n (some i) m' v small c h =
    let d = c i refl in
    subst (λ (j : Instrument). Entered m m' n (some j)) (sym d.is)
      (enter-numbered m n d.number i.symbol v small d.bounded m'
        (ap (λ j. enter m (some j)) (sym d.is) ∙ h))
