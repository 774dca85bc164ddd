-- ===== src/Core/Market/Registry.antt =====
-- src/core/instrument.rs, and `create_instrument` of src/core/exchange/mod.rs: the two directions of the
-- registry agree.
use rust_trader.Base.{ℕ, ◌+◌, ◌<◌, ◌≤◌, ◌≡◌, refl, ◌∙◌, none, some, arith}
use rust_trader.Base.Eq.{Text, int_eq, text_eq}
use rust_trader.Base.Int.{ℤ, pos, eqb_ℤ_iff}
use rust_trader.Base.Maps.{lookup, lookup-insert, lookup-insert_at, lookup-insert_ne, beq_self}
use rust_trader.Core.Wrapping.{next_i64}
use rust_trader.Core.Market.{Instrument, InstrumentMap, new_instruments, put}

-- Each symbol and each identifier stands for one instrument, the same both ways, and no identifier
-- above the last one given out is in use.
pub record RegistryInv (m : InstrumentMap) (n : ℕ) : Type 0 where
  pub counted : m.last_id ≡ pos n
  pub named :
      (s : Text) (i : Instrument)
      → lookup s m.by_symbol ≡ some i
      → (i.symbol ≡ s) × (lookup i.id m.by_id ≡ some i)
  pub numbered :
      (k : ℤ) (i : Instrument)
      → lookup k m.by_id ≡ some i
      → (i.id ≡ k) × (lookup i.symbol m.by_symbol ≡ some i)
  pub fresh : (k : ℕ) → n < k → lookup (pos k) m.by_id ≡ none

abbrev pub numbered_as : ℕ → Text → Instrument
numbered_as k symbol = record { id = pos k; symbol = symbol }

abbrev pub grown : InstrumentMap → ℕ → ℕ → Text → InstrumentMap
grown m last k symbol = put (record m { last_id = pos last }) (numbered_as k symbol)

module _ (m : InstrumentMap) (n last k : ℕ) (symbol : Text) (v : RegistryInv m n)
    (unused : lookup symbol m.by_symbol ≡ none) (unnumbered : lookup (pos k) m.by_id ≡ none) where
  named_grown :
      (s : Text) (i : Instrument)
      → lookup s (grown m last k symbol).by_symbol ≡ some i
      → (i.symbol ≡ s) × (lookup i.id (grown m last k symbol).by_id ≡ some i)
  unfolding put
  named_grown s i h =
      let at = lookup-insert symbol s (numbered_as k symbol) m.by_symbol in
      let to = lookup-insert (pos k) i.id (numbered_as k symbol) m.by_id in
      ground (
        arith,
        v.named s i,
        text_eq.beq_iff symbol s,
        eqb_ℤ_iff (pos k) i.id,
        lookup-insert_at (pos k) (pos k) (numbered_as k symbol) m.by_id,
      )

  numbered_grown :
      (j : ℤ) (i : Instrument)
      → lookup j (grown m last k symbol).by_id ≡ some i
      → (i.id ≡ j) × (lookup i.symbol (grown m last k symbol).by_symbol ≡ some i)
  unfolding put
  numbered_grown j i h =
      let at = lookup-insert (pos k) j (numbered_as k symbol) m.by_id in
      let to = lookup-insert symbol i.symbol (numbered_as k symbol) m.by_symbol in
      ground (
        arith,
        v.numbered j i,
        eqb_ℤ_iff (pos k) j,
        text_eq.beq_iff symbol i.symbol,
        lookup-insert_at symbol symbol (numbered_as k symbol) m.by_symbol,
        beq_self symbol,
      )

  fresh_grown :
      n ≤ last → k ≤ last → (j : ℕ) → last < j → lookup (pos j) (grown m last k symbol).by_id ≡ none
  unfolding put
  fresh_grown p q j h =
      lookup-insert_ne (pos k) (pos j) (numbered_as k symbol) m.by_id (ground arith)
      ∙ v.fresh j (omega arith)

  pub grown-RegistryInv : n ≤ last → k ≤ last → RegistryInv (grown m last k symbol) last
  unfolding put
  grown-RegistryInv p q = record {
    counted = refl;
    named = named_grown;
    numbered = numbered_grown;
    fresh = fresh_grown p q;
  }

-- The counter does not wrap around.
pub next_i64_lem : (n : ℕ) → n < 9223372036854775807 → next_i64 (pos n) ≡ pos (n + 1)
next_i64_lem n h = ground arith

pub new_instruments-RegistryInv : RegistryInv new_instruments 0
unfolding new_instruments lookup
new_instruments-RegistryInv = record {
  counted = refl;
  named = λ s i h. cc;
  numbered = λ k i h. cc;
  fresh = λ k h. refl;
}
