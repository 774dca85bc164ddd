-- ===== src/Core/Engine/Sessions/Instruments.antt =====
-- src/core/exchange/mod.rs, `create_instrument`: the registry of the engine.
use rust_trader.Base.{
  ℕ, ◌+◌, ◌<◌, ◌≤◌, ◌≡◌, refl, sym, ap, ◌∙◌, none, some, [], ◌∷◌, arith, Bool-cases, Option-cases,
  inl, inr,
}
use rust_trader.Base.Eq.{Text, int_eq, text_eq}
use rust_trader.Base.Int.{ℤ, pos}
use rust_trader.Base.Maps.{lookup, lookup-insert_at, lookup-insert_ne, beq_self}
use rust_trader.Decimal.{DecimalOps}
use rust_trader.Core.Market.{Instrument, put, next_id, get_by_symbol, register}
use rust_trader.Core.Market.Registry.{
  RegistryInv, numbered_as, grown, grown-RegistryInv, next_i64_lem,
}
use rust_trader.Core.Engine.{Engine}
use rust_trader.Core.Engine.Sessions.{create_instrument, instrument_by_symbol}

module _ {D : Type 0} ⦃dec : DecimalOps D⦄ where
  -- The effect of a request for the instrument of a symbol.
  pub record Registered (e e' : Engine D) (id : ℤ) (symbol : Text) (n : ℕ) : Type 0 where
    pub last : ℕ
    pub above : n ≤ last
    pub inv : RegistryInv e'.instruments last
    pub found : instrument_by_symbol e' symbol ≡ some (record { id = id; symbol = symbol })
    pub kept :
        (s : Text) (i : Instrument)
        → instrument_by_symbol e s ≡ some i
        → instrument_by_symbol e' s ≡ some i
    pub again : create_instrument e' symbol ≡ (id, e')

  abbrev added : Engine D → ℕ → Text → Engine D
  added e n symbol = record e {
    instruments = grown e.instruments (n + 1) (n + 1) symbol;
    market_data = register e.market_data (numbered_as (n + 1) symbol ∷ []);
  }

  found-again :
      (e : Engine D) (symbol : Text) (i : Instrument)
      → lookup symbol e.instruments.by_symbol ≡ some i
      → create_instrument e symbol ≡ (i.id, e)
  unfolding create_instrument get_by_symbol
  found-again e symbol i h = rw (h, create_instrument) refl

  created :
      (e : Engine D) (n : ℕ) (symbol : Text)
      → lookup symbol e.instruments.by_symbol ≡ none
      → e.instruments.last_id ≡ pos n
      → n < 9223372036854775807
      → create_instrument e symbol ≡ (pos (n + 1), added e n symbol)
  unfolding create_instrument get_by_symbol next_id
  created e n symbol h c small = rw (h, create_instrument) (rw (c, next_i64_lem n small) refl)

  lookup_added :
      (e : Engine D) (n : ℕ) (symbol : Text)
      → lookup symbol (added e n symbol).instruments.by_symbol ≡ some (numbered_as (n + 1) symbol)
  unfolding put
  lookup_added e n symbol =
      lookup-insert_at symbol symbol (numbered_as (n + 1) symbol) e.instruments.by_symbol
        (beq_self symbol)

  lookup_kept :
      (e : Engine D) (n : ℕ) (symbol s : Text) (i : Instrument)
      → lookup symbol e.instruments.by_symbol ≡ none
      → lookup s e.instruments.by_symbol ≡ some i
      → lookup s (added e n symbol).instruments.by_symbol ≡ some i
  unfolding put
  lookup_kept e n symbol s i h k = elim (Bool-cases (text_eq.beq symbol s)) [
    | inl same ↦
        let eq = (text_eq.beq_iff symbol s).0 same in
        let bad : none ≡ some i = sym h ∙ ap (λ t. lookup t e.instruments.by_symbol) eq ∙ k in cc
    | inr other ↦
        lookup-insert_ne symbol s (numbered_as (n + 1) symbol) e.instruments.by_symbol other ∙ k
  ]

  -- While identifiers are left, a request for a symbol's instrument keeps the registry well-formed
  -- and never lowers the last identifier given out: the symbol then stands for the returned
  -- identifier, the other symbols for what they stood for, and a second request gives the same
  -- identifier and changes nothing.
  pub create_instrument-Registered :
      (e : Engine D) (symbol : Text) (n : ℕ)
      → RegistryInv e.instruments n
      → n < 9223372036854775807
      → (id : ℤ) × (e' : Engine D) × (create_instrument e symbol ≡ (id, e'))
        × Registered e e' id symbol n
  unfolding instrument_by_symbol get_by_symbol
  create_instrument-Registered e symbol n v small =
      elim (Option-cases (lookup symbol e.instruments.by_symbol)) [
        | inr (i, h) ↦ (
          i.id,
          e,
          found-again e symbol i h,
          record {
            last = n;
            above = omega arith;
            inv = v;
            found =
                h
                ∙ ap (λ (s : Text). some (record { id = i.id; symbol = s })) (v.named symbol i h).0;
            kept = λ s j k. k;
            again = found-again e symbol i h;
          },
        )
        | inl h ↦ (
          pos (n + 1),
          added e n symbol,
          created e n symbol h v.counted small,
          record {
            last = n + 1;
            above = omega arith;
            inv =
                grown-RegistryInv e.instruments n (n + 1) (n + 1) symbol v h
                  (v.fresh (n + 1) (omega arith)) (omega arith) (omega arith);
            found = lookup_added e n symbol;
            kept = λ s j k. lookup_kept e n symbol s j h k;
            again =
                found-again (added e n symbol) symbol (numbered_as (n + 1) symbol)
                  (lookup_added e n symbol);
          },
        )
      ]
