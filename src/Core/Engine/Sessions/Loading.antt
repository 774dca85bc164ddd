-- ===== src/Core/Engine/Sessions/Loading.antt =====
-- src/core/exchange/mod.rs, `load_instruments`: the file is taken as a whole or not at all.
use rust_trader.Base.{◌≡◌, refl, ap, ◌⊎◌, inl, inr, true, Option, none, some, List}
use rust_trader.Base.Eq.{Text}
use rust_trader.Base.Outcome.{Outcome, ok, err, panics}
use rust_trader.Decimal.{DecimalOps}
use rust_trader.Core.Market.{Instrument, InstrumentMap}
use rust_trader.Core.Market.Loading.{LoadError, unreadable, load_from_reader}
use rust_trader.Core.Market.Loading.Exact.{Loaded, load_from_reader-Loaded}
use rust_trader.Core.Market.Loading.Complete.{Parsed, Apart, any_instrument, load_from_reader-Apart}
use rust_trader.Core.Engine.{Engine}
use rust_trader.Core.Engine.Sessions.{load_instruments, with_instruments, concluded}

module _ {D : Type 0} ⦃dec : DecimalOps D⦄ where
  -- How a load ends that is not refused: nothing but the registry and the publisher changes.
  pub record Taken (e e' : Engine D) (lines : List (Option Text)) : Type 0 where
    pub loaded : Loaded e'.instruments lines
    pub rest : e' ≡ record e { instruments = e'.instruments; market_data = e'.market_data }

  concluded_cases :
      (e : Engine D) (lines : List (Option Text)) (r : Outcome LoadError InstrumentMap)
      → load_from_reader lines ≡ r
      → ((x : LoadError) × (concluded e r ≡ (some x, e)))
        ⊎ ((e' : Engine D) × (concluded e r ≡ (none, e')) × Taken e e' lines)
  concluded_cases e lines (ok m) h = inr (
    with_instruments e m,
    refl,
    record { loaded = load_from_reader-Loaded lines m h; rest = refl },
  )
  concluded_cases e lines (err x) h = inl (x, refl)
  concluded_cases e lines panics h = inl (unreadable, refl)

  -- A load of instruments is refused, and then nothing changes, or it takes the whole file: nothing
  -- but the registry and the publisher changes, the two directions of the new registry agree and no
  -- identifier above its last one is in use, there is an instrument, and the instruments are exactly
  -- those that the lines state.
  pub load_instruments-Taken :
      (e : Engine D) (file : Option (List (Option Text)))
      → ((x : LoadError) × (load_instruments e file ≡ (some x, e)))
        ⊎ ((lines : List (Option Text)) × (file ≡ some lines)
            × (e' : Engine D) × (load_instruments e file ≡ (none, e'))
            × Taken e e' lines)
  unfolding load_instruments
  load_instruments-Taken e none = inl (unreadable, refl)
  load_instruments-Taken e (some lines) =
      elim (concluded_cases e lines (load_from_reader lines) refl) [
        | inl refused ↦ inl refused
        | inr (e', h, t) ↦ inr (lines, refl, e', h, t)
      ]

  -- A file is taken when its lines can be read and each is empty, a comment or an instrument, there
  -- is an instrument, and no two have an identifier or a symbol in common.
  pub load_instruments-Apart :
      (e : Engine D) (lines : List (Option Text)) (entries : List (Option Instrument))
      → Parsed lines entries
      → Apart entries
      → any_instrument entries ≡ true
      → (e' : Engine D) × (load_instruments e (some lines) ≡ (none, e')) × Taken e e' lines
  unfolding load_instruments
  load_instruments-Apart e lines entries p a some_one =
      let (m, h) = load_from_reader-Apart lines entries p a some_one in
      (
        with_instruments e m,
        ap (concluded e) h,
        record { loaded = load_from_reader-Loaded lines m h; rest = refl },
      )
