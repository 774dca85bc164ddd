-- ===== src/Core/Market.antt =====
-- src/core/instrument.rs, src/core/stats.rs and src/market_data.rs: the registry of instruments, the
-- statistics of an instrument, and the slots that publish complete snapshots to readers. A slot is
-- shared by the publisher's `by_id` and the catalog, which holds its key. Times are left out.
pub mod Loading
pub mod Registry
use rust_trader.Base.{ℕ, Bool, false, Option, none, some, List, [], ◌∷◌, if◌then◌else◌}
use rust_trader.Base.Eq.{Text, int_eq, text_eq}
use rust_trader.Base.Int.{ℤ, pos}
use rust_trader.Base.Maps.{lookup, insert, update, insert_by, keys, contains_key}
use rust_trader.Base.Texts.{ltb_text}
use rust_trader.Core.Wrapping.{next_i64}
use rust_trader.Decimal.{DecimalOps}
use rust_trader.Core.Books.{Book}

pub record Instrument : Type 0 where
  pub id : ℤ
  pub symbol : Text

pub record InstrumentMap : Type 0 where
  pub by_symbol : List (Text × Instrument)
  pub by_id : List (ℤ × Instrument)
  pub last_id : ℤ

unfoldable pub new_instruments : InstrumentMap
new_instruments = record { by_symbol = []; by_id = []; last_id = pos 0 }

unfoldable pub get_by_symbol : InstrumentMap → Text → Option Instrument
get_by_symbol m symbol = lookup symbol m.by_symbol

unfoldable pub get_by_id : InstrumentMap → ℤ → Option Instrument
get_by_id m id = lookup id m.by_id

-- The symbols as a sorted vector.
unfoldable pub sorted : List Text → List Text
sorted symbols = keys (place symbols)
  where
    place : List Text → List (Text × Unit {0})
    place [] = []
    place (s ∷ rest) = insert_by ltb_text s tt (place rest)

unfoldable pub all_symbols : InstrumentMap → List Text
unfolding sorted
all_symbols m = sorted (keys m.by_symbol)

-- The new identifier, and the registry that has given it out.
unfoldable pub next_id : InstrumentMap → ℤ × InstrumentMap
next_id m = (next_i64 m.last_id, record m { last_id = next_i64 m.last_id })

unfoldable pub put : InstrumentMap → Instrument → InstrumentMap
put m i = record m { by_symbol = insert i.symbol i m.by_symbol; by_id = insert i.id i m.by_id }

pub record Statistics (D : Type 0) : Type 0 where
  pub symbol : Text
  pub bid_qty : D
  pub bid_price : D
  pub ask_qty : D
  pub ask_price : D
  pub volume : D
  pub high : D
  pub low : D
  pub has_high_low : Bool

pub record InstrumentSnapshot (D : Type 0) : Type 0 where
  pub book : Book D
  pub stats : Statistics D
  pub version : ℕ

pub record MarketDataPublisher (D : Type 0) : Type 0 where
  pub catalog : List (Text × ℤ)
  pub slots : List (ℤ × InstrumentSnapshot D)

unfoldable pub new_publisher : {D : Type 0} → MarketDataPublisher D
new_publisher = record { catalog = []; slots = [] }

module _ {D : Type 0} where
  -- A reader's view of a symbol.
  unfoldable pub read_snapshot : MarketDataPublisher D → Text → Option (InstrumentSnapshot D)
  read_snapshot p symbol = elim (lookup symbol p.catalog) [
    | none ↦ none
    | some slot ↦ lookup slot p.slots
  ]

  unfoldable pub snapshot : MarketDataPublisher D → ℤ → Option (InstrumentSnapshot D)
  snapshot p id = lookup id p.slots

  -- `None` is the panic of the `expect`.
  unfoldable pub publish :
      MarketDataPublisher D → Book D → Statistics D → Option (MarketDataPublisher D)
  publish p book stats = elim (lookup book.instrument_id p.slots) [
    | none ↦ none
    | some old ↦ some (record p {
      slots =
          update book.instrument_id (record { book = book; stats = stats; version = book.sequence })
            p.slots;
    })
  ]

module _ {D : Type 0} ⦃dec : DecimalOps D⦄ where
  abbrev pub no_statistics : Text → Statistics D
  no_statistics symbol = record {
    symbol = symbol;
    bid_qty = dec.zero;
    bid_price = dec.zero;
    ask_qty = dec.zero;
    ask_price = dec.zero;
    volume = dec.zero;
    high = dec.zero;
    low = dec.zero;
    has_high_low = false;
  }

  abbrev initial : Instrument → InstrumentSnapshot D
  initial i = record {
    book = record { instrument_id = i.id; sequence = 0; bids = []; asks = [] };
    stats = no_statistics i.symbol;
    version = 0;
  }

  -- Existing slots survive.
  unfoldable pub register : MarketDataPublisher D → List Instrument → MarketDataPublisher D
  register p [] = p
  register p (i ∷ rest) =
      register
        (record p {
          slots =
              if contains_key (lookup i.id p.slots)
              then p.slots
              else insert i.id (initial i) p.slots;
          catalog = insert_by ltb_text i.symbol i.id p.catalog;
        })
        rest
