-- ===== src/Tests/Loading.antt =====
-- An instruments file with a comment, a blank line and two instruments.
use rust_trader.Base.{◌≡◌, refl, ◌⊎◌, Option, none, some, List, [], ◌∷◌}
use rust_trader.Base.Eq.{Text, codes}
use rust_trader.Base.Int.{ℤ, pos}
use rust_trader.Base.Outcome.{err}
use rust_trader.Base.Maps.{lookup, insert}
use rust_trader.Base.Texts.{parse_i64}
use rust_trader.Decimal.Whole.{whole}
use rust_trader.Core.Market.{Instrument}
use rust_trader.Core.Market.Loading.{
  LoadError, duplicate_id, taken_symbol, id_out_of_range, not_two_words, parse_line,
  load_from_reader,
}
use rust_trader.Core.Market.Loading.Complete.{Parsed}
use rust_trader.Core.Engine.{Engine, new_engine}
use rust_trader.Core.Engine.Sessions.{load_instruments}
use rust_trader.Core.Engine.Sessions.Loading.{Taken, load_instruments-Taken, load_instruments-Apart}

abbrev ibm : Instrument
ibm = record { id = pos 1; symbol = codes "IBM" }

abbrev aapl : Instrument
aapl = record { id = pos 2; symbol = codes "AAPL" }

abbrev file : List (Option Text)
file =
    some (codes "# comment")
    ∷ some (codes "1 IBM")
    ∷ some (codes "")
    ∷ some (codes " 2   AAPL ")
    ∷ []

abbrev entries : List (Option Instrument)
entries = none ∷ some ibm ∷ none ∷ some aapl ∷ []

file-Parsed : Parsed file entries
unfolding parse_line parse_i64
file-Parsed = (refl, (refl, (refl, (refl, tt))))

repeated : load_from_reader (some (codes "1 IBM") ∷ some (codes "1 AAPL") ∷ []) ≡ err duplicate_id
unfolding load_from_reader parse_i64 lookup insert
repeated = refl

renamed : load_from_reader (some (codes "1 IBM") ∷ some (codes "2 IBM") ∷ []) ≡ err taken_symbol
unfolding load_from_reader parse_i64 lookup insert
renamed = refl

no_number : parse_line (codes "0 IBM") ≡ err id_out_of_range
unfolding parse_line parse_i64
no_number = refl

three_words : parse_line (codes "1 IBM x") ≡ err not_two_words
unfolding parse_line parse_i64
three_words = refl

load_instruments-Taken_example :
    ((x : LoadError) × (load_instruments {D = ℤ} new_engine (some file) ≡ (some x, new_engine)))
    ⊎ ((lines : List (Option Text)) × (some file ≡ some lines)
        × (e' : Engine ℤ) × (load_instruments new_engine (some file) ≡ (none, e'))
        × Taken new_engine e' lines)
load_instruments-Taken_example = load_instruments-Taken new_engine (some file)

load_instruments-Apart_example :
    (e' : Engine ℤ) × (load_instruments new_engine (some file) ≡ (none, e'))
    × Taken new_engine e' file
load_instruments-Apart_example =
    load_instruments-Apart new_engine file entries file-Parsed ((tt, ((refl, refl), tt)), (tt, tt))
      refl
