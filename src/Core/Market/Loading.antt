-- ===== src/Core/Market/Loading.antt =====
-- src/core/instrument.rs, `load_from_reader`: a registry from the lines of a text. A line is `none` where
-- the reader fails. The texts of the errors are left out.
pub mod Complete
pub mod Entering
pub mod Exact
pub mod Numbered
use rust_trader.Base.{
  ℕ, Bool, false, not, ◌&&◌, ◌||◌, leb, ◌==◌, Option, none, some, List, [], ◌∷◌, if◌then◌else◌,
}
use rust_trader.Base.Eq.{Text, codes}
use rust_trader.Base.Int.{ℤ, pos, eqb_ℤ, leb_ℤ, ltb_ℤ}
use rust_trader.Base.Lists.{drop, is_empty}
use rust_trader.Base.Maps.{contains_key}
use rust_trader.Base.Outcome.{Outcome, ok, err, ◌>>=◌, ◌>>◌, ok_or, ensure}
use rust_trader.Base.Texts.{parse_i64}
use rust_trader.Base.Texts.Parts.{all, starts_with, split}
use rust_trader.Core.Market.{
  Instrument, InstrumentMap, new_instruments, get_by_symbol, get_by_id, put,
}

pub data LoadError : Type 0 where
  unreadable not_two_words bad_id id_out_of_range bad_symbol duplicate_id taken_symbol
        no_instrument :
      LoadError

-- The white space of Unicode in UTF-8, by the number of its bytes.
abbrev is_space : ℕ → Bool
is_space b = b == 32 || leb 9 b && leb b 13

abbrev is_space_pair : ℕ → Text → Bool
is_space_pair b [] = false
is_space_pair b (c ∷ s) = b == 194 && (c == 133 || c == 160)

abbrev is_space_triple : ℕ → Text → Bool
is_space_triple b [] = false
is_space_triple b (c ∷ []) = false
is_space_triple b (c ∷ d ∷ s) =
    b == 225 && c == 154 && d == 128
    || b == 226 && c == 128 && (leb 128 d && leb d 138 || d == 168 || d == 169 || d == 175)
    || b == 226 && c == 129 && d == 159
    || b == 227 && c == 128 && d == 128

-- Each white space as a space.
unfoldable pub spaced : Text → Text
spaced [] = []
spaced (b ∷ s) =
    let rest = spaced s in
    if is_space b
    then 32 ∷ rest
    else if is_space_pair b s
    then 32 ∷ drop 1 rest
    else if is_space_triple b s
    then 32 ∷ drop 2 rest
    else b ∷ rest

abbrev pub trim_start : Text → Text
trim_start [] = []
trim_start (b ∷ s) = if b == 32 then trim_start s else b ∷ s

abbrev pub trim_end : Text → Text
trim_end [] = []
trim_end (b ∷ s) = let rest = trim_end s in if b == 32 && is_empty rest then [] else b ∷ rest

abbrev nonempty : List Text → List Text
nonempty [] = []
nonempty (s ∷ parts) = let rest = nonempty parts in if is_empty s then rest else s ∷ rest

-- `split_whitespace` of a text in which each white space is a space.
unfoldable pub split_whitespace : Text → List Text
unfolding split
split_whitespace s = nonempty (split 32 s)

abbrev pub is_symbol_byte : ℕ → Bool
is_symbol_byte b = leb 33 b && leb b 126 && not (b == 61)

unfoldable pub parse_entry : Text → Text → Outcome LoadError Instrument
parse_entry id_text symbol = do
  id ← ok_or bad_id (parse_i64 id_text)
  ensure (not (leb_ℤ id (pos 0) || eqb_ℤ id (pos 9223372036854775807))) id_out_of_range
  ensure (all is_symbol_byte symbol) bad_symbol
  ok (record { id = id; symbol = symbol })

unfoldable pub parse_words : List Text → Outcome LoadError Instrument
unfolding parse_entry
parse_words (id_text ∷ symbol ∷ []) = parse_entry id_text symbol
parse_words _ = err not_two_words

abbrev pub is_skipped : Text → Bool
is_skipped s = is_empty s || starts_with s (codes "//") || starts_with s (codes "#")

unfoldable pub parse_trimmed : Text → Outcome LoadError (Option Instrument)
unfolding split_whitespace parse_words
parse_trimmed s =
    if is_skipped s then ok none else (do i ← parse_words (split_whitespace s); ok (some i))

-- The instrument of a line, where it is not empty and no comment.
unfoldable pub parse_line : Text → Outcome LoadError (Option Instrument)
unfolding spaced parse_trimmed
parse_line line = parse_trimmed (trim_end (trim_start (spaced line)))

abbrev pub max_ℤ : ℤ → ℤ → ℤ
max_ℤ a b = if ltb_ℤ a b then b else a

unfoldable pub enter : InstrumentMap → Option Instrument → Outcome LoadError InstrumentMap
unfolding get_by_id get_by_symbol put
enter m none = ok m
enter m (some i) = do
  ensure (not (contains_key (get_by_id m i.id))) duplicate_id
  ensure (not (contains_key (get_by_symbol m i.symbol))) taken_symbol
  ok (put (record m { last_id = max_ℤ m.last_id i.id }) i)

unfoldable pub load_line : InstrumentMap → Option Text → Outcome LoadError InstrumentMap
unfolding parse_line enter
load_line m line = do s ← ok_or unreadable line; entry ← parse_line s; enter m entry

unfoldable pub load_lines : InstrumentMap → List (Option Text) → Outcome LoadError InstrumentMap
unfolding load_line
load_lines m [] = ok m
load_lines m (line ∷ lines) = load_line m line >>= λ loaded. load_lines loaded lines

unfoldable pub load_from_reader : List (Option Text) → Outcome LoadError InstrumentMap
unfolding load_lines new_instruments
load_from_reader lines = do
  loaded ← load_lines new_instruments lines
  ensure (not (is_empty loaded.by_id)) no_instrument
  ok loaded
