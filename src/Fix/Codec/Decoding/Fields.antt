-- ===== src/Fix/Codec/Decoding/Fields.antt =====
-- src/fix/codec.rs, `decode`: the fields of a message, read as what they stand for.
use rust_trader.Base.{
  ℕ, Bool, true, false, not, ◌||◌, Option, none, some, List, [], ◌∷◌, if◌then◌else◌,
}
use rust_trader.Base.Eq.{Text, eqb_text, codes}
use rust_trader.Base.Outcome.{Outcome, ok, err, ◌>>=◌, ◌>>◌, ok_or, ensure}
use rust_trader.Base.Texts.{is_digit, parse_u64}
use rust_trader.Base.Texts.Parts.{all}
use rust_trader.Decimal.{DecimalOps, le}
use rust_trader.Core.Orders.{OrderType, market, limit}
use rust_trader.Fix.Messages.{FixMessage, get}
use rust_trader.Fix.Codec.{
  CodecError, missing, not_positive, not_a_number, not_a_flag, bad_order_type, bad_response_level,
  negative_quote, DecimalText, parse_decimal,
}

unfoldable pub need : FixMessage → ℕ → Outcome CodecError Text
unfolding get
need m tag = ok_or (missing tag) (get m tag)

-- `get(tag).unwrap_or(default)`
abbrev pub text_or : Text → Option Text → Text
text_or default none = default
text_or default (some s) = s

unfoldable pub natural : FixMessage → ℕ → Outcome CodecError ℕ
unfolding need
natural m tag = do
  value ← need m tag
  ensure (all is_digit value) (not_a_number tag)
  ok_or (not_a_number tag) (parse_u64 value)

unfoldable pub boolean_of : ℕ → Bool → Option Text → Outcome CodecError Bool
boolean_of tag default none = ok default
boolean_of tag default (some s) =
    if eqb_text s (codes "Y")
    then ok true
    else if eqb_text s (codes "N")
    then ok false
    else err (not_a_flag tag)

unfoldable pub boolean : FixMessage → ℕ → Bool → Outcome CodecError Bool
unfolding get boolean_of
boolean m tag default = boolean_of tag default (get m tag)

unfoldable pub order_type_of : FixMessage → Outcome CodecError OrderType
unfolding need
order_type_of m = do
  value ← need m 40
  if eqb_text value (codes "1")
      then ok market
      else if eqb_text value (codes "2")
      then ok limit
      else err bad_order_type

abbrev pub any_of : Text → List Text → Bool
any_of value [] = false
any_of value (t ∷ texts) = eqb_text value t || any_of value texts

unfoldable pub level_of : Text → Outcome CodecError ℕ
level_of s =
    if eqb_text s (codes "0")
    then ok 0
    else if eqb_text s (codes "1")
    then ok 1
    else if eqb_text s (codes "2")
    then ok 2
    else err bad_response_level

module _ {D : Type 0} ⦃dec : DecimalOps D⦄ ⦃text : DecimalText D⦄ where
  unfoldable pub decimal : FixMessage → ℕ → Outcome CodecError D
  unfolding need parse_decimal
  decimal m tag = do value ← need m tag; parse_decimal value

  unfoldable pub positive : FixMessage → ℕ → Outcome CodecError D
  unfolding decimal
  positive m tag = do
    value ← decimal m tag
    ensure (not (le value dec.zero)) (not_positive tag)
    ok value

  unfoldable pub decimal_or : D → Option Text → Outcome CodecError D
  unfolding parse_decimal
  decimal_or default none = ok default
  decimal_or default (some s) = parse_decimal s

  unfoldable pub order_price : FixMessage → OrderType → Outcome CodecError D
  unfolding positive decimal_or get
  order_price m limit = positive m 44
  order_price m market = decimal_or dec.zero (get m 44)

  unfoldable pub quote_value : FixMessage → ℕ → Outcome CodecError D
  unfolding decimal_or get
  quote_value m tag = do
    value ← decimal_or dec.zero (get m tag)
    ensure (not (dec.lt value dec.zero)) negative_quote
    ok value

  unfoldable pub fill_value : Bool → FixMessage → ℕ → Outcome CodecError D
  unfolding positive decimal_or get
  fill_value true m tag = positive m tag
  fill_value false m tag = decimal_or dec.zero (get m tag)
