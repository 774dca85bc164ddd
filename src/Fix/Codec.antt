-- ===== src/Fix/Codec.antt =====
-- src/fix/codec.rs: values on the wire, and the requests that an acceptor and an initiator decode. The
-- decimal library's printing and parsing is a parameter, `DecimalText`.
pub mod Builders
pub mod Tables
pub mod Profiles
pub mod Decoding
pub mod Requests
pub mod Amendments
pub mod Quotes
pub mod Delivered
use rust_trader.Base.{
  ℕ, suc, Bool, true, false, not, ◌&&◌, ◌||◌, ltb, leb, ◌==◌, ◌≡◌, Option, none, some, List, [],
  ◌∷◌, if◌then◌else◌,
}
use rust_trader.Base.Eq.{Text, eqb_text, codes}
use rust_trader.Base.Int.{ℤ}
use rust_trader.Base.Lists.{is_empty}
use rust_trader.Base.Outcome.{Outcome, ok, err, ◌>>=◌, ◌>>◌, ok_or, ensure}
use rust_trader.Base.Texts.{is_digit}
use rust_trader.Base.Texts.Parts.{all}
use rust_trader.Core.Orders.{
  Side, buy, sell, OrderType, market, limit, OrderState, fresh, booked, partial_fill, filled,
  cancelled, expired, rejected,
}

-- The errors of the codec; the source has texts.
pub data CodecError : Type 0 where
  no_msg_type bad_side bad_order_status bad_decimal bad_timestamp : CodecError
  missing not_positive not_a_number not_a_flag : ℕ → CodecError
  length_field repeating_group header_after_body unknown_tag : ℕ → CodecError
  no_delimiter out_of_order : CodecError
  duplicated empty bad_enumeration required : ℕ → CodecError
  not_automated not_a_day_order bad_order_type not_plain bad_heartbeat bad_range : CodecError
  bad_response_to too_many_quotes bad_response_level negative_quote bad_security : CodecError
  bad_transaction bad_exec_type no_original negative_aggregate bad_quote_status : CodecError

-- `normalize().to_string()` and `parse::<Decimal>()`.
pub record DecimalText (D : Type 0) : Type 0 where
  pub print : D → Text
  pub read : Text → Option D

abbrev without_minus : Text → Text
without_minus [] = []
without_minus (b ∷ s) = if b == 45 then s else b ∷ s

abbrev pub any_digit : Text → Bool
any_digit [] = false
any_digit (b ∷ s) = is_digit b || any_digit s

-- The number of points is one at most.
abbrev pub points : ℕ → Text → Bool
points n [] = leb n 1
points n (b ∷ s) = points (if b == 46 then suc n else n) s

abbrev pub is_decimal_byte : ℕ → Bool
is_decimal_byte b = is_digit b || b == 46

unfoldable pub is_decimal : Text → Bool
is_decimal s =
    let digits = without_minus s in
    not (
      is_empty digits
      || not (any_digit digits)
      || not (points 0 digits)
      || not (all is_decimal_byte digits))

module _ {D : Type 0} ⦃text : DecimalText D⦄ where
  unfoldable pub fix_decimal : D → Text
  fix_decimal d = text.print d

  unfoldable pub parse_decimal : Text → Outcome CodecError D
  unfolding is_decimal
  parse_decimal s = do ensure (is_decimal s) bad_decimal; ok_or bad_decimal (text.read s)

-- A number that is printed has the form of a decimal, and is read as itself.
pub record IsReadBack (D : Type 0) ⦃text : DecimalText D⦄ : Type 0 where
  pub shaped : (d : D) → is_decimal (text.print d) ≡ true
  pub read-print : (d : D) → text.read (text.print d) ≡ some d

unfoldable pub side_to_fix : Side → Text
side_to_fix buy = codes "1"
side_to_fix sell = codes "2"

unfoldable pub side_from_fix : Text → Outcome CodecError Side
side_from_fix s =
    if eqb_text s (codes "1")
    then ok buy
    else if eqb_text s (codes "2")
    then ok sell
    else err bad_side

unfoldable pub ord_status_to_fix : OrderState → Text
ord_status_to_fix booked = codes "0"
ord_status_to_fix fresh = codes "0"
ord_status_to_fix partial_fill = codes "1"
ord_status_to_fix filled = codes "2"
ord_status_to_fix cancelled = codes "4"
ord_status_to_fix rejected = codes "8"
ord_status_to_fix expired = codes "C"

unfoldable pub ord_status_from_fix : Text → Outcome CodecError OrderState
ord_status_from_fix s =
    if eqb_text s (codes "0") || eqb_text s (codes "5")
    then ok booked
    else if eqb_text s (codes "1")
    then ok partial_fill
    else if eqb_text s (codes "2")
    then ok filled
    else if eqb_text s (codes "4")
    then ok cancelled
    else if eqb_text s (codes "8")
    then ok rejected
    else if eqb_text s (codes "C")
    then ok expired
    else err bad_order_status

unfoldable pub ord_type_to_fix : OrderType → Text
ord_type_to_fix limit = codes "2"
ord_type_to_fix market = codes "1"

pub record ExecReportData (D : Type 0) : Type 0 where
  pub exchange_id : Text
  pub cl_ord_id : Text
  pub orig_cl_ord_id : Option Text
  pub symbol : Text
  pub state : OrderState
  pub is_fill : Bool
  pub side : Side
  pub price : D
  pub quantity : D
  pub remaining : D
  pub last_price : D
  pub last_quantity : D

pub record OrderRequest (D : Type 0) : Type 0 where
  pub cl_ord_id : Text
  pub symbol : Text
  pub side : Side
  pub order_type : OrderType
  pub price : D
  pub quantity : D

pub record CancelRequest : Type 0 where
  pub cl_ord_id : Text
  pub orig_cl_ord_id : Text
  pub symbol : Text
  pub side : Side

pub record QuoteRequest (D : Type 0) : Type 0 where
  pub quote_id : Text
  pub response_level : ℕ
  pub symbol : Text
  pub bid_px : D
  pub bid_qty : D
  pub offer_px : D
  pub offer_qty : D

pub data Inbound (D : Type 0) : Type 0 where
  logon : ℕ → Inbound D
  logout heartbeat resend_request : Inbound D
  test_request session_reject business_reject unsupported : Text → Inbound D
  sequence_reset : ℕ → Bool → Inbound D
  new_order_single : OrderRequest D → Inbound D
  cancel_request : CancelRequest → Inbound D
  -- The identifier of the order that is replaced stands first.
  cancel_replace : Text → OrderRequest D → Inbound D
  cancel_reject : Text → Text → OrderState → Text → Inbound D
  mass_quote : QuoteRequest D → Inbound D
  quote_acknowledgement : Option Text → Text → Text → Inbound D
  security_definition : Text → Text → ℤ → Inbound D
  execution_report : ExecReportData D → Inbound D
