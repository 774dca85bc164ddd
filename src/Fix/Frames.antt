-- ===== src/Fix/Frames.antt =====
-- src/fix/frame.rs: a message and its frame, `8=..|9=..|body|10=..|`, where `|` is the byte 1. A frame
-- is its bytes, which are ASCII.
pub mod Printing
pub mod Trailer
pub mod Parsing
pub mod RoundTrip
pub mod Corruption
pub mod Reader
use rust_trader.Base.{
  ℕ, zero, suc, ◌+◌, ◌*◌, ◌-◌, ◌/◌, ◌%◌, Bool, true, false, not, ◌&&◌, ◌||◌, leb, ltb, ◌==◌, none,
  some, List, [], ◌∷◌, ◌++◌, if◌then◌else◌,
}
use rust_trader.Base.Eq.{Text, codes}
use rust_trader.Base.Lists.{length, take, drop, is_empty}
use rust_trader.Base.Outcome.{Outcome, ok, err, panics, ◌>>=◌, ◌>>◌, ok_or, unwrap, ensure}
use rust_trader.Base.Texts.{is_digit, parse_nat, show_nat}
use rust_trader.Base.Texts.Parts.{all, starts_with, ends_with, split, split_once, strip_last}
use rust_trader.Fix.Messages.{FixMessage}

abbrev pub soh : ℕ
soh = 1

-- `invalid` with its text, and `truncated` for `broken`.
pub data FrameError : Type 0 where
  no_begin_string no_body_length bad_body_length oversized body_too_small header_too_long :
      FrameError
  not_ascii no_checksum checksum_mismatch bad_body : FrameError
  bad_field empty_field bad_tag zero_tag framing_field : FrameError
  truncated : FrameError

unfoldable pub parse_field : Text → Outcome FrameError (ℕ × Text)
parse_field part = do
  (tag, value) ← ok_or bad_field (split_once 61 part)
  ensure (not (is_empty tag || not (all is_digit tag) || is_empty value)) empty_field
  number ← ok_or bad_tag (parse_nat 4294967296 tag)
  ensure (not (number == 0)) zero_tag
  ok (number, value)

unfoldable pub parse_parts : List Text → Outcome FrameError (List (ℕ × Text))
unfolding parse_field
parse_parts [] = ok []
parse_parts (part ∷ parts) = do
  field ← parse_field part
  fields ← parse_parts parts
  ok (field ∷ fields)

unfoldable pub parse_fields : Text → Outcome FrameError (List (ℕ × Text))
unfolding parse_parts
parse_fields body = parse_parts (split soh (strip_last soh body))

abbrev pub is_framing : ℕ → Bool
is_framing tag = tag == 8 || tag == 9 || tag == 10

unfoldable pub any_framing : List (ℕ × Text) → Bool
any_framing [] = false
any_framing ((tag, value) ∷ fields) = is_framing tag || any_framing fields

-- `wrapping_add` over the bytes.
unfoldable pub checksum : ℕ → Text → ℕ
checksum sum [] = sum
checksum sum (b ∷ s) = checksum ((sum + b) % 256) s

abbrev pub is_wire_byte : ℕ → Bool
is_wire_byte b = b == soh || leb 32 b && leb b 126

-- `&raw[from..to]` with its panics.
abbrev pub slice : ℕ → Text → Outcome FrameError Text
slice from front = if ltb (length front) from then panics else ok (drop from front)

unfoldable pub check_trailer : Text → ℕ → Outcome FrameError (Unit {0})
check_trailer trailer actual = do
  ensure
      (starts_with trailer (codes "10=")
        && ends_with soh trailer
        && all is_digit (take 3 (drop 3 trailer)))
      no_checksum
  declared ← unwrap (parse_nat 65536 (take 3 (drop 3 trailer)))
  ensure (declared == actual) checksum_mismatch

-- A complete frame; one of fewer than seven bytes is a panic.
unfoldable pub parse_wire : Text → Outcome FrameError FixMessage
unfolding check_trailer parse_fields any_framing checksum
parse_wire wire = do
  ensure (all is_wire_byte wire) not_ascii
  (begin, after) ← ok_or truncated (split_once soh wire)
  (body_length, rest) ← ok_or truncated (split_once soh after)
  start ← (if ltb (length wire) 7 then panics else ok (length wire - 7))
  let front = take start wire
  check_trailer (drop start wire) (checksum 0 front)
  body ← slice (length begin + 1 + length body_length + 1) front
  ensure (starts_with body (codes "35=") && ends_with soh body) bad_body
  fields ← parse_fields body
  ensure (not (any_framing fields)) framing_field
  ok (record { begin_string = drop 2 begin; fields = fields; raw = wire })

-- `{}={}\x01`
abbrev pub put_text : Text → Text → Text → Text
put_text tag value rest = tag ++ 61 ∷ (value ++ soh ∷ rest)

-- The loop over the fields.
unfoldable pub put_fields : List (ℕ × Text) → Text
put_fields [] = []
put_fields ((tag, value) ∷ fields) = put_text (show_nat tag) value (put_fields fields)

-- `bytes().map(u32::from).sum::<u32>()`
unfoldable pub sum_bytes : ℕ → Text → ℕ
sum_bytes sum [] = sum
sum_bytes sum (b ∷ s) = sum_bytes ((sum + b) % 4294967296) s

-- `{:03}` of a number below 1000.
abbrev pub three_digits : ℕ → Text
three_digits n = (48 + n / 100) ∷ (48 + n / 10 % 10) ∷ (48 + n % 10) ∷ []

unfoldable pub with_checksum : Text → Text
unfolding sum_bytes
with_checksum message =
    message ++ put_text (codes "10") (three_digits (sum_bytes 0 message % 256)) []

unfoldable pub with_length : Text → Text → Text
with_length begin_string body =
    put_text (codes "8") begin_string (put_text (codes "9") (show_nat (length body)) body)

-- The time is that of `utc_timestamp`.
unfoldable pub frame : Text → Text → ℕ → Text → Text → Text → List (ℕ × Text) → Text
unfolding put_fields with_length with_checksum
frame begin_string msg_type seq sender target time fields = with_checksum (
    with_length begin_string (
      put_text (codes "35") msg_type (
        put_text (codes "34") (show_nat seq) (
          put_text (codes "49") sender
            (put_text (codes "56") target (put_text (codes "52") time (put_fields fields)))))))
