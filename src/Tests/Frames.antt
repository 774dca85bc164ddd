-- ===== src/Tests/Frames.antt =====
-- A heartbeat on a stream that times out after each read.
use rust_trader.Base.{ℕ, zero, suc, ◌<◌, ◌≤◌, ◌≡◌, ◌≢◌, false, refl, List, [], ◌∷◌, ◌++◌, arith}
use rust_trader.Base.Eq.{codes, Text}
use rust_trader.Base.Lists.{length}
use rust_trader.Base.Outcome.{ok}
use rust_trader.Base.Texts.{parse_nat, read_digits, show_nat, u64_bound}
use rust_trader.Base.Texts.Parts.{split, split_once, strip_last}
use rust_trader.Fix.Frames.Corruption.{parse_wire-changed}
use rust_trader.Fix.Messages.{FixMessage}
use rust_trader.Fix.Frames.{any_framing, frame, parse_wire, put_fields}
use rust_trader.Fix.Frames.Printing.{FieldsOk}
use rust_trader.Fix.Frames.RoundTrip.{header, parse_wire-frame}
use rust_trader.Fix.Frames.Reader.{Read, arrives, fails, new_reader, read_message}
use rust_trader.Fix.Frames.Reader.Retries.{
  failures, without_failures, retry, smooth, retry-read_message,
}
use rust_trader.Fix.Frames.Reader.Delivery.{arrivals}
use rust_trader.Fix.Frames.Reader.Arrival.{Received, read_message-frame}

-- Two reads for each byte, of which one fails.
abbrev halting : ℕ → List Read
halting zero = []
halting (suc n) = arrives 5 ∷ fails ∷ halting n

abbrev fields_sent : List (ℕ × Text)
fields_sent = (112, codes "ping") ∷ []

fields_sent-FieldsOk : FieldsOk fields_sent
fields_sent-FieldsOk = (
  record {
    positive = omega arith;
    small = omega arith;
    unframed = refl;
    valued = refl;
    printable = refl;
  },
  tt,
)

abbrev heartbeat : Text
heartbeat =
    frame (codes "FIX.4.2") (codes "0") 7 (codes "A") (codes "B") (codes "20260912-19:24:59.056")
      fields_sent

abbrev heartbeat_message : FixMessage
heartbeat_message = record {
  begin_string = codes "FIX.4.2";
  fields = header (codes "0") 7 (codes "A") (codes "B") (codes "20260912-19:24:59.056") fields_sent;
  raw = heartbeat;
}

short_body :
    length (
      put_fields
        (header (codes "0") 7 (codes "A") (codes "B") (codes "20260912-19:24:59.056") fields_sent))
    < u64_bound
unfolding put_fields show_nat
short_body = omega arith

parse_wire-frame_example : parse_wire heartbeat ≡ ok heartbeat_message
parse_wire-frame_example =
    parse_wire-frame (codes "FIX.4.2") (codes "0") 7 (codes "A") (codes "B")
      (codes "20260912-19:24:59.056") fields_sent refl (omega arith) (refl, refl) (refl, refl)
      (refl, refl) (refl, refl) fields_sent-FieldsOk short_body

short_frame : length heartbeat ≤ 1048576
unfolding frame show_nat
short_frame = omega arith

reads_enough : length heartbeat ≤ arrivals (halting 90)
unfolding frame show_nat arrivals
reads_enough = omega arith

read_message-frame_example :
    Received
      (retry
        (failures (halting 90))
        (read_message new_reader (heartbeat ++ codes "8=") (halting 90)))
      heartbeat_message
      (codes "8=")
read_message-frame_example =
    read_message-frame (codes "FIX.4.2") (codes "0") 7 (codes "A") (codes "B")
      (codes "20260912-19:24:59.056") fields_sent (codes "8=") (halting 90) (refl, refl)
      (omega arith) (omega arith) (refl, refl) (refl, refl) (refl, refl) (refl, refl)
      fields_sent-FieldsOk short_frame reads_enough

retry-read_message_example :
    smooth (retry 3 (read_message new_reader (codes "8=F") (halting 3)))
    ≡ read_message new_reader (codes "8=F") (without_failures (halting 3))
retry-read_message_example =
    retry-read_message 3 new_reader (codes "8=F") (halting 3) (unfold failures in omega arith)

abbrev bare_start : Text
bare_start = codes "8=F" ++ 1 ∷ (codes "9=5" ++ 1 ∷ codes "35=")

abbrev bare_trailer : Text
bare_trailer = codes "10=062" ++ 1 ∷ []

abbrev bare_message : FixMessage
bare_message = record {
  begin_string = codes "F";
  fields = (35, codes "0") ∷ [];
  raw = (bare_start ++ 48 ∷ 1 ∷ []) ++ bare_trailer;
}

bare_parsed : parse_wire ((bare_start ++ 48 ∷ 1 ∷ []) ++ bare_trailer) ≡ ok bare_message
unfolding parse_wire parse_nat read_digits split_once split strip_last
bare_parsed = refl

parse_wire-changed_example :
    ((m : FixMessage) → parse_wire ((bare_start ++ 49 ∷ 1 ∷ []) ++ bare_trailer) ≢ ok m)
    × (bare_message.raw ≡ (bare_start ++ 48 ∷ 1 ∷ []) ++ bare_trailer)
    × (any_framing bare_message.fields ≡ false)
parse_wire-changed_example =
    parse_wire-changed bare_start (1 ∷ []) bare_trailer 48 49 bare_message refl (omega arith)
      (omega arith) (omega arith) bare_parsed
