-- ===== src/Tests/Codecs.antt =====
-- Requests of a client with whole numbers, written as tallies, and a clock that reads every text.
use rust_trader.Base.{
  ℕ, zero, suc, ◌<◌, ◌≡◌, refl, ap, true, false, Option, none, some, List, [], ◌∷◌, ◌==◌,
  if◌then◌else◌, arith,
}
use rust_trader.Base.Eq.{Text, codes}
use rust_trader.Base.Int.{ℤ, pos, negsuc}
use rust_trader.Base.Lists.{length, is_empty}
use rust_trader.Base.Outcome.{ok}
use rust_trader.Base.Texts.{show_nat, u64_bound}
use rust_trader.Base.Texts.Parts.{all}
use rust_trader.Decimal.Whole.{whole}
use rust_trader.Core.Orders.{buy, sell, limit}
use rust_trader.Fix.Sequences.{SequenceState}
use rust_trader.Fix.Frames.{frame, put_fields}
use rust_trader.Fix.Frames.RoundTrip.{header}
use rust_trader.Fix.Headers.{TimeOps, AcceptorConfig, dynamic, parse_fix_timestamp, validate_logon}
use rust_trader.Fix.Headers.Accepted.{sent_message}
use rust_trader.Fix.Headers.Logons.{Arrived, validate_logon-build_logon}
use rust_trader.Fix.Codec.{
  DecimalText, IsReadBack, is_decimal, is_decimal_byte, points, any_digit, new_order_single,
  cancel_replace, mass_quote,
}
use rust_trader.Fix.Codec.Builders.{
  build_logon, build_new_order_single, build_cancel_replace, build_mass_quote,
}
use rust_trader.Fix.Codec.Decoding.{decode}
use rust_trader.Fix.Codec.Requests.{Envelope}
use rust_trader.Fix.Codec.Amendments.{decode-build_cancel_replace}
use rust_trader.Fix.Codec.Quotes.{decode-build_mass_quote}
use rust_trader.Fix.Codec.Delivered.{order-Arrived}

-- A number as so many ones and a zero.
abbrev tally : ℕ → Text
tally zero = codes "0"
tally (suc n) = 49 ∷ tally n

abbrev print_whole : ℤ → Text
print_whole (pos n) = tally n
print_whole (negsuc n) = 45 ∷ tally n

abbrev ones : Text → ℕ
ones [] = 0
ones (b ∷ s) = if b == 49 then suc (ones s) else ones s

abbrev read_whole : Text → Option ℤ
read_whole [] = none
read_whole (b ∷ s) = if b == 45 then some (negsuc (ones s)) else some (pos (ones (b ∷ s)))

instance abbrev pub whole_text : DecimalText ℤ
whole_text = record { print = print_whole; read = read_whole }

ones-tally : (n : ℕ) → ones (tally n) ≡ n
ones-tally zero = refl
ones-tally (suc n) = ap suc (ones-tally n)

all-tally : (n : ℕ) → all is_decimal_byte (tally n) ≡ true
all-tally zero = refl
all-tally (suc n) = all-tally n

points-tally : (n : ℕ) → points 0 (tally n) ≡ true
points-tally zero = refl
points-tally (suc n) = points-tally n

any_digit-tally : (n : ℕ) → any_digit (tally n) ≡ true
any_digit-tally zero = refl
any_digit-tally (suc n) = refl

tally_occupied : (n : ℕ) → is_empty (tally n) ≡ false
tally_occupied zero = refl
tally_occupied (suc n) = refl

tally_shaped : (d : ℤ) → is_decimal (print_whole d) ≡ true
unfolding is_decimal
tally_shaped (pos zero) = refl
tally_shaped (pos (suc n)) = rw (points-tally n, all-tally n) refl
tally_shaped (negsuc n) = rw (tally_occupied n, any_digit-tally n, points-tally n, all-tally n) refl

tally_read : (d : ℤ) → read_whole (print_whole d) ≡ some d
tally_read (pos zero) = refl
tally_read (pos (suc n)) = ap (λ k. some (pos (suc k))) (ones-tally n)
tally_read (negsuc n) = ap (λ k. some (negsuc k)) (ones-tally n)

whole-IsReadBack : IsReadBack ℤ
whole-IsReadBack = record { shaped = tally_shaped; read-print = tally_read }

instance abbrev pub any_time : TimeOps
any_time = record { parse_from_str = λ value format. some (pos 0) }

abbrev pub noon : Text
noon = codes "20260912-12:00:00"

pub timed : (tag : ℕ) → parse_fix_timestamp noon tag ≡ ok (pos 0)
unfolding parse_fix_timestamp
timed tag = refl

abbrev expecting : SequenceState
expecting = record { expected = 2; queued = []; resend_from = none }

noon-Envelope : Envelope (codes "A") (codes "B") noon noon
noon-Envelope = record {
  sender_occupied = refl;
  target_occupied = refl;
  sent_occupied = refl;
  now_occupied = refl;
  instant = pos 0;
  timed = timed 60;
}

abbrev order_fields : List (ℕ × Text)
order_fields = build_new_order_single (codes "7") (codes "IBM") buy limit (pos 3) (pos 2) noon

abbrev order_wire : Text
order_wire = frame (codes "FIX.4.2") (codes "D") 2 (codes "A") (codes "B") noon order_fields

short_order :
    length (put_fields (header (codes "D") 2 (codes "A") (codes "B") noon order_fields)) < u64_bound
unfolding put_fields show_nat build_new_order_single
short_order = omega arith

order-Arrived_example :
    Arrived order_wire (codes "FIX.4.2") (codes "A") (codes "B") expecting (
      sent_message
        (codes "FIX.4.2")
        (codes "D")
        2
        (codes "A")
        (codes "B")
        noon
        order_fields
        order_wire)
    × (decode (
          sent_message
            (codes "FIX.4.2")
            (codes "D")
            2
            (codes "A")
            (codes "B")
            noon
            order_fields
            order_wire)
        ≡ ok (
            new_order_single (record {
              cl_ord_id = codes "7";
              symbol = codes "IBM";
              side = buy;
              order_type = limit;
              price = pos 3;
              quantity = pos 2;
            })))
order-Arrived_example =
    order-Arrived whole-IsReadBack (codes "FIX.4.2") expecting (codes "A") (codes "B") noon noon
      (codes "7") (codes "IBM") buy limit (pos 3) (pos 2) (pos 0) (pos 0) refl (omega arith)
      (omega arith) (refl, refl) (refl, refl) (refl, refl) (refl, refl) (refl, refl) (refl, refl)
      (timed 52) (timed 60) refl refl short_order

abbrev acceptor : AcceptorConfig
acceptor = record {
  port = 5001;
  sender_comp_id = codes "B";
  begin_string = codes "FIX.4.2";
  admission = dynamic;
}

validate_logon-build_logon_example :
    validate_logon
      (sent_message
        (codes "FIX.4.2")
        (codes "A")
        1
        (codes "A")
        (codes "B")
        noon
        (build_logon 30)
        [])
      acceptor
    ≡ ok (codes "A", 30, 1)
validate_logon-build_logon_example =
    validate_logon-build_logon acceptor 1 30 (codes "A") noon [] (pos 0) (omega arith) (omega arith)
      (omega arith) (omega arith) refl refl refl (timed 52)

decode-build_cancel_replace_example :
    decode (
      sent_message
        (codes "FIX.4.2")
        (codes "G")
        2
        (codes "A")
        (codes "B")
        noon
        (build_cancel_replace (codes "7") (codes "8") (codes "IBM") sell (pos 3) (pos 2) noon)
        [])
    ≡ ok (
        cancel_replace (codes "7") (record {
          cl_ord_id = codes "8";
          symbol = codes "IBM";
          side = sell;
          order_type = limit;
          price = pos 3;
          quantity = pos 2;
        }))
decode-build_cancel_replace_example =
    decode-build_cancel_replace whole-IsReadBack (codes "FIX.4.2") 2 (codes "A") (codes "B") noon
      noon [] noon-Envelope (codes "7") (codes "8") (codes "IBM") sell (pos 3) (pos 2) refl refl
      refl refl refl

decode-build_mass_quote_example :
    decode (
      sent_message
        (codes "FIX.4.2")
        (codes "i")
        2
        (codes "A")
        (codes "B")
        noon
        (build_mass_quote (codes "q") (codes "IBM") (pos 3) (pos 2) (pos 4) (pos 1))
        [])
    ≡ ok (
        mass_quote (record {
          quote_id = codes "q";
          response_level = 0;
          symbol = codes "IBM";
          bid_px = pos 3;
          bid_qty = pos 2;
          offer_px = pos 4;
          offer_qty = pos 1;
        }))
decode-build_mass_quote_example =
    decode-build_mass_quote whole-IsReadBack (codes "FIX.4.2") 2 (codes "A") (codes "B") noon noon
      [] noon-Envelope (codes "q") (codes "IBM") (pos 3) (pos 2) (pos 4) (pos 1) refl refl refl refl
      refl refl
