-- ===== src/Fix/Codec/Delivered.antt =====
-- src/fix/codec.rs, src/fix/frame.rs and src/fix/session.rs together: an order, from the client that
-- builds it to the request that the acceptor decodes.
use rust_trader.Base.{ℕ, ◌<◌, ◌≡◌, refl, true, ◌==◌, [], ◌∷◌, Bool-cases, inl, inr, arith}
use rust_trader.Base.Eq.{Text, codes}
use rust_trader.Base.Int.{ℤ}
use rust_trader.Base.Lists.{length}
use rust_trader.Base.Outcome.{ok}
use rust_trader.Base.Texts.{u64_bound}
use rust_trader.Base.Texts.Parts.{all}
use rust_trader.Base.Texts.Splitting.{all-implies}
use rust_trader.Decimal.{DecimalOps}
use rust_trader.Core.Orders.{Side, buy, sell, OrderType, market, limit}
use rust_trader.Fix.Sequences.{SequenceState}
use rust_trader.Fix.Frames.{frame, put_fields}
use rust_trader.Fix.Frames.Printing.{Printable, is_printable, FieldsOk}
use rust_trader.Fix.Frames.RoundTrip.{header, Sendable, Sendable-FieldOk}
use rust_trader.Fix.Headers.{TimeOps, parse_fix_timestamp, values_of}
use rust_trader.Fix.Headers.Accepted.{Plain, sent_message}
use rust_trader.Fix.Headers.Logons.{Arrived, frame-Arrived}
use rust_trader.Fix.Codec.{
  DecimalText, IsReadBack, is_decimal, is_decimal_byte, fix_decimal, side_to_fix, ord_type_to_fix,
  new_order_single,
}
use rust_trader.Fix.Codec.Builders.{build_new_order_single, priced_field}
use rust_trader.Fix.Codec.Decoding.{decode}
use rust_trader.Fix.Codec.Requests.{
  Envelope, PriceSent, price_received, decimal_occupied, decode-build_new_order_single,
}

decimal_byte : (b : ℕ) → is_decimal_byte b ≡ true → is_printable b ≡ true
decimal_byte b h = ground arith

is_decimal-Printable : (s : Text) → is_decimal s ≡ true → Printable s
unfolding is_decimal
is_decimal-Printable [] h = refl
is_decimal-Printable (b ∷ s) h = elim (Bool-cases (b == 45)) [
  | inl minus ↦
      let k : all is_decimal_byte s ≡ true = ground arith in
      ground (arith, all-implies is_decimal_byte is_printable s decimal_byte k)
  | inr digit ↦
      let k : all is_decimal_byte (b ∷ s) ≡ true = ground arith in
      all-implies is_decimal_byte is_printable (b ∷ s) decimal_byte k
]

side-Sendable : (side : Side) → Sendable (side_to_fix side)
unfolding side_to_fix
side-Sendable buy = (refl, refl)
side-Sendable sell = (refl, refl)

module _ {D : Type 0} ⦃dec : DecimalOps D⦄ ⦃text : DecimalText D⦄ (b : IsReadBack D) where
  decimal-Sendable : (d : D) → Sendable (fix_decimal d)
  unfolding fix_decimal
  decimal-Sendable d = (decimal_occupied b d, is_decimal-Printable (text.print d) (b.shaped d))

  order-FieldsOk :
      (cl_ord_id symbol : Text) (side : Side) (order_type : OrderType) (price quantity : D)
      (now : Text)
      → Sendable cl_ord_id
      → Sendable symbol
      → Sendable now
      → FieldsOk (build_new_order_single cl_ord_id symbol side order_type price quantity now)
  unfolding build_new_order_single priced_field ord_type_to_fix
  order-FieldsOk cl_ord_id symbol side limit price quantity now c s t =
      let f = Sendable-FieldOk in
      (
        f 11 cl_ord_id (omega arith) refl c,
        (
          f 21 (codes "1") (omega arith) refl (refl, refl),
          (
            f 55 symbol (omega arith) refl s,
            (
              f 54 (side_to_fix side) (omega arith) refl (side-Sendable side),
              (
                f 60 now (omega arith) refl t,
                (
                  f 40 (codes "2") (omega arith) refl (refl, refl),
                  (
                    f 38 (fix_decimal quantity) (omega arith) refl (decimal-Sendable quantity),
                    (f 44 (fix_decimal price) (omega arith) refl (decimal-Sendable price), tt),
                  ),
                ),
              ),
            ),
          ),
        ),
      )
  order-FieldsOk cl_ord_id symbol side market price quantity now c s t =
      let f = Sendable-FieldOk in
      (
        f 11 cl_ord_id (omega arith) refl c,
        (
          f 21 (codes "1") (omega arith) refl (refl, refl),
          (
            f 55 symbol (omega arith) refl s,
            (
              f 54 (side_to_fix side) (omega arith) refl (side-Sendable side),
              (
                f 60 now (omega arith) refl t,
                (
                  f 40 (codes "1") (omega arith) refl (refl, refl),
                  (f 38 (fix_decimal quantity) (omega arith) refl (decimal-Sendable quantity), tt),
                ),
              ),
            ),
          ),
        ),
      )

  order-Plain :
      (cl_ord_id symbol : Text) (side : Side) (order_type : OrderType) (price quantity : D)
      (now : Text)
      → Plain (build_new_order_single cl_ord_id symbol side order_type price quantity now)
  unfolding build_new_order_single priced_field values_of
  order-Plain cl_ord_id symbol side limit price quantity now = record {
    no_type = refl;
    no_seq = refl;
    no_sender = refl;
    no_target = refl;
    no_time = refl;
    no_mark = refl;
  }
  order-Plain cl_ord_id symbol side market price quantity now = record {
    no_type = refl;
    no_seq = refl;
    no_sender = refl;
    no_target = refl;
    no_time = refl;
    no_mark = refl;
  }

  -- An order that a client builds and frames with the number that the acceptor expects is parsed there,
  -- passes the checks of its header, is ready at once, moves the expected number to the next, and is
  -- decoded as that order, but for the price of a market order, which is zero.
  pub order-Arrived :
      ⦃time : TimeOps⦄ (begin : Text) (s : SequenceState) (sender target sent now : Text)
      (cl_ord_id symbol : Text) (side : Side) (order_type : OrderType) (price quantity : D)
      (t u : ℤ)
      → Printable begin
      → 0 < s.expected
      → s.expected < 18446744073709551615
      → Sendable sender
      → Sendable target
      → Sendable sent
      → Sendable now
      → Sendable cl_ord_id
      → Sendable symbol
      → parse_fix_timestamp sent 52 ≡ ok t
      → parse_fix_timestamp now 60 ≡ ok u
      → PriceSent order_type price
      → dec.lt dec.zero quantity ≡ true
      → length (
          put_fields (
            header
              (codes "D")
              s.expected
              sender
              target
              sent
              (build_new_order_single cl_ord_id symbol side order_type price quantity now)))
        < u64_bound
      → let fields = build_new_order_single cl_ord_id symbol side order_type price quantity now in
        let wire = frame begin (codes "D") s.expected sender target sent fields in
        let m = sent_message begin (codes "D") s.expected sender target sent fields wire in
        Arrived wire begin sender target s m
        × (decode m
            ≡ ok (
                new_order_single (record {
                  cl_ord_id = cl_ord_id;
                  symbol = symbol;
                  side = side;
                  order_type = order_type;
                  price = price_received order_type price;
                  quantity = quantity;
                })))
  order-Arrived begin s sender target sent now cl_ord_id symbol side order_type price quantity t u p
        pos n a c d f g h k l pp q small =
      let fields = build_new_order_single cl_ord_id symbol side order_type price quantity now in
      let wire = frame begin (codes "D") s.expected sender target sent fields in
      let e : Envelope sender target sent now = record {
        sender_occupied = a.0;
        target_occupied = c.0;
        sent_occupied = d.0;
        now_occupied = f.0;
        instant = u;
        timed = l;
      } in
      (
        frame-Arrived begin (codes "D") s sender target sent fields t p pos n refl (refl, refl) a c
            d k (order-FieldsOk cl_ord_id symbol side order_type price quantity now g h f)
            (order-Plain cl_ord_id symbol side order_type price quantity now) small,
        decode-build_new_order_single b begin s.expected sender target sent now wire e cl_ord_id
            symbol side order_type price quantity g.0 h.0 pp q,
      )
