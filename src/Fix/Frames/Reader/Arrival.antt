-- ===== src/Fix/Frames/Reader/Arrival.antt =====
-- src/fix/frame.rs: what `frame` prints is what a `FrameReader` at the other end of a stream receives.
use rust_trader.Base.{
  ℕ, suc, ◌+◌, ◌<◌, ◌≤◌, ◌≡◌, refl, sym, ap, subst, ◌∙◌, true, false, leb, ltb, List, [], ◌∷◌, ◌++◌,
  arith,
}
use rust_trader.Base.Eq.{Text}
use rust_trader.Base.Lists.{length, length-append, is_empty}
use rust_trader.Base.Outcome.{ok}
use rust_trader.Base.Texts.{show_nat, u64_bound}
use rust_trader.Base.Texts.Numbers.{
  all-show_nat, show_nat_occupied, parse_nat-show_nat, length-show_nat,
}
use rust_trader.Fix.Messages.{FixMessage}
use rust_trader.Fix.Frames.{soh, parse_wire, put_fields, frame}
use rust_trader.Fix.Frames.Trailer.{trailer_of}
use rust_trader.Fix.Frames.Printing.{Printable, FieldsOk}
use rust_trader.Fix.Frames.Parsing.{
  framed, sum, number, offset, begin_lem, length_lem, length-offset,
}
use rust_trader.Fix.Frames.RoundTrip.{header, Sendable, parse_wire-frame, frame-framed}
use rust_trader.Fix.Frames.Reader.{
  Read, arrives, interrupted, fails, new_reader, received, Call, read_message, find_header,
  total_for, max_message_size,
}
use rust_trader.Fix.Frames.Reader.Retries.{failures, without_failures, retry, retry-read_message}
use rust_trader.Fix.Frames.Reader.Delivery.{Framed, arrivals, read_message-received}

smooth_reads :
    (reads : List Read)
    → (failures (without_failures reads) ≡ 0) × (arrivals (without_failures reads) ≡ arrivals reads)
unfolding failures without_failures arrivals
smooth_reads [] = (refl, refl)
smooth_reads (arrives k ∷ reads) = ((smooth_reads reads).0, ap suc (smooth_reads reads).1)
smooth_reads (interrupted ∷ reads) = smooth_reads reads
smooth_reads (fails ∷ reads) = smooth_reads reads

-- What has become of a frame on the stream.
pub record Received (c : Call) (m : FixMessage) (more : Text) : Type 0 where
  pub ending : c.ending ≡ received m
  pub reader : c.reader ≡ new_reader
  pub bytes : c.bytes ≡ more

retry-Received :
    (w more : Text) (m : FixMessage) (reads : List Read)
    → Framed w
    → parse_wire w ≡ ok m
    → length w ≤ arrivals reads
    → Received (retry (failures reads) (read_message new_reader (w ++ more) reads)) m more
retry-Received w more m reads f p h =
    let (left, ends) =
      read_message-received w more f m (without_failures reads) p (smooth_reads reads).0
        (omega (arith, h, (smooth_reads reads).1)) in
    let whole =
      retry-read_message (failures reads) new_reader (w ++ more) reads (omega arith) ∙ ends in
    record {
      ending = ap (λ (c : Call). c.ending) whole;
      reader = ap (λ (c : Call). c.reader) whole;
      bytes = ap (λ (c : Call). c.bytes) whole;
    }

longer : (b c : ℕ) (s : Text) → is_empty s ≡ false → ltb 2 (length (b ∷ c ∷ s)) ≡ true
longer b c [] h = absurd (ground arith)
longer b c (d ∷ s) h = ground arith

module _ (begin body : Text) (occupied : is_empty begin ≡ false) (p : Printable begin)
    (short : length begin ≤ 38) (long : 5 ≤ length body)
    (fits : length (framed begin body) ≤ max_message_size) where
  small : length body < u64_bound
  small = omega (arith, fits, length-offset begin body)

  total_lem :
      total_for (56 ∷ 61 ∷ begin) (57 ∷ 61 ∷ number begin body) ≡ ok (length (framed begin body))
  unfolding total_for
  total_lem =
      let n = length body in
      let sized : leb (offset begin body + n + 7) max_message_size ≡ true =
        ground (arith, fits, length-offset begin body) in
      let enough : leb 5 n ≡ true = ground (arith, long) in
      rw (longer 56 61 begin occupied) (
        rw (longer 57 61 (number begin body) (show_nat_occupied n)) (
          rw (all-show_nat n small) (
            rw (parse_nat-show_nat u64_bound n small small)
              (rw (sized) (rw enough (ap ok (sym (length-offset begin body))))))))

  framed-Framed : Framed (framed begin body)
  unfolding find_header
  framed-Framed = record {
    begin = 56 ∷ 61 ∷ begin;
    body_length = 57 ∷ 61 ∷ number begin body;
    rest = body ++ trailer_of (sum begin body);
    headed = rw (begin_lem begin body p, find_header) (rw (length_lem begin body small) refl);
    measured = total_lem;
    near = omega (arith, short, length-show_nat (length body));
  }

put_fields_long :
    (msg_type : Text) (fields : List (ℕ × Text))
    → is_empty msg_type ≡ false
    → 5 ≤ length (put_fields ((35, msg_type) ∷ fields))
unfolding put_fields show_nat
put_fields_long [] fields h = absurd (ground arith)
put_fields_long (b ∷ s) fields h = omega (arith, length-append {0} s (soh ∷ put_fields fields))

-- A message whose fields can be sent, with a header that the decoder takes, is received as it was sent,
-- however its bytes arrive and whatever errors of the stream come between them, once as many reads as
-- the frame has bytes have returned some; the decoder is as new, and no byte after the frame is consumed.
pub read_message-frame :
    (begin msg_type : Text) (seq : ℕ) (sender target time : Text) (fields : List (ℕ × Text))
    (more : Text) (reads : List Read)
    → Sendable begin
    → length begin ≤ 38
    → seq < u64_bound
    → Sendable msg_type
    → Sendable sender
    → Sendable target
    → Sendable time
    → FieldsOk fields
    → length (frame begin msg_type seq sender target time fields) ≤ max_message_size
    → length (frame begin msg_type seq sender target time fields) ≤ arrivals reads
    → Received
        (retry (failures reads) (
          read_message new_reader
            (frame begin msg_type seq sender target time fields ++ more)
            reads))
        (record {
          begin_string = begin;
          fields = header msg_type seq sender target time fields;
          raw = frame begin msg_type seq sender target time fields;
        })
        more
read_message-frame begin msg_type seq sender target time fields more reads p l n a b c d f fits h =
    let body = put_fields (header msg_type seq sender target time fields) in
    let fits' : length (framed begin body) ≤ max_message_size =
      subst (λ w. length w ≤ max_message_size)
        (frame-framed begin msg_type seq sender target time fields) fits in
    let long =
      put_fields_long msg_type
        ((34, show_nat seq) ∷ (49, sender) ∷ (56, target) ∷ (52, time) ∷ fields) a.0 in
    retry-Received (frame begin msg_type seq sender target time fields) more _ reads
      (subst Framed (sym (frame-framed begin msg_type seq sender target time fields))
        (framed-Framed begin body p.0 p.1 l long fits'))
      (parse_wire-frame begin msg_type seq sender target time fields p.1 n a b c d f
        (small begin body p.0 p.1 l long fits'))
      h
