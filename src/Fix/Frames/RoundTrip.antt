-- ===== src/Fix/Frames/RoundTrip.antt =====
-- src/fix/frame.rs, `frame` and `parse_wire`: a message that is framed is parsed back.
use rust_trader.Base.{ℕ, ◌<◌, ◌≡◌, refl, ap, ◌∙◌, true, false, List, ◌∷◌, arith}
use rust_trader.Base.Eq.{Text, codes}
use rust_trader.Base.Lists.{length, is_empty}
use rust_trader.Base.Outcome.{ok}
use rust_trader.Base.Texts.{is_digit, show_nat, u64_bound}
use rust_trader.Base.Texts.Numbers.{all-show_nat, show_nat_occupied}
use rust_trader.Base.Texts.Parts.{starts_with, ends_with}
use rust_trader.Base.Texts.Splitting.{all-implies, ends_with-lines}
use rust_trader.Fix.Frames.{soh, parse_wire, put_fields, is_framing, frame}
use rust_trader.Fix.Frames.Printing.{
  Printable, is_printable, FieldOk, FieldsOk, part, parts, put_fields-lines,
  parse_fields-put_fields, any_framing-FieldsOk, all-put_fields,
}
use rust_trader.Fix.Frames.Parsing.{framed, parse_wire-framed}

abbrev pub header : Text → ℕ → Text → Text → Text → List (ℕ × Text) → List (ℕ × Text)
header msg_type seq sender target time fields =
    (35, msg_type) ∷ (34, show_nat seq) ∷ (49, sender) ∷ (56, target) ∷ (52, time) ∷ fields

pub frame-framed :
    (begin msg_type : Text) (seq : ℕ) (sender target time : Text) (fields : List (ℕ × Text))
    → frame begin msg_type seq sender target time fields
      ≡ framed begin (put_fields (header msg_type seq sender target time fields))
unfolding frame show_nat
frame-framed begin msg_type seq sender target time fields = refl

-- The body of a message whose first field is its type.
pub put_fields-Body :
    (msg_type : Text) (fields : List (ℕ × Text))
    → (starts_with (put_fields ((35, msg_type) ∷ fields)) (codes "35=") ≡ true)
      × (ends_with soh (put_fields ((35, msg_type) ∷ fields)) ≡ true)
unfolding put_fields show_nat
put_fields-Body msg_type fields = (
  refl,
  ap (ends_with soh) (put_fields-lines ((35, msg_type) ∷ fields))
      ∙ ends_with-lines soh (part 35 msg_type) (parts fields),
)

pub parse_wire-put_fields :
    (begin msg_type : Text) (fields : List (ℕ × Text))
    → Printable begin
    → FieldsOk ((35, msg_type) ∷ fields)
    → length (put_fields ((35, msg_type) ∷ fields)) < u64_bound
    → parse_wire (framed begin (put_fields ((35, msg_type) ∷ fields)))
      ≡ ok (record {
        begin_string = begin;
        fields = (35, msg_type) ∷ fields;
        raw = framed begin (put_fields ((35, msg_type) ∷ fields));
      })
parse_wire-put_fields begin msg_type fields b f small =
    parse_wire-framed begin (put_fields ((35, msg_type) ∷ fields)) ((35, msg_type) ∷ fields) small b
      (all-put_fields ((35, msg_type) ∷ fields) f) (put_fields-Body msg_type fields).0
      (put_fields-Body msg_type fields).1 (parse_fields-put_fields 35 msg_type fields f)
      (any_framing-FieldsOk ((35, msg_type) ∷ fields) f)

-- What a field of the header can hold.
abbrev pub Sendable : Text → Type 0
Sendable s = (is_empty s ≡ false) × Printable s

digit_printable : (b : ℕ) → is_digit b ≡ true → is_printable b ≡ true
digit_printable b h = ground arith

pub Sendable-number : (n : ℕ) → n < u64_bound → Sendable (show_nat n)
Sendable-number n h = (
  show_nat_occupied n,
  all-implies is_digit is_printable (show_nat n) digit_printable (all-show_nat n h),
)

pub Sendable-FieldOk :
    (tag : ℕ) (s : Text)
    → (0 < tag) × (tag < 4294967296)
    → is_framing tag ≡ false
    → Sendable s
    → FieldOk tag s
Sendable-FieldOk tag s t u v = record {
  positive = t.0;
  small = t.1;
  unframed = u;
  valued = v.0;
  printable = v.1;
}

header-FieldsOk :
    (msg_type : Text) (seq : ℕ) (sender target time : Text) (fields : List (ℕ × Text))
    → seq < u64_bound
    → Sendable msg_type
    → Sendable sender
    → Sendable target
    → Sendable time
    → FieldsOk fields
    → FieldsOk (header msg_type seq sender target time fields)
header-FieldsOk msg_type seq sender target time fields n a b c d f =
    let ok_at = Sendable-FieldOk in
    (
      ok_at 35 msg_type (omega arith) refl a,
      (
        ok_at 34 (show_nat seq) (omega arith) refl (Sendable-number seq n),
        (
          ok_at 49 sender (omega arith) refl b,
          (ok_at 56 target (omega arith) refl c, (ok_at 52 time (omega arith) refl d, f)),
        ),
      ),
    )

-- A message whose fields can be sent is parsed from its frame with the same header, the same fields in
-- the same order, and the frame itself as its raw text.
pub parse_wire-frame :
    (begin msg_type : Text) (seq : ℕ) (sender target time : Text) (fields : List (ℕ × Text))
    → Printable begin
    → seq < u64_bound
    → Sendable msg_type
    → Sendable sender
    → Sendable target
    → Sendable time
    → FieldsOk fields
    → length (put_fields (header msg_type seq sender target time fields)) < u64_bound
    → parse_wire (frame begin msg_type seq sender target time fields)
      ≡ ok (record {
        begin_string = begin;
        fields = header msg_type seq sender target time fields;
        raw = frame begin msg_type seq sender target time fields;
      })
parse_wire-frame begin msg_type seq sender target time fields p n a b c d f small =
    rw (frame-framed begin msg_type seq sender target time fields) (
      parse_wire-put_fields begin msg_type _ p
        (header-FieldsOk msg_type seq sender target time fields n a b c d f) small)
