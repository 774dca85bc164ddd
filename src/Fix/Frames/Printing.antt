-- ===== src/Fix/Frames/Printing.antt =====
-- src/fix/frame.rs: the printed fields of a message are parsed as they were.
use rust_trader.Base.{
  ℕ, ◌<◌, ◌≡◌, refl, ap, sym, ◌∙◌, Bool, true, false, ◌&&◌, leb, List, [], ◌∷◌, ◌++◌, arith,
}
use mathlib.Core.List.{append_assoc}
use rust_trader.Base.Eq.{Text}
use rust_trader.Base.Lists.{All, is_empty}
use rust_trader.Base.Outcome.{ok}
use rust_trader.Base.Texts.{is_digit, show_nat, u64_bound}
use rust_trader.Base.Texts.Numbers.{parse_nat-show_nat, all-show_nat, show_nat_occupied}
use rust_trader.Base.Texts.Parts.{all, split, strip_last}
use rust_trader.Base.Texts.Splitting.{
  Clean, split_once-Clean, lines, split-lines, contains_byte-append, all-Clean, all-append,
  all-implies,
}
use rust_trader.Fix.Frames.{
  soh, parse_field, parse_parts, parse_fields, is_framing, any_framing, put_fields, put_text,
  is_wire_byte,
}

abbrev pub is_printable : ℕ → Bool
is_printable b = leb 32 b && leb b 126

abbrev pub Printable : Text → Type 0
Printable s = all is_printable s ≡ true

-- A field that can be sent: a tag of 32 bits that frames nothing, and a value.
pub record FieldOk (tag : ℕ) (value : Text) : Type 0 where
  pub positive : 0 < tag
  pub small : tag < 4294967296
  pub unframed : is_framing tag ≡ false
  pub valued : is_empty value ≡ false
  pub printable : Printable value

abbrev pub FieldsOk : List (ℕ × Text) → Type 0
FieldsOk [] = Unit {0}
FieldsOk ((tag, value) ∷ fields) = FieldOk tag value × FieldsOk fields

-- The text of a field.
abbrev pub part : ℕ → Text → Text
part tag value = show_nat tag ++ 61 ∷ value

abbrev pub parts : List (ℕ × Text) → List Text
parts [] = []
parts ((tag, value) ∷ fields) = part tag value ∷ parts fields

pub put_fields-lines : (fields : List (ℕ × Text)) → put_fields fields ≡ lines soh (parts fields)
unfolding put_fields
put_fields-lines [] = refl
put_fields-lines ((tag, value) ∷ fields) =
    ap (put_text (show_nat tag) value) (put_fields-lines fields)
    ∙ sym (append_assoc (show_nat tag) (61 ∷ value) (soh ∷ lines soh (parts fields)))

tag-Clean : (tag : ℕ) {value : Text} → FieldOk tag value → Clean 61 (show_nat tag)
tag-Clean tag f =
    all-Clean is_digit 61 (show_nat tag) refl (all-show_nat tag (omega (arith, f.small)))

parse_field-part :
    (tag : ℕ) (value : Text) → FieldOk tag value → parse_field (part tag value) ≡ ok (tag, value)
unfolding parse_field
parse_field-part tag value f = rw (split_once-Clean 61 (show_nat tag) value (tag-Clean tag f)) (
    rw
      (
        show_nat_occupied tag,
        all-show_nat tag (omega (arith, f.small)),
        f.valued,
        parse_nat-show_nat 4294967296 tag (omega (arith, f.small)) f.small,
      )
      (ground arith))

parse_parts-parts :
    (fields : List (ℕ × Text)) → FieldsOk fields → parse_parts (parts fields) ≡ ok fields
unfolding parse_parts
parse_parts-parts [] a = refl
parse_parts-parts ((tag, value) ∷ fields) a =
    rw (parse_field-part tag value a.0) (rw (parse_parts-parts fields a.1) refl)

part-Clean : (tag : ℕ) (value : Text) → FieldOk tag value → Clean soh (part tag value)
part-Clean tag value f =
    contains_byte-append soh (show_nat tag) (61 ∷ value)
      (all-Clean is_digit soh (show_nat tag) refl (all-show_nat tag (omega (arith, f.small))))
      (all-Clean is_printable soh value refl f.printable)

parts-Clean : (fields : List (ℕ × Text)) → FieldsOk fields → All (Clean soh) (parts fields)
parts-Clean [] a = tt
parts-Clean ((tag, value) ∷ fields) a = (part-Clean tag value a.0, parts-Clean fields a.1)

-- The body of a message with at least one field is parsed into its fields, in their order.
pub parse_fields-put_fields :
    (tag : ℕ) (value : Text) (fields : List (ℕ × Text))
    → FieldsOk ((tag, value) ∷ fields)
    → parse_fields (put_fields ((tag, value) ∷ fields)) ≡ ok ((tag, value) ∷ fields)
unfolding parse_fields
parse_fields-put_fields tag value fields a =
    ap (λ s. parse_parts (split soh (strip_last soh s))) (put_fields-lines ((tag, value) ∷ fields))
    ∙ ap parse_parts
        (split-lines soh (part tag value) (parts fields) (parts-Clean ((tag, value) ∷ fields) a))
    ∙ parse_parts-parts ((tag, value) ∷ fields) a

pub any_framing-FieldsOk : (fields : List (ℕ × Text)) → FieldsOk fields → any_framing fields ≡ false
unfolding any_framing
any_framing-FieldsOk [] a = refl
any_framing-FieldsOk ((tag, value) ∷ fields) a = rw (a.0.unframed) (any_framing-FieldsOk fields a.1)

digit_sent : (b : ℕ) → is_digit b ≡ true → is_wire_byte b ≡ true
digit_sent b h = ground arith

pub printable_sent : (b : ℕ) → is_printable b ≡ true → is_wire_byte b ≡ true
printable_sent b h = ground arith

pub all-number : (n : ℕ) → n < u64_bound → all is_wire_byte (show_nat n) ≡ true
all-number n h = all-implies is_digit is_wire_byte (show_nat n) digit_sent (all-show_nat n h)

pub all-put_text :
    (tag value rest : Text)
    → all is_wire_byte tag ≡ true
    → Printable value
    → all is_wire_byte rest ≡ true
    → all is_wire_byte (put_text tag value rest) ≡ true
all-put_text tag value rest t v r = all-append is_wire_byte tag (61 ∷ (value ++ soh ∷ rest)) t (
    all-append is_wire_byte value (soh ∷ rest)
      (all-implies is_printable is_wire_byte value printable_sent v) r)

pub all-put_fields :
    (fields : List (ℕ × Text)) → FieldsOk fields → all is_wire_byte (put_fields fields) ≡ true
unfolding put_fields
all-put_fields [] a = refl
all-put_fields ((tag, value) ∷ fields) a =
    all-put_text (show_nat tag) value (put_fields fields)
      (all-number tag (omega (arith, a.0.small))) a.0.printable (all-put_fields fields a.1)
