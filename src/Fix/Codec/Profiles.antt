-- ===== src/Fix/Codec/Profiles.antt =====
-- src/fix/codec.rs: the fields that a message of each type may have, and the checks of `validate_profile`.
use rust_trader.Base.{
  ℕ, zero, suc, Bool, true, false, not, ◌&&◌, ◌||◌, ltb, leb, ◌==◌, Option, none, some, List, [],
  ◌∷◌, if◌then◌else◌,
}
use rust_trader.Base.Eq.{Text, eqb_text, codes, nat_eq}
use rust_trader.Base.Lists.{length, is_empty}
use rust_trader.Base.Outcome.{Outcome, ok, err, ◌>>=◌, ◌>>◌, ensure}
use rust_trader.Fix.Messages.{FixMessage, get}
use rust_trader.Fix.Headers.{TimeOps, seconds_format, milliseconds_format}
use rust_trader.Fix.Codec.Tables.{
  is_kind, scalar_fields, required_fields, header_fields, quote_set_fields, quote_entry_fields,
}
use rust_trader.Fix.Codec.{
  CodecError, bad_timestamp, length_field, repeating_group, header_after_body, unknown_tag,
  no_delimiter, out_of_order, duplicated, empty, bad_enumeration, required, not_automated,
  not_a_day_order,
}

abbrev pub mem : ℕ → List ℕ → Bool
mem tag [] = false
mem tag (t ∷ tags) = t == tag || mem tag tags

abbrev next : Option ℕ → Option ℕ
next none = none
next (some n) = some (suc n)

unfoldable pub position : ℕ → List ℕ → Option ℕ
position tag [] = none
position tag (t ∷ tags) = let later = next (position tag tags) in if t == tag then some 0 else later

abbrev is_length_field : ℕ → Bool
is_length_field tag =
    mem tag (89 ∷ 90 ∷ 91 ∷ 93 ∷ 95 ∷ 96 ∷ 212 ∷ 213 ∷ 445 ∷ 446 ∷ []) || leb 348 tag && leb tag 365

abbrev is_group_field : ℕ → Bool
is_group_field tag = mem tag (
    33 ∷ 73 ∷ 78 ∷ 124 ∷ 136 ∷ 146 ∷ 199 ∷ 215 ∷ 267 ∷ 268 ∷ 295 ∷ 296 ∷ 382 ∷ 384 ∷ 386 ∷ 398 ∷ 420
    ∷ 428 ∷ [])

unfoldable pub validate_field_shape : ℕ → Text → Outcome CodecError (Unit {0})
validate_field_shape tag kind = do
  ensure (not (is_length_field tag)) (length_field tag)
  ensure (not (is_group_field tag && not (is_kind kind (codes "i") && (tag == 295 || tag == 296))))
      (repeating_group tag)

-- The variables of the loop.
pub record Walk : Type 0 where
  pub body_started : Bool
  pub quote_scope : ℕ
  pub previous : Option ℕ
  pub needs_delimiter : Bool

abbrev pub walk : Bool → ℕ → Option ℕ → Bool → Walk
walk body_started quote_scope previous needs_delimiter = record {
  body_started = body_started;
  quote_scope = quote_scope;
  previous = previous;
  needs_delimiter = needs_delimiter;
}

abbrev scope_of : ℕ → Text → List ℕ
scope_of zero kind = scalar_fields kind
scope_of (suc zero) kind = quote_set_fields
scope_of (suc (suc n)) kind = quote_entry_fields

abbrev is_first : ℕ → List ℕ → Bool
is_first tag [] = false
is_first tag (t ∷ tags) = t == tag

abbrev follows : Option ℕ → ℕ → Bool
follows none position = true
follows (some prev) position = ltb prev position

-- A known tag of its scope, at its position.
unfoldable pub place_tag : Walk → Text → ℕ → Option ℕ → Outcome CodecError Walk
place_tag w kind tag none = err (unknown_tag tag)
place_tag w kind tag (some n) = do
  ensure (w.quote_scope == 0 || follows w.previous n) out_of_order
  let previous = if w.quote_scope == 0 then w.previous else some n
  ok (
      if is_kind kind (codes "i") && tag == 295
      then walk true 2 none true
      else walk true w.quote_scope previous false)

-- One round of the loop.
unfoldable pub walk_tag : Walk → Text → ℕ → Outcome CodecError Walk
unfolding validate_field_shape place_tag scalar_fields position
walk_tag w kind tag = do
  validate_field_shape tag kind
  if mem tag header_fields
      then (if w.body_started then err (header_after_body tag) else ok w)
      else if is_kind kind (codes "i") && tag == 296
      then ok (walk true 1 none true)
      else (do
        let scope = scope_of w.quote_scope kind
        ensure (not (w.needs_delimiter && not (is_first tag scope))) no_delimiter
        if leb 5000 tag
            then ok (walk true w.quote_scope w.previous false)
            else place_tag w kind tag (position tag scope))

unfoldable pub walk_fields : Walk → Text → List (ℕ × Text) → Outcome CodecError Walk
unfolding walk_tag
walk_fields w kind [] = ok w
walk_fields w kind ((tag, value) ∷ fields) = do w' ← walk_tag w kind tag; walk_fields w' kind fields

unfoldable pub validate_field_scopes : FixMessage → Text → Outcome CodecError (Unit {0})
unfolding walk_fields
validate_field_scopes m kind = do
  w ← walk_fields (walk false 0 none false) kind m.fields
  ensure (not w.needs_delimiter) no_delimiter

abbrev any_of : Text → List Text → Bool
any_of value [] = false
any_of value (t ∷ texts) = eqb_text value t || any_of value texts

abbrev valid_value : ℕ → Text → Bool
valid_value tag value =
    if tag == 373
    then any_of value (
        codes "0"
        ∷ codes "1"
        ∷ codes "2"
        ∷ codes "3"
        ∷ codes "4"
        ∷ codes "5"
        ∷ codes "6"
        ∷ codes "7"
        ∷ codes "8"
        ∷ codes "9"
        ∷ codes "10"
        ∷ codes "11"
        ∷ [])
    else if tag == 380
    then any_of value (codes "0" ∷ codes "1" ∷ codes "2" ∷ codes "3" ∷ codes "4" ∷ codes "5" ∷ [])
    else if tag == 102
    then any_of value (codes "0" ∷ codes "1" ∷ codes "2" ∷ codes "3" ∷ [])
    else if tag == 300
    then any_of value (
        codes "1"
        ∷ codes "2"
        ∷ codes "3"
        ∷ codes "4"
        ∷ codes "5"
        ∷ codes "6"
        ∷ codes "7"
        ∷ codes "8"
        ∷ codes "9"
        ∷ [])
    else true

-- The loop over the values; the tags that have been seen are the result.
unfoldable pub check_values : List ℕ → List (ℕ × Text) → Outcome CodecError (List ℕ)
check_values seen [] = ok seen
check_values seen ((tag, value) ∷ fields) = do
  ensure (not (mem tag seen)) (duplicated tag)
  ensure (not (is_empty value)) (empty tag)
  ensure (valid_value tag value) (bad_enumeration tag)
  check_values (tag ∷ seen) fields

unfoldable pub check_required : List ℕ → List ℕ → Outcome CodecError (Unit {0})
check_required seen [] = ok tt
check_required seen (tag ∷ tags) = do ensure (mem tag seen) (required tag); check_required seen tags

abbrev parses : {A : Type 0} → Option A → Bool
parses none = false
parses (some a) = true

abbrev is_order : Text → Bool
is_order kind = is_kind kind (codes "D") || is_kind kind (codes "G")

abbrev is_value : Option Text → Text → Bool
is_value none t = false
is_value (some s) t = eqb_text s t

abbrev is_absent_or : Option Text → Text → Bool
is_absent_or none t = true
is_absent_or (some s) t = eqb_text s t

module _ ⦃time : TimeOps⦄ where
  abbrev pub is_time : Option Text → Bool
  is_time none = true
  is_time (some s) =
      if length s == 17
      then parses (time.parse_from_str s seconds_format)
      else if length s == 21
      then parses (time.parse_from_str s milliseconds_format)
      else false

  unfoldable pub check_profile : FixMessage → Text → List ℕ → Outcome CodecError (Unit {0})
  unfolding validate_field_scopes check_values check_required get
  check_profile m kind tags = do
    validate_field_scopes m kind
    seen ← check_values [] m.fields
    check_required seen tags
    ensure (is_time (get m 60)) bad_timestamp
    ensure (not (is_order kind && not (is_value (get m 21) (codes "1")))) not_automated
    ensure (not (is_order kind && not (is_absent_or (get m 59) (codes "0")))) not_a_day_order

  abbrev checked : FixMessage → Text → Option (List ℕ) → Outcome CodecError (Unit {0})
  checked m kind none = ok tt
  checked m kind (some tags) = check_profile m kind tags

  unfoldable pub validate_profile : FixMessage → Text → Outcome CodecError (Unit {0})
  unfolding required_fields check_profile
  validate_profile m kind = checked m kind (required_fields kind)
