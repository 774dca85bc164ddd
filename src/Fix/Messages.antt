-- ===== src/Fix/Messages.antt =====
-- src/fix/frame.rs, `FixMessage`, and the required fields of src/fix/session.rs.
use rust_trader.Base.{ℕ, zero, suc, Option, none, some, List}
use rust_trader.Base.Eq.{Text, nat_eq}
use rust_trader.Base.Maps.{lookup}
use rust_trader.Base.Outcome.{Outcome, ok, err, ◌>>=◌, ok_or}
use rust_trader.Base.Texts.{parse_u64}

pub record FixMessage : Type 0 where
  pub begin_string : Text
  pub fields : List (ℕ × Text)
  pub raw : Text

-- The first field of the tag.
unfoldable pub get : FixMessage → ℕ → Option Text
get m tag = lookup tag m.fields

unfoldable pub msg_type : FixMessage → Option Text
unfolding get
msg_type m = get m 35

abbrev and_parse : Option Text → Option ℕ
and_parse none = none
and_parse (some v) = parse_u64 v

unfoldable pub seq : FixMessage → Option ℕ
unfolding get
seq m = and_parse (get m 34)

-- The errors of a session's checks; the source has texts.
pub data SessionError : Type 0 where
  missing_tag not_an_integer not_positive : ℕ → SessionError
  too_low : ℕ → ℕ → SessionError
  too_many_queued : SessionError
  sequence_mismatch : ℕ → ℕ → SessionError
  reset_not_above : ℕ → ℕ → SessionError
  bad_range : ℕ → ℕ → SessionError
  empty_tag duplicate_tag bad_timestamp_length bad_timestamp bad_sequence_number : ℕ → SessionError
  sent_before_original bad_poss_dup unsupported_begin_string comp_id_mismatch : SessionError
  not_a_logon unknown_target unsupported_encryption heartbeat_too_large : SessionError

positive_number : ℕ → ℕ → Outcome SessionError ℕ
positive_number tag zero = err (not_positive tag)
positive_number tag (suc n) = ok (suc n)

unfoldable pub parse_required_u64 : FixMessage → ℕ → Outcome SessionError ℕ
unfolding get positive_number
parse_required_u64 m tag = do
  value ← ok_or (missing_tag tag) (get m tag)
  parsed ← ok_or (not_an_integer tag) (parse_u64 value)
  positive_number tag parsed

unfoldable pub parse_required_seq : FixMessage → Outcome SessionError ℕ
unfolding parse_required_u64
parse_required_seq m = parse_required_u64 m 34
