-- ===== src/Fix/Headers.antt =====
-- src/fix/session.rs: the checks of a message's header, of a logon and of a resend request, who may log
-- on, and the configurations that are accepted. The clock library is a parameter, `TimeOps`.
pub mod Accepted
pub mod Logons
use rust_trader.Base.{
  ℕ, suc, Bool, true, false, not, ◌&&◌, ◌||◌, leb, ltb, ◌==◌, Option, none, some, List, [], ◌∷◌,
  if◌then◌else◌,
}
use rust_trader.Base.Eq.{Text, eqb_text, codes, nat_eq}
use rust_trader.Base.Int.{ℤ, ltb_ℤ}
use rust_trader.Base.Lists.{length, is_empty}
use rust_trader.Base.Outcome.{Outcome, ok, err, ◌>>=◌, ◌>>◌, ok_or, ensure}
use rust_trader.Base.Texts.{parse_u64}
use rust_trader.Base.Texts.Parts.{all}
use rust_trader.Fix.Messages.{
  FixMessage, SessionError, missing_tag, empty_tag, duplicate_tag, bad_timestamp_length,
  bad_timestamp, bad_sequence_number, bad_range, sent_before_original, bad_poss_dup,
  unsupported_begin_string, comp_id_mismatch, not_a_logon, unknown_target, unsupported_encryption,
  heartbeat_too_large, get, msg_type, parse_required_u64, parse_required_seq,
}

-- `NaiveDateTime::parse_from_str` with a format; an instant is a number that grows with time.
pub record TimeOps : Type 0 where
  pub parse_from_str : Text → Text → Option ℤ

abbrev is_text : Option Text → Text → Bool
is_text none t = false
is_text (some s) t = eqb_text s t

unfoldable pub parse_required_text : FixMessage → ℕ → Outcome SessionError Text
unfolding get
parse_required_text m tag = do
  value ← ok_or (missing_tag tag) (get m tag)
  ensure (not (is_empty value)) (empty_tag tag)
  ok value

abbrev pub seconds_format : Text
seconds_format = codes "%Y%m%d-%H:%M:%S"

abbrev pub milliseconds_format : Text
milliseconds_format = codes "%Y%m%d-%H:%M:%S%.3f"

-- The values of a tag, in the order of the message.
unfoldable pub values_of : ℕ → List (ℕ × Text) → List Text
values_of tag [] = []
values_of tag ((t, value) ∷ fields) =
    let rest = values_of tag fields in if t == tag then value ∷ rest else rest

unfoldable pub only : ℕ → List Text → Outcome SessionError Text
only tag [] = err (missing_tag tag)
only tag (value ∷ []) = if is_empty value then err (empty_tag tag) else ok value
only tag (value ∷ other ∷ rest) = err (duplicate_tag tag)

unfoldable pub validate_unique_header_tag : FixMessage → ℕ → Outcome SessionError Text
unfolding values_of only
validate_unique_header_tag m tag = only tag (values_of tag m.fields)

pub data Admission : Type 0 where
  dynamic : Admission
  declared : List Text → Admission

-- The files of the logs are left out.
pub record AcceptorConfig : Type 0 where
  pub port : ℕ
  pub sender_comp_id : Text
  pub begin_string : Text
  pub admission : Admission

pub record InitiatorConfig : Type 0 where
  pub host : Text
  pub port : ℕ
  pub sender_comp_id : Text
  pub target_comp_id : Text
  pub heart_bt_int : ℕ

any_text : Text → List Text → Bool
any_text t [] = false
any_text t (s ∷ texts) = eqb_text s t || any_text t texts

unfoldable pub client_admitted : Admission → Text → Bool
unfolding any_text
client_admitted dynamic client = true
client_admitted (declared targets) client = any_text client targets

module _ ⦃time : TimeOps⦄ where
  unfoldable pub parse_fix_timestamp : Text → ℕ → Outcome SessionError ℤ
  parse_fix_timestamp value tag =
      if length value == 17
      then ok_or (bad_timestamp tag) (time.parse_from_str value seconds_format)
      else if length value == 21
      then ok_or (bad_timestamp tag) (time.parse_from_str value milliseconds_format)
      else err (bad_timestamp_length tag)

  unfoldable pub validate_timestamp_fields : FixMessage → Outcome SessionError (Unit {0})
  unfolding parse_fix_timestamp parse_required_text get
  validate_timestamp_fields m = do
    sent ← parse_required_text m 52
    sending_time ← parse_fix_timestamp sent 52
    elim (get m 43) [
      | none ↦ ok tt
      | some flag ↦
          if eqb_text flag (codes "N")
          then ok tt
          else if eqb_text flag (codes "Y")
          then (do
            first ← parse_required_text m 122
            original ← parse_fix_timestamp first 122
            ensure (not (ltb_ℤ sending_time original)) sent_before_original)
          else err bad_poss_dup
    ]

  unfoldable pub validate_header : FixMessage → Text → Text → Text → Outcome SessionError ℕ
  unfolding validate_unique_header_tag validate_timestamp_fields parse_required_seq
  validate_header m begin_string expected_sender expected_target = do
    ensure (eqb_text m.begin_string begin_string) unsupported_begin_string
    kind ← validate_unique_header_tag m 35
    sender ← validate_unique_header_tag m 49
    target ← validate_unique_header_tag m 56
    ensure (eqb_text sender expected_sender && eqb_text target expected_target) comp_id_mismatch
    number ← validate_unique_header_tag m 34
    sent ← validate_unique_header_tag m 52
    validate_timestamp_fields m
    parse_required_seq m

  -- The sender, the heartbeat interval and the sequence number.
  unfoldable pub validate_logon : FixMessage → AcceptorConfig → Outcome SessionError (Text × ℕ × ℕ)
  unfolding validate_unique_header_tag validate_timestamp_fields parse_required_seq
  validate_logon m cfg = do
    ensure (eqb_text m.begin_string cfg.begin_string) unsupported_begin_string
    ensure (is_text (msg_type m) (codes "A")) not_a_logon
    sender ← validate_unique_header_tag m 49
    target ← validate_unique_header_tag m 56
    ensure (eqb_text target cfg.sender_comp_id) unknown_target
    number ← validate_unique_header_tag m 34
    sent ← validate_unique_header_tag m 52
    validate_timestamp_fields m
    method ← parse_required_text m 98
    ensure (eqb_text method (codes "0")) unsupported_encryption
    heart ← parse_required_u64 m 108
    ensure (leb heart 4294967295) heartbeat_too_large
    seq ← parse_required_seq m
    ok (sender, heart, seq)

unfoldable pub parse_resend_range : FixMessage → Outcome SessionError (ℕ × ℕ)
unfolding parse_required_u64 get
parse_resend_range m = do
  begin ← parse_required_u64 m 7
  last ← ok_or (missing_tag 16) (get m 16)
  end ← ok_or (bad_sequence_number 16) (parse_u64 last)
  ensure (end == 0 || leb begin end) (bad_range end begin)
  ok (begin, end)

abbrev is_graphic : ℕ → Bool
is_graphic b = leb 33 b && leb b 126 && not (b == 61)

unfoldable pub valid_component_id : Text → Bool
valid_component_id value =
    not (is_empty value)
    && leb (length value) 64
    && all (λ b. ltb b 128) value
    && all is_graphic value

pub data ConfigFault : Type 0 where
  unsupported_version zero_port invalid_sender invalid_target invalid_ids no_host zero_heartbeat :
      ConfigFault

abbrev pub supported_begin_string : Text
supported_begin_string = codes "FIX.4.2"

unfoldable pub all_valid : List Text → Bool
unfolding valid_component_id
all_valid [] = true
all_valid (target ∷ targets) = valid_component_id target && all_valid targets

valid_targets : Admission → Bool
valid_targets dynamic = true
valid_targets (declared targets) = not (is_empty targets) && all_valid targets

unfoldable pub validate_acceptor_config : AcceptorConfig → Outcome ConfigFault (Unit {0})
unfolding valid_component_id valid_targets all_valid
validate_acceptor_config cfg = do
  ensure (eqb_text cfg.begin_string supported_begin_string) unsupported_version
  ensure (not (cfg.port == 0)) zero_port
  ensure (valid_component_id cfg.sender_comp_id) invalid_sender
  ensure (valid_targets cfg.admission) invalid_target

unfoldable pub validate_initiator_config : InitiatorConfig → Outcome ConfigFault (Unit {0})
unfolding valid_component_id
validate_initiator_config cfg = do
  ensure (valid_component_id cfg.sender_comp_id && valid_component_id cfg.target_comp_id)
      invalid_ids
  ensure (not (is_empty cfg.host || cfg.port == 0)) no_host
  ensure (not (cfg.heart_bt_int == 0)) zero_heartbeat
