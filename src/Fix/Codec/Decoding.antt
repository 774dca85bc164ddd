-- ===== src/Fix/Codec/Decoding.antt =====
-- src/fix/codec.rs, `decode`: the profile of a message, and the match on its type.
pub mod Fields
pub mod Kinds
use rust_trader.Base.{
  ℕ, Bool, true, false, not, ◌&&◌, ◌||◌, ltb, leb, ◌==◌, Option, none, some, List, [], ◌∷◌,
  if◌then◌else◌,
}
use rust_trader.Base.Eq.{Text, eqb_text, codes}
use rust_trader.Base.Outcome.{Outcome, ok, err, ◌>>=◌, ◌>>◌, ok_or, ensure}
use rust_trader.Base.Maps.{contains_key}
use rust_trader.Base.Texts.{is_digit, parse_u64, parse_i64}
use rust_trader.Base.Texts.Parts.{all}
use rust_trader.Decimal.{DecimalOps, le}
use rust_trader.Core.Orders.{OrderType, market, limit}
use rust_trader.Fix.Messages.{FixMessage, get, msg_type}
use rust_trader.Fix.Headers.{TimeOps}
use rust_trader.Fix.Codec.Tables.{is_kind}
use rust_trader.Fix.Codec.Profiles.{validate_profile}
use rust_trader.Fix.Codec.{
  CodecError, no_msg_type, missing, not_positive, not_a_number, not_a_flag, bad_order_type,
  not_plain, bad_heartbeat, bad_range, bad_response_to, too_many_quotes, bad_response_level,
  negative_quote, bad_security, bad_transaction, bad_exec_type, no_original, negative_aggregate,
  bad_quote_status, DecimalText, parse_decimal, side_from_fix, ord_status_from_fix, Inbound, logon,
  logout, heartbeat, resend_request, test_request, session_reject, business_reject, unsupported,
  sequence_reset, new_order_single, cancel_request, cancel_replace, cancel_reject, mass_quote,
  quote_acknowledgement, security_definition, execution_report,
}
use rust_trader.Fix.Codec.Decoding.Fields.{need, text_or, natural}
use rust_trader.Fix.Codec.Decoding.Kinds.{
  decode_logon, decode_resend, decode_reset, decode_new_order, decode_cancel, decode_replace,
  decode_cancel_reject, decode_quote, decode_security, decode_report, decode_quote_acknowledgement,
}

module _ {D : Type 0} ⦃dec : DecimalOps D⦄ ⦃text : DecimalText D⦄ where
  -- The match on the type.
  unfoldable pub decode_kind : FixMessage → Text → Outcome CodecError (Inbound D)
  unfolding need natural get decode_logon decode_resend decode_reset decode_new_order decode_cancel
      decode_replace decode_cancel_reject decode_quote decode_security decode_report
      decode_quote_acknowledgement
  decode_kind m kind =
      if is_kind kind (codes "A")
      then decode_logon m
      else if is_kind kind (codes "0")
      then ok heartbeat
      else if is_kind kind (codes "1")
      then (do id ← need m 112; ok (test_request id))
      else if is_kind kind (codes "2")
      then decode_resend m
      else if is_kind kind (codes "3")
      then (do seq ← natural m 45; ok (session_reject (text_or [] (get m 58))))
      else if is_kind kind (codes "4")
      then decode_reset m
      else if is_kind kind (codes "5")
      then ok logout
      else if is_kind kind (codes "D")
      then decode_new_order m
      else if is_kind kind (codes "F")
      then decode_cancel m
      else if is_kind kind (codes "G")
      then decode_replace m
      else if is_kind kind (codes "9")
      then decode_cancel_reject m
      else if is_kind kind (codes "i")
      then decode_quote m
      else if is_kind kind (codes "d")
      then decode_security m
      else if is_kind kind (codes "8")
      then decode_report m
      else if is_kind kind (codes "j")
      then (do reason ← natural m 380; ok (business_reject (text_or [] (get m 58))))
      else if is_kind kind (codes "b")
      then decode_quote_acknowledgement m
      else ok (unsupported kind)

  unfoldable pub decode : ⦃time : TimeOps⦄ → FixMessage → Outcome CodecError (Inbound D)
  unfolding msg_type validate_profile decode_kind
  decode m = do kind ← ok_or no_msg_type (msg_type m); validate_profile m kind; decode_kind m kind
