-- ===== src/Fix/Codec/Decoding/Kinds.antt =====
-- src/fix/codec.rs, `decode`: one function for each type of message with fields to check.
use rust_trader.Base.{false, not, ◌&&◌, ◌||◌, ltb, leb, ◌==◌, [], ◌∷◌, if◌then◌else◌}
use rust_trader.Base.Eq.{eqb_text, codes}
use rust_trader.Base.Outcome.{Outcome, ok, ◌>>=◌, ◌>>◌, ok_or, ensure}
use rust_trader.Base.Maps.{contains_key}
use rust_trader.Base.Texts.{parse_i64}
use rust_trader.Decimal.{DecimalOps}
use rust_trader.Fix.Messages.{FixMessage, get}
use rust_trader.Fix.Codec.{
  CodecError, not_positive, not_plain, bad_heartbeat, bad_range, bad_response_to, too_many_quotes,
  bad_security, bad_transaction, bad_exec_type, no_original, negative_aggregate, bad_quote_status,
  DecimalText, side_from_fix, ord_status_from_fix, Inbound, logon, resend_request, sequence_reset,
  new_order_single, cancel_request, cancel_replace, cancel_reject, mass_quote,
  quote_acknowledgement, security_definition, execution_report,
}
use rust_trader.Fix.Codec.Decoding.Fields.{
  need, text_or, natural, boolean, order_type_of, any_of, level_of, decimal, positive, decimal_or,
  order_price, quote_value, fill_value,
}

module _ {D : Type 0} where
  unfoldable pub decode_logon : FixMessage → Outcome CodecError (Inbound D)
  unfolding need natural boolean
  decode_logon m = do
    method ← need m 98
    ensure (eqb_text method (codes "0")) not_plain
    reset ← boolean m 141 false
    heart ← natural m 108
    ensure (leb heart 4294967295 && not (heart == 0)) bad_heartbeat
    ok (logon heart)

  unfoldable pub decode_resend : FixMessage → Outcome CodecError (Inbound D)
  unfolding natural
  decode_resend m = do
    start ← natural m 7
    last ← natural m 16
    ensure (not (start == 0 || not (last == 0) && ltb last start)) bad_range
    ok resend_request

  unfoldable pub decode_reset : FixMessage → Outcome CodecError (Inbound D)
  unfolding natural boolean
  decode_reset m = do
    n ← natural m 36
    ensure (not (n == 0)) (not_positive 36)
    gap_fill ← boolean m 123 false
    ok (sequence_reset n gap_fill)

  unfoldable pub decode_cancel_reject : FixMessage → Outcome CodecError (Inbound D)
  unfolding need ord_status_from_fix get
  decode_cancel_reject m = do
    to ← need m 434
    ensure (any_of to (codes "1" ∷ codes "2" ∷ [])) bad_response_to
    cl_ord_id ← need m 11
    orig_cl_ord_id ← need m 41
    status ← need m 39
    state ← ord_status_from_fix status
    ok (cancel_reject cl_ord_id orig_cl_ord_id state (text_or [] (get m 58)))

  unfoldable pub decode_security : FixMessage → Outcome CodecError (Inbound D)
  unfolding need natural
  decode_security m = do
    response ← need m 323
    ensure (eqb_text response (codes "4")) bad_security
    total ← natural m 393
    req_id ← need m 320
    symbol ← need m 55
    id ← need m 48
    instrument_id ← ok_or bad_security (parse_i64 id)
    ok (security_definition req_id symbol instrument_id)

  unfoldable pub decode_quote_acknowledgement : FixMessage → Outcome CodecError (Inbound D)
  unfolding need get
  decode_quote_acknowledgement m = do
    status ← need m 297
    ensure
        (any_of status (codes "0" ∷ codes "1" ∷ codes "2" ∷ codes "3" ∷ codes "4" ∷ codes "5" ∷ []))
        bad_quote_status
    ok (quote_acknowledgement (get m 117) status (text_or [] (get m 58)))

module _ {D : Type 0} ⦃dec : DecimalOps D⦄ ⦃text : DecimalText D⦄ where
  unfoldable pub decode_new_order : FixMessage → Outcome CodecError (Inbound D)
  unfolding need order_type_of order_price positive side_from_fix
  decode_new_order m = do
    typ ← order_type_of m
    cl_ord_id ← need m 11
    symbol ← need m 55
    side_text ← need m 54
    side ← side_from_fix side_text
    price ← order_price m typ
    quantity ← positive m 38
    ok (
        new_order_single (record {
          cl_ord_id = cl_ord_id;
          symbol = symbol;
          side = side;
          order_type = typ;
          price = price;
          quantity = quantity;
        }))

  unfoldable pub decode_cancel : FixMessage → Outcome CodecError (Inbound D)
  unfolding need positive side_from_fix get
  decode_cancel m = do
    quantity ← (if contains_key (get m 38) then positive m 38 else ok dec.zero)
    cl_ord_id ← need m 11
    orig_cl_ord_id ← need m 41
    symbol ← need m 55
    side_text ← need m 54
    side ← side_from_fix side_text
    ok (
        cancel_request (record {
          cl_ord_id = cl_ord_id;
          orig_cl_ord_id = orig_cl_ord_id;
          symbol = symbol;
          side = side;
        }))

  unfoldable pub decode_replace : FixMessage → Outcome CodecError (Inbound D)
  unfolding need order_type_of order_price positive side_from_fix
  decode_replace m = do
    typ ← order_type_of m
    cl_ord_id ← need m 11
    orig_cl_ord_id ← need m 41
    symbol ← need m 55
    side_text ← need m 54
    side ← side_from_fix side_text
    price ← order_price m typ
    quantity ← positive m 38
    ok (
        cancel_replace orig_cl_ord_id (record {
          cl_ord_id = cl_ord_id;
          symbol = symbol;
          side = side;
          order_type = typ;
          price = price;
          quantity = quantity;
        }))

  unfoldable pub decode_quote : FixMessage → Outcome CodecError (Inbound D)
  unfolding need level_of quote_value get
  decode_quote m = do
    sets ← need m 296
    ensure (eqb_text sets (codes "1")) too_many_quotes
    entries ← need m 295
    ensure (eqb_text entries (codes "1")) too_many_quotes
    total ← need m 304
    ensure (eqb_text total (codes "1")) too_many_quotes
    level ← level_of (text_or (codes "0") (get m 301))
    quote_id ← need m 117
    symbol ← need m 55
    bid_px ← quote_value m 132
    bid_qty ← quote_value m 134
    offer_px ← quote_value m 133
    offer_qty ← quote_value m 135
    ok (
        mass_quote (record {
          quote_id = quote_id;
          response_level = level;
          symbol = symbol;
          bid_px = bid_px;
          bid_qty = bid_qty;
          offer_px = offer_px;
          offer_qty = offer_qty;
        }))

  unfoldable pub decode_report : FixMessage → Outcome CodecError (Inbound D)
  unfolding need decimal fill_value decimal_or side_from_fix ord_status_from_fix get
  decode_report m = do
    transaction ← need m 20
    ensure (eqb_text transaction (codes "0")) bad_transaction
    event ← need m 150
    ensure
        (any_of event
          (codes "0" ∷ codes "1" ∷ codes "2" ∷ codes "4" ∷ codes "5" ∷ codes "8" ∷ codes "C" ∷ []))
        bad_exec_type
    ensure
        (not
          (eqb_text event (codes "5") && contains_key (get m 11) && not (contains_key (get m 41))))
        no_original
    let is_fill = any_of event (codes "1" ∷ codes "2" ∷ [])
    cum ← decimal m 14
    remaining ← decimal m 151
    avg ← decimal m 6
    ensure (not (dec.lt cum dec.zero || dec.lt remaining dec.zero || dec.lt avg dec.zero))
        negative_aggregate
    last_price ← fill_value is_fill m 31
    last_quantity ← fill_value is_fill m 32
    exchange_id ← need m 37
    symbol ← need m 55
    status ← need m 39
    state ← ord_status_from_fix status
    side_text ← need m 54
    side ← side_from_fix side_text
    price ← decimal_or dec.zero (get m 44)
    quantity ← decimal_or (dec.add cum remaining) (get m 38)
    ok (
        execution_report (record {
          exchange_id = exchange_id;
          cl_ord_id = text_or [] (get m 11);
          orig_cl_ord_id = get m 41;
          symbol = symbol;
          state = state;
          is_fill = is_fill;
          side = side;
          price = price;
          quantity = quantity;
          remaining = remaining;
          last_price = last_price;
          last_quantity = last_quantity;
        }))
