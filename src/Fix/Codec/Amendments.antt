-- ===== src/Fix/Codec/Amendments.antt =====
-- src/fix/codec.rs: a client's cancellations and replacements are decoded as what it meant.
use rust_trader.Base.{ℕ, ◌≡◌, refl, true, false}
use rust_trader.Base.Eq.{Text, codes, nat_eq}
use rust_trader.Base.Lists.{is_empty}
use rust_trader.Base.Maps.{lookup}
use rust_trader.Base.Outcome.{ok, ◌>>=◌}
use rust_trader.Base.Texts.Numbers.{show_nat_occupied}
use rust_trader.Decimal.{DecimalOps}
use rust_trader.Core.Orders.{Side, limit}
use rust_trader.Fix.Messages.{get, msg_type}
use rust_trader.Fix.Headers.{TimeOps}
use rust_trader.Fix.Codec.{DecimalText, IsReadBack}
use rust_trader.Fix.Codec.{cancel_request, cancel_replace}
use rust_trader.Fix.Codec.Tables.{scalar_fields, required_fields}
use rust_trader.Fix.Codec.Builders.{build_cancel_request, build_cancel_replace}
use rust_trader.Fix.Codec.Profiles.{
  validate_profile, check_profile, validate_field_scopes, check_values, check_required,
}
use rust_trader.Fix.Codec.Decoding.{decode_kind, decode}
use rust_trader.Fix.Codec.Requests.{
  Envelope, timed_lem, request, side_from_fix-side_to_fix, side_occupied, parse_decimal-fix_decimal,
  decimal_occupied,
}

module _ {D : Type 0} ⦃dec : DecimalOps D⦄ ⦃text : DecimalText D⦄ (b : IsReadBack D)
    ⦃time : TimeOps⦄ (begin : Text) (seq : ℕ) (sender target sent now raw : Text)
    (e : Envelope sender target sent now) where
  cancel-profile :
      (orig_cl_ord_id cl_ord_id symbol : Text) (side : Side)
      → is_empty orig_cl_ord_id ≡ false
      → is_empty cl_ord_id ≡ false
      → is_empty symbol ≡ false
      → validate_profile
          (request b begin seq sender target sent now raw e
            (codes "F")
            (build_cancel_request orig_cl_ord_id cl_ord_id symbol side now))
          (codes "F")
        ≡ ok tt
  unfolding validate_profile check_profile validate_field_scopes check_values check_required
      scalar_fields required_fields build_cancel_request get lookup
  cancel-profile orig_cl_ord_id cl_ord_id symbol side o c s =
      rw
        (
          show_nat_occupied seq,
          e.sender_occupied,
          e.target_occupied,
          e.sent_occupied,
          o,
          c,
          s,
          side_occupied side,
          e.now_occupied,
        )
        (rw (timed_lem now e.instant e.timed) refl)

  cancel-kind :
      (orig_cl_ord_id cl_ord_id symbol : Text) (side : Side)
      → decode_kind {D = D}
          (request b begin seq sender target sent now raw e
            (codes "F")
            (build_cancel_request orig_cl_ord_id cl_ord_id symbol side now))
          (codes "F")
        ≡ ok (
            cancel_request (record {
              cl_ord_id = cl_ord_id;
              orig_cl_ord_id = orig_cl_ord_id;
              symbol = symbol;
              side = side;
            }))
  unfolding decode_kind build_cancel_request get lookup
  cancel-kind orig_cl_ord_id cl_ord_id symbol side = rw (side_from_fix-side_to_fix side, ◌>>=◌) refl

  -- A cancellation that a client builds is decoded as what it meant.
  pub decode-build_cancel_request :
      (orig_cl_ord_id cl_ord_id symbol : Text) (side : Side)
      → is_empty orig_cl_ord_id ≡ false
      → is_empty cl_ord_id ≡ false
      → is_empty symbol ≡ false
      → decode {D = D} (
          request b begin seq sender target sent now raw e
            (codes "F")
            (build_cancel_request orig_cl_ord_id cl_ord_id symbol side now))
        ≡ ok (
            cancel_request (record {
              cl_ord_id = cl_ord_id;
              orig_cl_ord_id = orig_cl_ord_id;
              symbol = symbol;
              side = side;
            }))
  unfolding decode msg_type get lookup
  decode-build_cancel_request orig_cl_ord_id cl_ord_id symbol side o c s =
      rw (cancel-profile orig_cl_ord_id cl_ord_id symbol side o c s, ◌>>=◌)
        (cancel-kind orig_cl_ord_id cl_ord_id symbol side)

  replace-profile :
      (orig_cl_ord_id cl_ord_id symbol : Text) (side : Side) (price quantity : D)
      → is_empty orig_cl_ord_id ≡ false
      → is_empty cl_ord_id ≡ false
      → is_empty symbol ≡ false
      → validate_profile
          (request b begin seq sender target sent now raw e
            (codes "G")
            (build_cancel_replace orig_cl_ord_id cl_ord_id symbol side price quantity now))
          (codes "G")
        ≡ ok tt
  unfolding validate_profile check_profile validate_field_scopes check_values check_required
      scalar_fields required_fields build_cancel_replace get lookup
  replace-profile orig_cl_ord_id cl_ord_id symbol side price quantity o c s =
      rw
        (
          show_nat_occupied seq,
          e.sender_occupied,
          e.target_occupied,
          e.sent_occupied,
          o,
          c,
          s,
          side_occupied side,
          e.now_occupied,
          decimal_occupied b quantity,
          decimal_occupied b price,
        )
        (rw (timed_lem now e.instant e.timed) refl)

  replace-kind :
      (orig_cl_ord_id cl_ord_id symbol : Text) (side : Side) (price quantity : D)
      → dec.lt dec.zero price ≡ true
      → dec.lt dec.zero quantity ≡ true
      → decode_kind
          (request b begin seq sender target sent now raw e
            (codes "G")
            (build_cancel_replace orig_cl_ord_id cl_ord_id symbol side price quantity now))
          (codes "G")
        ≡ ok (
            cancel_replace orig_cl_ord_id (record {
              cl_ord_id = cl_ord_id;
              symbol = symbol;
              side = side;
              order_type = limit;
              price = price;
              quantity = quantity;
            }))
  unfolding decode_kind build_cancel_replace get lookup
  replace-kind orig_cl_ord_id cl_ord_id symbol side price quantity p q =
      rw (side_from_fix-side_to_fix side, ◌>>=◌)
        (rw (parse_decimal-fix_decimal b price, ◌>>=◌)
          (rw p (rw (parse_decimal-fix_decimal b quantity, ◌>>=◌) (rw q refl))))

  -- A replacement that a client builds is decoded as what it meant, always as a limit order.
  pub decode-build_cancel_replace :
      (orig_cl_ord_id cl_ord_id symbol : Text) (side : Side) (price quantity : D)
      → is_empty orig_cl_ord_id ≡ false
      → is_empty cl_ord_id ≡ false
      → is_empty symbol ≡ false
      → dec.lt dec.zero price ≡ true
      → dec.lt dec.zero quantity ≡ true
      → decode (
          request b begin seq sender target sent now raw e
            (codes "G")
            (build_cancel_replace orig_cl_ord_id cl_ord_id symbol side price quantity now))
        ≡ ok (
            cancel_replace orig_cl_ord_id (record {
              cl_ord_id = cl_ord_id;
              symbol = symbol;
              side = side;
              order_type = limit;
              price = price;
              quantity = quantity;
            }))
  unfolding decode msg_type get lookup
  decode-build_cancel_replace orig_cl_ord_id cl_ord_id symbol side price quantity o c s p q =
      rw (replace-profile orig_cl_ord_id cl_ord_id symbol side price quantity o c s, ◌>>=◌)
        (replace-kind orig_cl_ord_id cl_ord_id symbol side price quantity p q)
