-- ===== src/Fix/Codec/Quotes.antt =====
-- src/fix/codec.rs: a client's quotes are decoded as what it meant.
use rust_trader.Base.{ℕ, ◌≡◌, refl, false}
use rust_trader.Base.Eq.{Text, codes, nat_eq}
use rust_trader.Base.Lists.{is_empty}
use rust_trader.Base.Maps.{lookup}
use rust_trader.Base.Outcome.{ok, ◌>>=◌}
use rust_trader.Base.Texts.Numbers.{show_nat_occupied}
use rust_trader.Decimal.{DecimalOps}
use rust_trader.Fix.Messages.{get, msg_type}
use rust_trader.Fix.Headers.{TimeOps}
use rust_trader.Fix.Codec.{DecimalText, IsReadBack}
use rust_trader.Fix.Codec.{mass_quote}
use rust_trader.Fix.Codec.Tables.{scalar_fields, required_fields}
use rust_trader.Fix.Codec.Builders.{build_mass_quote}
use rust_trader.Fix.Codec.Profiles.{
  validate_profile, check_profile, validate_field_scopes, check_values, check_required,
}
use rust_trader.Fix.Codec.Decoding.{decode_kind, decode}
use rust_trader.Fix.Codec.Requests.{Envelope, request, parse_decimal-fix_decimal, decimal_occupied}

module _ {D : Type 0} ⦃dec : DecimalOps D⦄ ⦃text : DecimalText D⦄ (b : IsReadBack D)
    ⦃time : TimeOps⦄ (begin : Text) (seq : ℕ) (sender target sent now raw : Text)
    (e : Envelope sender target sent now) where
  quote-profile :
      (identifier symbol : Text) (bid_price bid_quantity ask_price ask_quantity : D)
      → is_empty identifier ≡ false
      → is_empty symbol ≡ false
      → validate_profile
          (request b begin seq sender target sent now raw e
            (codes "i")
            (build_mass_quote identifier symbol bid_price bid_quantity ask_price ask_quantity))
          (codes "i")
        ≡ ok tt
  unfolding validate_profile check_profile validate_field_scopes check_values check_required
      scalar_fields required_fields build_mass_quote get lookup
  quote-profile identifier symbol bid_price bid_quantity ask_price ask_quantity i s =
      rw
        (
          show_nat_occupied seq,
          e.sender_occupied,
          e.target_occupied,
          e.sent_occupied,
          i,
          s,
          decimal_occupied b bid_price,
          decimal_occupied b bid_quantity,
          decimal_occupied b ask_price,
          decimal_occupied b ask_quantity,
        )
        refl

  quote-kind :
      (identifier symbol : Text) (bid_price bid_quantity ask_price ask_quantity : D)
      → dec.lt bid_price dec.zero ≡ false
      → dec.lt bid_quantity dec.zero ≡ false
      → dec.lt ask_price dec.zero ≡ false
      → dec.lt ask_quantity dec.zero ≡ false
      → decode_kind
          (request b begin seq sender target sent now raw e
            (codes "i")
            (build_mass_quote identifier symbol bid_price bid_quantity ask_price ask_quantity))
          (codes "i")
        ≡ ok (
            mass_quote (record {
              quote_id = identifier;
              response_level = 0;
              symbol = symbol;
              bid_px = bid_price;
              bid_qty = bid_quantity;
              offer_px = ask_price;
              offer_qty = ask_quantity;
            }))
  unfolding decode_kind build_mass_quote get lookup
  quote-kind identifier symbol bid_price bid_quantity ask_price ask_quantity p q r t =
      rw (parse_decimal-fix_decimal b bid_price, ◌>>=◌)
        (rw p (
          rw (parse_decimal-fix_decimal b bid_quantity, ◌>>=◌)
            (rw q (
              rw (parse_decimal-fix_decimal b ask_price, ◌>>=◌)
                (rw r (rw (parse_decimal-fix_decimal b ask_quantity, ◌>>=◌) (rw t refl)))))))

  -- A quote that a client builds, of which no number is negative, is decoded as what it meant, with
  -- the response level zero.
  pub decode-build_mass_quote :
      (identifier symbol : Text) (bid_price bid_quantity ask_price ask_quantity : D)
      → is_empty identifier ≡ false
      → is_empty symbol ≡ false
      → dec.lt bid_price dec.zero ≡ false
      → dec.lt bid_quantity dec.zero ≡ false
      → dec.lt ask_price dec.zero ≡ false
      → dec.lt ask_quantity dec.zero ≡ false
      → decode (
          request b begin seq sender target sent now raw e
            (codes "i")
            (build_mass_quote identifier symbol bid_price bid_quantity ask_price ask_quantity))
        ≡ ok (
            mass_quote (record {
              quote_id = identifier;
              response_level = 0;
              symbol = symbol;
              bid_px = bid_price;
              bid_qty = bid_quantity;
              offer_px = ask_price;
              offer_qty = ask_quantity;
            }))
  unfolding decode msg_type get lookup
  decode-build_mass_quote identifier symbol bid_price bid_quantity ask_price ask_quantity i s p q r
        t =
      rw (quote-profile identifier symbol bid_price bid_quantity ask_price ask_quantity i s, ◌>>=◌)
        (quote-kind identifier symbol bid_price bid_quantity ask_price ask_quantity p q r t)
