-- ===== src/Fix/Codec/Requests.antt =====
-- src/fix/codec.rs: what a client builds is decoded as what it meant.
use rust_trader.Base.{ℕ, ◌≡◌, refl, true, false, some, [], ◌∷◌, arith}
use rust_trader.Base.Eq.{Text, codes, nat_eq}
use rust_trader.Base.Int.{ℤ}
use rust_trader.Base.Lists.{is_empty}
use rust_trader.Base.Maps.{lookup}
use rust_trader.Base.Outcome.{ok, ◌>>=◌}
use rust_trader.Base.Texts.Numbers.{show_nat_occupied}
use rust_trader.Decimal.{DecimalOps}
use rust_trader.Core.Orders.{Side, buy, sell, OrderType, market, limit}
use rust_trader.Fix.Messages.{FixMessage, get, msg_type}
use rust_trader.Fix.Headers.{TimeOps, parse_fix_timestamp}
use rust_trader.Fix.Headers.Accepted.{sent_message}
use rust_trader.Fix.Codec.{
  DecimalText, IsReadBack, is_decimal, fix_decimal, parse_decimal, side_to_fix, side_from_fix,
  new_order_single,
}
use rust_trader.Fix.Codec.Tables.{scalar_fields, required_fields}
use rust_trader.Fix.Codec.Builders.{Fields, build_new_order_single, priced_field}
use rust_trader.Fix.Codec.Profiles.{
  validate_profile, check_profile, is_time, validate_field_scopes, check_values, check_required,
}
use rust_trader.Fix.Codec.Decoding.{decode_kind, decode}

pub side_from_fix-side_to_fix : (side : Side) → side_from_fix (side_to_fix side) ≡ ok side
unfolding side_from_fix side_to_fix
side_from_fix-side_to_fix buy = refl
side_from_fix-side_to_fix sell = refl

pub side_occupied : (side : Side) → is_empty (side_to_fix side) ≡ false
unfolding side_to_fix
side_occupied buy = refl
side_occupied sell = refl

is_decimal_occupied : (s : Text) → is_decimal s ≡ true → is_empty s ≡ false
unfolding is_decimal
is_decimal_occupied [] h = cc
is_decimal_occupied (b ∷ s) h = refl

pub timed_lem :
    ⦃time : TimeOps⦄ (now : Text) (t : ℤ)
    → parse_fix_timestamp now 60 ≡ ok t
    → is_time (some now) ≡ true
unfolding parse_fix_timestamp
timed_lem ⦃time⦄ now t h = ground arith

-- What a request has besides its own fields: the ends of the connection and two times, of which the
-- time of the transaction is one that the clock library reads.
pub record Envelope ⦃time : TimeOps⦄ (sender target sent now : Text) : Type 0 where
  pub sender_occupied : is_empty sender ≡ false
  pub target_occupied : is_empty target ≡ false
  pub sent_occupied : is_empty sent ≡ false
  pub now_occupied : is_empty now ≡ false
  pub instant : ℤ
  pub timed : parse_fix_timestamp now 60 ≡ ok instant

-- A market order is sent without its price.
abbrev pub PriceSent : {D : Type 0} ⦃dec : DecimalOps D⦄ → OrderType → D → Type 0
PriceSent ⦃dec⦄ limit price = dec.lt dec.zero price ≡ true
PriceSent market price = Unit {0}

abbrev pub price_received : {D : Type 0} ⦃dec : DecimalOps D⦄ → OrderType → D → D
price_received limit price = price
price_received ⦃dec⦄ market price = dec.zero

module _ {D : Type 0} ⦃dec : DecimalOps D⦄ ⦃text : DecimalText D⦄ (b : IsReadBack D) where
  pub parse_decimal-fix_decimal : (d : D) → parse_decimal (fix_decimal d) ≡ ok d
  unfolding parse_decimal fix_decimal
  parse_decimal-fix_decimal d = rw (b.shaped d) (rw (b.read-print d) refl)

  pub decimal_occupied : (d : D) → is_empty (fix_decimal d) ≡ false
  unfolding fix_decimal
  decimal_occupied d = is_decimal_occupied (text.print d) (b.shaped d)

  module _ ⦃time : TimeOps⦄ (begin : Text) (seq : ℕ) (sender target sent now raw : Text)
      (e : Envelope sender target sent now) where
    abbrev pub request : Text → Fields → FixMessage
    request kind fields = sent_message begin kind seq sender target sent fields raw

    new_order-profile :
        (cl_ord_id symbol : Text) (side : Side) (order_type : OrderType) (price quantity : D)
        → is_empty cl_ord_id ≡ false
        → is_empty symbol ≡ false
        → validate_profile
            (request
              (codes "D")
              (build_new_order_single cl_ord_id symbol side order_type price quantity now))
            (codes "D")
          ≡ ok tt
    unfolding validate_profile check_profile validate_field_scopes check_values check_required
        scalar_fields required_fields build_new_order_single priced_field parse_fix_timestamp get
        lookup
    new_order-profile cl_ord_id symbol side limit price quantity c s =
        rw
          (
            show_nat_occupied seq,
            e.sender_occupied,
            e.target_occupied,
            e.sent_occupied,
            c,
            s,
            side_occupied side,
            e.now_occupied,
            decimal_occupied quantity,
            decimal_occupied price,
          )
          (rw (timed_lem now e.instant e.timed) refl)
    new_order-profile cl_ord_id symbol side market price quantity c s =
        rw
          (
            show_nat_occupied seq,
            e.sender_occupied,
            e.target_occupied,
            e.sent_occupied,
            c,
            s,
            side_occupied side,
            e.now_occupied,
            decimal_occupied quantity,
          )
          (rw (timed_lem now e.instant e.timed) refl)

    new_order-kind :
        (cl_ord_id symbol : Text) (side : Side) (order_type : OrderType) (price quantity : D)
        → PriceSent order_type price
        → dec.lt dec.zero quantity ≡ true
        → decode_kind
            (request
              (codes "D")
              (build_new_order_single cl_ord_id symbol side order_type price quantity now))
            (codes "D")
          ≡ ok (
              new_order_single (record {
                cl_ord_id = cl_ord_id;
                symbol = symbol;
                side = side;
                order_type = order_type;
                price = price_received order_type price;
                quantity = quantity;
              }))
    unfolding decode_kind build_new_order_single priced_field get lookup
    new_order-kind cl_ord_id symbol side limit price quantity p q =
        rw (side_from_fix-side_to_fix side, ◌>>=◌)
          (rw (parse_decimal-fix_decimal price, ◌>>=◌)
            (rw p (rw (parse_decimal-fix_decimal quantity, ◌>>=◌) (rw q refl))))
    new_order-kind cl_ord_id symbol side market price quantity p q =
        rw (side_from_fix-side_to_fix side, ◌>>=◌)
          (rw (parse_decimal-fix_decimal quantity, ◌>>=◌) (rw q refl))

    -- An order that a client builds is decoded as that order, but for the price of a market order, which
    -- is zero.
    pub decode-build_new_order_single :
        (cl_ord_id symbol : Text) (side : Side) (order_type : OrderType) (price quantity : D)
        → is_empty cl_ord_id ≡ false
        → is_empty symbol ≡ false
        → PriceSent order_type price
        → dec.lt dec.zero quantity ≡ true
        → decode (
            request
              (codes "D")
              (build_new_order_single cl_ord_id symbol side order_type price quantity now))
          ≡ ok (
              new_order_single (record {
                cl_ord_id = cl_ord_id;
                symbol = symbol;
                side = side;
                order_type = order_type;
                price = price_received order_type price;
                quantity = quantity;
              }))
    unfolding decode msg_type get lookup
    decode-build_new_order_single cl_ord_id symbol side order_type price quantity c s p q =
        rw (new_order-profile cl_ord_id symbol side order_type price quantity c s, ◌>>=◌)
          (new_order-kind cl_ord_id symbol side order_type price quantity p q)
