-- ===== src/Fix/Business/Rejections.antt =====
-- src/fix/session.rs, `handle_business`: why an order request is rejected, and what the client is told.
use rust_trader.Base.{◌≡◌, refl, ap, none, some}
use rust_trader.Base.Eq.{Text, codes, nat_eq}
use rust_trader.Base.Maps.{lookup}
use rust_trader.Base.Outcome.{ok, err}
use rust_trader.Decimal.{DecimalOps}
use rust_trader.Core.Orders.{OrderId, OrderType, market, limit}
use rust_trader.Core.Tiers.{EngineError}
use rust_trader.Core.Market.{Instrument}
use rust_trader.Core.Engine.Entry.Admission.{Refusal}
use rust_trader.Core.Engine.Sessions.{instrument_by_symbol}
use rust_trader.Fix.WireIds.{WireError, fresh_id}
use rust_trader.Fix.Codec.{
  DecimalText, OrderRequest, fix_decimal, side_from_fix, side_to_fix, ord_type_to_fix,
}
use rust_trader.Fix.Codec.Builders.{Fields}
use rust_trader.Fix.Codec.Requests.{side_from_fix-side_to_fix}
use rust_trader.Fix.Business.{order_rejection}
use rust_trader.Fix.Business.Tasks.{Desk, Reason, identifier, no_symbol, engine_error, as_new}

abbrev type_code : OrderType → Text
type_code market = codes "1"
type_code limit = codes "2"

type_code-ord_type_to_fix : (t : OrderType) → ord_type_to_fix t ≡ type_code t
unfolding ord_type_to_fix
type_code-ord_type_to_fix market = refl
type_code-ord_type_to_fix limit = refl

module _ {D : Type 0} ⦃dec : DecimalOps D⦄ where
  -- What justifies a rejection: the client's identifier is refused, the symbol is unknown, or the
  -- engine has a reason to refuse the order.
  pub data Grounds (d : Desk D) (session_id : Text) (r : OrderRequest D) : Reason → Type 0 where
    not_fresh :
        (x : WireError) → fresh_id d.ids r.cl_ord_id ≡ err x → Grounds d session_id r (identifier x)
    unlisted : instrument_by_symbol d.engine r.symbol ≡ none → Grounds d session_id r no_symbol
    not_admitted :
        (id : OrderId) (i : Instrument) (x : EngineError)
        → instrument_by_symbol d.engine r.symbol ≡ some i
        → Refusal d.engine session_id (as_new id i r) x
        → Grounds d session_id r (engine_error x)

module _ {D : Type 0} ⦃dec : DecimalOps D⦄ ⦃text : DecimalText D⦄ where
  -- An execution report that says of the request that it is rejected, and why.
  pub record Rejects (r : OrderRequest D) (reason exec_id now : Text) (fields : Fields)
      : Type 0 where
    pub names : lookup 11 fields ≡ some r.cl_ord_id
    pub symbol : lookup 55 fields ≡ some r.symbol
    pub side : Text
    pub sided : lookup 54 fields ≡ some side
    pub read : side_from_fix side ≡ ok r.side
    pub typed : lookup 40 fields ≡ some (type_code r.order_type)
    pub quantity : lookup 38 fields ≡ some (text.print r.quantity)
    pub price : lookup 44 fields ≡ some (text.print r.price)
    pub event : lookup 150 fields ≡ some (codes "8")
    pub status : lookup 39 fields ≡ some (codes "8")
    pub left : lookup 151 fields ≡ some (codes "0")
    pub filled : lookup 14 fields ≡ some (codes "0")
    pub average : lookup 6 fields ≡ some (codes "0")
    pub explained : lookup 58 fields ≡ some reason
    pub numbered : lookup 17 fields ≡ some exec_id
    pub timed : lookup 60 fields ≡ some now

  pub order_rejection-Rejects :
      (r : OrderRequest D) (reason exec_id now : Text)
      → Rejects r reason exec_id now (order_rejection r reason exec_id now)
  unfolding order_rejection lookup fix_decimal
  order_rejection-Rejects r reason exec_id now = record {
    names = refl;
    symbol = refl;
    side = side_to_fix r.side;
    sided = refl;
    read = side_from_fix-side_to_fix r.side;
    typed = ap (λ (t : Text). some t) (type_code-ord_type_to_fix r.order_type);
    quantity = refl;
    price = refl;
    event = refl;
    status = refl;
    left = refl;
    filled = refl;
    average = refl;
    explained = refl;
    numbered = refl;
    timed = refl;
  }
