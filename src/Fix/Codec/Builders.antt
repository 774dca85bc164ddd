-- ===== src/Fix/Codec/Builders.antt =====
-- src/fix/codec.rs: the fields of the messages that are sent. The times and the identifiers that a
-- message takes from the clock are arguments.
use rust_trader.Base.{
  ℕ, Bool, true, false, ◌&&◌, Option, none, some, List, [], ◌∷◌, ◌++◌, if◌then◌else◌,
}
use rust_trader.Base.Eq.{Text, codes}
use rust_trader.Base.Int.{ℤ, pos, eqb_ℤ}
use rust_trader.Base.Texts.{show_nat, show_int}
use rust_trader.Decimal.{DecimalOps}
use rust_trader.Core.Orders.{Order, Side, OrderType, market, limit, OrderId, is_active}
use rust_trader.Core.Engine.{
  Report, status, fill, ExecType, new_exec, partial_exec, fill_exec, cancelled_exec, expired_exec,
  replaced_exec, rejected_exec,
}
use rust_trader.Fix.Codec.{
  DecimalText, fix_decimal, side_to_fix, ord_status_to_fix, ord_type_to_fix,
}

abbrev pub Fields : Type 0
Fields = List (ℕ × Text)

unfoldable pub build_logon : ℕ → Fields
build_logon heart_bt_int = (98, codes "0") ∷ (108, show_nat heart_bt_int) ∷ []

unfoldable pub build_heartbeat : Option Text → Fields
build_heartbeat none = []
build_heartbeat (some id) = (112, id) ∷ []

unfoldable pub build_test_request : Text → Fields
build_test_request id = (112, id) ∷ []

unfoldable pub build_cancel_request : Text → Text → Text → Side → Text → Fields
unfolding side_to_fix
build_cancel_request orig_cl_ord_id cl_ord_id symbol side now =
    (41, orig_cl_ord_id) ∷ (11, cl_ord_id) ∷ (55, symbol) ∷ (54, side_to_fix side) ∷ (60, now) ∷ []

unfoldable pub build_security_definition : Text → Text → ℤ → Text → Fields
build_security_definition req_id symbol instrument_id identifier =
    (320, req_id)
    ∷ (322, identifier)
    ∷ (393, codes "1")
    ∷ (323, codes "4")
    ∷ (55, symbol)
    ∷ (48, show_int instrument_id)
    ∷ (22, codes "8")
    ∷ []

unfoldable pub build_mass_quote_ack : Text → Fields
build_mass_quote_ack quote_id = (297, codes "0") ∷ (117, quote_id) ∷ []

unfoldable pub exec_code : ExecType → Text
exec_code new_exec = codes "0"
exec_code partial_exec = codes "1"
exec_code fill_exec = codes "2"
exec_code cancelled_exec = codes "4"
exec_code replaced_exec = codes "5"
exec_code rejected_exec = codes "8"
exec_code expired_exec = codes "C"

abbrev is_replaced : ExecType → Bool
is_replaced replaced_exec = true
is_replaced _ = false

module _ {D : Type 0} ⦃text : DecimalText D⦄ where
  -- `price`, where the order is a limit order.
  unfoldable pub priced_field : OrderType → D → Fields
  unfolding fix_decimal
  priced_field limit price = (44, fix_decimal price) ∷ []
  priced_field market price = []

  unfoldable pub build_new_order_single : Text → Text → Side → OrderType → D → D → Text → Fields
  unfolding fix_decimal side_to_fix ord_type_to_fix priced_field
  build_new_order_single cl_ord_id symbol side order_type price quantity now =
      (11, cl_ord_id)
      ∷ (21, codes "1")
      ∷ (55, symbol)
      ∷ (54, side_to_fix side)
      ∷ (60, now)
      ∷ (40, ord_type_to_fix order_type)
      ∷ (38, fix_decimal quantity)
      ∷ priced_field order_type price

  unfoldable pub build_cancel_replace : Text → Text → Text → Side → D → D → Text → Fields
  unfolding fix_decimal side_to_fix
  build_cancel_replace orig_cl_ord_id cl_ord_id symbol side price quantity now =
      (41, orig_cl_ord_id)
      ∷ (11, cl_ord_id)
      ∷ (21, codes "1")
      ∷ (55, symbol)
      ∷ (54, side_to_fix side)
      ∷ (60, now)
      ∷ (40, codes "2")
      ∷ (38, fix_decimal quantity)
      ∷ (44, fix_decimal price)
      ∷ []

  unfoldable pub build_mass_quote : Text → Text → D → D → D → D → Fields
  unfolding fix_decimal
  build_mass_quote identifier symbol bid_price bid_quantity ask_price ask_quantity =
      (117, identifier)
      ∷ (296, codes "1")
      ∷ (302, codes "1")
      ∷ (311, symbol)
      ∷ (304, codes "1")
      ∷ (295, codes "1")
      ∷ (299, symbol)
      ∷ (55, symbol)
      ∷ (132, fix_decimal bid_price)
      ∷ (133, fix_decimal ask_price)
      ∷ (134, fix_decimal bid_quantity)
      ∷ (135, fix_decimal ask_quantity)
      ∷ []

abbrev identified : OrderId → Fields
identified id = if eqb_ℤ id (pos 0) then [] else (11, show_int id) ∷ []

abbrev originated : Option OrderId → Fields
originated none = []
originated (some id) = (41, show_int id) ∷ []

-- What a report says of the event, apart from the order.
pub record Event (D : Type 0) : Type 0 where
  pub order : Order D
  pub symbol : Text
  pub cl_ord_id : OrderId
  pub exec_id : Text
  pub exec_type : ExecType
  pub original : Option OrderId
  pub last : D × D

module _ {D : Type 0} ⦃dec : DecimalOps D⦄ where
  abbrev event_of : Report D → Event D
  event_of (status r) = record {
    order = r.order;
    symbol = r.symbol;
    cl_ord_id = r.cl_ord_id;
    exec_id = r.exec_id;
    exec_type = r.exec_type;
    original = r.orig_cl_ord_id;
    last = (dec.zero, dec.zero);
  }
  event_of (fill r) = record {
    order = r.order;
    symbol = r.symbol;
    cl_ord_id = r.order.id;
    exec_id = r.exec_id;
    exec_type = if dec.is_zero r.order.remaining then fill_exec else partial_exec;
    original = r.orig_cl_ord_id;
    last = (r.last_price, r.last_quantity);
  }

  -- A replacement of which nothing is filled has a status of its own.
  unfoldable pub status_code : Event D → Text
  unfolding ord_status_to_fix
  status_code e =
      if is_replaced e.exec_type && dec.is_zero e.order.cum_quantity
      then codes "5"
      else ord_status_to_fix e.order.state

module _ {D : Type 0} ⦃dec : DecimalOps D⦄ ⦃text : DecimalText D⦄ where
  unfoldable pub event_fields : Event D → Text → Fields
  unfolding fix_decimal side_to_fix ord_type_to_fix exec_code status_code priced_field
  event_fields e now =
      (37, e.order.exchange_id)
      ∷ (17, e.exec_id)
      ∷ (20, codes "0")
      ∷ (150, exec_code e.exec_type)
      ∷ (39, status_code e)
      ∷ (55, e.symbol)
      ∷ (54, side_to_fix e.order.side)
      ∷ (38, fix_decimal e.order.quantity)
      ∷ (40, ord_type_to_fix e.order.order_type)
      ∷ (151, fix_decimal (if is_active e.order.state then e.order.remaining else dec.zero))
      ∷ (14, fix_decimal e.order.cum_quantity)
      ∷ (6, fix_decimal e.order.avg_price)
      ∷ (60, now)
      ∷ (identified e.cl_ord_id
          ++ originated e.original
          ++ priced_field e.order.order_type e.order.price
          ++ (31, fix_decimal e.last.0) ∷ (32, fix_decimal e.last.1) ∷ [])

  unfoldable pub build_execution_report : Report D → Text → Fields
  unfolding event_fields
  build_execution_report r now = event_fields (event_of r) now
