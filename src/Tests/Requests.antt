-- ===== src/Tests/Requests.antt =====
-- A sale that a client with no orders asks for, against the engine of Tests/Engines.
use rust_trader.Base.Eq.{Text, codes, int_eq, text_eq}
use rust_trader.Base.Int.{ℤ, pos}
use rust_trader.Decimal.Whole.{whole}
use rust_trader.Core.Orders.{sell, limit}
use rust_trader.Fix.WireIds.{new_wire_ids}
use rust_trader.Fix.Codec.{OrderRequest}
use rust_trader.Fix.Business.Tasks.{Desk, Reason}
use rust_trader.Tests.Codecs.{whole_text}
use rust_trader.Tests.Engines.{exchange}

abbrev desk : Desk ℤ
desk = record { engine = exchange; ids = new_wire_ids }

abbrev sale_request : OrderRequest ℤ
sale_request = record {
  cl_ord_id = codes "7";
  symbol = codes "IBM";
  side = sell;
  order_type = limit;
  price = pos 99;
  quantity = pos 4;
}

abbrev describe : Reason → Text
describe r = codes "refused"
