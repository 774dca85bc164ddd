-- ===== src/Tests/Engines.antt =====
-- The engine: one instrument, whose book holds a bid of session `a`, and two sessions.
use rust_trader.Base.{◌≡◌, refl, arith, true, false, ◌⊎◌, inr, List, [], ◌∷◌, some}
use rust_trader.Base.Int.{ℤ, pos}
use rust_trader.Base.Eq.{Text, codes, int_eq, text_eq, pair_eq}
use rust_trader.Base.Maps.{lookup}
use rust_trader.Queue.{Channel}
use rust_trader.Decimal.Whole.{whole, whole-IsOrdered, whole-IsExact, whole-IsHalving}
use rust_trader.Core.Orders.{Order, OrderId, sell, limit, limit_order, effective_price}
use rust_trader.Core.Levels.{new_level, locate}
use rust_trader.Core.Tiers.{EngineError, order_not_found, real}
use rust_trader.Core.Books.{OrderBook, RawTrade}
use rust_trader.Core.Books.Matching.{BookInv}
use rust_trader.Core.Books.Entry.{Added, locate_in}
use rust_trader.Core.Books.Entry.Adding.{Fits}
use rust_trader.Core.Books.Entry.Concluding.{booking}
use rust_trader.Core.Market.{Instrument, InstrumentSnapshot, no_statistics, get_by_id, snapshot}
use rust_trader.Core.Engine.{Engine, new_engine, Session, Report, NewOrder, done, failed}
use rust_trader.Core.Engine.Reports.{send_status}
use rust_trader.Core.Engine.Reports.Effects.{market}
use rust_trader.Core.Engine.Publishing.{add_trades, publish_market_data}
use rust_trader.Core.Engine.Publishing.Extremes.{Ranges, add_trades-Ranges}
use rust_trader.Core.Engine.Publishing.Snapshots.{Ready, Published, publish_market_data-Published}
use rust_trader.Core.Engine.Entry.{
  order, check_cancel, create_order, cancel_order_with_id, new_order, order_of, plan_for,
}
use rust_trader.Core.Engine.Entry.Admission.{Admissible, Refusal, create_order-Refusal}
use rust_trader.Core.Engine.Entry.Requested.{Requested}
use rust_trader.Core.Engine.Entry.Trading.{incoming, Traded, create_order-Traded}
use rust_trader.Core.Engine.Entry.Cancelling.{
  Cancellable, CancelledOrder, cancel_order-CancelledOrder,
}
use rust_trader.Core.Engine.Validation.{validate_order_id, validate_order_input}
use rust_trader.Core.Engine.Replace.{check_modify, modify_order_with_type}
use rust_trader.Core.Engine.Stray.{Stray, modify_order-Stray}
use rust_trader.Core.Market.Registry.{RegistryInv, new_instruments-RegistryInv}
use rust_trader.Core.Engine.Sessions.{create_instrument}
use rust_trader.Core.Engine.Sessions.Instruments.{Registered, create_instrument-Registered}
use rust_trader.Tests.Samples.{bid, crossed, crossed-BookInv}

abbrev pub ibm : Instrument
ibm = record { id = pos 7; symbol = codes "IBM" }

abbrev pub outbox : Channel (Report ℤ)
outbox = record { capacity = 8; waiting = []; connected = true; failed = false }

abbrev pub buyer : Session ℤ
unfolding limit_order
buyer = record { orders = (pos 1, bid) ∷ []; quotes = []; sender = outbox }

abbrev pub seller : Session ℤ
seller = record { orders = []; quotes = []; sender = outbox }

abbrev pub bidding : OrderBook ℤ
bidding = record crossed { asks = [] }

pub bidding-BookInv : BookInv bidding
bidding-BookInv = record { bids = crossed-BookInv.bids; asks = tt }

abbrev pub quiet : InstrumentSnapshot ℤ
quiet = record {
  book = record { instrument_id = pos 7; sequence = 0; bids = []; asks = [] };
  stats = no_statistics (codes "IBM");
  version = 0;
}

abbrev pub exchange : Engine ℤ
exchange = record {
  instruments = record {
    by_symbol = (codes "IBM", ibm) ∷ [];
    by_id = (pos 7, ibm) ∷ [];
    last_id = pos 7;
  };
  books = (pos 7, bidding) ∷ [];
  sessions = (codes "a", buyer) ∷ (codes "c", seller) ∷ [];
  exchange_ids = pos 1;
  trade_ids = pos 0;
  exec_ids = 1;
  arrivals = 1;
  sequence = 1;
  market_data = record { catalog = (codes "IBM", pos 7) ∷ []; slots = (pos 7, quiet) ∷ [] };
  pending_market_data = [];
  stats_cache = (pos 7, no_statistics (codes "IBM")) ∷ [];
  order_dates = [];
  fill_policy = real;
}

abbrev sale : NewOrder ℤ
sale = record {
  id = pos 3;
  instrument_id = pos 7;
  side = sell;
  order_type = limit;
  price = pos 99;
  quantity = pos 4;
}

sale-Admissible : Admissible exchange (codes "c") sale []
unfolding get_by_id lookup plan_for
sale-Admissible = record {
  instrument = ibm;
  known = refl;
  identified = refl;
  sized = refl;
  priced = refl;
  session = seller;
  present = refl;
  unused = refl;
  planned = refl;
}

sale-Fits : Fits bidding (booking (incoming exchange (codes "c") sale))
unfolding new_order order_of limit_order effective_price lookup new_level
sale-Fits = record { absent = refl; room = omega arith }

pub slot_open : snapshot exchange.market_data (pos 7) ≡ some quiet
unfolding snapshot lookup
slot_open = refl

create_order-Traded_example :
    (o : Order ℤ) × (a : Added ℤ) × (e : Engine ℤ) × (create_order
        (pos 20000)
        (codes "c")
        sale
        exchange
      ≡ done (pos 3) e)
    × Requested exchange (codes "c") (pos 3) (pos 7) sell limit (pos 99) (pos 4) o
    × Traded exchange e (pos 7) o a
unfolding lookup
create_order-Traded_example =
    create_order-Traded whole-IsOrdered exchange (pos 20000) (codes "c") sale [] quiet
      sale-Admissible refl refl bidding-BookInv sale-Fits refl slot_open

-- An identifier that is not positive.
abbrev nameless : NewOrder ℤ
nameless = record sale { id = pos 0 }

create_order-Refusal_example :
    ((plan : List ℤ) × Admissible exchange (codes "c") nameless plan)
    ⊎ ((x : EngineError) × Refusal exchange (codes "c") nameless x
        × (create_order (pos 20000) (codes "c") nameless exchange ≡ failed x exchange))
create_order-Refusal_example =
    create_order-Refusal whole-IsOrdered whole-IsExact whole-IsHalving exchange (pos 20000)
      (codes "c") nameless

bid-Cancellable : Cancellable exchange (codes "a") (pos 1) (pos 4) bid bid bidding
unfolding lookup locate_in locate limit_order snapshot
bid-Cancellable = record {
  session = buyer;
  present = refl;
  entered = refl;
  active = refl;
  identified = refl;
  unused = inr refl;
  booked = refl;
  inv = bidding-BookInv;
  numbered = refl;
  rests = refl;
  traded_in = refl;
  old = quiet;
  slot = refl;
  idle = refl;
}

cancel_order_example :
    (e : Engine ℤ) × (cancel_order_with_id (codes "a") (pos 1) (pos 4) exchange ≡ done tt e)
    × CancelledOrder exchange e (codes "a") (pos 1) bid bid bidding
cancel_order_example =
    cancel_order-CancelledOrder whole-IsOrdered exchange (codes "a") (pos 1) (pos 4) bid bid bidding
      bid-Cancellable

abbrev pending : Engine ℤ
pending = record exchange { pending_market_data = (pos 7, 1) ∷ [] }

pending-Ready : Ready pending (pos 7)
unfolding lookup snapshot
pending-Ready = record {
  stats = no_statistics (codes "IBM");
  cached = refl;
  old = quiet;
  slot = refl;
  numbered = refl;
}

publish_market_data-Published_example :
    (e : Engine ℤ) × (publish_market_data pending ≡ some e) × Published exchange e ((pos 7, 1) ∷ [])
publish_market_data-Published_example =
    publish_market_data-Published pending (unfold lookup in (refl, tt)) (pending-Ready, tt)

abbrev sale_of : ℤ → RawTrade ℤ
unfolding limit_order
sale_of price = record {
  buyer = bid;
  seller = bid;
  price = price;
  quantity = pos 2;
  trade_id = pos 1;
}

add_trades-Ranges_example :
    Ranges
      (no_statistics (codes "IBM"))
      (add_trades (no_statistics (codes "IBM")) (sale_of (pos 5) ∷ sale_of (pos 9) ∷ []))
      (sale_of (pos 5) ∷ sale_of (pos 9) ∷ [])
add_trades-Ranges_example =
    add_trades-Ranges whole-IsOrdered (no_statistics (codes "IBM"))
      (sale_of (pos 5) ∷ sale_of (pos 9) ∷ [])

-- The book has lost the order that the buyer's session still has.
abbrev lost : Engine ℤ
lost = record exchange { books = (pos 7, record bidding { bids = [] }) ∷ [] }

lost-Stray : Stray lost (codes "a") (pos 1) bid (record bidding { bids = [] })
unfolding lookup locate_in locate limit_order
lost-Stray = record {
  session = buyer;
  present = refl;
  entered = refl;
  booked = refl;
  inv = record { bids = tt; asks = tt };
  missing = refl;
}

lost-check_cancel : check_cancel (codes "a") (pos 1) (pos 4) lost ≡ done bid lost
unfolding check_cancel validate_order_id lookup limit_order
lost-check_cancel = refl

lost-check_modify :
    check_modify (codes "a") (pos 1) (pos 4) limit (pos 90) (pos 6) lost ≡ done (bid, []) lost
unfolding check_modify validate_order_id validate_order_input plan_for lookup limit_order
lost-check_modify = refl

modify_order-Stray_example :
    (cancel_order_with_id (codes "a") (pos 1) (pos 4) lost ≡ failed order_not_found lost)
    × (modify_order_with_type (pos 20000) (codes "a") (pos 1) (pos 4) limit (pos 90) (pos 6) lost
        ≡ done tt (send_status lost bid))
    × (market (send_status lost bid) ≡ market lost)
    × ((owner : Text) (id : OrderId) → order (send_status lost bid) owner id ≡ order lost owner id)
modify_order-Stray_example =
    modify_order-Stray lost (pos 20000) (codes "a") (pos 1) (pos 4) limit (pos 90) (pos 6) bid []
      (record bidding { bids = [] }) lost-Stray lost-check_cancel lost-check_modify

new_engine-RegistryInv : RegistryInv (new_engine {D = ℤ}).instruments 0
unfolding new_engine
new_engine-RegistryInv = new_instruments-RegistryInv

create_instrument-Registered_example :
    (id : ℤ) × (e : Engine ℤ) × (create_instrument new_engine (codes "ABC") ≡ (id, e))
    × Registered new_engine e id (codes "ABC") 0
create_instrument-Registered_example =
    create_instrument-Registered new_engine (codes "ABC") 0 new_engine-RegistryInv (omega arith)
