-- ===== src/Core/Engine.antt =====
-- src/core/exchange/mod.rs, `Engine`: its state, its reports, and the shape of its methods. A method
-- takes the engine and ends with its result or error and the engine that it leaves, or panics. The
-- destination of a session's reports is the queue of src/queue.rs. A date is a number of days, and
-- the methods that read the clock take the day as an argument.
pub mod Reports
pub mod Publishing
pub mod Validation
pub mod Booking
pub mod Entry
pub mod Replace
pub mod Quoting
pub mod Sessions
pub mod Stray
use rust_trader.Base.{ℕ, Bool, true, false, Option, none, some, List, []}
use rust_trader.Base.Eq.{Text}
use rust_trader.Base.Int.{ℤ, pos}
use rust_trader.Base.Outcome.{Outcome, ok, err, panics}
use rust_trader.Queue.{Channel}
use rust_trader.Core.Orders.{Order, OrderId, Side, OrderType}
use rust_trader.Core.Books.{OrderBook}
use rust_trader.Core.Tiers.{EngineError, FillPolicy, real}
use rust_trader.Core.Market.{
  InstrumentMap, new_instruments, Statistics, MarketDataPublisher, new_publisher,
}

abbrev pub quote_order_id : OrderId
quote_order_id = pos 0

pub data ExecType : Type 0 where
  new_exec partial_exec fill_exec cancelled_exec expired_exec replaced_exec rejected_exec : ExecType

pub record StatusReport (D : Type 0) : Type 0 where
  pub order : Order D
  pub symbol : Text
  pub cl_ord_id : OrderId
  pub exec_id : Text
  pub exec_type : ExecType
  pub orig_cl_ord_id : Option OrderId

pub record FillReport (D : Type 0) : Type 0 where
  pub order : Order D
  pub symbol : Text
  pub last_price : D
  pub last_quantity : D
  pub exec_id : Text
  pub orig_cl_ord_id : Option OrderId

pub data Report (D : Type 0) : Type 0 where
  status : StatusReport D → Report D
  fill : FillReport D → Report D

pub record NewOrder (D : Type 0) : Type 0 where
  pub id : OrderId
  pub instrument_id : ℤ
  pub side : Side
  pub order_type : OrderType
  pub price : D
  pub quantity : D

pub record QuotePair (D : Type 0) : Type 0 where
  pub bid : Option (Order D)
  pub ask : Option (Order D)

abbrev pub no_quotes : {D : Type 0} → QuotePair D
no_quotes = record { bid = none; ask = none }

pub record Session (D : Type 0) : Type 0 where
  pub orders : List (OrderId × Order D)
  pub quotes : List (ℤ × QuotePair D)
  pub sender : Channel (Report D)

abbrev pub Date : Type 0
Date = ℤ

pub record Engine (D : Type 0) : Type 0 where
  pub instruments : InstrumentMap
  pub books : List (ℤ × OrderBook D)
  pub sessions : List (Text × Session D)
  pub exchange_ids : ℤ
  pub trade_ids : ℤ
  pub exec_ids : ℕ
  pub arrivals : ℕ
  pub sequence : ℕ
  pub market_data : MarketDataPublisher D
  pub pending_market_data : List (ℤ × ℕ)
  pub stats_cache : List (ℤ × Statistics D)
  pub order_dates : List ((Text × OrderId) × Date)
  pub fill_policy : FillPolicy

unfoldable pub with_fill_policy : {D : Type 0} → FillPolicy → Engine D
with_fill_policy policy = record {
  instruments = new_instruments;
  books = [];
  sessions = [];
  exchange_ids = pos 0;
  trade_ids = pos 0;
  exec_ids = 0;
  arrivals = 0;
  sequence = 0;
  market_data = new_publisher;
  pending_market_data = [];
  stats_cache = [];
  order_dates = [];
  fill_policy = policy;
}

unfoldable pub new_engine : {D : Type 0} → Engine D
unfolding with_fill_policy
new_engine = with_fill_policy real

-- How a method ends.
pub data Ended (D A : Type 0) : Type 0 where
  done : A → Engine D → Ended D A
  failed : EngineError → Engine D → Ended D A
  panicked : Ended D A

abbrev pub Run : (D A : Type 0) → Type 0
Run D A = Engine D → Ended D A

module _ {D : Type 0} where
  abbrev pub after : {A B : Type 0} → Ended D A → (A → Run D B) → Ended D B
  after (done a e) f = f a e
  after (failed x e) f = failed x e
  after panicked f = panicked

  infixl 5 ◌>>=◌ ◌>>◌
  abbrev pub ◌>>=◌ : {A B : Type 0} → Run D A → (A → Run D B) → Run D B
  (m >>= f) e = after (m e) f

  abbrev pub ◌>>◌ : {B : Type 0} → Run D (Unit {0}) → Run D B → Run D B
  m >> k = m >>= λ _. k

  abbrev pub pure : {A : Type 0} → A → Run D A
  pure a e = done a e

  abbrev pub fail : {A : Type 0} → EngineError → Run D A
  fail x e = failed x e

  abbrev pub get : Run D (Engine D)
  get e = done e e

  abbrev pub change : (Engine D → Engine D) → Run D (Unit {0})
  change f e = done tt (f e)

  abbrev pub attempt : (Engine D → Option (Engine D)) → Run D (Unit {0})
  attempt f e = elim (f e) [ none ↦ panicked | some e' ↦ done tt e' ]

  -- A computed result: its error fails the method, its panic is one of the method.
  abbrev pub lift : {A : Type 0} → Outcome EngineError A → Run D A
  lift (ok a) e = done a e
  lift (err x) e = failed x e
  lift panics e = panicked

  abbrev pub require : Bool → EngineError → Run D (Unit {0})
  require true x e = done tt e
  require false x e = failed x e

  -- `ok_or` with `?`, and `unwrap`.
  abbrev pub some_or : {A : Type 0} → EngineError → Option A → Run D A
  some_or x (some a) e = done a e
  some_or x none e = failed x e

  abbrev pub expect : {A : Type 0} → Option A → Run D A
  expect (some a) e = done a e
  expect none e = panicked
