-- ===== src/Core/Engine/Sessions.antt =====
-- src/core/exchange/mod.rs: sessions that come and go, instruments, the expiry of day orders, and the
-- queries of readers.
pub mod Instruments
pub mod Loading
use rust_trader.Base.{Option, none, some, List, [], ◌∷◌, ◌==◌, if◌then◌else◌}
use rust_trader.Base.Eq.{Text, eqb_text, int_eq, text_eq, pair_eq}
use rust_trader.Base.Outcome.{Outcome, ok, err, panics}
use rust_trader.Base.Int.{ℤ, ltb_ℤ}
use rust_trader.Base.Maps.{lookup, erase, insert_by, keys}
use rust_trader.Base.Texts.{ltb_text}
use rust_trader.Decimal.{DecimalOps}
use rust_trader.Queue.{Channel}
use rust_trader.Core.Orders.{Order, OrderId, expired, is_active}
use rust_trader.Core.Books.{Book}
use rust_trader.Core.Market.{
  Instrument, InstrumentMap, Statistics, get_by_symbol, next_id, put, register, snapshot,
}
use rust_trader.Core.Market
use rust_trader.Core.Market.Loading.{LoadError, unreadable, load_from_reader}
use rust_trader.Core.Engine.{
  Engine, Report, QuotePair, Run, done, Date, expired_exec, ◌>>=◌, ◌>>◌, pure, get, change, attempt,
}
use rust_trader.Core.Engine.Reports.{sync_record, send_status_for}
use rust_trader.Core.Engine.Publishing.{record_market_data, publish_market_data}
use rust_trader.Core.Engine.Entry
use rust_trader.Core.Engine.Quoting.{take_out, withdraw}

-- `retain` on the dates of the other sessions' orders.
abbrev pub dates_of_others : Text → List ((Text × OrderId) × Date) → List ((Text × OrderId) × Date)
dates_of_others session_id [] = []
dates_of_others session_id ((k, date) ∷ dates) =
    let rest = dates_of_others session_id dates in
    if eqb_text k.0 session_id then rest else (k, date) ∷ rest

-- The orders whose date lies before the day.
unfoldable pub outdated : Date → List ((Text × OrderId) × Date) → List (Text × OrderId)
outdated today [] = []
outdated today ((k, date) ∷ dates) =
    let rest = outdated today dates in if ltb_ℤ date today then k ∷ rest else rest

-- The instruments of the symbols.
abbrev pub listed : InstrumentMap → List Text → List Instrument
listed m [] = []
listed m (symbol ∷ symbols) = elim (lookup symbol m.by_symbol) [
  | none ↦ listed m symbols
  | some i ↦ i ∷ listed m symbols
]

module _ {D : Type 0} where
  -- A session of the same name is replaced, and its orders stay in the books.
  unfoldable pub register_session : Engine D → Text → Channel (Report D) → Engine D
  register_session e id sender = record e {
    sessions =
        insert_by ltb_text id (record { orders = []; quotes = []; sender = sender }) e.sessions;
  }

  unfoldable pub session_ids : Engine D → List Text
  session_ids e = keys e.sessions

  unfoldable pub instrument_by_symbol : Engine D → Text → Option Instrument
  unfolding get_by_symbol
  instrument_by_symbol e symbol = get_by_symbol e.instruments symbol

  unfoldable pub all_symbols : Engine D → List Text
  all_symbols e = Market.all_symbols e.instruments

  unfoldable pub statistics : Engine D → Text → Option (Statistics D)
  unfolding get_by_symbol
  statistics e symbol = elim (get_by_symbol e.instruments symbol) [
    | none ↦ none
    | some i ↦ lookup i.id e.stats_cache
  ]

  unfoldable pub book : Engine D → Text → Option (Book D)
  unfolding get_by_symbol snapshot
  book e symbol = elim (get_by_symbol e.instruments symbol) [
    | none ↦ none
    | some i ↦ elim (snapshot e.market_data i.id) [
      | none ↦ none
      | some s ↦ if s.version == 0 then none else some s.book
    ]
  ]

module _ {D : Type 0} ⦃dec : DecimalOps D⦄ where
  remove_orders : Text → List (OrderId × Order D) → Run D (Unit {0})
  remove_orders session_id [] = pure tt
  remove_orders session_id ((id, entry) ∷ orders) = do
    take_out session_id id entry entry.instrument_id
    change (record_market_data entry.instrument_id [])
    remove_orders session_id orders

  remove_quotes : Text → List (ℤ × QuotePair D) → Run D (Unit {0})
  remove_quotes session_id [] = pure tt
  remove_quotes session_id ((instrument_id, pair) ∷ quotes) = do
    withdraw session_id instrument_id pair.bid
    withdraw session_id instrument_id pair.ask
    change (record_market_data instrument_id [])
    remove_quotes session_id quotes

  unfoldable pub session_disconnect : Text → Run D (Unit {0})
  unfolding remove_orders remove_quotes
  session_disconnect session_id e = elim (lookup session_id e.sessions) [
    | none ↦ done tt e
    | some session ↦
        (do
          change (λ e. record e {
            sessions = erase session_id e.sessions;
            order_dates = dates_of_others session_id e.order_dates;
          })
          remove_orders session_id session.orders
          remove_quotes session_id session.quotes
          attempt publish_market_data)
          e
  ]

  -- The identifier of the symbol's instrument, which is made if there is none.
  unfoldable pub create_instrument : Engine D → Text → ℤ × Engine D
  unfolding get_by_symbol next_id put
  create_instrument e symbol = elim (get_by_symbol e.instruments symbol) [
    | some i ↦ (i.id, e)
    | none ↦
        let (id, counted) = next_id e.instruments in
        let i : Instrument = record { id = id; symbol = symbol } in
        (
          id,
          record e { instruments = put counted i; market_data = register e.market_data (i ∷ []) },
        )
  ]

  abbrev pub with_instruments : Engine D → InstrumentMap → Engine D
  with_instruments e loaded = record e {
    instruments = loaded;
    market_data = register e.market_data (listed loaded (Market.all_symbols loaded));
  }

  -- The reader does not panic.
  abbrev pub concluded : Engine D → Outcome LoadError InstrumentMap → Option LoadError × Engine D
  concluded e (ok loaded) = (none, with_instruments e loaded)
  concluded e (err x) = (some x, e)
  concluded e panics = (some unreadable, e)

  -- `None` is a file that cannot be opened. The error, if there is one, and the engine.
  unfoldable pub load_instruments :
      Engine D → Option (List (Option Text)) → Option LoadError × Engine D
  unfolding load_from_reader
  load_instruments e none = (some unreadable, e)
  load_instruments e (some lines) = concluded e (load_from_reader lines)

  expire_active : Text → OrderId → Order D → Run D (Unit {0})
  expire_active session_id id o = do
    take_out session_id id o o.instrument_id
    let final : Order D = record o { state = expired; remaining = dec.zero }
    change (λ e. sync_record e final)
    change (record_market_data o.instrument_id [])
    change (λ e. send_status_for e final id expired_exec none)

  -- One round of the loop.
  expire_one : Text → OrderId → Run D (Unit {0})
  unfolding expire_active
  expire_one session_id id e =
      let dated = record e { order_dates = erase (session_id, id) e.order_dates } in
      elim (Entry.order dated session_id id) [
        | none ↦ done tt dated
        | some o ↦ if is_active o.state then expire_active session_id id o dated else done tt dated
      ]

  expire_all : List (Text × OrderId) → Run D (Unit {0})
  unfolding expire_one
  expire_all [] = pure tt
  expire_all ((session_id, id) ∷ due) = do expire_one session_id id; expire_all due

  unfoldable pub expire_day_orders_at : Date → Run D (Unit {0})
  unfolding outdated expire_all
  expire_day_orders_at today = do
    e ← get
    expire_all (outdated today e.order_dates)
    attempt publish_market_data
