-- ===== src/Core/Engine/Quoting.antt =====
-- src/core/exchange/mod.rs: `quote`, a pair of orders of a session that replaces its previous pair.
use rust_trader.Base.{
  Bool, true, false, not, ◌&&◌, ◌||◌, Option, none, some, List, [], ◌++◌, if◌then◌else◌,
}
use rust_trader.Base.Eq.{Text, codes, int_eq, text_eq}
use rust_trader.Base.Int.{ℤ}
use rust_trader.Base.Maps.{lookup, insert, erase, update, contains_key}
use rust_trader.Base.Texts.{show_int}
use rust_trader.Decimal.{DecimalOps, le}
use rust_trader.Core.Orders.{Order, OrderId, Side, buy, sell, limit_order}
use rust_trader.Core.Tiers.{
  order_not_found, unknown_symbol, invalid_quantity, invalid_price, quote_not_supported_in_tiered,
  FillPolicy, real, tiered,
}
use rust_trader.Core.Books.{RawTrade}
use rust_trader.Core.Market.{get_by_id}
use rust_trader.Core.Engine.{
  Engine, Session, QuotePair, no_quotes, quote_order_id, Run, done, failed, panicked, ◌>>=◌, ◌>>◌,
  pure, get, change, attempt, require, some_or, expect,
}
use rust_trader.Core.Engine.Reports.{send_trade_reports}
use rust_trader.Core.Engine.Publishing.{record_market_data, publish_market_data}
use rust_trader.Core.Engine.Booking.{add_to_book, remove_from_book}
use rust_trader.Core.Engine.Entry.{count_order}

abbrev is_tiered : FillPolicy → Bool
is_tiered tiered = true
is_tiered real = false

abbrev pub quotes_or_none : {D : Type 0} → Option (QuotePair D) → QuotePair D
quotes_or_none none = no_quotes
quotes_or_none (some q) = q

module _ {D : Type 0} where
  abbrev with_quotes : Text → List (ℤ × QuotePair D) → Session D → Engine D → Engine D
  with_quotes session_id quotes s e = record e {
    sessions = update session_id (record s { quotes = quotes }) e.sessions;
  }

  abbrev pub with_leg : QuotePair D → Side → Order D → QuotePair D
  with_leg q buy o = record q { bid = some o }
  with_leg q sell o = record q { ask = some o }

quote_exchange_id : Side → ℤ → Text
quote_exchange_id buy id = codes "quote.bid." ++ show_int id
quote_exchange_id sell id = codes "quote.ask." ++ show_int id

module _ {D : Type 0} ⦃dec : DecimalOps D⦄ where
  -- Taking an order out of its book, where a failure is ignored.
  abbrev pub take_out : Text → OrderId → Order D → ℤ → Run D (Unit {0})
  take_out session_id id o instrument_id e =
      elim (remove_from_book session_id id o.side o.price instrument_id e) [
        | done removed e' ↦ done tt e'
        | failed x e' ↦ done tt e'
        | panicked ↦ panicked
      ]

  unfoldable pub withdraw : Text → ℤ → Option (Order D) → Run D (Unit {0})
  withdraw session_id instrument_id none = pure tt
  withdraw session_id instrument_id (some o) = take_out session_id o.id o instrument_id

  -- One leg: its trades, and the pair with the order in it.
  unfoldable pub add_leg :
      Text → ℤ → Side → D → D → QuotePair D → Run D (List (RawTrade D) × QuotePair D)
  unfolding quote_exchange_id
  add_leg session_id instrument_id side price quantity pair =
      if dec.is_zero price then pure ([], pair) else (do
        change count_order
        e ← get
        let o : Order D =
            record (limit_order session_id quote_order_id instrument_id side price quantity
              e.arrivals) { exchange_id = quote_exchange_id side instrument_id }
        (trades, final_state) ← add_to_book o
        pure (trades, with_leg pair side o))

  unfoldable pub check_quote : Text → ℤ → D → D → D → D → Run D (Session D)
  check_quote session_id instrument_id bid_price bid_quantity ask_price ask_quantity = do
    e ← get
    require (not (is_tiered e.fill_policy)) quote_not_supported_in_tiered
    require (contains_key (get_by_id e.instruments instrument_id))
        (unknown_symbol (show_int instrument_id))
    require (not (not (dec.eq bid_price dec.zero) && le bid_quantity dec.zero)) invalid_quantity
    require (not (not (dec.eq ask_price dec.zero) && le ask_quantity dec.zero)) invalid_quantity
    require (not (dec.lt bid_price dec.zero || dec.lt ask_price dec.zero)) invalid_price
    some_or order_not_found (lookup session_id e.sessions)

  unfoldable pub quote : Text → ℤ → D → D → D → D → Run D (Unit {0})
  unfolding check_quote withdraw add_leg
  quote session_id instrument_id bid_price bid_quantity ask_price ask_quantity = do
    session ← check_quote session_id instrument_id bid_price bid_quantity ask_price ask_quantity
    let old = quotes_or_none (lookup instrument_id session.quotes)
    change (with_quotes session_id (erase instrument_id session.quotes) session)
    withdraw session_id instrument_id old.bid
    withdraw session_id instrument_id old.ask
    (bought, with_bid) ← add_leg session_id instrument_id buy bid_price bid_quantity no_quotes
    (sold, pair) ← add_leg session_id instrument_id sell ask_price ask_quantity with_bid
    e ← get
    now ← expect (lookup session_id e.sessions)
    change (with_quotes session_id (insert instrument_id pair now.quotes) now)
    change (record_market_data instrument_id (bought ++ sold))
    attempt publish_market_data
    change (λ e. send_trade_reports e (bought ++ sold))
