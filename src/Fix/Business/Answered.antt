-- ===== src/Fix/Business/Answered.antt =====
-- src/fix/session.rs, `handle_business`: every order request is answered.
use rust_trader.Base.{◌≡◌, Option, some, List}
use rust_trader.Base.Eq.{Text, codes, int_eq, text_eq}
use rust_trader.Base.Outcome.{ok, err}
use rust_trader.Decimal.{DecimalOps}
use rust_trader.Core.Orders.{Order, OrderId}
use rust_trader.Core.Books.Matching.{BookInv}
use rust_trader.Core.Books.Entry.{Added}
use rust_trader.Core.Books.Entry.Adding.{Fits}
use rust_trader.Core.Books.Entry.Concluding.{booking}
use rust_trader.Core.Market.{Instrument, InstrumentSnapshot, snapshot}
use rust_trader.Core.Engine.{Engine, Date}
use rust_trader.Core.Engine.Publishing.{book_for}
use rust_trader.Core.Engine.Entry.Admission.{Admissible}
use rust_trader.Core.Engine.Entry.Trading.{incoming, Traded}
use rust_trader.Core.Engine.Sessions.{instrument_by_symbol}
use rust_trader.Fix.WireIds.{WireIdMap, fresh_id, wire_for}
use rust_trader.Fix.WireIds.Lossless.{WireInv}
use rust_trader.Fix.Codec.{DecimalText, OrderRequest}
use rust_trader.Fix.Business.{Answer, silent, message}
use rust_trader.Core.Engine.Entry.Requested.{Requested}
use rust_trader.Fix.Codec.Builders.{Fields}
use rust_trader.Fix.Business.Rejections.{Grounds, Rejects}
use rust_trader.Fix.Business.Tasks.{Desk, Reason, as_new, known, order_task}

module _ {D : Type 0} ⦃dec : DecimalOps D⦄ where
  -- The engine can trade what the request is for.
  pub record Serves (e : Engine D) (session_id : Text) (r : OrderRequest D) (i : Instrument)
      : Type 0 where
    pub inv : BookInv (book_for e i.id)
    pub fits :
        (id : OrderId) → Fits (book_for e i.id) (booking (incoming e session_id (as_new id i r)))
    pub numbered : (book_for e i.id).instrument_id ≡ i.id
    pub old : InstrumentSnapshot D
    pub slot : snapshot e.market_data i.id ≡ some old

  -- The order is in its book, under an identifier that stands for the client's.
  pub record Executed (d d' : Desk D) (session_id : Text) (r : OrderRequest D) : Type 0 where
    pub id : OrderId
    pub instrument : Instrument
    pub known : wire_for d'.ids id ≡ some r.cl_ord_id
    pub listed : instrument_by_symbol d.engine r.symbol ≡ some instrument
    pub plan : List D
    pub admissible : Admissible d.engine session_id (as_new id instrument r) plan
    pub booked : Order D
    pub requested :
        Requested d.engine session_id id instrument.id r.side r.order_type r.price r.quantity booked
    pub trades : Added D
    pub traded : Traded d.engine d'.engine instrument.id booked trades

  -- A task that fails before the engine changes.
  record Refused (d : Desk D) (today : Date) (session_id : Text) (r : OrderRequest D) : Type 0 where
    reason : Reason
    grounds : Grounds d session_id r reason
    ids : WireIdMap
    inv : WireInv ids
    refused : order_task today session_id r d ≡ (record d { ids = ids }, err reason)

  record Placed (d : Desk D) (today : Date) (session_id : Text) (r : OrderRequest D) : Type 0 where
    after : Desk D
    number : OrderId
    inv : WireInv after.ids
    placed : order_task today session_id r d ≡ (after, ok number)
    executed : Executed d after session_id r

  module _ (d : Desk D) (today : Date) (session_id : Text) (r : OrderRequest D) where
    module _ (id : OrderId) (ids : WireIdMap) (h : fresh_id d.ids r.cl_ord_id ≡ ok (id, ids)) where
      abbrev desk : Desk D
      desk = record d { ids = ids }

module _ {D : Type 0} ⦃dec : DecimalOps D⦄ ⦃text : DecimalText D⦄ (describe : Reason → Text)
    (exec_id now : Text) (today : Date) (session_id : Text) where
  -- How an order request is answered.
  pub data OrderAnswered (r : OrderRequest D) (d : Desk D) : Desk D × Option Answer → Type 0 where
    executed :
        (d' : Desk D)
        → WireInv d'.ids
        → Executed d d' session_id r
        → OrderAnswered r d (d', some silent)
    rejected :
        (reason : Reason) (ids : WireIdMap) (fields : Fields)
        → Grounds d session_id r reason
        → WireInv ids
        → Rejects r (describe reason) exec_id now fields
        → OrderAnswered r d (record d { ids = ids }, some (message (codes "8") fields))
