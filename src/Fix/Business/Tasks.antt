-- ===== src/Fix/Business/Tasks.antt =====
-- src/fix/session.rs, `handle_business`: the steps of each request, up to the first that fails.
use rust_trader.Base.{Bool, true, false, ◌&&◌, Option, none, some, if◌then◌else◌}
use rust_trader.Base.Eq.{Text, int_eq, text_eq}
use rust_trader.Base.Int.{eqb_ℤ}
use rust_trader.Base.Maps.{lookup, update}
use rust_trader.Base.Outcome.{Outcome, ok, err, panics}
use rust_trader.Decimal.{DecimalOps}
use rust_trader.Core.Orders.{Order, OrderId, Side, buy, sell}
use rust_trader.Core.Tiers.{EngineError, book_invariant_violation}
use rust_trader.Core.Market.{Instrument}
use rust_trader.Core.Engine.{Engine, Run, Ended, done, failed, panicked, Date, NewOrder}
use rust_trader.Core.Engine.Entry.{order, create_order, cancel_order_with_id}
use rust_trader.Core.Engine.Replace.{modify_order_with_type}
use rust_trader.Core.Engine.Quoting.{quote}
use rust_trader.Core.Engine.Sessions.{instrument_by_symbol}
use rust_trader.Fix.WireIds.{WireIdMap, WireError, fresh_id}
use rust_trader.Fix.Codec.{OrderRequest, CancelRequest, QuoteRequest}

-- Why a request is turned down.
pub data Reason : Type 0 where
  identifier : WireError → Reason
  no_symbol no_original no_order differing : Reason
  engine_error : EngineError → Reason

-- What a request can change: the engine, and the identifiers of the session.
pub record Desk (D : Type 0) : Type 0 where
  pub engine : Engine D
  pub ids : WireIdMap

abbrev eqb_side : Side → Side → Bool
eqb_side buy buy = true
eqb_side sell sell = true
eqb_side _ _ = false

abbrev is_violation : EngineError → Bool
is_violation book_invariant_violation = true
is_violation _ = false

-- A chain of steps with `?`: a step that fails keeps what it and the ones before it have changed.
abbrev pub Task : Type 0 → Type 0 → Type 0
Task D A = Desk D → Desk D × Outcome Reason A

module _ {D : Type 0} where
  abbrev pub chain :
      {A B : Type 0} → Desk D × Outcome Reason A → (A → Task D B) → Desk D × Outcome Reason B
  chain (d, ok a) f = f a d
  chain (d, err r) f = (d, err r)
  chain (d, panics) f = (d, panics)

  infixl 5 ◌>>=◌ ◌>>◌
  abbrev pub ◌>>=◌ : {A B : Type 0} → Task D A → (A → Task D B) → Task D B
  (m >>= f) d = chain (m d) f

  abbrev ◌>>◌ : {B : Type 0} → Task D (Unit {0}) → Task D B → Task D B
  m >> k = m >>= λ _. k

  abbrev pub found : {A : Type 0} → Reason → Desk D → Option A → Desk D × Outcome Reason A
  found r d none = (d, err r)
  found r d (some a) = (d, ok a)

  abbrev pub need : {A : Type 0} → Reason → (Desk D → Option A) → Task D A
  need r find d = found r d (find d)

  abbrev require : Bool → Reason → Task D (Unit {0})
  require true r d = (d, ok tt)
  require false r d = (d, err r)

  -- `fresh_id` and the map that it leaves.
  abbrev pub identified :
      Desk D → Outcome WireError (OrderId × WireIdMap) → Desk D × Outcome Reason OrderId
  identified d (ok (id, ids)) = (record d { ids = ids }, ok id)
  identified d (err x) = (d, err (identifier x))
  identified d panics = (d, panics)

  abbrev pub mailbox_failed : Text → Engine D → Bool
  mailbox_failed session_id e = elim (lookup session_id e.sessions) [
    | none ↦ false
    | some s ↦ s.sender.failed
  ]

  abbrev pub raise_flag : Text → Engine D → Engine D
  raise_flag session_id e = elim (lookup session_id e.sessions) [
    | none ↦ e
    | some s ↦ record e {
      sessions =
          update session_id (record s { sender = record s.sender { failed = true } }) e.sessions;
    }
  ]

  unfoldable pub propagate_engine_fault : Text → EngineError → Engine D → Engine D
  propagate_engine_fault session_id x e = if is_violation x then raise_flag session_id e else e

  -- A call of the engine, whose error is passed on.
  abbrev pub called :
      {A : Type 0}
      → (EngineError → Engine D → Engine D)
      → Desk D
      → Ended D A
      → Desk D × Outcome Reason A
  called on_error d (done a e) = (record d { engine = e }, ok a)
  called on_error d (failed x e) = (record d { engine = on_error x e }, err (engine_error x))
  called on_error d panicked = (d, panics)

module _ {D : Type 0} ⦃dec : DecimalOps D⦄ where
  unfoldable pub new_id : Text → Task D OrderId
  unfolding fresh_id
  new_id wire d = identified d (fresh_id d.ids wire)

  unfoldable pub known : Text → Task D Instrument
  unfolding instrument_by_symbol
  known symbol = need no_symbol (λ d. instrument_by_symbol d.engine symbol)

  -- The order that a request names, when it is for the request's symbol and side.
  unfoldable pub named : Text → Text → Text → Side → Task D OrderId
  unfolding known order
  named session_id orig_cl_ord_id symbol side = do
    original ← need no_original (λ d. lookup orig_cl_ord_id d.ids.wire_to_internal)
    o ← need no_order (λ d. order d.engine session_id original)
    i ← known symbol
    require (eqb_side o.side side && eqb_ℤ o.instrument_id i.id) differing
    λ d. (d, ok original)

  abbrev call_engine : {A : Type 0} → Text → Run D A → Task D A
  call_engine session_id run d = called (propagate_engine_fault session_id) d (run d.engine)

  abbrev pub as_new : OrderId → Instrument → OrderRequest D → NewOrder D
  as_new id i r = record {
    id = id;
    instrument_id = i.id;
    side = r.side;
    order_type = r.order_type;
    price = r.price;
    quantity = r.quantity;
  }

  abbrev pub place_order : Date → Text → OrderRequest D → OrderId → Instrument → Task D OrderId
  place_order today session_id r id i =
      call_engine session_id (create_order today session_id (as_new id i r))

  unfoldable pub order_task : Date → Text → OrderRequest D → Task D OrderId
  unfolding new_id known create_order
  order_task today session_id r = do
    id ← new_id r.cl_ord_id
    i ← known r.symbol
    place_order today session_id r id i

  unfoldable pub cancel_task : Text → CancelRequest → Task D (Unit {0})
  unfolding new_id named cancel_order_with_id
  cancel_task session_id r = do
    id ← new_id r.cl_ord_id
    original ← named session_id r.orig_cl_ord_id r.symbol r.side
    call_engine session_id (cancel_order_with_id session_id original id)

  unfoldable pub replace_task : Date → Text → Text → OrderRequest D → Task D (Unit {0})
  unfolding new_id named modify_order_with_type
  replace_task today session_id orig_cl_ord_id r = do
    id ← new_id r.cl_ord_id
    original ← named session_id orig_cl_ord_id r.symbol r.side
    call_engine session_id
        (modify_order_with_type today session_id original id r.order_type r.price r.quantity)

  -- An error of the engine raises no flag here.
  unfoldable pub quote_task : Text → QuoteRequest D → Task D (Unit {0})
  unfolding known quote
  quote_task session_id r = do
    i ← known r.symbol
    λ d.
        called (λ x e. e) d
          (quote session_id i.id r.bid_px r.bid_qty r.offer_px r.offer_qty d.engine)

  -- The order that a cancellation or a replacement names.
  unfoldable pub original_order : Text → Text → Desk D → Option (Order D)
  unfolding order
  original_order session_id orig_cl_ord_id d = elim (lookup orig_cl_ord_id d.ids.wire_to_internal) [
    | none ↦ none
    | some id ↦ order d.engine session_id id
  ]
