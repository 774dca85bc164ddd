-- ===== src/Fix/Business.antt =====
-- src/fix/session.rs, `handle_business`: the requests of a client against the engine, and what answers
-- them. The mailbox of the connection is the queue to which the engine reports for the session, so
-- its flag is that of the session's sender; the message that is handed to it is the answer. The
-- texts of the errors, the clock and the counter of rejections are arguments.
pub mod Answered
pub mod Rejections
pub mod Tasks
use rust_trader.Base.{
  ℕ, Bool, true, false, not, ◌&&◌, ◌||◌, ◌==◌, Option, none, some, List, [], ◌∷◌, ◌++◌,
  if◌then◌else◌,
}
use rust_trader.Base.Eq.{Text, codes, int_eq, text_eq}
use rust_trader.Base.Int.{eqb_ℤ}
use rust_trader.Base.Maps.{lookup, update}
use rust_trader.Base.Outcome.{Outcome, ok, err, panics}
use rust_trader.Decimal.{DecimalOps}
use rust_trader.Core.Orders.{Order, OrderId, OrderType, Side, buy, sell}
use rust_trader.Core.Tiers.{EngineError, book_invariant_violation}
use rust_trader.Core.Market.{Instrument}
use rust_trader.Core.Engine.{Engine, Run, Ended, done, failed, panicked, Date, NewOrder}
use rust_trader.Core.Engine.Entry.{order, create_order, cancel_order_with_id}
use rust_trader.Core.Engine.Replace.{modify_order_with_type}
use rust_trader.Core.Engine.Quoting.{quote}
use rust_trader.Core.Engine.Sessions.{instrument_by_symbol}
use rust_trader.Fix.WireIds.{WireIdMap, WireError, fresh_id}
use rust_trader.Fix.Codec.{
  DecimalText, fix_decimal, side_to_fix, ord_type_to_fix, ord_status_to_fix, Inbound, OrderRequest,
  CancelRequest, QuoteRequest, new_order_single, cancel_request, cancel_replace, mass_quote,
}
use rust_trader.Fix.Codec.Builders.{Fields, build_mass_quote_ack}
use rust_trader.Fix.Business.Tasks.{
  Reason, Desk, Task, mailbox_failed, order_task, cancel_task, replace_task, quote_task,
  original_order,
}

-- What is handed to the mailbox, if anything; a fault ends the connection.
pub data Answer : Type 0 where
  silent : Answer
  message : Text → Fields → Answer
  fault : Reason → Answer

abbrev pub set_first : ℕ → Text → Fields → Fields
set_first tag value [] = []
set_first tag value ((t, old) ∷ fields) =
    if t == tag then (t, value) ∷ fields else (t, old) ∷ set_first tag value fields

abbrev exchange_id_or_none : {D : Type 0} → Option (Order D) → Text
exchange_id_or_none none = codes "NONE"
exchange_id_or_none (some o) = o.exchange_id

abbrev reject_code : {D : Type 0} → Option (Order D) → Text
reject_code none = codes "1"
reject_code (some o) = codes "0"

abbrev status_or_rejected : {D : Type 0} → Option (Order D) → Text
status_or_rejected none = codes "8"
status_or_rejected (some o) = ord_status_to_fix o.state

unfoldable pub cancel_reject_fields :
    {D : Type 0} → Text → Text → Text → Option (Order D) → Text → Fields
unfolding ord_status_to_fix
cancel_reject_fields cl_ord_id orig_cl_ord_id response_to o text =
    (37, exchange_id_or_none o)
    ∷ (11, cl_ord_id)
    ∷ (41, orig_cl_ord_id)
    ∷ (434, response_to)
    ∷ (102, reject_code o)
    ∷ (39, status_or_rejected o)
    ∷ (58, text)
    ∷ []

-- What comes of a task: `none` is a panic.
abbrev pub respond :
    {D A : Type 0}
    → Text
    → (Reason → Desk D → Answer)
    → Desk D × Outcome Reason A
    → Desk D × Option Answer
respond session_id refuse (d, ok a) = (d, some silent)
respond session_id refuse (d, err r) =
    (d, some (if mailbox_failed session_id d.engine then fault r else refuse r d))
respond session_id refuse (d, panics) = (d, none)

-- The acknowledgement of a quote, when the response level asks for it.
abbrev acknowledge :
    {D : Type 0}
    → (Reason → Text)
    → Text
    → ℕ
    → Desk D × Outcome Reason (Unit {0})
    → Desk D × Option Answer
acknowledge describe quote_id level (d, ok a) =
    (d, some (if level == 2 then message (codes "b") (build_mass_quote_ack quote_id) else silent))
acknowledge describe quote_id level (d, err r) = (
  d,
  some (
      if level == 2 || level == 1
      then message (codes "b") (
          set_first 297 (codes "5") (build_mass_quote_ack quote_id)
          ++ (300, codes "8") ∷ (58, describe r) ∷ [])
      else silent),
)
acknowledge describe quote_id level (d, panics) = (d, none)

module _ {D : Type 0} ⦃dec : DecimalOps D⦄ ⦃text : DecimalText D⦄ where
  unfoldable pub rejected_execution_fields : OrderRequest D → Text → Text → Text → Fields
  unfolding fix_decimal side_to_fix ord_type_to_fix
  rejected_execution_fields r reason exec_id now =
      (37, codes "0")
      ∷ (17, exec_id)
      ∷ (20, codes "0")
      ∷ (150, codes "8")
      ∷ (39, codes "8")
      ∷ (54, side_to_fix r.side)
      ∷ (38, fix_decimal r.quantity)
      ∷ (40, ord_type_to_fix r.order_type)
      ∷ (151, codes "0")
      ∷ (14, codes "0")
      ∷ (44, codes "0")
      ∷ (11, r.cl_ord_id)
      ∷ (55, r.symbol)
      ∷ (58, reason)
      ∷ (60, now)
      ∷ []

  unfoldable pub order_rejection : OrderRequest D → Text → Text → Text → Fields
  unfolding rejected_execution_fields fix_decimal
  order_rejection r reason exec_id now =
      set_first 44 (fix_decimal r.price)
        (rejected_execution_fields r reason exec_id now ++ (6, codes "0") ∷ [])

  module _ (describe : Reason → Text) (exec_id now : Text) (today : Date) (session_id : Text) where
    abbrev pub refuse_cancel : Text → Text → Text → Reason → Desk D → Answer
    unfolding original_order cancel_reject_fields
    refuse_cancel response_to cl_ord_id orig_cl_ord_id r d = message (codes "9") (
        cancel_reject_fields cl_ord_id orig_cl_ord_id response_to
          (original_order session_id orig_cl_ord_id d) (describe r))

    unfoldable pub handle_business : Inbound D → Desk D → Desk D × Option Answer
    unfolding order_task cancel_task replace_task quote_task order_rejection build_mass_quote_ack
    handle_business (new_order_single r) d =
        respond session_id (λ x d. message (codes "8") (order_rejection r (describe x) exec_id now))
          (order_task today session_id r d)
    handle_business (cancel_request r) d =
        respond session_id (refuse_cancel (codes "1") r.cl_ord_id r.orig_cl_ord_id)
          (cancel_task session_id r d)
    handle_business (cancel_replace orig_cl_ord_id r) d =
        respond session_id (refuse_cancel (codes "2") r.cl_ord_id orig_cl_ord_id)
          (replace_task today session_id orig_cl_ord_id r d)
    handle_business (mass_quote r) d =
        acknowledge describe r.quote_id r.response_level (quote_task session_id r d)
    handle_business _ d = (d, some silent)
