-- ===== src/Fix/Writer.antt =====
-- src/fix/session.rs, `writer_loop`: the thread that numbers and frames what a session sends. A turn of
-- the loop is what it reads of its surroundings: the flag, the mailbox, the identifiers, the clock,
-- and whether the write goes through. The log is left out.
pub mod GapFills
pub mod Numbers
pub mod Resync
use rust_trader.Base.{
  ℕ, Bool, true, false, not, ◌||◌, ltb, ◌==◌, Option, none, some, List, [], ◌∷◌, if◌then◌else◌,
}
use rust_trader.Base.Eq.{Text, codes, int_eq}
use rust_trader.Base.Texts.{show_nat, parse_i32}
use rust_trader.Decimal.{DecimalOps}
use rust_trader.Core.Orders.{OrderId}
use rust_trader.Core.Engine.{Report, status, fill}
use rust_trader.Fix.Sequences.{saturating_next}
use rust_trader.Fix.WireIds.{WireIdMap, wire_for}
use rust_trader.Fix.Frames.{frame, put_text, put_fields, with_length, with_checksum}
use rust_trader.Fix.Codec.{DecimalText}
use rust_trader.Fix.Codec.Builders.{Fields, build_execution_report}
use rust_trader.Fix.Business.{set_first}

pub record WriterState : Type 0 where
  pub begin_string : Text
  pub sender_comp_id : Text
  pub target_comp_id : Text
  pub seq : ℕ

pub data OutMsg (D : Type 0) : Type 0 where
  report : Report D → OutMsg D
  message : Text → Fields → OutMsg D
  gap_fill : ℕ → ℕ → OutMsg D
  logout_and_shutdown : Fields → OutMsg D
  shutdown : OutMsg D

pub data Received (D : Type 0) : Type 0 where
  arrives : OutMsg D → Received D
  timeout disconnected : Received D

pub record Turn (D : Type 0) : Type 0 where
  pub failed : Bool
  pub received : Received D
  pub ids : Option WireIdMap
  pub now : Text
  pub writes : Bool

-- What an outgoing message comes to.
pub data Written : Type 0 where
  stops skips : Written
  sends : Text → Bool → Written

-- The fields of the header, with the two of a message that is sent again.
unfoldable pub frame_gap_fill : Text → Text → ℕ → Text → Text → Text → Fields → Text
unfolding put_fields with_length with_checksum
frame_gap_fill begin_string msg_type seq sender target timestamp fields = with_checksum (
    with_length begin_string (
      put_text (codes "35") msg_type (
        put_text (codes "34") (show_nat seq) (
          put_text (codes "49") sender (
            put_text (codes "56") target (
              put_text (codes "43") (codes "Y") (
                put_text (codes "52") timestamp
                  (put_text (codes "122") timestamp (put_fields fields)))))))))

abbrev order_id_of : {D : Type 0} → Report D → OrderId
order_id_of (status r) = r.cl_ord_id
order_id_of (fill r) = r.order.id

abbrev value_or : Text → Option Text → Text
value_or value none = value
value_or value (some wire) = wire

abbrev wire_of : WireIdMap → Text → Option OrderId → Text
wire_of ids value none = value
wire_of ids value (some id) = value_or value (wire_for ids id)

-- The original identifiers as the client wrote them.
unfoldable pub with_originals : WireIdMap → Fields → Fields
unfolding wire_for
with_originals ids [] = []
with_originals ids ((tag, value) ∷ fields) =
    let rest = with_originals ids fields in
    (tag, if tag == 41 then wire_of ids value (parse_i32 value) else value) ∷ rest

abbrev with_wire_id : Fields → Option Text → Fields
with_wire_id fields none = fields
with_wire_id fields (some wire) = set_first 11 wire fields

-- The identifiers of a report as the client wrote them.
unfoldable pub translated : {D : Type 0} → Option WireIdMap → Report D → Fields → Fields
unfolding with_originals wire_for
translated none r fields = fields
translated (some ids) r fields =
    with_wire_id (with_originals ids fields) (wire_for ids (order_id_of r))

abbrev pub numbered : WriterState → Text → Text → Fields → Bool → WriterState × Written
numbered w now msg_type fields close =
    let seq = saturating_next w.seq in
    (
      record w { seq = seq },
      sends (frame w.begin_string msg_type seq w.sender_comp_id w.target_comp_id now fields) close,
    )

abbrev pub larger : ℕ → ℕ → ℕ
larger a b = if ltb a b then b else a

abbrev pub smaller : ℕ → ℕ → ℕ
smaller a b = if ltb b a then b else a

abbrev pub fill_fields : ℕ → Fields
fill_fields new_seq = (36, show_nat new_seq) ∷ (123, codes "Y") ∷ []

abbrev pub filled : WriterState → Text → ℕ → ℕ → WriterState × Written
filled w now begin_seq effective_end = if ltb effective_end begin_seq then (w, skips) else (
  record w { seq = larger w.seq effective_end },
  sends
      (frame_gap_fill w.begin_string (codes "4") begin_seq w.sender_comp_id w.target_comp_id now
        (fill_fields (saturating_next effective_end)))
      false,
)

-- The rest of the loop, given what the later turns come to.
abbrev pub after_turn :
    Bool → WriterState × Written → WriterState × List Text → WriterState × List Text
after_turn writes (w, stops) rest = (w, [])
after_turn writes (w, skips) rest = rest
after_turn true (w, sends bytes true) rest = (w, bytes ∷ [])
after_turn true (w, sends bytes false) rest = (rest.0, bytes ∷ rest.1)
after_turn false (w, sends bytes close) rest = (w, [])

module _ {D : Type 0} ⦃dec : DecimalOps D⦄ ⦃text : DecimalText D⦄ where
  unfoldable pub write_message :
      WriterState → Text → Option WireIdMap → OutMsg D → WriterState × Written
  unfolding frame frame_gap_fill translated build_execution_report
  write_message w now ids shutdown = (w, stops)
  write_message w now ids (message msg_type fields) = numbered w now msg_type fields false
  write_message w now ids (logout_and_shutdown fields) = numbered w now (codes "5") fields true
  write_message w now ids (gap_fill begin_seq end_seq) =
      filled w now (larger begin_seq 1) (if end_seq == 0 then w.seq else smaller end_seq w.seq)
  write_message w now ids (report r) =
      numbered w now (codes "8") (translated ids r (build_execution_report r now)) false

  abbrev pub taken_from : WriterState → Turn D → Received D → WriterState × Written
  taken_from w t (arrives out) = write_message w t.now t.ids out
  taken_from w t timeout = numbered w t.now (codes "0") [] false
  taken_from w t disconnected = (w, stops)

  -- The messages that are written, in order.
  unfoldable pub writer_loop : WriterState → List (Turn D) → WriterState × List Text
  unfolding write_message
  writer_loop w [] = (w, [])
  writer_loop w (t ∷ turns) =
      let step = taken_from w t t.received in
      let rest = writer_loop step.0 turns in
      if t.failed then (w, []) else after_turn t.writes step rest
