-- ===== src/Fix/Writer/Numbers.antt =====
-- src/fix/session.rs, `writer_loop`: the sequence numbers of what is written.
use rust_trader.Base.{
  ℕ, ◌+◌, ◌<◌, ◌≤◌, ◌≡◌, inl, inr, Bool, true, false, ltb, ◌==◌, List, [], ◌∷◌, if◌then◌else◌,
  Option, Bool-cases, arith,
}
use rust_trader.Base.Eq.{Text, codes}
use rust_trader.Base.Lists.{length}
use rust_trader.Decimal.{DecimalOps}
use rust_trader.Fix.Sequences.{saturating_next}
use rust_trader.Fix.Frames.{frame}
use rust_trader.Fix.WireIds.{WireIdMap}
use rust_trader.Fix.Codec.{DecimalText}
use rust_trader.Fix.Codec.Builders.{Fields, build_execution_report}
use rust_trader.Fix.Writer.{
  WriterState, OutMsg, Received, Turn, Written, arrives, timeout, disconnected, report, message,
  gap_fill, logout_and_shutdown, shutdown, stops, skips, sends, frame_gap_fill, numbered, larger,
  smaller, fill_fields, filled, write_message, taken_from, after_turn, writer_loop, translated,
}

-- Messages that follow the number n: each new one has the next number, and a message that fills a gap
-- skips only numbers that have been used.
pub data Issued (begin sender target : Text) : ℕ → List Text → Type 0 where
  nothing : (n : ℕ) → Issued begin sender target n []
  new :
      (n : ℕ) (kind now : Text) (fields : Fields) (texts : List Text)
      → Issued begin sender target (n + 1) texts
      → Issued begin sender target n (frame begin kind (n + 1) sender target now fields ∷ texts)
  again :
      (n first last : ℕ) (now : Text) (texts : List Text)
      → 0 < first
      → first ≤ last
      → last ≤ n
      → Issued begin sender target n texts
      → Issued begin sender target n (
          frame_gap_fill begin (codes "4") first sender target now (fill_fields (last + 1)) ∷ texts)

-- What a turn makes of the state.
data Shape (w : WriterState) : WriterState × Written → Type 0 where
  stopped : Shape w (w, stops)
  skipped : Shape w (w, skips)
  one :
      (kind now : Text) (fields : Fields) (close : Bool)
      → Shape w (
        record w { seq = w.seq + 1 },
        sends
            (frame w.begin_string kind (w.seq + 1) w.sender_comp_id w.target_comp_id now fields)
            close,
      )
  refilled :
      (first last : ℕ) (now : Text)
      → 0 < first
      → first ≤ last
      → last ≤ w.seq
      → Shape w (
        w,
        sends
            (frame_gap_fill w.begin_string
              (codes "4")
              first
              w.sender_comp_id
              w.target_comp_id
              now
              (fill_fields (last + 1)))
            false,
      )

numbered-Shape :
    (w : WriterState) (now kind : Text) (fields : Fields) (close : Bool)
    → w.seq < 18446744073709551615
    → Shape w (numbered w now kind fields close)
numbered-Shape w now kind fields close small =
    let next : saturating_next w.seq ≡ w.seq + 1 = ground arith in
    rw next (one kind now fields close)

filled-Shape :
    (w : WriterState) (now : Text) (first last : ℕ)
    → w.seq < 18446744073709551615
    → 0 < first
    → last ≤ w.seq
    → Shape w (filled w now first last)
filled-Shape w now first last small pos within = elim (Bool-cases (ltb last first)) [
  | inl empty ↦ rw empty skipped
  | inr some_left ↦
      let next : saturating_next last ≡ last + 1 = ground arith in
      let same : larger w.seq last ≡ w.seq = ground arith in
      rw (some_left, next, same) (refilled first last now pos (ground arith) within)
]

module _ {D : Type 0} ⦃dec : DecimalOps D⦄ ⦃text : DecimalText D⦄ where
  write_message-Shape :
      (w : WriterState) (now : Text) (ids : Option WireIdMap) (out : OutMsg D)
      → w.seq < 18446744073709551615
      → Shape w (write_message w now ids out)
  unfolding write_message
  write_message-Shape w now ids shutdown small = stopped
  write_message-Shape w now ids (message kind fields) small =
      numbered-Shape w now kind fields false small
  write_message-Shape w now ids (logout_and_shutdown fields) small =
      numbered-Shape w now (codes "5") fields true small
  write_message-Shape w now ids (report r) small =
      numbered-Shape w now (codes "8") (translated ids r (build_execution_report r now)) false small
  write_message-Shape w now ids (gap_fill first last) small =
      filled-Shape w now (larger first 1) (if last == 0 then w.seq else smaller last w.seq) small
        (ground arith) (ground arith)

  taken_from-Shape :
      (w : WriterState) (t : Turn D) (r : Received D)
      → w.seq < 18446744073709551615
      → Shape w (taken_from w t r)
  taken_from-Shape w t (arrives out) small = write_message-Shape w t.now t.ids out small
  taken_from-Shape w t timeout small = numbered-Shape w t.now (codes "0") [] false small
  taken_from-Shape w t disconnected small = stopped

Shape-seq : (w : WriterState) (step : WriterState × Written) → Shape w step → step.0.seq ≤ w.seq + 1
Shape-seq w _ stopped = omega arith
Shape-seq w _ skipped = omega arith
Shape-seq w _ (one kind now fields close) = omega arith
Shape-seq w _ (refilled first last now p q r) = omega arith

abbrev From : WriterState → List Text → Type 0
From w texts = Issued w.begin_string w.sender_comp_id w.target_comp_id w.seq texts

after_turn-From :
    (w : WriterState) (failed writes : Bool) (step : WriterState × Written)
    (rest : WriterState × List Text)
    → Shape w step
    → From step.0 rest.1
    → From w (if failed then (w, []) else after_turn writes step rest).1
after_turn-From w true writes step rest s f = nothing w.seq
after_turn-From w false writes _ rest stopped f = nothing w.seq
after_turn-From w false writes _ rest skipped f = f
after_turn-From w false true _ rest (one kind now fields true) f =
    new w.seq kind now fields [] (nothing (w.seq + 1))
after_turn-From w false true _ rest (one kind now fields false) f =
    new w.seq kind now fields rest.1 f
after_turn-From w false false _ rest (one kind now fields close) f = nothing w.seq
after_turn-From w false true _ rest (refilled first last now p q r) f =
    again w.seq first last now rest.1 p q r f
after_turn-From w false false _ rest (refilled first last now p q r) f = nothing w.seq

module _ {D : Type 0} ⦃dec : DecimalOps D⦄ ⦃text : DecimalText D⦄ where
  -- Below the largest 64-bit number, whatever the mailbox, the clock and the failures of the stream,
  -- the new messages that the writer writes carry consecutive numbers that follow the one it starts
  -- from, and each gap fill skips only numbers that have been used.
  pub writer_loop-Issued :
      (w : WriterState) (turns : List (Turn D))
      → w.seq + length turns < 18446744073709551615
      → Issued w.begin_string w.sender_comp_id w.target_comp_id w.seq (writer_loop w turns).1
  unfolding writer_loop
  writer_loop-Issued w [] small = nothing w.seq
  writer_loop-Issued w (t ∷ turns) small =
      let step = taken_from w t t.received in
      let shape = taken_from-Shape w t t.received (omega (arith, small)) in
      after_turn-From w t.failed t.writes step (writer_loop step.0 turns) shape
        (writer_loop-Issued step.0 turns (omega (arith, small, Shape-seq w step shape)))
