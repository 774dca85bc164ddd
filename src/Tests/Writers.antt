-- ===== src/Tests/Writers.antt =====
-- A writer that has sent five messages, and a client that has seen two.
use rust_trader.Base.{◌≡◌, refl, true, false, none, some, List, [], ◌∷◌, arith}
use rust_trader.Base.Eq.{Text, codes}
use rust_trader.Base.Int.{ℤ, pos}
use rust_trader.Base.Texts.{show_nat}
use rust_trader.Decimal.Whole.{whole}
use rust_trader.Fix.Sequences.{SequenceState}
use rust_trader.Fix.Frames.{put_fields}
use rust_trader.Fix.Writer.{
  WriterState, Turn, arrives, timeout, gap_fill, shutdown, sends, write_message, writer_loop,
}
use rust_trader.Fix.Writer.Numbers.{Issued, writer_loop-Issued}
use rust_trader.Fix.Writer.Resync.{Resynced, write_message-Resynced}
use rust_trader.Tests.Codecs.{whole_text, any_time, noon, timed}

abbrev writer : WriterState
writer = record {
  begin_string = codes "FIX.4.2";
  sender_comp_id = codes "A";
  target_comp_id = codes "B";
  seq = 5;
}

abbrev behind : SequenceState
behind = record { expected = 3; queued = []; resend_from = some 3 }

abbrev quiet_turn : Turn ℤ
quiet_turn = record { failed = false; received = timeout; ids = none; now = noon; writes = true }

-- A heartbeat, a gap fill, and the end.
abbrev turns : List (Turn ℤ)
turns =
    quiet_turn
    ∷ record quiet_turn { received = arrives (gap_fill 3 0) }
    ∷ record quiet_turn { received = arrives shutdown }
    ∷ []

writer_loop-Issued_example :
    Issued (codes "FIX.4.2") (codes "A") (codes "B") 5 (writer_loop writer turns).1
writer_loop-Issued_example = writer_loop-Issued writer turns (omega arith)

write_message-Resynced_example :
    (bytes : Text) × (write_message {D = ℤ} writer noon none (gap_fill 3 0)
      ≡ (writer, sends bytes false))
    × Resynced ℤ writer behind bytes
unfolding put_fields show_nat
write_message-Resynced_example =
    write_message-Resynced ℤ writer behind noon none (pos 0) refl (refl, refl) (refl, refl)
      (refl, refl) (timed 52) (timed 122) (omega arith) (omega arith) (omega arith) (omega arith)
