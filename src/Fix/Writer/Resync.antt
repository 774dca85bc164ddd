-- ===== src/Fix/Writer/Resync.antt =====
-- src/fix/session.rs: a gap that the writer fills, as the other side of the session takes it.
use rust_trader.Base.{◌+◌, ◌<◌, ◌≤◌, ◌≡◌, refl, true, false, ltb, Option, arith}
use rust_trader.Base.Eq.{Text, nat_eq}
use rust_trader.Base.Int.{ℤ}
use rust_trader.Base.Lists.{length}
use rust_trader.Base.Outcome.{ok}
use rust_trader.Base.Texts.{u64_bound}
use rust_trader.Decimal.{DecimalOps}
use rust_trader.Fix.Messages.{FixMessage}
use rust_trader.Fix.Sequences.{saturating_next, SequenceState, ready, classify, advance}
use rust_trader.Fix.WireIds.{WireIdMap}
use rust_trader.Fix.Frames.{parse_wire}
use rust_trader.Fix.Frames.Printing.{Printable}
use rust_trader.Fix.Frames.RoundTrip.{Sendable}
use rust_trader.Fix.Headers.{TimeOps, parse_fix_timestamp, validate_header}
use rust_trader.Fix.Codec.{DecimalText, sequence_reset}
use rust_trader.Fix.Codec.Decoding.{decode}
use rust_trader.Fix.Writer.{WriterState, gap_fill, sends, larger, write_message}
use rust_trader.Fix.Writer.GapFills.{
  gap_wire, gap_body, gap_message, gap_parsed, gap_classified, gap_advanced, gap_headed,
  gap_decoded,
}

-- What the other side makes of the gap fill: it passes the checks of its header, is ready at once, is
-- decoded as a reset to the next number of the writer, and makes that number the expected one.
pub record Resynced (D : Type 0) ⦃dec : DecimalOps D⦄ ⦃text : DecimalText D⦄ ⦃time : TimeOps⦄
    (w : WriterState) (s : SequenceState) (bytes : Text) : Type 0 where
  pub received : FixMessage
  pub parsed : parse_wire bytes ≡ ok received
  pub headed :
      validate_header received w.begin_string w.sender_comp_id w.target_comp_id ≡ ok s.expected
  pub classified : classify s received ≡ ok (ready received, s)
  pub decoded : decode {D = D} received ≡ ok (sequence_reset (w.seq + 1) true)
  pub next : SequenceState
  pub advanced : advance s received ≡ ok next
  pub counted : next.expected ≡ w.seq + 1

abbrev pub answer : WriterState → SequenceState → Text → Text
answer w s now =
    gap_wire w.begin_string s.expected w.sender_comp_id w.target_comp_id now (w.seq + 1)

module _ (D : Type 0) ⦃dec : DecimalOps D⦄ ⦃text : DecimalText D⦄ ⦃time : TimeOps⦄ (w : WriterState)
    (s : SequenceState) (now : Text) (ids : Option WireIdMap) where
  write_message-gap_fill :
      0 < s.expected
      → s.expected ≤ w.seq
      → w.seq < 18446744073709551615
      → write_message {D = D} w now ids (gap_fill s.expected 0) ≡ (w, sends (answer w s now) false)
  unfolding write_message
  write_message-gap_fill p q small =
      let first : larger s.expected 1 ≡ s.expected = ground arith in
      let within : ltb w.seq s.expected ≡ false = ground arith in
      let same : larger w.seq w.seq ≡ w.seq = ground arith in
      let next : saturating_next w.seq ≡ w.seq + 1 = ground arith in
      rw first (rw (within, same, next) refl)

  -- A writer that has sent the number which the other side expects answers the request for all that
  -- is missing with one gap fill, which leaves the writer's number. The other side accepts it, decodes it
  -- as a reset that fills a gap, and then expects the writer's next number.
  pub write_message-Resynced :
      (t : ℤ)
      → Printable w.begin_string
      → Sendable w.sender_comp_id
      → Sendable w.target_comp_id
      → Sendable now
      → parse_fix_timestamp now 52 ≡ ok t
      → parse_fix_timestamp now 122 ≡ ok t
      → 0 < s.expected
      → s.expected ≤ w.seq
      → w.seq < 18446744073709551615
      → length
          (gap_body w.begin_string s.expected w.sender_comp_id w.target_comp_id now (w.seq + 1))
        < u64_bound
      → (bytes : Text) × (write_message {D = D} w now ids (gap_fill s.expected 0)
          ≡ (w, sends bytes false))
        × Resynced D w s bytes
  write_message-Resynced t p a b c h k pos within small short =
      let n : s.expected < u64_bound = omega arith in
      let new_bound : w.seq + 1 < u64_bound = omega arith in
      let new_above : s.expected < w.seq + 1 = omega arith in
      let new_pos : 0 < w.seq + 1 = omega arith in
      let (next, advanced, counted) =
        gap_advanced w.begin_string s.expected w.sender_comp_id w.target_comp_id now (w.seq + 1) s
          refl pos new_above new_bound in
      (
        answer w s now,
        write_message-gap_fill pos within small,
        record {
          received =
              gap_message w.begin_string s.expected w.sender_comp_id w.target_comp_id now
                (w.seq + 1);
          parsed =
              gap_parsed w.begin_string s.expected w.sender_comp_id w.target_comp_id now (w.seq + 1)
                p n new_bound a b c short;
          headed =
              gap_headed w.begin_string s.expected w.sender_comp_id w.target_comp_id now (w.seq + 1)
                t pos n a.0 b.0 c.0 h k;
          classified =
              gap_classified w.begin_string s.expected w.sender_comp_id w.target_comp_id now
                (w.seq + 1) s refl pos new_above new_bound;
          decoded =
              gap_decoded w.begin_string s.expected w.sender_comp_id w.target_comp_id now
                (w.seq + 1) new_pos new_bound a.0 b.0 c.0;
          next = next;
          advanced = advanced;
          counted = counted;
        },
      )
