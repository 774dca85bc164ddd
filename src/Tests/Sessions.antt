-- ===== src/Tests/Sessions.antt =====
-- The sequence numbers and the order identifiers of a FIX session.
use rust_trader.Base.{◌+◌, ◌≡◌, ◌<◌, refl, arith, true, ◌⊎◌, [], ◌∷◌, none, some}
use rust_trader.Base.Eq.{Text, codes, nat_eq, int_eq, text_eq}
use rust_trader.Base.Maps.{lookup, insert_by}
use rust_trader.Base.Outcome.{ok, err}
use rust_trader.Base.Texts.{read_digits, parse_nat, parse_u64}
use rust_trader.Core.Orders.{OrderId}
use rust_trader.Fix.Messages.{FixMessage, get, msg_type, parse_required_u64, parse_required_seq}
use rust_trader.Fix.Sequences.{
  SequenceState, gap, new_sequence, classify, advance, take_ready, compare_seq, keep, enqueue,
  is_reset, is_duplicate, settle_request,
}
use rust_trader.Fix.Sequences.Order.{SequenceInv}
use rust_trader.Fix.Sequences.Rounds.{
  take_ready-SequenceInv, advance-SequenceInv, classify-SequenceInv,
}
use rust_trader.Fix.WireIds.{WireIdMap, too_many_ids, new_wire_ids, intern, wire_for}
use rust_trader.Fix.WireIds.Lossless.{WireInv, Interned, Full, intern_lem}

abbrev heartbeat : Text → FixMessage
heartbeat seq = record {
  begin_string = codes "FIX.4.2";
  fields = (35, codes "0") ∷ (34, seq) ∷ [];
  raw = [];
}

-- Five is expected.
abbrev five : SequenceState
unfolding new_sequence
five = new_sequence 5

five-SequenceInv : SequenceInv five
unfolding new_sequence
five-SequenceInv = record { waiting = tt; distinct = tt; bounded = omega arith; asked = λ n h. cc }

abbrev waiting_state : SequenceState
waiting_state = record {
  expected = 5;
  queued = (7, heartbeat (codes "7")) ∷ [];
  resend_from = some 5;
}

-- Seven comes: what is missing from five on is asked for.
seven_waits : classify five (heartbeat (codes "7")) ≡ ok (gap (some 5), waiting_state)
unfolding classify compare_seq keep enqueue is_reset is_duplicate parse_required_seq
    parse_required_u64 get msg_type parse_u64 parse_nat read_digits lookup insert_by new_sequence
seven_waits = refl

classify-SequenceInv_example : SequenceInv waiting_state × (waiting_state.expected ≡ five.expected)
classify-SequenceInv_example =
    classify-SequenceInv five (heartbeat (codes "7")) five-SequenceInv seven_waits

five_comes : advance five (heartbeat (codes "5")) ≡ ok (new_sequence 6)
unfolding advance settle_request is_reset parse_required_seq parse_required_u64 get msg_type
    parse_u64 parse_nat read_digits lookup new_sequence
five_comes = refl

advance-SequenceInv_example :
    SequenceInv (new_sequence 6)
    × (five.expected < (new_sequence 6).expected)
    × ((is_reset (heartbeat (codes "5")) ≡ true)
        ⊎ ((parse_required_seq (heartbeat (codes "5")) ≡ ok five.expected)
            × ((new_sequence 6).expected ≡ five.expected + 1)))
unfolding new_sequence lookup
advance-SequenceInv_example =
    advance-SequenceInv five (heartbeat (codes "5")) five-SequenceInv refl (omega arith) five_comes

take_ready-SequenceInv_example :
    SequenceInv (take_ready five).1
    × (lookup (take_ready five).1.expected (take_ready five).1.queued ≡ none)
    × ((m : FixMessage) → (take_ready five).0 ≡ some m → parse_required_seq m ≡ ok five.expected)
take_ready-SequenceInv_example = take_ready-SequenceInv five five-SequenceInv

pub new_wire_ids-WireInv : WireInv new_wire_ids
unfolding new_wire_ids wire_for lookup
new_wire_ids-WireInv = record { back = λ w id h. cc; forth = λ id w h. cc; positive = λ id w h. cc }

intern_example :
    ((r : OrderId × WireIdMap) × (intern new_wire_ids (codes "A-1") ≡ ok r)
      × Interned new_wire_ids (codes "A-1") r)
    ⊎ ((intern new_wire_ids (codes "A-1") ≡ err too_many_ids) × Full new_wire_ids)
intern_example = intern_lem new_wire_ids (codes "A-1") new_wire_ids-WireInv refl
