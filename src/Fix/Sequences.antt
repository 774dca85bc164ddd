-- ===== src/Fix/Sequences.antt =====
-- src/fix/session.rs, `SequenceState`: the sequence numbers that a session expects, and the messages
-- that it keeps while a gap is being filled.
pub mod Order
pub mod Rounds
use rust_trader.Base.{
  ℕ, ◌+◌, Bool, true, false, not, ◌&&◌, ◌||◌, Option, none, some, List, [], ◌∷◌, ltb, leb, ◌==◌,
  if◌then◌else◌,
}
use rust_trader.Base.Eq.{Text, eqb_text, codes, nat_eq}
use rust_trader.Base.Lists.{length}
use rust_trader.Base.Maps.{lookup, erase, insert_by, contains_key}
use rust_trader.Base.Outcome.{Outcome, ok, err, ◌>>=◌, ◌>>◌, ensure}
use rust_trader.Fix.Messages.{
  FixMessage, get, msg_type, SessionError, too_low, too_many_queued, sequence_mismatch,
  reset_not_above, parse_required_u64, parse_required_seq,
}

abbrev pub max_queued_messages : ℕ
max_queued_messages = 4096

pub record SequenceState : Type 0 where
  pub expected : ℕ
  pub queued : List (ℕ × FixMessage)
  pub resend_from : Option ℕ

pub data SequenceAction : Type 0 where
  ready : FixMessage → SequenceAction
  gap : Option ℕ → SequenceAction
  duplicate : SequenceAction

unfoldable pub new_sequence : ℕ → SequenceState
new_sequence expected = record { expected = expected; queued = []; resend_from = none }

abbrev pub is_text : Option Text → Text → Bool
is_text none t = false
is_text (some s) t = eqb_text s t

unfoldable pub is_duplicate : FixMessage → Bool
unfolding get
is_duplicate m = is_text (get m 43) (codes "Y")

unfoldable pub is_reset : FixMessage → Bool
unfolding msg_type
is_reset m = is_text (msg_type m) (codes "4")

-- A reset that is taken whatever its own number, given its new one: it is no gap fill, or a gap fill
-- sent again that begins below the expected number and ends above it.
unfoldable pub takes_reset : SequenceState → FixMessage → ℕ → ℕ → Bool
unfolding get is_duplicate
takes_reset s m seq new_seq =
    not (is_text (get m 123) (codes "Y"))
    || ltb seq s.expected && ltb s.expected new_seq && is_duplicate m

abbrev asks_from : SequenceState → Option ℕ
asks_from s = if contains_key s.resend_from then none else some s.expected

-- `entry(seq).or_insert(msg)`
unfoldable pub enqueue : ℕ → FixMessage → List (ℕ × FixMessage) → List (ℕ × FixMessage)
enqueue seq m queued =
    if contains_key (lookup seq queued) then queued else insert_by ltb seq m queued

-- A message above what is expected waits, and the first one asks for what is missing.
unfoldable pub keep :
    SequenceState → ℕ → FixMessage → Outcome SessionError (SequenceAction × SequenceState)
unfolding enqueue
keep s seq m =
    if leb max_queued_messages (length s.queued)
    then err too_many_queued
    else ok (
      gap (asks_from s),
      record s {
        queued = enqueue seq m s.queued;
        resend_from = if contains_key s.resend_from then s.resend_from else some s.expected;
      },
    )

-- The comparison with what is expected.
unfoldable pub compare_seq :
    SequenceState → ℕ → FixMessage → Outcome SessionError (SequenceAction × SequenceState)
unfolding keep is_duplicate
compare_seq s seq m =
    if ltb seq s.expected
    then (if is_duplicate m then ok (duplicate, s) else err (too_low s.expected seq))
    else if ltb s.expected seq
    then keep s seq m
    else ok (ready m, s)

unfoldable pub classify :
    SequenceState → FixMessage → Outcome SessionError (SequenceAction × SequenceState)
unfolding is_reset takes_reset compare_seq
classify s m = do
  seq ← parse_required_seq m
  if is_reset m
      then (do
        new_seq ← parse_required_u64 m 36
        if takes_reset s m seq new_seq then ok (ready m, s) else compare_seq s seq m)
      else compare_seq s seq m

-- `filter(|(n, _)| *n >= new_seq)`
unfoldable pub from_seq : ℕ → List (ℕ × FixMessage) → List (ℕ × FixMessage)
from_seq new_seq [] = []
from_seq new_seq ((n, m) ∷ queued) =
    let rest = from_seq new_seq queued in if leb new_seq n then (n, m) ∷ rest else rest

abbrev pub saturating_next : ℕ → ℕ
saturating_next n = if n == 18446744073709551615 then n else n + 1

-- The request is settled once what it asked for has come.
unfoldable pub settle_request : SequenceState → SequenceState
settle_request s = elim s.resend_from [
  | none ↦ s
  | some asked ↦ if ltb asked s.expected then record s { resend_from = none } else s
]

unfoldable pub advance : SequenceState → FixMessage → Outcome SessionError SequenceState
unfolding is_reset from_seq settle_request
advance s m = do
  seq ← parse_required_seq m
  ensure (seq == s.expected || is_reset m) (sequence_mismatch s.expected seq)
  if is_reset m
      then (do
        new_seq ← parse_required_u64 m 36
        ensure (ltb s.expected new_seq) (reset_not_above new_seq s.expected)
        ok (settle_request (record s { expected = new_seq; queued = from_seq new_seq s.queued })))
      else ok (settle_request (record s { expected = saturating_next s.expected }))

-- The next message that has been waiting, and the state without it.
unfoldable pub take_ready : SequenceState → Option FixMessage × SequenceState
take_ready s = (lookup s.expected s.queued, record s { queued = erase s.expected s.queued })
