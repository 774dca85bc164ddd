-- ===== src/Fix/Frames/Reader.antt =====
-- src/fix/frame.rs, `FrameReader`: the decoder of a stream. The stream is the bytes that are still to
-- come, and a list that says how each call of `read` on it ends.
pub mod Retries
pub mod Progress
pub mod Delivery
pub mod Arrival
use rust_trader.Base.{
  ℕ, zero, suc, ◌+◌, ◌-◌, Bool, true, false, ◌&&◌, leb, ltb, ◌==◌, Option, none, some, List, [],
  ◌∷◌, ◌++◌, if◌then◌else◌,
}
use rust_trader.Base.Eq.{Text, codes}
use rust_trader.Base.Lists.{length, take, drop, is_empty}
use rust_trader.Base.Outcome.{Outcome, ok, err, panics, ◌>>=◌, ◌>>◌, ok_or, ensure}
use rust_trader.Base.Texts.{is_digit, parse_nat, u64_bound}
use rust_trader.Base.Texts.Parts.{all, starts_with, split_once}
use rust_trader.Fix.Messages.{FixMessage}
use rust_trader.Fix.Frames.{
  soh, FrameError, no_begin_string, no_body_length, bad_body_length, oversized, body_too_small,
  header_too_long, truncated, parse_wire,
}

abbrev pub max_message_size : ℕ
max_message_size = 1048576

abbrev pub max_prefix_size : ℕ
max_prefix_size = 64

pub record FrameReader : Type 0 where
  pub pending : Text
  pub total : Option ℕ

abbrev pub new_reader : FrameReader
new_reader = record { pending = []; total = none }

-- One call of `read`: at most n + 1 bytes arrive, or it is interrupted, or it fails with another
-- error, as a timeout is.
pub data Read : Type 0 where
  arrives : ℕ → Read
  interrupted fails : Read

-- How `read_message` ends. `blocked` is no value of the source: the call waits for the stream.
pub data Ending : Type 0 where
  received : FixMessage → Ending
  closed : Ending
  refused : FrameError → Ending
  failed blocked panicked : Ending

abbrev then_split : Text → Option (Text × Text) → Option (Text × Text × Text)
then_split begin none = none
then_split begin (some (body_length, rest)) = some (begin, body_length, rest)

-- The two fields that stand first, when both have arrived.
unfoldable pub find_header : Text → Option (Text × Text × Text)
find_header pending = elim (split_once soh pending) [
  | none ↦ none
  | some (begin, after) ↦ then_split begin (split_once soh after)
]

-- A sum that does not fit the machine's word is oversized as well.
unfoldable pub total_for : Text → Text → Outcome FrameError ℕ
total_for begin body_length = do
  ensure (starts_with begin (codes "8=") && ltb 2 (length begin)) no_begin_string
  ensure
      (starts_with body_length (codes "9=")
        && ltb 2 (length body_length)
        && all is_digit (drop 2 body_length))
      no_body_length
  body_len ← ok_or bad_body_length (parse_nat u64_bound (drop 2 body_length))
  let total = length begin + 1 + length body_length + 1 + body_len + 7
  ensure (leb total max_message_size) oversized
  ensure (leb 5 body_len) body_too_small
  ok total

unfoldable pub measure : FrameReader → Outcome FrameError (Option ℕ)
measure r = elim r.total [
  | some total ↦ ok (some total)
  | none ↦ elim (find_header r.pending) [
    | some (begin, body_length, rest) ↦ do total ← total_for begin body_length; ok (some total)
    | none ↦ if leb max_prefix_size (length r.pending) then err header_too_long else ok none
  ]
]

-- A round of the loop before it reads: it returns, or wants so many bytes.
pub data Round : Type 0 where
  returns : Ending → FrameReader → Round
  wants : ℕ → FrameReader → Round

abbrev pub min : ℕ → ℕ → ℕ
min a b = if leb a b then a else b

abbrev finish : FrameReader → Outcome FrameError FixMessage → Round
finish r (ok m) = returns (received m) new_reader
finish r (err e) = returns (refused e) r
finish r panics = returns panicked r

unfoldable pub round_for : FrameReader → Option ℕ → Round
round_for r none = wants 1 r
round_for r (some total) =
    if length r.pending == total
    then finish r (parse_wire r.pending)
    else wants (min (total - length r.pending) 8192) r

unfoldable pub round : FrameReader → Round
unfolding measure round_for
round r = elim (measure r) [
  | ok total ↦ round_for (record r { total = total }) total
  | err e ↦ returns (refused e) r
  | panics ↦ returns panicked r
]

-- How a call ends, with the reader, the bytes and the reads that are left.
pub record Call : Type 0 where
  pub ending : Ending
  pub reader : FrameReader
  pub bytes : Text
  pub reads : List Read

abbrev pub call : Ending → FrameReader → Text → List Read → Call
call ending reader bytes reads = record {
  ending = ending;
  reader = reader;
  bytes = bytes;
  reads = reads;
}

abbrev pub at_end : FrameReader → Ending
at_end r = if is_empty r.pending then closed else refused truncated

abbrev pub extended : FrameReader → Text → FrameReader
extended r s = record r { pending = r.pending ++ s }

-- The loop; every `read` but a failing one ends a round.
unfoldable pub read_message : FrameReader → Text → List Read → Call
unfolding round
read_message r bytes [] = elim (round r) [
  | returns ending r' ↦ call ending r' bytes []
  | wants n r' ↦ call blocked r' bytes []
]
read_message r bytes (arrives k ∷ reads) = elim (round r) [
  | returns ending r' ↦ call ending r' bytes (arrives k ∷ reads)
  | wants n r' ↦
      let got = min n (suc k) in
      let rest = read_message (extended r' (take got bytes)) (drop got bytes) reads in
      if is_empty bytes then call (at_end r') r' bytes reads else rest
]
read_message r bytes (interrupted ∷ reads) = elim (round r) [
  | returns ending r' ↦ call ending r' bytes (interrupted ∷ reads)
  | wants n r' ↦ read_message r' bytes reads
]
read_message r bytes (fails ∷ reads) = elim (round r) [
  | returns ending r' ↦ call ending r' bytes (fails ∷ reads)
  | wants n r' ↦ call failed r' bytes reads
]
