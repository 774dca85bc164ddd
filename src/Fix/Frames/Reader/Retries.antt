-- ===== src/Fix/Frames/Reader/Retries.antt =====
-- src/fix/frame.rs, `read_message`: what a timeout between two reads changes, for a caller that calls
-- again.
use rust_trader.Base.{
  ℕ, zero, suc, ◌≤◌, ◌≡◌, refl, sym, ap, subst, ◌∙◌, Bool, true, false, Option, none, some, List,
  [], ◌∷◌, ◌==◌, leb, if◌then◌else◌, Bool-cases, Option-cases, inl, inr, arith,
}
use rust_trader.Base.Eq.{Text}
use rust_trader.Base.Lists.{length, is_empty, take, drop}
use rust_trader.Base.Outcome.{Outcome, ok, err, panics, ◌>>=◌}
use rust_trader.Fix.Messages.{FixMessage}
use rust_trader.Fix.Frames.{FrameError, parse_wire}
use rust_trader.Fix.Frames.Reader.{
  FrameReader, Read, arrives, interrupted, fails, Ending, failed, blocked, Round, returns, wants,
  round, round_for, measure, max_prefix_size, find_header, total_for, finish, Call, call,
  read_message, at_end, extended, min,
}

abbrev pub is_failed : Ending → Bool
is_failed failed = true
is_failed _ = false

-- A caller that calls again after an error of the stream, so many times at most.
unfoldable pub retry : ℕ → Call → Call
retry zero c = c
retry (suc n) c =
    let again = retry n (read_message c.reader c.bytes c.reads) in
    if is_failed c.ending then again else c

unfoldable pub without_failures : List Read → List Read
without_failures [] = []
without_failures (arrives k ∷ reads) = arrives k ∷ without_failures reads
without_failures (interrupted ∷ reads) = interrupted ∷ without_failures reads
without_failures (fails ∷ reads) = without_failures reads

unfoldable pub failures : List Read → ℕ
failures [] = 0
failures (fails ∷ reads) = suc (failures reads)
failures (arrives k ∷ reads) = failures reads
failures (interrupted ∷ reads) = failures reads

-- The call as one that has met no failure.
abbrev pub smooth : Call → Call
smooth c = record c { reads = without_failures c.reads }

abbrev Settled : Round → Type 0
Settled (returns e r) = is_failed e ≡ false
Settled (wants n r) = round r ≡ wants n r

finish-Settled : (r : FrameReader) (o : Outcome FrameError FixMessage) → Settled (finish r o)
finish-Settled r (ok m) = refl
finish-Settled r (err e) = refl
finish-Settled r panics = refl

known-Settled : (r : FrameReader) (total : ℕ) → Settled (round (record r { total = some total }))
unfolding round round_for measure
known-Settled r total = elim (Bool-cases (length r.pending == total)) [
  | inl full ↦ rw full (finish-Settled (record r { total = some total }) (parse_wire r.pending))
  | inr short ↦ rw short (rw short refl)
]

found-Settled :
    (pending begin body_length rest : Text) (o : Outcome FrameError ℕ)
    → find_header pending ≡ some (begin, body_length, rest)
    → total_for begin body_length ≡ o
    → Settled (round (record { pending = pending; total = none }))
unfolding round measure
found-Settled pending begin body_length rest (ok total) h k =
    rw (h, round) (rw (k, ◌>>=◌) (known-Settled (record { pending = pending; total = none }) total))
found-Settled pending begin body_length rest (err e) h k = rw (h, round) (rw (k, ◌>>=◌) refl)
found-Settled pending begin body_length rest panics h k = rw (h, round) (rw (k, ◌>>=◌) refl)

new-Settled : (pending : Text) → Settled (round (record { pending = pending; total = none }))
unfolding round round_for measure
new-Settled pending = elim (Option-cases (find_header pending)) [
  | inl absent ↦ elim (Bool-cases (leb max_prefix_size (length pending))) [
    | inl long ↦ rw (absent, long, round) refl
    | inr short ↦ rw (absent, short, round) (rw (absent, short, round) refl)
  ]
  | inr ((begin, body_length, rest), found) ↦
      found-Settled pending begin body_length rest (total_for begin body_length) found refl
]

-- A round either returns, with no error of the stream, or would be the same again.
round-Settled :
    (pending : Text) (total : Option ℕ)
    → Settled (round (record { pending = pending; total = total }))
round-Settled pending none = new-Settled pending
round-Settled pending (some total) =
    known-Settled (record { pending = pending; total = none }) total

round-wants : (r r' : FrameReader) (n : ℕ) → round r ≡ wants n r' → round r' ≡ wants n r'
round-wants r r' n h = subst Settled h (round-Settled r.pending r.total)

round-returns : (r r' : FrameReader) (e : Ending) → round r ≡ returns e r' → is_failed e ≡ false
round-returns r r' e h = subst Settled h (round-Settled r.pending r.total)

data Rounds (r : FrameReader) : Type 0 where
  ends : (e : Ending) (r' : FrameReader) → round r ≡ returns e r' → Rounds r
  reads_on : (n : ℕ) (r' : FrameReader) → round r ≡ wants n r' → Rounds r

Rounds-cases : (r : FrameReader) → Rounds r
Rounds-cases r = known (round r) refl
  where
    known : (o : Round) → round r ≡ o → Rounds r
    known (returns e r') h = ends e r' h
    known (wants n r') h = reads_on n r' h

-- Only what the next round wants matters of a reader.
read_message-same :
    (r r' : FrameReader) (n : ℕ) (bytes : Text) (reads : List Read)
    → round r ≡ wants n r'
    → read_message r bytes reads ≡ read_message r' bytes reads
unfolding read_message
read_message-same r r' n bytes [] h =
    rw (h, read_message) (rw (round-wants r r' n h, read_message) refl)
read_message-same r r' n bytes (arrives k ∷ reads) h =
    rw (h, read_message) (rw (round-wants r r' n h, read_message) refl)
read_message-same r r' n bytes (interrupted ∷ reads) h =
    rw (h, read_message) (rw (round-wants r r' n h, read_message) refl)
read_message-same r r' n bytes (fails ∷ reads) h =
    rw (h, read_message) (rw (round-wants r r' n h, read_message) refl)

read_message-ends :
    (r r' : FrameReader) (e : Ending) (bytes : Text) (reads : List Read)
    → round r ≡ returns e r'
    → read_message r bytes reads ≡ call e r' bytes reads
unfolding read_message
read_message-ends r r' e bytes [] h = rw (h, read_message) refl
read_message-ends r r' e bytes (arrives k ∷ reads) h = rw (h, read_message) refl
read_message-ends r r' e bytes (interrupted ∷ reads) h = rw (h, read_message) refl
read_message-ends r r' e bytes (fails ∷ reads) h = rw (h, read_message) refl

retry-again :
    (n : ℕ) (r : FrameReader) (bytes : Text) (reads : List Read)
    → retry (suc n) (call failed r bytes reads) ≡ retry n (read_message r bytes reads)
unfolding retry
retry-again n r bytes reads = refl

retry-settled : (n : ℕ) (c : Call) → is_failed c.ending ≡ false → retry n c ≡ c
unfolding retry
retry-settled zero c h = refl
retry-settled (suc n) c h = rw h refl

at_end-settled : (r : FrameReader) → is_failed (at_end r) ≡ false
at_end-settled r = ground arith

-- A caller that calls again after each error of the stream, as after a timeout, ends as one whose stream
-- never fails: with the same result, the same decoder and the same bytes still to come.
pub retry-read_message :
    (n : ℕ) (r : FrameReader) (bytes : Text) (reads : List Read)
    → failures reads ≤ n
    → smooth (retry n (read_message r bytes reads)) ≡ read_message r bytes (without_failures reads)
unfolding read_message without_failures failures
retry-read_message n r bytes [] h = elim (Rounds-cases r) [
  | ends e r' k ↦
      rw (k, read_message)
        (ap smooth (retry-settled n (call e r' bytes []) (round-returns r r' e k)))
  | reads_on m r' k ↦
      rw (k, read_message) (ap smooth (retry-settled n (call blocked r' bytes []) refl))
]
retry-read_message n r bytes (arrives i ∷ reads) h = elim (Rounds-cases r) [
  | ends e r' k ↦
      rw (k, read_message)
        (ap smooth (retry-settled n (call e r' bytes (arrives i ∷ reads)) (round-returns r r' e k)))
  | reads_on m r' k ↦ elim (Bool-cases (is_empty bytes)) [
    | inl none_left ↦
        rw (k, read_message)
          (rw none_left
            (ap smooth (retry-settled n (call (at_end r') r' bytes reads) (at_end-settled r'))))
    | inr some_left ↦
        rw (k, read_message)
          (rw some_left (
            retry-read_message n (extended r' (take (min m (suc i)) bytes))
              (drop (min m (suc i)) bytes) reads h))
  ]
]
retry-read_message n r bytes (interrupted ∷ reads) h = elim (Rounds-cases r) [
  | ends e r' k ↦
      rw (k, read_message)
        (ap smooth
          (retry-settled n (call e r' bytes (interrupted ∷ reads)) (round-returns r r' e k)))
  | reads_on m r' k ↦ rw (k, read_message) (retry-read_message n r' bytes reads h)
]
retry-read_message zero r bytes (fails ∷ reads) h = absurd (omega arith)
retry-read_message (suc n) r bytes (fails ∷ reads) h = elim (Rounds-cases r) [
  | ends e r' k ↦
      rw (k, read_message)
        (ap smooth
            (retry-settled (suc n) (call e r' bytes (fails ∷ reads)) (round-returns r r' e k))
          ∙ sym (read_message-ends r r' e bytes (without_failures reads) k))
  | reads_on m r' k ↦
      rw (k, read_message)
        (ap smooth (retry-again n r' bytes reads)
          ∙ retry-read_message n r' bytes reads (omega arith)
          ∙ sym (read_message-same r r' m bytes (without_failures reads) k))
]
