-- ===== src/Fix/Sequences/Rounds.antt =====
-- src/fix/session.rs, `SequenceState`: what a round of a session's loop does to it.
use rust_trader.Base.{
  ℕ, ◌+◌, ◌≤◌, ◌<◌, ◌≡◌, refl, sym, ap, subst, ◌∙◌, ◌⊎◌, inl, inr, Bool, true, false, ◌||◌, Option,
  none, some, List, arith, ltb, leb, ◌==◌, if◌then◌else◌, Bool-cases, Option-cases,
}
use mathlib.Core.Option.{some-injective}
use rust_trader.Base.Eq.{nat_eq}
use rust_trader.Base.Lists.{length, All}
use rust_trader.Base.Maps.{lookup, contains_key}
use rust_trader.Base.Index.{Distinct, Distinct-erase, lookup-erase_self}
use rust_trader.Base.Outcome.{Outcome, ok, ensure, bind-eq-ok, ok-injective}
use rust_trader.Fix.Messages.{
  FixMessage, SessionError, parse_required_seq, parse_required_u64, sequence_mismatch,
  reset_not_above,
}
use rust_trader.Fix.Sequences.{
  SequenceState, SequenceAction, ready, max_queued_messages, enqueue, keep, compare_seq, classify,
  from_seq, saturating_next, settle_request, advance, take_ready, is_reset, takes_reset,
  is_duplicate,
}
use rust_trader.Fix.Sequences.Order.{
  Waits, SequenceInv, insert_by_lem, erase_lem, Waits-on, found_lem, from_seq_lem,
}

-- What `take_ready` takes, and what it leaves.
pub take_ready-SequenceInv :
    (s : SequenceState)
    → SequenceInv s
    → SequenceInv (take_ready s).1
      × (lookup (take_ready s).1.expected (take_ready s).1.queued ≡ none)
      × ((m : FixMessage) → (take_ready s).0 ≡ some m → parse_required_seq m ≡ ok s.expected)
unfolding take_ready
take_ready-SequenceInv s v =
    let e = erase_lem (Waits s.expected) s.expected s.queued v.waiting in
    (
      record {
        waiting = e.0;
        distinct = Distinct-erase s.expected s.queued v.distinct;
        bounded = omega (arith, e.1, v.bounded);
        asked = v.asked;
      },
      lookup-erase_self s.expected s.queued v.distinct,
      λ m h. (found_lem (Waits s.expected) s.expected m s.queued h v.waiting).1,
    )

pub settle_request_lem :
    (s : SequenceState)
    → ((settle_request s).expected ≡ s.expected)
      × ((settle_request s).queued ≡ s.queued)
      × ((n : ℕ)
          → (settle_request s).resend_from ≡ some n
          → (s.resend_from ≡ some n) × (s.expected ≤ n))
unfolding settle_request
settle_request_lem s = elim (Option-cases s.resend_from) [
  | inl e ↦ rw (e, settle_request) (refl, refl, λ n h. cc)
  | inr (asked, e) ↦ elim (Bool-cases (ltb asked s.expected)) [
    | inl below ↦ rw (e, settle_request) (rw below (refl, refl, λ n h. cc))
    | inr above ↦
        rw (e, settle_request)
          (rw above (
            refl,
            refl,
            λ n h.
                let same : asked ≡ n = some-injective asked n (sym e ∙ h) in
                (ap some same, ground arith),
          ))
  ]
]

-- The checks of `advance`, read backwards.
pub data Advanced (s : SequenceState) (m : FixMessage) (s' : SequenceState) : Type 0 where
  by_one :
      is_reset m ≡ false
      → parse_required_seq m ≡ ok s.expected
      → s' ≡ settle_request (record s { expected = saturating_next s.expected })
      → Advanced s m s'
  by_reset :
      (new_seq : ℕ)
      → is_reset m ≡ true
      → parse_required_u64 m 36 ≡ ok new_seq
      → s.expected < new_seq
      → s' ≡ settle_request (record s { expected = new_seq; queued = from_seq new_seq s.queued })
      → Advanced s m s'

ensure-eq-ok : {E : Type 0} (b : Bool) (e : E) → ensure b e ≡ ok tt → b ≡ true
ensure-eq-ok true e h = refl
ensure-eq-ok false e h = cc

Advanced-cases :
    (s : SequenceState) (m : FixMessage) (s' : SequenceState)
    → advance s m ≡ ok s'
    → Advanced s m s'
unfolding advance
Advanced-cases s m s' h =
    let (seq, p, f) = bind-eq-ok (parse_required_seq m) _ h in
    let (u, c, g) =
      bind-eq-ok (ensure (seq == s.expected || is_reset m) (sequence_mismatch s.expected seq)) _
        f in
    elim (Bool-cases (is_reset m)) [
      | inl reset ↦
          let (new_seq, q, k) = bind-eq-ok (parse_required_u64 m 36) _ (rw reset at g) in
          let (w, d, l) =
            bind-eq-ok (ensure (ltb s.expected new_seq) (reset_not_above new_seq s.expected)) _ k in
          by_reset new_seq reset q
            (ground
              (arith, ensure-eq-ok (ltb s.expected new_seq) (reset_not_above new_seq s.expected) d))
            (sym (ok-injective _ _ _ refl l))
      | inr plain ↦
          let seq_eq : seq ≡ s.expected = ground (arith, ensure-eq-ok _ _ c) in
          by_one plain (p ∙ ap ok seq_eq) (sym (ok-injective _ _ _ refl (rw plain at g)))
    ]

-- A request for what lies behind is settled.
settle_request-SequenceInv :
    (t : SequenceState)
    → All (Waits t.expected) t.queued
    → Distinct t.queued
    → length t.queued ≤ max_queued_messages
    → ((n : ℕ) → t.resend_from ≡ some n → n < t.expected)
    → SequenceInv (settle_request t)
settle_request-SequenceInv t w d b older =
    let r = settle_request_lem t in
    record {
      waiting = rw (r.0, r.1) w;
      distinct = rw (r.1) d;
      bounded = rw (r.1) b;
      asked = λ n h. let (e, le) = r.2 n h in absurd (omega (arith, older n e, le));
    }

saturating_next_lem : (n : ℕ) → n < 18446744073709551615 → saturating_next n ≡ n + 1
saturating_next_lem n h = ground arith

-- A message that the session accepts as the next one moves what is expected forward, by one or to
-- where a reset says, and only messages that are still ahead keep waiting.
pub advance-SequenceInv :
    (s : SequenceState) (m : FixMessage) {s' : SequenceState}
    → SequenceInv s
    → lookup s.expected s.queued ≡ none
    → s.expected < 18446744073709551615
    → advance s m ≡ ok s'
    → SequenceInv s'
      × (s.expected < s'.expected)
      × ((is_reset m ≡ true)
          ⊎ ((parse_required_seq m ≡ ok s.expected) × (s'.expected ≡ s.expected + 1)))
advance-SequenceInv s m {s'} v free room h = elim (Advanced-cases s m s' h) [
  | by_one plain seq e ↦
      let t : SequenceState = record s { expected = saturating_next s.expected } in
      let next = saturating_next_lem s.expected room in
      let i =
        settle_request-SequenceInv t
          (subst (λ n. All (Waits n) s.queued) (sym next)
            (Waits-on s.expected s.queued free v.waiting))
          v.distinct v.bounded (λ n a. omega (arith, v.asked n a, next)) in
      let grown = (settle_request_lem t).0 ∙ next in
      rw e (i, omega (arith, grown), inr (seq, grown))
  | by_reset new_seq reset q above e ↦
      let t : SequenceState = record s { expected = new_seq; queued = from_seq new_seq s.queued } in
      let r = from_seq_lem s.expected new_seq s.queued v.waiting v.distinct in
      let i =
        settle_request-SequenceInv t r.0 r.1 (omega (arith, r.2, v.bounded))
          (λ n a. omega (arith, v.asked n a, above)) in
      rw e (i, omega (arith, (settle_request_lem t).0, above), inl reset)
]

enqueue_lem :
    (expected seq : ℕ) (m : FixMessage) (q : List (ℕ × FixMessage))
    → All (Waits expected) q
    → Distinct q
    → parse_required_seq m ≡ ok seq
    → expected < seq
    → All (Waits expected) (enqueue seq m q)
      × Distinct (enqueue seq m q)
      × (length (enqueue seq m q) ≤ length q + 1)
unfolding enqueue
enqueue_lem expected seq m q a d p h = elim (Option-cases (lookup seq q)) [
  | inr (old, e) ↦ rw (e, enqueue) (a, d, omega arith)
  | inl e ↦
      let r = insert_by_lem (Waits expected) seq m q e d (omega (arith, h), p) a in
      rw (e, enqueue) (r.0, r.1, omega (arith, r.2))
]

asks_from_expected :
    (resend : Option ℕ) (expected n : ℕ)
    → ((k : ℕ) → resend ≡ some k → k ≡ expected)
    → (if contains_key resend then resend else some expected) ≡ some n
    → n ≡ expected
asks_from_expected none expected n f h = sym (some-injective expected n h)
asks_from_expected (some k) expected n f h = f n h

keep_lem :
    (s : SequenceState) (seq : ℕ) (m : FixMessage) (r : SequenceAction × SequenceState)
    → SequenceInv s
    → parse_required_seq m ≡ ok seq
    → s.expected < seq
    → keep s seq m ≡ ok r
    → SequenceInv r.1 × ((r.1).expected ≡ s.expected)
unfolding keep
keep_lem s seq m r v p h k = elim (Bool-cases (leb max_queued_messages (length s.queued))) [
  | inl over ↦ cc (rw (over, keep) at k)
  | inr room ↦
      let e = enqueue_lem s.expected seq m s.queued v.waiting v.distinct p h in
      let kept : SequenceState = record s {
        queued = enqueue seq m s.queued;
        resend_from = if contains_key s.resend_from then s.resend_from else some s.expected;
      } in
      let i : SequenceInv kept = record {
        waiting = e.0;
        distinct = e.1;
        bounded = ground (arith, e.2);
        asked = λ n a. asks_from_expected s.resend_from s.expected n v.asked a;
      } in
      subst
        (λ (q : SequenceAction × SequenceState). SequenceInv q.1 × ((q.1).expected ≡ s.expected))
        (ok-injective _ _ r refl (rw (room, keep) at k)) (i, refl)
]

compare_seq_lem :
    (s : SequenceState) (seq : ℕ) (m : FixMessage) (r : SequenceAction × SequenceState)
    → SequenceInv s
    → parse_required_seq m ≡ ok seq
    → compare_seq s seq m ≡ ok r
    → SequenceInv r.1 × ((r.1).expected ≡ s.expected)
unfolding compare_seq
compare_seq_lem s seq m r v p k = elim (Bool-cases (ltb seq s.expected)) [
  | inl low ↦ elim (Bool-cases (is_duplicate m)) [
    | inl dup ↦ same (rw (low, dup, compare_seq) at k)
    | inr other ↦ cc (rw (low, other, compare_seq) at k)
  ]
  | inr high ↦ elim (Bool-cases (ltb s.expected seq)) [
    | inl above ↦ keep_lem s seq m r v p (ground arith) (rw (high, above, compare_seq) at k)
    | inr equal ↦ same (rw (high, equal, compare_seq) at k)
  ]
]
  where
    same :
        {a : SequenceAction}
        → Path (Outcome SessionError (SequenceAction × SequenceState)) (ok (a, s)) (ok r)
        → SequenceInv r.1 × ((r.1).expected ≡ s.expected)
    same {a} e =
        subst
          (λ (q : SequenceAction × SequenceState). SequenceInv q.1 × ((q.1).expected ≡ s.expected))
          (ok-injective _ (a, s) r refl e) (v, refl)

-- Classifying a message changes nothing that is expected, and keeps the invariant: what waits is under
-- its own number, each number once, at most `max_queued_messages`, and one request is open at a time.
pub classify-SequenceInv :
    (s : SequenceState) (m : FixMessage) {r : SequenceAction × SequenceState}
    → SequenceInv s
    → classify s m ≡ ok r
    → SequenceInv r.1 × ((r.1).expected ≡ s.expected)
unfolding classify
classify-SequenceInv s m {r} v h =
    let (seq, p, f) = bind-eq-ok (parse_required_seq m) _ h in
    elim (Bool-cases (is_reset m)) [
      | inr plain ↦ compare_seq_lem s seq m r v p (rw plain at f)
      | inl reset ↦
          let (new_seq, q, g) = bind-eq-ok (parse_required_u64 m 36) _ (rw reset at f) in
          elim (Bool-cases (takes_reset s m seq new_seq)) [
            | inr other ↦ compare_seq_lem s seq m r v p (rw other at g)
            | inl takes ↦
                subst
                  (λ (q : SequenceAction × SequenceState).
                    SequenceInv q.1 × ((q.1).expected ≡ s.expected))
                  (ok-injective _ (ready m, s) r refl (rw takes at g)) (v, refl)
          ]
    ]
