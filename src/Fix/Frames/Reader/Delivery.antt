-- ===== src/Fix/Frames/Reader/Delivery.antt =====
-- src/fix/frame.rs, `read_message`: a frame is received however its bytes arrive, and nothing after it
-- is consumed.
use rust_trader.Base.{
  ℕ, zero, suc, ◌+◌, ◌-◌, ◌<◌, ◌≤◌, ◌≡◌, refl, sym, ap, subst, ◌∙◌, ◌⊎◌, inl, inr, false, leb, ltb,
  ◌==◌, Option, none, some, List, [], ◌∷◌, ◌++◌, Bool-cases, Option-cases, arith,
}
use mathlib.Core.List.{append_assoc}
use mathlib.Core.Option.{some-injective}
use rust_trader.Base.Eq.{Text}
use rust_trader.Base.Lists.{length, length-append, is_empty, take, drop}
use rust_trader.Base.Outcome.{ok, ◌>>=◌}
use rust_trader.Fix.Messages.{FixMessage}
use rust_trader.Fix.Frames.{parse_wire}
use rust_trader.Fix.Frames.Reader.{
  FrameReader, new_reader, Read, arrives, interrupted, fails, received, wants, round, round_for,
  measure, find_header, total_for, finish, call, read_message, extended, min, max_prefix_size,
}
use rust_trader.Fix.Frames.Reader.Progress.{
  find_header-append, length-find_header, find_header-prefix,
}
use rust_trader.Fix.Frames.Reader.Retries.{failures}

unfoldable pub arrivals : List Read → ℕ
arrivals [] = 0
arrivals (arrives k ∷ reads) = suc (arrivals reads)
arrivals (interrupted ∷ reads) = arrivals reads
arrivals (fails ∷ reads) = arrivals reads

take-drop : (n : ℕ) (s : Text) → take n s ++ drop n s ≡ s
take-drop zero s = refl
take-drop (suc n) [] = refl
take-drop (suc n) (b ∷ s) = ap (◌∷◌ b) (take-drop n s)

take_bounds :
    (n : ℕ) (s : Text)
    → 0 < n
    → is_empty s ≡ false
    → (0 < length (take n s)) × (length (take n s) ≤ n)
take_bounds n [] h k = absurd (ground arith)
take_bounds zero (b ∷ s) h k = absurd (omega arith)
take_bounds (suc n) (b ∷ s) h k = (omega arith, omega (arith, length_take n s))
  where
    length_take : (m : ℕ) (t : Text) → length (take m t) ≤ m
    length_take zero t = omega arith
    length_take (suc m) [] = omega arith
    length_take (suc m) (c ∷ t) = omega (arith, length_take m t)

-- A frame that the decoder takes: its first two fields say how long it is, and end soon enough.
pub record Framed (w : Text) : Type 0 where
  pub begin : Text
  pub body_length : Text
  pub rest : Text
  pub headed : find_header w ≡ some (begin, body_length, rest)
  pub measured : total_for begin body_length ≡ ok (length w)
  pub near : length begin + length body_length + 2 ≤ max_prefix_size

append-injective : (p s t : Text) → p ++ s ≡ p ++ t → s ≡ t
append-injective [] s t h = h
append-injective (b ∷ p) s t h = append-injective p s t (ground arith)

same-length : (p s v t : Text) → p ++ s ≡ v ++ t → length p ≡ length v → p ≡ v
same-length [] s [] t h k = refl
same-length [] s (c ∷ v) t h k = absurd (omega arith)
same-length (b ∷ p) s [] t h k = absurd (omega arith)
same-length (b ∷ p) s (c ∷ v) t h k = ground (arith, same-length p s v t)

module _ (w more : Text) (f : Framed w) where
  abbrev prefix : ℕ
  prefix = length f.begin + length f.body_length + 2

  abbrev Stage : Option ℕ → ℕ → Type 0
  Stage total n = ((total ≡ none) × (n ≤ prefix)) ⊎ ((total ≡ some (length w)) × (n ≤ length w))

  -- The decoder holds a part of the frame, the stream the rest of it and what comes after.
  record InFrame (r : FrameReader) (bytes : Text) : Type 0 where
    split : r.pending ++ bytes ≡ w ++ more
    stage : Stage r.total (length r.pending)

  prefix_within : prefix ≤ length w
  prefix_within = omega (arith, length-find_header w f.begin f.body_length f.rest f.headed)

  -- What the first two fields are, once they are there.
  headed_as :
      (p d a b r : Text)
      → p ++ d ≡ w ++ more
      → find_header p ≡ some (a, b, r)
      → (a ≡ f.begin) × (b ≡ f.body_length)
  headed_as p d a b r e h =
      let k =
        some-injective (a, b, r ++ d) (f.begin, f.body_length, f.rest ++ more)
          (sym (find_header-append p d a b r h)
            ∙ ap find_header e
            ∙ find_header-append w more f.begin f.body_length f.rest f.headed) in
      (ap (λ (t : Text × Text × Text). t.0) k, ap (λ (t : Text × Text × Text). t.1) k)

  unheaded : (p d : Text) → p ++ d ≡ w ++ more → find_header p ≡ none → length p < prefix
  unheaded p d e h = elim (Bool-cases (ltb (length p) prefix)) [
    | inl short ↦ ground arith
    | inr long ↦
        let (r', k) =
          find_header-prefix p d f.begin f.body_length (f.rest ++ more)
            (ap find_header e ∙ find_header-append w more f.begin f.body_length f.rest f.headed)
            (ground arith) in
        absurd (ground arith)
  ]

  -- What a round comes to: the frame is complete, or bytes of it are wanted.
  data Next (r : FrameReader) (bytes : Text) : Type 0 where
    complete : (r' : FrameReader) → bytes ≡ more → round r ≡ finish r' (parse_wire w) → Next r bytes
    wanting :
        (r' : FrameReader) (n : ℕ)
        → round r ≡ wants n r'
        → r'.pending ≡ r.pending
        → 0 < n
        → length r.pending < length w
        → ((g : ℕ) → g ≤ n → Stage r'.total (length r.pending + g))
        → Next r bytes

  -- The length of the frame is known.
  Next-known :
      (r : FrameReader) (bytes : Text)
      → r.pending ++ bytes ≡ w ++ more
      → length r.pending ≤ length w
      → measure r ≡ ok (some (length w))
      → Next r bytes
  unfolding round round_for
  Next-known r bytes e h m = elim (Bool-cases (length r.pending == length w)) [
    | inl full ↦
        let same = same-length r.pending bytes w more e (ground arith) in
        complete (record r { total = some (length w) })
          (append-injective w bytes more (ap (λ p. p ++ bytes) (sym same) ∙ e))
          (rw (m, round) (rw full (rw same refl)))
    | inr short ↦
        wanting (record r { total = some (length w) }) (min (length w - length r.pending) 8192)
          (rw (m, round) (rw short refl)) refl (ground arith) (ground arith)
          (λ g k. inr (refl, ground arith))
  ]

  measure_known : (r : FrameReader) → r.total ≡ some (length w) → measure r ≡ ok (some (length w))
  unfolding measure
  measure_known r h = rw (h, measure) refl

  measure_new :
      (r : FrameReader) (bytes rest : Text)
      → r.pending ++ bytes ≡ w ++ more
      → r.total ≡ none
      → find_header r.pending ≡ some (f.begin, f.body_length, rest)
      → measure r ≡ ok (some (length w))
  unfolding measure
  measure_new r bytes rest e h k = rw (h, measure) (rw k (rw (f.measured, ◌>>=◌) refl))

  Next-InFrame : (r : FrameReader) (bytes : Text) → InFrame r bytes → Next r bytes
  unfolding round round_for measure
  Next-InFrame r bytes v = elim v.stage [
    | inr (t, n) ↦ Next-known r bytes v.split n (measure_known r t)
    | inl (t, n) ↦ elim (Option-cases (find_header r.pending)) [
      | inr ((a, b, rest), k) ↦
          let same = headed_as r.pending bytes a b rest v.split k in
          Next-known r bytes v.split (omega (arith, prefix_within))
            (measure_new r bytes rest v.split t (rw (← same.0) (rw (← same.1) k)))
      | inl k ↦
          let short = unheaded r.pending bytes v.split k in
          let early : leb max_prefix_size (length r.pending) ≡ false = ground (arith, f.near) in
          wanting (record r { total = none }) 1 (rw (t, k, early, round) refl) refl (omega arith)
            (omega (arith, prefix_within)) (λ g h. inl (refl, omega arith))
    ]
  ]

  occupied :
      (p bytes : Text) → p ++ bytes ≡ w ++ more → length p < length w → is_empty bytes ≡ false
  occupied p [] e h =
      absurd
        (omega (arith, ap (length {A = ℕ}) e, length-append {0} p [], length-append {0} w more))
  occupied p (b ∷ bytes) e h = refl

  InFrame-extended :
      (r r' : FrameReader) (n k : ℕ) (bytes : Text)
      → r.pending ++ bytes ≡ w ++ more
      → r'.pending ≡ r.pending
      → 0 < n
      → length r.pending < length w
      → ((g : ℕ) → g ≤ n → Stage r'.total (length r.pending + g))
      → InFrame (extended r' (take (min n (suc k)) bytes)) (drop (min n (suc k)) bytes)
        × (length r.pending < length (extended r' (take (min n (suc k)) bytes)).pending)
  InFrame-extended r r' n k bytes e same p short room =
      let g = take (min n (suc k)) bytes in
      let bounds =
        take_bounds (min n (suc k)) bytes (ground arith) (occupied r.pending bytes e short) in
      let long : length (r'.pending ++ g) ≡ length r.pending + length g =
        length-append {0} r'.pending g ∙ ap (λ (q : Text). length q + length g) same in
      (
        record {
          split =
              append_assoc r'.pending g (drop (min n (suc k)) bytes)
              ∙ ap (◌++◌ r'.pending) (take-drop (min n (suc k)) bytes)
              ∙ ap (λ q. q ++ bytes) same
              ∙ e;
          stage = subst (Stage r'.total) (sym long) (room (length g) (ground (arith, bounds)));
        },
        omega (arith, long, bounds),
      )

  -- A frame is received once enough reads have returned bytes.
  read_message-InFrame :
      (m : FixMessage) (r : FrameReader) (bytes : Text) (reads : List Read)
      → parse_wire w ≡ ok m
      → InFrame r bytes
      → failures reads ≡ 0
      → length w ≤ length r.pending + arrivals reads
      → (left : List Read) × (read_message r bytes reads ≡ call (received m) new_reader more left)
  unfolding read_message failures arrivals
  read_message-InFrame m r bytes [] p v h k = elim (Next-InFrame r bytes v) [
    | complete r' e o ↦ ([], rw (o, read_message) (rw (p, finish) (rw e refl)))
    | wanting r' n o same pos short room ↦ absurd (omega arith)
  ]
  read_message-InFrame m r bytes (arrives i ∷ reads) p v h k = elim (Next-InFrame r bytes v) [
    | complete r' e o ↦ (arrives i ∷ reads, rw (o, read_message) (rw (p, finish) (rw e refl)))
    | wanting r' n o same pos short room ↦
        let (next, longer) = InFrame-extended r r' n i bytes v.split same pos short room in
        let (left, ends) =
          read_message-InFrame m (extended r' (take (min n (suc i)) bytes))
            (drop (min n (suc i)) bytes) reads p next h (omega (arith, k, longer)) in
        (left, rw (o, read_message) (rw (occupied r.pending bytes v.split short) ends))
  ]
  read_message-InFrame m r bytes (interrupted ∷ reads) p v h k = elim (Next-InFrame r bytes v) [
    | complete r' e o ↦ (interrupted ∷ reads, rw (o, read_message) (rw (p, finish) (rw e refl)))
    | wanting r' n o same pos short room ↦
        let next : InFrame r' bytes = record {
          split = ap (λ q. q ++ bytes) same ∙ v.split;
          stage =
              subst (λ q. Stage r'.total (length q)) (sym same)
                (subst (Stage r'.total) (omega arith) (room 0 (omega arith)));
        } in
        let (left, ends) =
          read_message-InFrame m r' bytes reads p next h
            (omega (arith, k, ap (length {A = ℕ}) same)) in
        (left, rw (o, read_message) ends)
  ]
  read_message-InFrame m r bytes (fails ∷ reads) p v h k = absurd (omega arith)

  -- From the start of the frame.
  pub read_message-received :
      (m : FixMessage) (reads : List Read)
      → parse_wire w ≡ ok m
      → failures reads ≡ 0
      → length w ≤ arrivals reads
      → (left : List Read) × (read_message new_reader (w ++ more) reads
          ≡ call (received m) new_reader more left)
  read_message-received m reads p h k =
      read_message-InFrame m new_reader (w ++ more) reads p
        (record { split = refl; stage = inl (refl, omega arith) }) h (omega (arith, k))
