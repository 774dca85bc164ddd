-- ===== src/Fix/Writer/GapFills.antt =====
-- src/fix/session.rs, `frame_gap_fill`: what a gap fill is for the other side of the session.
use rust_trader.Base.{ℕ, ◌<◌, ◌≡◌, refl, true, false, List, ◌∷◌, arith}
use rust_trader.Base.Eq.{Text, codes, nat_eq}
use rust_trader.Base.Int.{ℤ}
use rust_trader.Base.Lists.{length, is_empty}
use rust_trader.Base.Maps.{lookup}
use rust_trader.Base.Outcome.{ok, ◌>>=◌}
use rust_trader.Base.Texts.{show_nat, u64_bound}
use rust_trader.Base.Texts.Numbers.{parse_u64-show_nat, all-show_nat, show_nat_occupied}
use rust_trader.Fix.Messages.{FixMessage, get, msg_type, parse_required_u64, parse_required_seq}
use rust_trader.Fix.Sequences.{
  SequenceState, ready, classify, advance, is_reset, takes_reset, compare_seq, settle_request,
  from_seq,
}
use rust_trader.Fix.Sequences.Rounds.{settle_request_lem}
use rust_trader.Fix.Frames.{parse_wire, put_fields}
use rust_trader.Fix.Frames.Printing.{Printable, FieldsOk}
use rust_trader.Fix.Frames.Parsing.{framed}
use rust_trader.Fix.Frames.RoundTrip.{
  Sendable, Sendable-number, Sendable-FieldOk, parse_wire-put_fields,
}
use rust_trader.Fix.Headers.{
  TimeOps, parse_fix_timestamp, parse_required_text, validate_header, validate_unique_header_tag,
  validate_timestamp_fields, values_of, only,
}
use rust_trader.Fix.Headers.Accepted.{eqb_self}
use rust_trader.Decimal.{DecimalOps}
use rust_trader.Fix.Codec.{DecimalText, sequence_reset}
use rust_trader.Fix.Codec.Tables.{scalar_fields, required_fields}
use rust_trader.Fix.Codec.Profiles.{
  validate_profile, check_profile, validate_field_scopes, check_values, check_required,
}
use rust_trader.Fix.Codec.Decoding.{decode_kind, decode}
use rust_trader.Fix.Writer.{frame_gap_fill, fill_fields}

-- The fields of a gap fill, its own two at the end.
abbrev pub fields_of : ℕ → Text → Text → Text → ℕ → List (ℕ × Text)
fields_of seq sender target now new_seq =
    (34, show_nat seq)
    ∷ (49, sender)
    ∷ (56, target)
    ∷ (43, codes "Y")
    ∷ (52, now)
    ∷ (122, now)
    ∷ fill_fields new_seq

module _ (begin : Text) (seq : ℕ) (sender target now : Text) (new_seq : ℕ) where
  abbrev pub gap_wire : Text
  gap_wire = frame_gap_fill begin (codes "4") seq sender target now (fill_fields new_seq)

  abbrev pub gap_body : Text
  gap_body = put_fields ((35, codes "4") ∷ fields_of seq sender target now new_seq)

  abbrev pub gap_message : FixMessage
  gap_message = record {
    begin_string = begin;
    fields = (35, codes "4") ∷ fields_of seq sender target now new_seq;
    raw = gap_wire;
  }

  gap_wire-framed : gap_wire ≡ framed begin gap_body
  unfolding frame_gap_fill show_nat
  gap_wire-framed = refl

  gap_fields :
      seq < u64_bound
      → new_seq < u64_bound
      → Sendable sender
      → Sendable target
      → Sendable now
      → FieldsOk ((35, codes "4") ∷ fields_of seq sender target now new_seq)
  gap_fields n k a b c =
      let ok_at = Sendable-FieldOk in
      (
        ok_at 35 (codes "4") (omega arith) refl (refl, refl),
        (
          ok_at 34 (show_nat seq) (omega arith) refl (Sendable-number seq n),
          (
            ok_at 49 sender (omega arith) refl a,
            (
              ok_at 56 target (omega arith) refl b,
              (
                ok_at 43 (codes "Y") (omega arith) refl (refl, refl),
                (
                  ok_at 52 now (omega arith) refl c,
                  (
                    ok_at 122 now (omega arith) refl c,
                    (
                      ok_at 36 (show_nat new_seq) (omega arith) refl (Sendable-number new_seq k),
                      (ok_at 123 (codes "Y") (omega arith) refl (refl, refl), tt),
                    ),
                  ),
                ),
              ),
            ),
          ),
        ),
      )

  pub gap_parsed :
      Printable begin
      → seq < u64_bound
      → new_seq < u64_bound
      → Sendable sender
      → Sendable target
      → Sendable now
      → length gap_body < u64_bound
      → parse_wire gap_wire ≡ ok gap_message
  gap_parsed p n k a b c small = rw gap_wire-framed (
      parse_wire-put_fields begin (codes "4") (fields_of seq sender target now new_seq) p
        (gap_fields n k a b c) small)

  gap_seq : 0 < seq → seq < u64_bound → parse_required_seq gap_message ≡ ok seq
  unfolding parse_required_seq parse_required_u64 get lookup
  gap_seq p n = rw (parse_u64-show_nat seq n, ◌>>=◌) (ground arith)

  gap_new_seq : 0 < new_seq → new_seq < u64_bound → parse_required_u64 gap_message 36 ≡ ok new_seq
  unfolding parse_required_u64 get lookup
  gap_new_seq p n = rw (parse_u64-show_nat new_seq n, ◌>>=◌) (ground arith)

  gap_is_reset : is_reset gap_message ≡ true
  unfolding is_reset msg_type get lookup
  gap_is_reset = refl

  pub gap_classified :
      (s : SequenceState)
      → s.expected ≡ seq
      → 0 < seq
      → seq < new_seq
      → new_seq < u64_bound
      → classify s gap_message ≡ ok (ready gap_message, s)
  unfolding classify takes_reset compare_seq get lookup
  gap_classified s e p n k =
      rw (gap_seq p (omega (arith, n, k)), ◌>>=◌)
        (rw gap_is_reset (rw (gap_new_seq (omega (arith, n)) k, ◌>>=◌) (ground arith)))

  pub gap_advanced :
      (s : SequenceState)
      → s.expected ≡ seq
      → 0 < seq
      → seq < new_seq
      → new_seq < u64_bound
      → (s' : SequenceState) × (advance s gap_message ≡ ok s') × (s'.expected ≡ new_seq)
  unfolding advance
  gap_advanced s e p n k =
      let moved : SequenceState = record s {
        expected = new_seq;
        queued = from_seq new_seq s.queued;
      } in
      (
        settle_request moved,
        rw (gap_seq p (omega (arith, n, k)), ◌>>=◌)
            (rw gap_is_reset (rw (gap_new_seq (omega (arith, n)) k, ◌>>=◌) (ground (arith, e)))),
        (settle_request_lem moved).0,
      )

  module _ ⦃time : TimeOps⦄ where
    gap_profile :
        is_empty sender ≡ false
        → is_empty target ≡ false
        → is_empty now ≡ false
        → validate_profile gap_message (codes "4") ≡ ok tt
    unfolding validate_profile check_profile validate_field_scopes check_values check_required
        scalar_fields required_fields get lookup
    gap_profile b c d = rw (show_nat_occupied seq, show_nat_occupied new_seq, b, c, d) refl

    gap_kind :
        {D : Type 0} ⦃dec : DecimalOps D⦄ ⦃text : DecimalText D⦄
        → 0 < new_seq
        → new_seq < u64_bound
        → decode_kind {D = D} gap_message (codes "4") ≡ ok (sequence_reset new_seq true)
    unfolding decode_kind get lookup
    gap_kind p k = rw (all-show_nat new_seq k, parse_u64-show_nat new_seq k, ◌>>=◌) (ground arith)

    pub gap_decoded :
        {D : Type 0} ⦃dec : DecimalOps D⦄ ⦃text : DecimalText D⦄
        → 0 < new_seq
        → new_seq < u64_bound
        → is_empty sender ≡ false
        → is_empty target ≡ false
        → is_empty now ≡ false
        → decode {D = D} gap_message ≡ ok (sequence_reset new_seq true)
    unfolding decode msg_type get lookup
    gap_decoded p k b c d = rw (gap_profile b c d, ◌>>=◌) (gap_kind p k)

    gap_unique :
        is_empty sender ≡ false
        → is_empty target ≡ false
        → is_empty now ≡ false
        → (validate_unique_header_tag gap_message 49 ≡ ok sender)
          × (validate_unique_header_tag gap_message 56 ≡ ok target)
          × (validate_unique_header_tag gap_message 34 ≡ ok (show_nat seq))
          × (validate_unique_header_tag gap_message 52 ≡ ok now)
    unfolding validate_unique_header_tag values_of only
    gap_unique b c d = (rw b refl, rw c refl, rw (show_nat_occupied seq) refl, rw d refl)

    gap_timed :
        (t : ℤ)
        → is_empty now ≡ false
        → parse_fix_timestamp now 52 ≡ ok t
        → parse_fix_timestamp now 122 ≡ ok t
        → validate_timestamp_fields gap_message ≡ ok tt
    unfolding validate_timestamp_fields parse_required_text get lookup
    gap_timed t d h k = rw d (rw (h, ◌>>=◌) (rw (k, ◌>>=◌) (ground arith)))

    pub gap_headed :
        (t : ℤ)
        → 0 < seq
        → seq < u64_bound
        → is_empty sender ≡ false
        → is_empty target ≡ false
        → is_empty now ≡ false
        → parse_fix_timestamp now 52 ≡ ok t
        → parse_fix_timestamp now 122 ≡ ok t
        → validate_header gap_message begin sender target ≡ ok seq
    unfolding validate_header
    gap_headed t pos n b c d h k =
        let u = gap_unique b c d in
        rw (eqb_self begin) (
          (rw (u.0, ◌>>=◌)
            (rw (u.1, ◌>>=◌)
              (rw (eqb_self sender, eqb_self target)
                (rw (u.2, ◌>>=◌)
                  (rw (u.3, ◌>>=◌) (rw (gap_timed t d h k, ◌>>=◌) (gap_seq pos n))))))))
