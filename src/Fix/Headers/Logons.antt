-- ===== src/Fix/Headers/Logons.antt =====
-- src/fix/session.rs: what the other side of a connection makes of a framed message and of a framed
-- logon. `build_logon` is that of src/fix/codec.rs.
use rust_trader.Base.{
  ℕ, ◌+◌, ◌<◌, ◌≡◌, refl, true, false, ltb, leb, List, Option-cases, Bool-cases, inl, inr, arith,
}
use rust_trader.Base.Eq.{Text, eqb_text, codes, nat_eq}
use rust_trader.Base.Int.{ℤ}
use rust_trader.Base.Lists.{length, is_empty}
use rust_trader.Base.Maps.{lookup}
use rust_trader.Base.Outcome.{ok, ◌>>=◌}
use rust_trader.Base.Texts.{u64_bound}
use rust_trader.Base.Texts.Numbers.{parse_u64-show_nat}
use rust_trader.Fix.Messages.{FixMessage, get, msg_type, parse_required_u64, parse_required_seq}
use rust_trader.Fix.Sequences.{SequenceState, ready, is_reset, classify, advance, settle_request}
use rust_trader.Fix.Frames.{frame, parse_wire, put_fields}
use rust_trader.Fix.Frames.Printing.{Printable, FieldsOk}
use rust_trader.Fix.Frames.RoundTrip.{header, Sendable, parse_wire-frame}
use rust_trader.Fix.Codec.Builders.{build_logon}
use rust_trader.Fix.Headers.{
  TimeOps, AcceptorConfig, values_of, parse_required_text, parse_fix_timestamp, validate_header,
  validate_logon,
}
use rust_trader.Fix.Headers.Accepted.{
  Plain, sent_message, eqb_self, unique_lem, seq_lem, timestamp_lem, validate_header-header,
}

settle_request-expected : (s : SequenceState) → (settle_request s).expected ≡ s.expected
unfolding settle_request
settle_request-expected s = elim (Option-cases s.resend_from) [
  | inl n ↦ rw (n, settle_request) refl
  | inr (asked, h) ↦ elim (Bool-cases (ltb asked s.expected)) [
    | inl old ↦ rw (h, settle_request) (rw old refl)
    | inr new ↦ rw (h, settle_request) (rw new refl)
  ]
]

classify-expected :
    (s : SequenceState) (m : FixMessage)
    → parse_required_seq m ≡ ok s.expected
    → is_reset m ≡ false
    → classify s m ≡ ok (ready m, s)
unfolding classify
classify-expected s m h k = rw (h, ◌>>=◌) (rw k (ground arith))

advance-expected :
    (s : SequenceState) (m : FixMessage)
    → parse_required_seq m ≡ ok s.expected
    → is_reset m ≡ false
    → s.expected < 18446744073709551615
    → (s' : SequenceState) × (advance s m ≡ ok s') × (s'.expected ≡ s.expected + 1)
unfolding advance
advance-expected s m h k n =
    let next : SequenceState = record s { expected = s.expected + 1 } in
    (settle_request next, rw (h, ◌>>=◌) (rw k (ground arith)), settle_request-expected next)

-- The kinds that the sequence numbers treat as ordinary.
abbrev pub Ordinary : Text → Type 0
Ordinary kind = eqb_text kind (codes "4") ≡ false

-- What the receiving side finds in a framed message.
pub record Arrived ⦃time : TimeOps⦄ (wire : Text) (begin sender target : Text) (s : SequenceState)
    (m : FixMessage) : Type 0 where
  pub parsed : parse_wire wire ≡ ok m
  pub headed : validate_header m begin sender target ≡ ok s.expected
  pub classified : classify s m ≡ ok (ready m, s)
  pub next : SequenceState
  pub advanced : advance s m ≡ ok next
  pub counted : next.expected ≡ s.expected + 1

module _ ⦃time : TimeOps⦄ (begin kind : Text) (s : SequenceState) (sender target sent : Text)
    (fields : List (ℕ × Text)) where
  abbrev wire : Text
  wire = frame begin kind s.expected sender target sent fields

  is_reset-Ordinary :
      Ordinary kind
      → is_reset (sent_message begin kind s.expected sender target sent fields wire) ≡ false
  unfolding is_reset msg_type get lookup
  is_reset-Ordinary h = h

  -- A framed message that carries the number which the other side expects is parsed there, passes the
  -- checks of its header, is ready for the application at once, and moves the expected number to the
  -- next.
  pub frame-Arrived :
      (t : ℤ)
      → Printable begin
      → 0 < s.expected
      → s.expected < 18446744073709551615
      → Ordinary kind
      → Sendable kind
      → Sendable sender
      → Sendable target
      → Sendable sent
      → parse_fix_timestamp sent 52 ≡ ok t
      → FieldsOk fields
      → Plain fields
      → length (put_fields (header kind s.expected sender target sent fields)) < u64_bound
      → Arrived wire begin sender target s
          (sent_message begin kind s.expected sender target sent fields wire)
  frame-Arrived t p pos n o a b c d h f plain small =
      let m = sent_message begin kind s.expected sender target sent fields wire in
      let number = seq_lem begin kind s.expected sender target sent fields wire pos (omega arith) in
      let (next, advanced, counted) = advance-expected s m number (is_reset-Ordinary o) n in
      record {
        parsed =
            parse_wire-frame begin kind s.expected sender target sent fields p (omega arith) a b c d
              f small;
        headed =
            validate_header-header begin kind s.expected sender target sent fields wire t plain pos
              (omega arith) a.0 b.0 c.0 d.0 h;
        classified = classify-expected s m number (is_reset-Ordinary o);
        next = next;
        advanced = advanced;
        counted = counted;
      }

module _ ⦃time : TimeOps⦄ (cfg : AcceptorConfig) (seq heart : ℕ) (sender sent raw : Text) where
  abbrev logon_message : FixMessage
  logon_message =
      sent_message cfg.begin_string (codes "A") seq sender cfg.sender_comp_id sent
        (build_logon heart) raw

  build_logon-Plain : Plain (build_logon heart)
  unfolding build_logon values_of
  build_logon-Plain = record {
    no_type = refl;
    no_seq = refl;
    no_sender = refl;
    no_target = refl;
    no_time = refl;
    no_mark = refl;
  }

  heart_lem :
      0 < heart
      → heart < 4294967296
      → (parse_required_text logon_message 98 ≡ ok (codes "0"))
        × (parse_required_u64 logon_message 108 ≡ ok heart)
  unfolding parse_required_text parse_required_u64 build_logon get lookup
  heart_lem p n = (refl, rw (parse_u64-show_nat heart (omega (arith, n)), ◌>>=◌) (ground arith))

  -- A logon that an initiator builds, for the sender of the acceptor and with a heartbeat interval of 32
  -- bits that is not zero, is accepted with its sender, its interval and its number.
  pub validate_logon-build_logon :
      (t : ℤ)
      → 0 < seq
      → seq < u64_bound
      → 0 < heart
      → heart < 4294967296
      → is_empty sender ≡ false
      → is_empty cfg.sender_comp_id ≡ false
      → is_empty sent ≡ false
      → parse_fix_timestamp sent 52 ≡ ok t
      → validate_logon logon_message cfg ≡ ok (sender, heart, seq)
  unfolding validate_logon msg_type get lookup
  validate_logon-build_logon t pos n hpos hn b c d h =
      let u =
        unique_lem cfg.begin_string (codes "A") seq sender cfg.sender_comp_id sent
          (build_logon heart) raw build_logon-Plain refl b c d in
      let w = heart_lem hpos hn in
      let within : leb heart 4294967295 ≡ true = ground arith in
      rw (eqb_self cfg.begin_string) (
        rw (u.1, ◌>>=◌)
          (rw (u.2, ◌>>=◌)
            (rw (eqb_self cfg.sender_comp_id) (
              rw (u.3, ◌>>=◌)
                (rw (u.4, ◌>>=◌)
                  (rw
                    (
                      timestamp_lem cfg.begin_string (codes "A") seq sender cfg.sender_comp_id sent
                          (build_logon heart) raw t build_logon-Plain d h,
                      ◌>>=◌,
                    )
                    (rw (w.0, ◌>>=◌)
                      (rw (w.1, ◌>>=◌)
                        (rw within (
                          rw
                            (
                              seq_lem cfg.begin_string (codes "A") seq sender cfg.sender_comp_id
                                  sent (build_logon heart) raw pos n,
                              ◌>>=◌,
                            )
                            refl))))))))))
