-- ===== src/Fix/Headers/Accepted.antt =====
-- src/fix/session.rs, `validate_header`: the header that `frame` of src/fix/frame.rs writes passes the
-- checks of the other side.
use rust_trader.Base.{ℕ, ◌<◌, ◌≡◌, refl, true, false, none, List, [], ◌∷◌, arith}
use rust_trader.Base.Eq.{Text, eqb_text, eqb_text_iff, nat_eq}
use rust_trader.Base.Int.{ℤ}
use rust_trader.Base.Lists.{is_empty}
use rust_trader.Base.Maps.{lookup}
use rust_trader.Base.Outcome.{ok, ◌>>=◌}
use rust_trader.Base.Texts.{show_nat, u64_bound}
use rust_trader.Base.Texts.Numbers.{parse_u64-show_nat, show_nat_occupied}
use rust_trader.Fix.Messages.{FixMessage, get, parse_required_u64, parse_required_seq}
use rust_trader.Fix.Frames.RoundTrip.{header}
use rust_trader.Fix.Headers.{
  TimeOps, values_of, only, validate_unique_header_tag, parse_required_text, parse_fix_timestamp,
  validate_timestamp_fields, validate_header,
}

-- The fields after the header repeat none of its tags, and do not mark the message as a duplicate.
pub record Plain (fields : List (ℕ × Text)) : Type 0 where
  pub no_type : values_of 35 fields ≡ []
  pub no_seq : values_of 34 fields ≡ []
  pub no_sender : values_of 49 fields ≡ []
  pub no_target : values_of 56 fields ≡ []
  pub no_time : values_of 52 fields ≡ []
  pub no_mark : values_of 43 fields ≡ []

pub lookup-values_of :
    (tag : ℕ) (fields : List (ℕ × Text)) → values_of tag fields ≡ [] → lookup tag fields ≡ none
unfolding values_of lookup
lookup-values_of tag [] h = refl
lookup-values_of tag ((t, value) ∷ fields) h = ground (arith, lookup-values_of tag fields)

pub eqb_self : (t : Text) → eqb_text t t ≡ true
eqb_self t = (eqb_text_iff t t).1 refl

module _ (begin kind : Text) (seq : ℕ) (sender target sent : Text) (fields : List (ℕ × Text))
    (raw : Text) where
  abbrev pub sent_message : FixMessage
  sent_message = record {
    begin_string = begin;
    fields = header kind seq sender target sent fields;
    raw = raw;
  }

  pub unique_lem :
      Plain fields
      → is_empty kind ≡ false
      → is_empty sender ≡ false
      → is_empty target ≡ false
      → is_empty sent ≡ false
      → (validate_unique_header_tag sent_message 35 ≡ ok kind)
        × (validate_unique_header_tag sent_message 49 ≡ ok sender)
        × (validate_unique_header_tag sent_message 56 ≡ ok target)
        × (validate_unique_header_tag sent_message 34 ≡ ok (show_nat seq))
        × (validate_unique_header_tag sent_message 52 ≡ ok sent)
  unfolding validate_unique_header_tag values_of only
  unique_lem p a b c d = (
    rw (p.no_type) (rw a refl),
    rw (p.no_sender) (rw b refl),
    rw (p.no_target) (rw c refl),
    rw (p.no_seq) (rw (show_nat_occupied seq) refl),
    rw (p.no_time) (rw d refl),
  )

  pub seq_lem : 0 < seq → seq < u64_bound → parse_required_seq sent_message ≡ ok seq
  unfolding parse_required_seq parse_required_u64 get lookup
  seq_lem p n = rw (parse_u64-show_nat seq n, ◌>>=◌) (ground arith)

  module _ ⦃time : TimeOps⦄ where
    pub timestamp_lem :
        (t : ℤ)
        → Plain fields
        → is_empty sent ≡ false
        → parse_fix_timestamp sent 52 ≡ ok t
        → validate_timestamp_fields sent_message ≡ ok tt
    unfolding validate_timestamp_fields parse_required_text get lookup
    timestamp_lem t p d h = rw d (rw (h, ◌>>=◌) (rw (lookup-values_of 43 fields p.no_mark) refl))

    pub validate_header-header :
        (t : ℤ)
        → Plain fields
        → 0 < seq
        → seq < u64_bound
        → is_empty kind ≡ false
        → is_empty sender ≡ false
        → is_empty target ≡ false
        → is_empty sent ≡ false
        → parse_fix_timestamp sent 52 ≡ ok t
        → validate_header sent_message begin sender target ≡ ok seq
    unfolding validate_header
    validate_header-header t p pos n a b c d h =
        let u = unique_lem p a b c d in
        rw (eqb_self begin) (
          rw (u.0, ◌>>=◌)
            (rw (u.1, ◌>>=◌)
              (rw (u.2, ◌>>=◌)
                (rw (eqb_self sender, eqb_self target)
                  (rw (u.3, ◌>>=◌)
                    (rw (u.4, ◌>>=◌) (rw (timestamp_lem t p d h, ◌>>=◌) (seq_lem pos n))))))))
