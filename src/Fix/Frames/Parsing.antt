-- ===== src/Fix/Frames/Parsing.antt =====
-- src/fix/frame.rs, `frame` and `parse_wire`: what is framed is parsed back.
use rust_trader.Base.{
  ℕ, ◌+◌, ◌-◌, ◌<◌, ◌≡◌, refl, ap, sym, ◌∙◌, true, false, ltb, some, List, [], ◌∷◌, ◌++◌, arith,
}
use mathlib.Core.List.{append_assoc}
use rust_trader.Base.Eq.{Text, codes}
use rust_trader.Base.Lists.{length, length-append, take, drop}
use rust_trader.Base.Outcome.{ok, ◌>>=◌}
use rust_trader.Base.Texts.{is_digit, show_nat, u64_bound}
use rust_trader.Base.Texts.Numbers.{all-show_nat}
use rust_trader.Base.Texts.Parts.{all, starts_with, ends_with, split_once}
use rust_trader.Base.Texts.Splitting.{
  split_once-Clean, all-Clean, all-append, take-append, drop-append,
}
use rust_trader.Fix.Frames.{
  soh, parse_wire, parse_fields, check_trailer, checksum, slice, any_framing, put_text,
  with_checksum, with_length, is_wire_byte,
}
use rust_trader.Fix.Frames.Printing.{Printable, is_printable, all-number, all-put_text}
use rust_trader.Fix.Frames.Trailer.{
  checksum-sum_bytes, checksum_below, trailer_of, check_trailer-trailer_of, all-trailer_of,
}

-- The steps of `parse_wire` that goes through.
parse_wire-steps :
    (wire begin after body_length rest body : Text) (fields : List (ℕ × Text))
    → all is_wire_byte wire ≡ true
    → split_once soh wire ≡ some (begin, after)
    → split_once soh after ≡ some (body_length, rest)
    → ltb (length wire) 7 ≡ false
    → check_trailer (drop (length wire - 7) wire) (checksum 0 (take (length wire - 7) wire)) ≡ ok tt
    → slice (length begin + 1 + length body_length + 1) (take (length wire - 7) wire) ≡ ok body
    → starts_with body (codes "35=") ≡ true
    → ends_with soh body ≡ true
    → parse_fields body ≡ ok fields
    → any_framing fields ≡ false
    → parse_wire wire ≡ ok (record { begin_string = drop 2 begin; fields = fields; raw = wire })
unfolding parse_wire
parse_wire-steps wire begin after body_length rest body fields a s1 s2 l c sl t e p u =
    rw (a, parse_wire)
      (rw s1
        (rw s2 (rw l (rw (c, ◌>>=◌) (rw (sl, ◌>>=◌) (rw t (rw e (rw (p, ◌>>=◌) (rw u refl)))))))))

-- A frame whose body is the text `body`.
module _ (begin body : Text) where
  abbrev pub framed : Text
  framed = with_checksum (with_length begin body)

  abbrev pub sum : ℕ
  sum = checksum 0 (with_length begin body)

  abbrev pub number : Text
  number = show_nat (length body)

  framed-trailer : framed ≡ with_length begin body ++ trailer_of sum
  unfolding with_checksum
  framed-trailer =
      ap (λ n. with_length begin body ++ trailer_of n)
        (sym (checksum-sum_bytes 0 (with_length begin body)))

  with_length-append :
      (rest : Text)
      → with_length begin body ++ rest
        ≡ (56 ∷ 61 ∷ begin) ++ soh ∷ ((57 ∷ 61 ∷ number) ++ soh ∷ (body ++ rest))
  unfolding with_length
  with_length-append rest = simp append_assoc

  front-parts :
      with_length begin body ≡ ((56 ∷ 61 ∷ begin) ++ soh ∷ ((57 ∷ 61 ∷ number) ++ soh ∷ [])) ++ body
  unfolding with_length
  front-parts = simp append_assoc

  -- Where the body begins.
  abbrev pub offset : ℕ
  offset = length (56 ∷ 61 ∷ begin) + 1 + length (57 ∷ 61 ∷ number) + 1

  offset_lem : length ((56 ∷ 61 ∷ begin) ++ soh ∷ ((57 ∷ 61 ∷ number) ++ soh ∷ [])) ≡ offset
  offset_lem = omega (
    arith,
    length-append {0} begin (soh ∷ ((57 ∷ 61 ∷ number) ++ soh ∷ [])),
    length-append {0} number (soh ∷ []),
  )

  slice_lem : slice offset (with_length begin body) ≡ ok body
  slice_lem =
      let prefix : Text = (56 ∷ 61 ∷ begin) ++ soh ∷ ((57 ∷ 61 ∷ number) ++ soh ∷ []) in
      let long = ap (length {A = ℕ}) front-parts ∙ length-append {0} prefix body in
      let dropped : drop offset (with_length begin body) ≡ body =
        ap (λ n. drop n (with_length begin body)) (sym offset_lem)
        ∙ ap (drop (length prefix)) front-parts
        ∙ drop-append prefix body in
      let within : ltb (length (with_length begin body)) offset ≡ false =
        ground (arith, offset_lem) in
      rw (within, dropped) refl

  length-framed : length framed ≡ length (with_length begin body) + 7
  length-framed =
      ap (length {A = ℕ}) framed-trailer
      ∙ length-append {0} (with_length begin body) (trailer_of sum)

  start_lem :
      (ltb (length framed) 7 ≡ false) × (length framed - 7 ≡ length (with_length begin body))
  start_lem = (ground (arith, length-framed), omega (arith, length-framed))

  front_lem : take (length framed - 7) framed ≡ with_length begin body
  front_lem =
      ap (λ n. take n framed) start_lem.1
      ∙ ap (take (length (with_length begin body))) framed-trailer
      ∙ take-append (with_length begin body) (trailer_of sum)

  back_lem : drop (length framed - 7) framed ≡ trailer_of sum
  back_lem =
      ap (λ n. drop n framed) start_lem.1
      ∙ ap (drop (length (with_length begin body))) framed-trailer
      ∙ drop-append (with_length begin body) (trailer_of sum)

  pub begin_lem :
      Printable begin
      → split_once soh framed
        ≡ some (56 ∷ 61 ∷ begin, (57 ∷ 61 ∷ number) ++ soh ∷ (body ++ trailer_of sum))
  begin_lem b =
      ap (split_once soh) (framed-trailer ∙ with_length-append (trailer_of sum))
      ∙ split_once-Clean soh (56 ∷ 61 ∷ begin)
          ((57 ∷ 61 ∷ number) ++ soh ∷ (body ++ trailer_of sum))
          (all-Clean is_printable soh begin refl b)

  pub length_lem :
      length body < u64_bound
      → split_once soh ((57 ∷ 61 ∷ number) ++ soh ∷ (body ++ trailer_of sum))
        ≡ some (57 ∷ 61 ∷ number, body ++ trailer_of sum)
  length_lem small =
      split_once-Clean soh (57 ∷ 61 ∷ number) (body ++ trailer_of sum)
        (all-Clean is_digit soh number refl (all-show_nat (length body) small))

  -- The length that the header gives is that of the frame.
  pub length-offset : length framed ≡ offset + length body + 7
  length-offset =
      let prefix : Text = (56 ∷ 61 ∷ begin) ++ soh ∷ ((57 ∷ 61 ∷ number) ++ soh ∷ []) in
      let long = ap (length {A = ℕ}) front-parts ∙ length-append {0} prefix body in
      omega (arith, long, offset_lem, length-framed)

  module _ (fields : List (ℕ × Text)) (small : length body < u64_bound) (b : Printable begin)
      (sent : all is_wire_byte body ≡ true) (third : starts_with body (codes "35=") ≡ true)
      (last : ends_with soh body ≡ true) (parsed : parse_fields body ≡ ok fields)
      (unframed : any_framing fields ≡ false) where
    sent_lem : all is_wire_byte framed ≡ true
    unfolding with_length
    sent_lem =
        ap (all is_wire_byte) framed-trailer
        ∙ all-append is_wire_byte (with_length begin body) (trailer_of sum)
            (all-put_text (codes "8") begin (put_text (codes "9") number body) refl b
              (all-append is_wire_byte number (soh ∷ body) (all-number (length body) small) sent))
            (all-trailer_of sum (checksum_below 0 (with_length begin body) (omega arith)))

    pub parse_wire-framed :
        parse_wire framed ≡ ok (record { begin_string = begin; fields = fields; raw = framed })
    parse_wire-framed =
        parse_wire-steps framed (56 ∷ 61 ∷ begin)
          ((57 ∷ 61 ∷ number) ++ soh ∷ (body ++ trailer_of sum)) (57 ∷ 61 ∷ number)
          (body ++ trailer_of sum) body fields sent_lem (begin_lem b) (length_lem small) start_lem.0
          (rw (front_lem, back_lem)
            (check_trailer-trailer_of sum
              (checksum_below 0 (with_length begin body) (omega arith))))
          (ap (slice offset) front_lem ∙ slice_lem) third last parsed unframed
