-- ===== src/Fix/Frames/Trailer.antt =====
-- src/fix/frame.rs: the checksum that `frame` writes is the one that `parse_wire` computes.
use rust_trader.Base.{ℕ, ◌+◌, ◌%◌, ◌<◌, ◌≡◌, refl, ap, ◌∙◌, true, some, [], ◌∷◌, arith}
use rust_trader.Base.Eq.{Text, codes}
use rust_trader.Base.Outcome.{ok, ◌>>=◌}
use rust_trader.Base.Texts.{is_digit, parse_nat, read_digits}
use rust_trader.Base.Texts.Parts.{all}
use rust_trader.Fix.Frames.{
  check_trailer, checksum, put_text, sum_bytes, three_digits, is_wire_byte,
}

pub checksum-sum_bytes : (sum : ℕ) (s : Text) → checksum (sum % 256) s ≡ sum_bytes sum s % 256
unfolding checksum sum_bytes
checksum-sum_bytes sum [] = refl
checksum-sum_bytes sum (b ∷ s) =
    let step : (sum % 256 + b) % 256 ≡ (sum + b) % 4294967296 % 256 = omega arith in
    ap (λ n. checksum n s) step ∙ checksum-sum_bytes ((sum + b) % 4294967296) s

pub checksum_below : (sum : ℕ) (s : Text) → sum < 256 → checksum sum s < 256
unfolding checksum
checksum_below sum [] h = h
checksum_below sum (b ∷ s) h = checksum_below ((sum + b) % 256) s (omega arith)

read_three : (n : ℕ) → n < 1000 → parse_nat 65536 (three_digits n) ≡ some n
unfolding parse_nat read_digits
read_three n h = ground arith

three_are_digits : (n : ℕ) → n < 1000 → all is_digit (three_digits n) ≡ true
three_are_digits n h = ground arith

abbrev pub trailer_of : ℕ → Text
trailer_of n = put_text (codes "10") (three_digits n) []

pub check_trailer-trailer_of : (n : ℕ) → n < 256 → check_trailer (trailer_of n) n ≡ ok tt
unfolding check_trailer
check_trailer-trailer_of n h =
    rw (three_are_digits n (omega arith)) (rw (read_three n (omega arith), ◌>>=◌) (ground arith))

pub all-trailer_of : (n : ℕ) → n < 256 → all is_wire_byte (trailer_of n) ≡ true
all-trailer_of n h = ground arith
