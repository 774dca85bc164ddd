-- ===== src/Fix/Frames/Corruption.antt =====
-- src/fix/frame.rs, `parse_wire`: what is known of a frame that is parsed, and of one with a byte changed.
use rust_trader.Base.{
  ℕ, ◌+◌, ◌-◌, ◌%◌, ◌<◌, ◌≡◌, ◌≢◌, refl, sym, ap, ◌∙◌, false, some, [], ◌∷◌, ◌++◌, arith,
}
use mathlib.Core.Option.{some-injective}
use rust_trader.Base.Eq.{Text}
use rust_trader.Base.Lists.{length, length-append, take, drop}
use rust_trader.Base.Outcome.{ok}
use rust_trader.Base.Texts.{parse_nat}
use rust_trader.Base.Texts.Splitting.{take-append, drop-append}
use rust_trader.Fix.Messages.{FixMessage}
use rust_trader.Fix.Frames.{parse_wire, check_trailer, checksum, any_framing}

trailer_says :
    (trailer : Text) (sum : ℕ)
    → check_trailer trailer sum ≡ ok tt
    → parse_nat 65536 (take 3 (drop 3 trailer)) ≡ some sum
unfolding check_trailer
trailer_says trailer sum h = ground arith

parse_wire-trailer :
    (wire : Text) (m : FixMessage)
    → parse_wire wire ≡ ok m
    → check_trailer (drop (length wire - 7) wire) (checksum 0 (take (length wire - 7) wire)) ≡ ok tt
unfolding parse_wire
parse_wire-trailer wire m h = ground arith

parse_wire-raw : (wire : Text) (m : FixMessage) → parse_wire wire ≡ ok m → m.raw ≡ wire
unfolding parse_wire
parse_wire-raw wire m h = ground arith

parse_wire-unframed :
    (wire : Text) (m : FixMessage) → parse_wire wire ≡ ok m → any_framing m.fields ≡ false
unfolding parse_wire
parse_wire-unframed wire m h = ground arith

checksum-append : (sum : ℕ) (s t : Text) → checksum sum (s ++ t) ≡ checksum (checksum sum s) t
unfolding checksum
checksum-append sum [] t = refl
checksum-append sum (b ∷ s) t = checksum-append ((sum + b) % 256) s t

checksum-add : (sum : ℕ) (s : Text) → sum < 256 → checksum sum s ≡ (sum + checksum 0 s) % 256
unfolding checksum
checksum-add sum [] h = omega arith
checksum-add sum (b ∷ s) h = omega (
  arith,
  checksum-add ((sum + b) % 256) s (omega arith),
  checksum-add ((0 + b) % 256) s (omega arith),
)

-- Two bytes that give one sum are one.
checksum-injective :
    (p q : Text) (a b : ℕ)
    → a < 256
    → b < 256
    → checksum 0 (p ++ a ∷ q) ≡ checksum 0 (p ++ b ∷ q)
    → a ≡ b
unfolding checksum
checksum-injective p q a b ha hb h =
    let c = checksum 0 p in
    omega (
      arith,
      sym (checksum-append 0 p (a ∷ q)) ∙ h ∙ checksum-append 0 p (b ∷ q),
      checksum-add ((c + a) % 256) q (omega arith),
      checksum-add ((c + b) % 256) q (omega arith),
    )

-- A frame taken apart before its trailer.
cut :
    (front trailer : Text)
    → length trailer ≡ 7
    → (take (length (front ++ trailer) - 7) (front ++ trailer) ≡ front)
      × (drop (length (front ++ trailer) - 7) (front ++ trailer) ≡ trailer)
cut front trailer h =
    let n : length (front ++ trailer) - 7 ≡ length front =
      omega (arith, length-append {0} front trailer, h) in
    (
      ap (λ k. take k (front ++ trailer)) n ∙ take-append front trailer,
      ap (λ k. drop k (front ++ trailer)) n ∙ drop-append front trailer,
    )

declared :
    (front trailer : Text) (m : FixMessage)
    → length trailer ≡ 7
    → parse_wire (front ++ trailer) ≡ ok m
    → parse_nat 65536 (take 3 (drop 3 trailer)) ≡ some (checksum 0 front)
declared front trailer m h k =
    let t =
      trailer_says (drop (length (front ++ trailer) - 7) (front ++ trailer))
        (checksum 0 (take (length (front ++ trailer) - 7) (front ++ trailer)))
        (parse_wire-trailer (front ++ trailer) m k) in
    ap (λ u. parse_nat 65536 (take 3 (drop 3 u))) (sym (cut front trailer h).1)
    ∙ t
    ∙ ap (λ u. some (checksum 0 u)) (cut front trailer h).0

-- Of a frame that is parsed, no copy with one byte before the trailer changed is parsed too; and what
-- is parsed keeps the frame as its raw text, and has no framing field in its body.
pub parse_wire-changed :
    (p q trailer : Text) (a b : ℕ) (m : FixMessage)
    → length trailer ≡ 7
    → a < 256
    → b < 256
    → a ≢ b
    → parse_wire ((p ++ a ∷ q) ++ trailer) ≡ ok m
    → ((m' : FixMessage) → parse_wire ((p ++ b ∷ q) ++ trailer) ≢ ok m')
      × (m.raw ≡ (p ++ a ∷ q) ++ trailer)
      × (any_framing m.fields ≡ false)
parse_wire-changed p q trailer a b m h ha hb differ k = (
  λ m' k'. differ (
      checksum-injective p q a b ha hb (
        some-injective _ _
          (sym (declared (p ++ a ∷ q) trailer m h k) ∙ declared (p ++ b ∷ q) trailer m' h k'))),
  parse_wire-raw ((p ++ a ∷ q) ++ trailer) m k,
  parse_wire-unframed ((p ++ a ∷ q) ++ trailer) m k,
)
