-- ===== src/Core/Market/Loading/Numbered.antt =====
-- src/core/instrument.rs, `load_from_reader`: the identifiers that lines can give.
use rust_trader.Base.{
  ℕ, ◌<◌, ◌≡◌, ◌≢◌, refl, ap, subst, ◌∙◌, inl, inr, true, not, ◌||◌, some, List, [], ◌∷◌,
  Bool-cases, arith,
}
use mathlib.Core.Option.{some-injective}
use rust_trader.Base.Eq.{Text, int_eq, text_eq}
use rust_trader.Base.Int.{ℤ, pos, negsuc, eqb_ℤ, leb_ℤ}
use rust_trader.Base.Outcome.{
  ok, ensure, ok_or, bind-eq-ok, ok-injective, ensure-eq-ok, ok_or-eq-ok,
}
use rust_trader.Base.Texts.{parse_i64}
use rust_trader.Base.Texts.Numbers.{parse_i64_below}
use rust_trader.Base.Texts.Parts.{all}
use rust_trader.Core.Market.{Instrument}
use rust_trader.Core.Market.Registry.{numbered_as}
use rust_trader.Core.Market.Loading.{
  bad_id, id_out_of_range, bad_symbol, is_symbol_byte, parse_entry, parse_words, parse_trimmed,
  parse_line, is_skipped, split_whitespace, spaced, trim_start, trim_end,
}

-- An instrument whose identifier is positive and below the largest `i64`.
pub record Numbered (i : Instrument) : Type 0 where
  pub number : ℕ
  pub above : 0 < number
  pub bounded : number < 9223372036854775807
  pub is : i ≡ numbered_as number i.symbol

in_range :
    (id : ℤ)
    → (not (leb_ℤ id (pos 0) || eqb_ℤ id (pos 9223372036854775807))) ≡ true
    → (k : ℕ) × (id ≡ pos k) × (0 < k) × (k ≢ 9223372036854775807)
in_range (pos k) h = (k, refl, ground arith, ground arith)
in_range (negsuc k) h = ground arith

entry-Numbered :
    (id : ℤ) (a b : Text)
    → parse_i64 a ≡ some id
    → (not (leb_ℤ id (pos 0) || eqb_ℤ id (pos 9223372036854775807))) ≡ true
    → Numbered (record { id = id; symbol = b })
entry-Numbered id a b h r =
    let (k, e, p, q) = in_range id r in
    record {
      number = k;
      above = p;
      bounded = omega (arith, q, parse_i64_below k a (h ∙ ap some e));
      is = ap (λ (j : ℤ). record { id = j; symbol = b }) e;
    }

parse_entry-Numbered : (a b : Text) (i : Instrument) → parse_entry a b ≡ ok i → Numbered i
unfolding parse_entry
parse_entry-Numbered a b i h =
    let (id, e, f) = bind-eq-ok (ok_or bad_id (parse_i64 a)) _ h in
    let (t, c, g) =
      bind-eq-ok
        (ensure (not (leb_ℤ id (pos 0) || eqb_ℤ id (pos 9223372036854775807))) id_out_of_range) _
        f in
    let (u, d, k) = bind-eq-ok (ensure (all is_symbol_byte b) bad_symbol) _ g in
    subst Numbered (ok-injective _ (record { id = id; symbol = b }) i refl k) (
      entry-Numbered id a b (ok_or-eq-ok bad_id (parse_i64 a) e) (ensure-eq-ok _ id_out_of_range c))

parse_words-Numbered : (ws : List Text) (i : Instrument) → parse_words ws ≡ ok i → Numbered i
unfolding parse_words
parse_words-Numbered [] i h = cc
parse_words-Numbered (a ∷ []) i h = cc
parse_words-Numbered (a ∷ b ∷ []) i h = parse_entry-Numbered a b i h
parse_words-Numbered (a ∷ b ∷ c ∷ ws) i h = cc

parse_trimmed-Numbered : (s : Text) (i : Instrument) → parse_trimmed s ≡ ok (some i) → Numbered i
unfolding parse_trimmed
parse_trimmed-Numbered s i h = elim (Bool-cases (is_skipped s)) [
  | inl skip ↦ cc
  | inr plain ↦
      let (j, e, f) = bind-eq-ok (parse_words (split_whitespace s)) _ (rw plain at h) in
      subst Numbered (some-injective j i (ok-injective _ (some j) (some i) refl f))
        (parse_words-Numbered (split_whitespace s) j e)
]

pub parse_line-Numbered :
    (line : Text) (i : Instrument) → parse_line line ≡ ok (some i) → Numbered i
unfolding parse_line
parse_line-Numbered line i h = parse_trimmed-Numbered (trim_end (trim_start (spaced line))) i h
