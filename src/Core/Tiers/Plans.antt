-- ===== src/Core/Tiers/Plans.antt =====
-- The plans of `tier_fill_plan`: when there is one, how long it is and what it adds up to.
use rust_trader.Base.{
  ℕ, zero, suc, ◌+◌, ◌*◌, ◌≤◌, ◌≡◌, refl, sym, ap, subst, ◌∙◌, inl, inr, true, false, some, List,
  [], ◌∷◌, arith, Bool-cases,
}
use rust_trader.Base.Lists.{length, All}
use rust_trader.Base.Outcome.{ok, err}
use rust_trader.Decimal.{DecimalOps, IsOrdered, IsExact, IsHalving}
use rust_trader.Decimal.Order.{lt_asymm}
use rust_trader.Decimal.Sums.{lt-sub, from-lt, lt-sub_right}
use rust_trader.Core.Tiers.{
  invalid_quantity, too_many_tier_fills, max_tier_fills, tier_chunk, tier_max_remaining, cut_lots,
  tier_fill_plan,
}

module _ {D : Type 0} ⦃dec : DecimalOps D⦄ where
  abbrev pub plan_sum : List D → D
  plan_sum [] = dec.zero
  plan_sum (q ∷ plan) = dec.add q (plan_sum plan)

  abbrev pub Positive : List D → Type 0
  Positive = All (λ q. dec.lt dec.zero q ≡ true)

module _ {D : Type 0} ⦃dec : DecimalOps D⦄ (o : IsOrdered D) (x : IsExact D) where
  is_zero-lt : (a : D) → dec.lt dec.zero a ≡ true → dec.is_zero a ≡ false
  is_zero-lt a p = ground (arith, o.is_zero_iff a, o.lt_irrefl a)

  lot_step : (n : ℕ) → suc n * tier_chunk ≡ n * tier_chunk + tier_chunk
  lot_step n = omega arith

  -- What is left after a lot needs one lot less.
  lot-fits :
      (n : ℕ) (rest : D)
      → dec.lt (dec.from (suc n * tier_chunk)) rest ≡ false
      → dec.lt (dec.from (n * tier_chunk)) (dec.sub rest (dec.from tier_chunk)) ≡ false
  lot-fits n rest h =
      lt-sub_right x (dec.from (n * tier_chunk)) (dec.from tier_chunk) rest
      ∙ ap (λ a. dec.lt a rest)
          (sym (ap dec.from (lot_step n) ∙ x.from_add (n * tier_chunk) tier_chunk))
      ∙ h

  -- As many rounds as there are lots suffice, and the lots add up to what was to be cut.
  cut_lots_lem :
      (n : ℕ) (rest : D)
      → dec.lt dec.zero rest ≡ true
      → dec.lt (dec.from (n * tier_chunk)) rest ≡ false
      → (plan : List D) × (cut_lots n rest ≡ some plan)
        × (length plan ≤ n)
        × Positive plan
        × (plan_sum plan ≡ rest)
  unfolding cut_lots
  cut_lots_lem zero rest p h = absurd (ground (arith, x.from_zero))
  cut_lots_lem (suc n) rest p h = elim (Bool-cases (dec.lt (dec.from tier_chunk) rest)) [
    | inl more ↦
        let (plan, e, l, q, s) =
          cut_lots_lem n (dec.sub rest (dec.from tier_chunk))
            (lt-sub x rest (dec.from tier_chunk) ∙ more) (lot-fits n rest h) in
        (
          dec.from tier_chunk ∷ plan,
          rw more (rw e refl),
          omega arith,
          (x.from_pos 99, q),
          ap (dec.add (dec.from tier_chunk)) s
              ∙ x.add_comm _ _
              ∙ x.sub_add rest (dec.from tier_chunk),
        )
    | inr last ↦
        (rest ∷ [], rw last (rw (is_zero-lt rest p) refl), omega arith, (p, tt), x.add_zero rest)
  ]

  max_lots : tier_max_remaining ≡ dec.from 25600
  max_lots = sym (x.from_mul max_tier_fills tier_chunk)

  above :
      (m k : ℕ) (r : D) → dec.lt (dec.from (m + (k + 1))) r ≡ true → dec.lt (dec.from m) r ≡ true
  above m k r h = o.lt_trans (dec.from m) (dec.from (m + (k + 1))) r (from-lt x m k) h

  positive : (k : ℕ) (r : D) → dec.lt (dec.from (k + 1)) r ≡ true → dec.lt dec.zero r ≡ true
  positive k r h = o.lt_trans dec.zero (dec.from (k + 1)) r (x.from_pos k) h

  single : (q r : D) → dec.lt r q ≡ false → dec.lt r (dec.add q dec.zero) ≡ false
  single q r h = rw (x.add_zero q) h

  lots_lem :
      (r : D)
      → dec.lt dec.zero r ≡ true
      → dec.lt tier_max_remaining r ≡ false
      → (plan : List D) × (cut_lots max_tier_fills r ≡ some plan)
        × (length plan ≤ max_tier_fills)
        × Positive plan
        × (plan_sum plan ≡ r)
  lots_lem r p h = cut_lots_lem max_tier_fills r p (subst (λ a. dec.lt a r ≡ false) max_lots h)

  -- A remaining quantity within the limit has a plan of at most `max_tier_fills` fills, each
  -- positive, and of at most what remains in total.
  pub tier_fill_plan_lem :
      IsHalving D
      → (r : D) → dec.lt r dec.zero ≡ false
      → dec.lt tier_max_remaining r ≡ false
      → (plan : List D) × (tier_fill_plan r ≡ ok plan)
        × (length plan ≤ max_tier_fills)
        × Positive plan
        × (dec.lt r (plan_sum plan) ≡ false)
  unfolding tier_fill_plan
  tier_fill_plan_lem v r p h = elim (Bool-cases (dec.lt (dec.from 100) r)) [
    | inr a ↦ ([], rw (p, a) refl, omega arith, tt, p)
    | inl a ↦ elim (Bool-cases (dec.lt (dec.from 1000) r)) [
      | inr b ↦ (
        r ∷ [],
        rw (p, a, b) refl,
        omega arith,
        (positive 99 r a, tt),
        single r r (o.lt_irrefl r),
      )
      | inl b ↦ elim (Bool-cases (dec.lt (dec.from 2000) r)) [
        | inr c ↦ (
          dec.div r (dec.from 2) ∷ [],
          rw (p, a, b, c) refl,
          omega arith,
          (v.half_pos r (above 1 98 r a), tt),
          single (dec.div r (dec.from 2)) r (v.half_le r (positive 99 r a)),
        )
        | inl c ↦
            let (plan, e, l, q, s) = lots_lem r (positive 99 r a) h in
            (plan, rw (p, a, b, c, h, e) refl, l, q, rw s (o.lt_irrefl r))
      ]
    ]
  ]

  -- Above the tiers of one fill the lots are for the whole quantity.
  pub tier_fill_plan-sum :
      (r : D)
      → dec.lt (dec.from 2000) r ≡ true
      → dec.lt tier_max_remaining r ≡ false
      → (plan : List D) × (tier_fill_plan r ≡ ok plan) × (plan_sum plan ≡ r)
  unfolding tier_fill_plan
  tier_fill_plan-sum r c h =
      let (plan, e, l, q, s) = lots_lem r (positive 1999 r c) h in
      (
        plan,
        rw
            (
              lt_asymm o dec.zero r (positive 1999 r c),
              above 100 1899 r c,
              above 1000 999 r c,
              c,
              h,
              e,
            )
            refl,
        s,
      )

  -- A negative quantity, or one above the limit, is refused.
  pub tier_fill_plan-err :
      (r : D)
      → (dec.lt r dec.zero ≡ true → tier_fill_plan r ≡ err invalid_quantity)
        × (dec.lt tier_max_remaining r ≡ true → tier_fill_plan r ≡ err too_many_tier_fills)
  unfolding tier_fill_plan
  tier_fill_plan-err r = (
    λ n. rw n refl,
    λ m.
        let c = subst (λ a. dec.lt a r ≡ true) max_lots m in
        rw
          (
            lt_asymm o dec.zero r (positive 25599 r c),
            above 100 25499 r c,
            above 1000 24599 r c,
            above 2000 23599 r c,
            m,
          )
          refl,
  )
