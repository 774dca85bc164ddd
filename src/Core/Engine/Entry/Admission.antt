-- ===== src/Core/Engine/Entry/Admission.antt =====
-- src/core/exchange/mod.rs: which requests are admitted, and that a refusal changes nothing.
use rust_trader.Base.{
  ◌≡◌, refl, sym, ap, ◌∙◌, ◌⊎◌, inl, inr, true, false, ◌||◌, ◌&&◌, none, some, List, [], arith,
  Bool-cases, Option-cases,
}
use mathlib.Core.Option.{some-injective}
use rust_trader.Base.Eq.{Text, int_eq, text_eq}
use rust_trader.Base.Int.{pos, negsuc, ltb_ℤ}
use rust_trader.Base.Maps.{lookup}
use rust_trader.Base.Texts.{show_int}
use rust_trader.Base.Outcome.{ok, err}
use rust_trader.Decimal.{DecimalOps, IsOrdered, IsExact, IsHalving, le}
use rust_trader.Decimal.Order.{lt_asymm}
use rust_trader.Core.Tiers.Plans.{tier_fill_plan_lem, tier_fill_plan-err}
use rust_trader.Core.Orders.{Order, OrderId, OrderType, market, limit}
use rust_trader.Core.Tiers.{
  EngineError, unknown_symbol, order_not_found, duplicate_order_id, invalid_order_id,
  invalid_quantity, invalid_price, too_many_tier_fills, FillPolicy, real, tiered,
  tier_max_remaining,
}
use rust_trader.Core.Market.{get_by_id, Instrument}
use rust_trader.Core.Engine.{Engine, Session, NewOrder, done, failed, Date}
use rust_trader.Core.Engine.Validation.{is_limit, validate_order_id, validate_order_input}
use rust_trader.Core.Engine.Entry.{check_new, plan_for, create_order}

pub validate_order_id_lem :
    (id : OrderId)
    → ((ltb_ℤ (pos 0) id ≡ true) × (validate_order_id id ≡ ok tt))
      ⊎ ((ltb_ℤ (pos 0) id ≡ false) × (validate_order_id id ≡ err (invalid_order_id id)))
unfolding validate_order_id
validate_order_id_lem (pos n) = ground arith
validate_order_id_lem (negsuc n) = ground arith

module _ {D : Type 0} ⦃dec : DecimalOps D⦄ where
  abbrev pub PriceValid : OrderType → D → Type 0
  PriceValid limit price = dec.lt dec.zero price ≡ true
  PriceValid market price = dec.lt price dec.zero ≡ false

  -- A request that the engine takes, with the session and the plan.
  pub record Admissible (e : Engine D) (session_id : Text) (new : NewOrder D) (plan : List D)
      : Type 0 where
    pub instrument : Instrument
    pub known : get_by_id e.instruments new.instrument_id ≡ some instrument
    pub identified : ltb_ℤ (pos 0) new.id ≡ true
    pub sized : dec.lt dec.zero new.quantity ≡ true
    pub priced : PriceValid new.order_type new.price
    pub session : Session D
    pub present : lookup session_id e.sessions ≡ some session
    pub unused : lookup new.id session.orders ≡ none
    pub planned : plan_for e.fill_policy new.quantity ≡ ok plan

  -- Why a request is refused.
  pub data Refusal (e : Engine D) (session_id : Text) (new : NewOrder D)
      : EngineError → Type 0 where
    unknown_instrument :
        get_by_id e.instruments new.instrument_id ≡ none
        → Refusal e session_id new (unknown_symbol (show_int new.instrument_id))
    bad_id : ltb_ℤ (pos 0) new.id ≡ false → Refusal e session_id new (invalid_order_id new.id)
    bad_quantity : dec.lt dec.zero new.quantity ≡ false → Refusal e session_id new invalid_quantity
    bad_price : (PriceValid new.order_type new.price → ⊥) → Refusal e session_id new invalid_price
    no_session : lookup session_id e.sessions ≡ none → Refusal e session_id new order_not_found
    used_id :
        (session : Session D) (o : Order D)
        → lookup session_id e.sessions ≡ some session
        → lookup new.id session.orders ≡ some o
        → Refusal e session_id new (duplicate_order_id new.id)
    over_limit :
        plan_for e.fill_policy new.quantity ≡ err too_many_tier_fills
        → Refusal e session_id new too_many_tier_fills

  abbrev pub Verdict : Engine D → Text → NewOrder D → Type 0
  Verdict e session_id new =
      ((plan : List D) × Admissible e session_id new plan
        × (check_new session_id new e ≡ done plan e))
      ⊎ ((x : EngineError) × Refusal e session_id new x × (check_new session_id new e ≡ failed x e))

  -- The checks of the input.
  pub data Input (new : NewOrder D) : Type 0 where
    valid :
        ltb_ℤ (pos 0) new.id ≡ true
        → dec.lt dec.zero new.quantity ≡ true
        → PriceValid new.order_type new.price
        → validate_order_input new.id new.order_type new.price new.quantity ≡ ok tt
        → Input new
    invalid :
        (x : EngineError)
        → ((e : Engine D) (session_id : Text) → Refusal e session_id new x)
        → validate_order_input new.id new.order_type new.price new.quantity ≡ err x
        → Input new

  price-cases :
      IsOrdered D
      → (t : OrderType) (p : D)
      → (PriceValid t p × ((dec.lt p dec.zero || (is_limit t && le p dec.zero)) ≡ false))
        ⊎ ((PriceValid t p → ⊥) × ((dec.lt p dec.zero || (is_limit t && le p dec.zero)) ≡ true))
  price-cases o market p = elim (Bool-cases (dec.lt p dec.zero)) [
    | inl less ↦ inr (λ v. cc, rw less refl)
    | inr more ↦ inl (more, rw more refl)
  ]
  price-cases o limit p = elim (Bool-cases (dec.lt dec.zero p)) [
    | inl above ↦ inl (above, rw (lt_asymm o dec.zero p above, above) refl)
    | inr below ↦ elim (Bool-cases (dec.lt p dec.zero)) [
      | inl less ↦ inr (λ v. cc, rw less refl)
      | inr more ↦ inr (λ v. cc, rw (more, below) refl)
    ]
  ]

  Input-cases : IsOrdered D → (new : NewOrder D) → Input new
  unfolding validate_order_input
  Input-cases o new = elim (validate_order_id_lem new.id) [
    | inr (n, f) ↦
        invalid (invalid_order_id new.id) (λ e s. bad_id n) (rw (f, validate_order_input) refl)
    | inl (i, f) ↦ elim (Bool-cases (dec.lt dec.zero new.quantity)) [
      | inr n ↦
          invalid invalid_quantity (λ e s. bad_quantity n) (rw (f, n, validate_order_input) refl)
      | inl q ↦ elim (price-cases o new.order_type new.price) [
        | inr (n, g) ↦
            invalid invalid_price (λ e s. bad_price n) (rw (f, q, g, validate_order_input) refl)
        | inl (p, g) ↦ valid i q p (rw (f, q, g, validate_order_input) refl)
      ]
    ]
  ]

  -- What the checks of `create_order` come to.
  Planned-cases :
      IsOrdered D
      → IsExact D
      → IsHalving D
      → (policy : FillPolicy) (r : D) → dec.lt dec.zero r ≡ true
      → ((plan : List D) × (plan_for policy r ≡ ok plan))
        ⊎ (plan_for policy r ≡ err too_many_tier_fills)
  unfolding plan_for
  Planned-cases o x v real r p = inl ([], refl)
  Planned-cases o x v tiered r p = elim (Bool-cases (dec.lt tier_max_remaining r)) [
    | inl over ↦ inr ((tier_fill_plan-err o x r).1 over)
    | inr within ↦
        let (plan, e, l, q, s) = tier_fill_plan_lem o x v r (lt_asymm o dec.zero r p) within in
        inl (plan, e)
  ]

  pub check_new-Verdict :
      IsOrdered D
      → IsExact D
      → IsHalving D
      → (e : Engine D) (session_id : Text) (new : NewOrder D) → Verdict e session_id new
  unfolding check_new
  check_new-Verdict o x v e session_id new =
      elim (Option-cases (get_by_id e.instruments new.instrument_id)) [
        | inl n ↦ inr (
          unknown_symbol (show_int new.instrument_id),
          unknown_instrument n,
          rw (n, check_new) refl,
        )
        | inr (i, n) ↦ elim (Input-cases o new) [
          | invalid y r f ↦ inr (y, r e session_id, rw (n, f, check_new) refl)
          | valid d q p f ↦ elim (Option-cases (lookup session_id e.sessions)) [
            | inl s ↦ inr (order_not_found, no_session s, rw (n, f, s, check_new) refl)
            | inr (session, s) ↦ elim (Option-cases (lookup new.id session.orders)) [
              | inr (old, u) ↦ inr (
                duplicate_order_id new.id,
                used_id session old s u,
                rw (n, f, s, u, check_new) refl,
              )
              | inl u ↦ elim (Planned-cases o x v e.fill_policy new.quantity q) [
                | inr w ↦
                    inr (too_many_tier_fills, over_limit w, rw (n, f, s, u, w, check_new) refl)
                | inl (plan, w) ↦ inl (
                  plan,
                  record {
                    instrument = i;
                    known = n;
                    identified = d;
                    sized = q;
                    priced = p;
                    session = session;
                    present = s;
                    unused = u;
                    planned = w;
                  },
                  rw (n, f, s, u, w, check_new) refl,
                )
              ]
            ]
          ]
        ]
      ]

  -- A request is admissible, or it is refused with a reason that is one of the listed ones, and the
  -- engine is as it was before.
  pub create_order-Refusal :
      IsOrdered D
      → IsExact D
      → IsHalving D
      → (e : Engine D) (today : Date) (session_id : Text) (new : NewOrder D)
      → ((plan : List D) × Admissible e session_id new plan)
        ⊎ ((x : EngineError) × Refusal e session_id new x
            × (create_order today session_id new e ≡ failed x e))
  unfolding create_order
  create_order-Refusal o x v e today session_id new =
      elim (check_new-Verdict o x v e session_id new) [
        | inl (plan, a, f) ↦ inl (plan, a)
        | inr (y, r, f) ↦ inr (y, r, rw (f, create_order) refl)
      ]

  -- No admissible request has a reason to be refused.
  Refusal-excludes :
      (e : Engine D) (session_id : Text) (new : NewOrder D) (plan : List D) (x : EngineError)
      → Admissible e session_id new plan
      → Refusal e session_id new x
      → ⊥
  Refusal-excludes e session_id new plan _ a (unknown_instrument h) = cc (a.known)
  Refusal-excludes e session_id new plan _ a (bad_id h) = cc (a.identified)
  Refusal-excludes e session_id new plan _ a (bad_quantity h) = cc (a.sized)
  Refusal-excludes e session_id new plan _ a (bad_price h) = h a.priced
  Refusal-excludes e session_id new plan _ a (no_session h) = cc (a.present)
  Refusal-excludes e session_id new plan _ a (used_id session o h k) =
      let s : a.session ≡ session = some-injective a.session session (sym a.present ∙ h) in
      let u : none ≡ some o = sym a.unused ∙ ap (λ (t : Session D). lookup new.id t.orders) s ∙ k in
      cc u
  Refusal-excludes e session_id new plan _ a (over_limit h) = cc (a.planned)

  pub check_new-Admissible :
      IsOrdered D
      → (e : Engine D) (session_id : Text) (new : NewOrder D) (plan : List D)
      → Admissible e session_id new plan
      → check_new session_id new e ≡ done plan e
  unfolding check_new
  check_new-Admissible o e session_id new plan a = elim (Input-cases o new) [
    | valid d q p f ↦ rw (a.known, f, a.present, a.unused, a.planned, check_new) refl
    | invalid y r f ↦ absurd (Refusal-excludes e session_id new plan y a (r e session_id))
  ]
