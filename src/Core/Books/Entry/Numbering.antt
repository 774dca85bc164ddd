-- ===== src/Core/Books/Entry/Numbering.antt =====
-- The number of the instrument is the same for the whole life of its book.
use rust_trader.Base.{
  ℕ, zero, suc, ◌≡◌, refl, sym, ap, ◌∙◌, inl, inr, Option, none, some, List, [], ◌∷◌, ◌&&◌,
  Bool-cases, Option-cases,
}
use mathlib.Core.Option.{some-injective}
use rust_trader.Base.Maps.{lookup, update}
use rust_trader.Base.Outcome.{Outcome, ok, err, panics, ok_or, unwrap_ok, bind-eq-ok, ok-injective}
use rust_trader.Decimal.{DecimalOps, decimal_eq}
use rust_trader.Core.Orders.{Order, Side, buy, sell, cancelled, effective_price}
use rust_trader.Core.Levels.{Identity, identity, store, remove_order}
use rust_trader.Core.Books.{
  Ladder, OrderBook, RawTrade, ladder, with_ladder, ◌>>=?◌, insert, push_at, fill_in, execute_trade,
  match_loop, match_trades, next_trade, settle,
}
use rust_trader.Core.Books.Entry.{
  is_market, is_cancelled, Added, add, conclude, rest_or_cancel, store_in, remove, locate_in,
}

pub bind-eq-some :
    {A B : Type 0} (m : Option A) (f : A → Option B) {b : B}
    → (m >>=? f) ≡ some b
    → (a : A) × (m ≡ some a) × (f a ≡ some b)
bind-eq-some none f h = cc
bind-eq-some (some a) f h = (a, refl, h)

unwrap_ok-eq : {E A : Type 0} (m : Outcome E A) (a : A) → unwrap_ok m ≡ some a → m ≡ ok a
unwrap_ok-eq (ok b) a h = ap ok (some-injective b a h)
unwrap_ok-eq (err e) a h = cc
unwrap_ok-eq panics a h = cc

with_ladder-instrument_id :
    {D : Type 0} (b : OrderBook D) (side : Side) (levels : Ladder D)
    → (with_ladder b side levels).instrument_id ≡ b.instrument_id
with_ladder-instrument_id b buy levels = refl
with_ladder-instrument_id b sell levels = refl

module _ {D : Type 0} ⦃dec : DecimalOps D⦄ where
  insert-instrument_id :
      (b b' : OrderBook D) (o : Order D) → insert b o ≡ some b' → b'.instrument_id ≡ b.instrument_id
  unfolding insert
  insert-instrument_id b b' o h =
      let (levels, e, f) =
        bind-eq-some (push_at o.side (effective_price o) o (ladder b o.side)) _ h in
      ap (λ (c : OrderBook D). c.instrument_id) (sym (some-injective _ b' f))
      ∙ with_ladder-instrument_id b o.side levels

  execute_trade-instrument_id :
      (b b' : OrderBook D) (t : RawTrade D)
      → execute_trade b t ≡ some b'
      → b'.instrument_id ≡ b.instrument_id
  unfolding execute_trade
  execute_trade-instrument_id b b' t h =
      let (bids, e, f) = bind-eq-some (fill_in b.bids t.buyer t.quantity) _ h in
      let (asks, g, k) = bind-eq-some (fill_in b.asks t.seller t.quantity) _ f in
      ap (λ (c : OrderBook D). c.instrument_id) (sym (some-injective _ b' k))

  match_loop-instrument_id :
      (fuel : ℕ) (b : OrderBook D) (r : List (RawTrade D) × OrderBook D)
      → match_loop fuel b ≡ some r
      → (r.1).instrument_id ≡ b.instrument_id
  unfolding match_loop
  match_loop-instrument_id zero b r h = cc
  match_loop-instrument_id (suc fuel) b r h = elim (Option-cases (next_trade b)) [
    | inl e ↦ cc (rw (e, match_loop) at h)
    | inr (t, e) ↦ made (λ b' q m. match_loop-instrument_id fuel b' q m) t (rw (e, match_loop) at h)
  ]
    where
      made :
          ((b' : OrderBook D) (q : List (RawTrade D) × OrderBook D)
            → match_loop fuel b' ≡ some q
            → (q.1).instrument_id ≡ b'.instrument_id)
          → (t : Option (RawTrade D))
          → elim t [
            | none ↦ some ([], b)
            | some t ↦ execute_trade b t >>=? λ b'. match_loop fuel b' >>=? λ r. some (t ∷ r.0, r.1)
          ]
            ≡ some r
          → (r.1).instrument_id ≡ b.instrument_id
      made again none k =
          ap (λ (q : List (RawTrade D) × OrderBook D). (q.1).instrument_id)
            (sym (some-injective _ r k))
      made again (some t) k =
          let (b', f, g) = bind-eq-some (execute_trade b t) _ k in
          let (q, m, n) = bind-eq-some (match_loop fuel b') _ g in
          ap (λ (q : List (RawTrade D) × OrderBook D). (q.1).instrument_id)
            (sym (some-injective _ r n))
          ∙ again b' q m
          ∙ execute_trade-instrument_id b b' t f

  store_in-instrument_id :
      (b b' : OrderBook D) (i : Identity) (side : Side) (price : D) (o : Order D)
      → store_in b i side price o ≡ some b'
      → b'.instrument_id ≡ b.instrument_id
  unfolding store_in
  store_in-instrument_id b b' i side price o h =
      let (l, e, f) = bind-eq-some (lookup price (ladder b side)) _ h in
      let (l', g, k) = bind-eq-some (store l i o) _ f in
      ap (λ (c : OrderBook D). c.instrument_id) (sym (some-injective _ b' k))
      ∙ with_ladder-instrument_id b side (update price l' (ladder b side))

  pub remove-instrument_id :
      (b : OrderBook D) (i : Identity) (side : Side) (price : D) (r : Order D × OrderBook D)
      → remove b i side price ≡ ok r
      → (r.1).instrument_id ≡ b.instrument_id
  unfolding remove
  remove-instrument_id b i side price r h =
      let (l, e, f) = bind-eq-ok (ok_or tt (lookup price (ladder b side))) _ h in
      let (q, g, k) = bind-eq-ok (remove_order l i) _ f in
      ap (λ (c : Order D × OrderBook D). (c.1).instrument_id) (sym (ok-injective _ _ r refl k))
      ∙ with_ladder-instrument_id b side (settle price q.1 (ladder b side))

  rest_or_cancel-instrument_id :
      (b : OrderBook D) (o resting : Order D) (r : Order D × OrderBook D)
      → rest_or_cancel b o resting ≡ some r
      → (r.1).instrument_id ≡ b.instrument_id
  unfolding rest_or_cancel
  rest_or_cancel-instrument_id b o resting r h =
      elim (Bool-cases (is_market o.order_type && dec.lt dec.zero resting.remaining)) [
        | inl m ↦
            let (b', e, f) =
              bind-eq-some
                (store_in b (identity o) o.side (effective_price o)
                  (record resting { state = cancelled }))
                _ (rw (m, rest_or_cancel) at h) in
            remove-instrument_id b' (identity o) o.side (effective_price o) r (unwrap_ok-eq _ r f)
            ∙ store_in-instrument_id b b' (identity o) o.side (effective_price o) _ e
        | inr n ↦ elim (Bool-cases (is_cancelled resting.state)) [
          | inl c ↦
              remove-instrument_id b (identity o) o.side (effective_price o) r
                (unwrap_ok-eq _ r (rw (n, c, rest_or_cancel) at h))
          | inr c ↦
              let k : some (resting, b) ≡ some r = rw (n, c, rest_or_cancel) at h in
              ap (λ (q : Order D × OrderBook D). (q.1).instrument_id) (sym (some-injective _ r k))
        ]
      ]

  conclude-instrument_id :
      (o : Order D) (trades : List (RawTrade D)) (b : OrderBook D) (a : Added D)
      → conclude o trades b ≡ some a
      → a.book.instrument_id ≡ b.instrument_id
  unfolding conclude
  conclude-instrument_id o trades b a h =
      elim (Option-cases (locate_in b (identity o) o.side (effective_price o))) [
        | inl e ↦
            ap (λ (q : Added D). q.book.instrument_id)
              (sym (some-injective _ a (rw (e, conclude) at h)))
        | inr (resting, e) ↦
            let (r, f, k) = bind-eq-some (rest_or_cancel b o resting) _ (rw (e, conclude) at h) in
            ap (λ (q : Added D). q.book.instrument_id) (sym (some-injective _ a k))
            ∙ rest_or_cancel-instrument_id b o resting r f
      ]

  pub add-instrument_id :
      (b : OrderBook D) (new : Order D) (a : Added D)
      → add b new ≡ some a
      → a.book.instrument_id ≡ b.instrument_id
  unfolding add match_trades
  add-instrument_id b new a h =
      let (b', e, f) = bind-eq-some (insert b _) _ h in
      let (m, g, k) = bind-eq-some (match_trades b') (λ m. conclude _ m.0 m.1) f in
      conclude-instrument_id _ m.0 m.1 a k
      ∙ match_loop-instrument_id _ b' m g
      ∙ insert-instrument_id b b' _ e
