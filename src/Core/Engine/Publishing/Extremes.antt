-- ===== src/Core/Engine/Publishing/Extremes.antt =====
-- src/core/exchange/mod.rs, `record_market_data`: the high, the low and the volume.
use rust_trader.Base.{
  ◌≡◌, refl, sym, ap, ◌∙◌, ◌⊎◌, inl, inr, Bool, true, false, List, [], ◌∷◌, Bool-cases,
  if◌then◌else◌,
}
use rust_trader.Base.Lists.{All, is_empty}
use rust_trader.Decimal.{DecimalOps, IsOrdered}
use rust_trader.Decimal.Order.{le_trans, lt_asymm}
use rust_trader.Core.Books.{RawTrade}
use rust_trader.Core.Market.{Statistics}
use rust_trader.Core.Engine.Publishing.{add_trade, add_trades}

module _ {D : Type 0} ⦃dec : DecimalOps D⦄ where
  abbrev pub Within : Statistics D → D → Type 0
  Within s price = (dec.lt s.high price ≡ false) × (dec.lt price s.low ≡ false)

  -- The price is one of the trades'.
  abbrev pub Among : D → List (RawTrade D) → Type 0
  Among price [] = ⊥
  Among price (t ∷ trades) = (price ≡ t.price) ⊎ Among price trades

  abbrev pub volume_after : D → List (RawTrade D) → D
  volume_after volume [] = volume
  volume_after volume (t ∷ trades) = volume_after (dec.add volume t.quantity) trades

  -- `s'` is `s` after the trades: its range covers the old range and the trades' prices, and its ends
  -- are old ends or prices of trades.
  pub record Ranges (s s' : Statistics D) (trades : List (RawTrade D)) : Type 0 where
    pub covers : All (λ t. Within s' t.price) trades
    pub widens :
        s.has_high_low ≡ true
        → (s'.has_high_low ≡ true) × (dec.lt s'.high s.high ≡ false) × (dec.lt s.low s'.low ≡ false)
    pub begins : is_empty trades ≡ false → s'.has_high_low ≡ true
    pub high : Among s'.high trades ⊎ ((s.has_high_low ≡ s'.has_high_low) × (s'.high ≡ s.high))
    pub low : Among s'.low trades ⊎ ((s.has_high_low ≡ s'.has_high_low) × (s'.low ≡ s.low))
    pub volume : s'.volume ≡ volume_after s.volume trades

  -- Where there is a range, its high is not below its low.
  abbrev pub Proper : Statistics D → Type 0
  Proper s = s.has_high_low ≡ true → dec.lt s.high s.low ≡ false

module _ {D : Type 0} ⦃dec : DecimalOps D⦄ (o : IsOrdered D) where
  record Step (s s' : Statistics D) (t : RawTrade D) : Type 0 where
    within : Within s' t.price
    begun : s'.has_high_low ≡ true
    widens : s.has_high_low ≡ true → (dec.lt s'.high s.high ≡ false) × (dec.lt s.low s'.low ≡ false)
    high : (s'.high ≡ t.price) ⊎ ((s.has_high_low ≡ true) × (s'.high ≡ s.high))
    low : (s'.low ≡ t.price) ⊎ ((s.has_high_low ≡ true) × (s'.low ≡ s.low))
    volume : s'.volume ≡ dec.add s.volume t.quantity

  raised :
      (h p : D)
      → (dec.lt (if dec.lt h p then p else h) p ≡ false)
        × (dec.lt (if dec.lt h p then p else h) h ≡ false)
        × (((if dec.lt h p then p else h) ≡ p) ⊎ ((if dec.lt h p then p else h) ≡ h))
  raised h p = elim (Bool-cases (dec.lt h p)) [
    | inl less ↦ rw less (o.lt_irrefl p, lt_asymm o h p less, inl refl)
    | inr more ↦ rw more (more, o.lt_irrefl h, inr refl)
  ]

  lowered :
      (l p : D)
      → (dec.lt p (if dec.lt p l then p else l) ≡ false)
        × (dec.lt l (if dec.lt p l then p else l) ≡ false)
        × (((if dec.lt p l then p else l) ≡ p) ⊎ ((if dec.lt p l then p else l) ≡ l))
  lowered l p = elim (Bool-cases (dec.lt p l)) [
    | inl less ↦ rw less (o.lt_irrefl p, lt_asymm o p l less, inl refl)
    | inr more ↦ rw more (more, o.lt_irrefl l, inr refl)
  ]

  kept_or : {a b c : D} (h : Bool) → h ≡ true → (a ≡ b) ⊎ (a ≡ c) → (a ≡ b) ⊎ ((h ≡ true) × (a ≡ c))
  kept_or h e (inl x) = inl x
  kept_or h e (inr y) = inr (e, y)

  step : (s : Statistics D) (t : RawTrade D) → Step s (add_trade s t) t
  unfolding add_trade
  step s t = elim (Bool-cases s.has_high_low) [
    | inr fresh ↦ record {
      within = rw fresh (o.lt_irrefl t.price, o.lt_irrefl t.price);
      begun = rw fresh refl;
      widens = λ h. cc;
      high = rw fresh (inl refl);
      low = rw fresh (inl refl);
      volume = rw fresh refl;
    }
    | inl ranged ↦ record {
      within = rw ranged ((raised s.high t.price).0, (lowered s.low t.price).0);
      begun = rw ranged refl;
      widens = λ h. rw ranged ((raised s.high t.price).1, (lowered s.low t.price).1);
      high = rw ranged (kept_or true refl (raised s.high t.price).2);
      low = rw ranged (kept_or true refl (lowered s.low t.price).2);
      volume = rw ranged refl;
    }
  ]

  Within-later :
      (s s' : Statistics D) (price : D)
      → Within s price
      → dec.lt s'.high s.high ≡ false
      → dec.lt s.low s'.low ≡ false
      → Within s' price
  Within-later s s' price w h l =
      (le_trans o price s.high s'.high w.0 h, le_trans o s'.low s.low price l w.1)

  -- Recording trades keeps the high, the low and the volume: every price lies between the low and the
  -- high, the ends are prices of trades or the old ends, the old range is covered, and the volume is
  -- the old one and the traded quantities.
  pub add_trades-Ranges :
      (s : Statistics D) (trades : List (RawTrade D)) → Ranges s (add_trades s trades) trades
  unfolding add_trades
  add_trades-Ranges s [] = record {
    covers = tt;
    widens = λ h. (h, o.lt_irrefl s.high, o.lt_irrefl s.low);
    begins = λ e. cc;
    high = inr (refl, refl);
    low = inr (refl, refl);
    volume = refl;
  }
  add_trades-Ranges s (t ∷ trades) =
      let s1 = add_trade s t in
      let a = step s t in
      let r = add_trades-Ranges s1 trades in
      let w = r.widens a.begun in
      record {
        covers = (Within-later s1 (add_trades s1 trades) t.price a.within w.1 w.2, r.covers);
        widens = λ h.
            let v = a.widens h in
            (
              w.0,
              le_trans o s.high s1.high (add_trades s1 trades).high v.0 w.1,
              le_trans o (add_trades s1 trades).low s1.low s.low w.2 v.1,
            );
        begins = λ e. w.0;
        high = ends a.begun a.high r.high;
        low = ends a.begun a.low r.low;
        volume = r.volume ∙ ap (λ v. volume_after v trades) a.volume;
      }
    where
      ends :
          {x y z : D} {h k f : Bool}
          → k ≡ true
          → (y ≡ t.price) ⊎ ((h ≡ true) × (y ≡ z))
          → Among x trades ⊎ ((k ≡ f) × (x ≡ y))
          → Among x (t ∷ trades) ⊎ ((h ≡ f) × (x ≡ z))
      ends b a (inl among) = inl (inr among)
      ends b (inl e) (inr (k, f)) = inl (inl (f ∙ e))
      ends b (inr (h, e)) (inr (k, f)) = inr (h ∙ sym b ∙ k, f ∙ e)
