-- ===== src/Queue/Delivery.antt =====
-- What a queue delivers over any interleaving of sends and receipts.
use rust_trader.Base.{
  ◌≤◌, ◌≡◌, refl, sym, ap, ◌∙◌, ◌⊎◌, inl, inr, true, false, List, [], ◌∷◌, ◌++◌, arith, Bool-cases,
  ltb,
}
use mathlib.Core.List.{append_assoc, append-nil}
use rust_trader.Base.Lists.{length, length-append}
use rust_trader.Queue.{Channel, send, try_send, mark}

-- A step of one of the two ends, of the standard library, or of another queue with the same flag.
pub data Event (T : Type 0) : Type 0 where
  sends : T → Event T
  receives hangs_up fails : Event T

module _ {T : Type 0} where
  taken : Channel T → List T → Channel T × List T
  taken c [] = (c, [])
  taken c (v ∷ rest) = (record c { waiting = rest }, v ∷ [])

  -- The channel after an event, with what the receiver got.
  unfoldable pub step : Channel T → Event T → Channel T × List T
  unfolding taken
  step c (sends v) = ((send c v).1, [])
  step c receives = taken c c.waiting
  step c hangs_up = (record c { connected = false }, [])
  step c fails = (record c { failed = true }, [])

  unfoldable pub run : Channel T → List (Event T) → Channel T × List T
  unfolding step
  run c [] = (c, [])
  run c (e ∷ events) =
      let (c', got) = step c e in let (end, later) = run c' events in (end, got ++ later)

  abbrev pub sent : List (Event T) → List T
  sent [] = []
  sent (sends v ∷ events) = v ∷ sent events
  sent (_ ∷ events) = sent events

  -- A run delivers, and keeps waiting, what was waiting and sent but for a last part `lost`, which is
  -- empty unless the flag is set.
  pub record Delivers (c : Channel T) (events : List (Event T)) : Type 0 where
    pub lost : List T
    pub prefix : c.waiting ++ sent events ≡ ((run c events).1 ++ (run c events).0.waiting) ++ lost
    pub whole : ((run c events).0.failed ≡ true) ⊎ (lost ≡ [])
    pub bounded : length (run c events).0.waiting ≤ c.capacity

  -- The same of one step; a queue whose flag is set takes nothing in.
  record Stepped (c : Channel T) (e : Event T) : Type 0 where
    lost : List T
    moved : c.waiting ++ sent (e ∷ []) ≡ ((step c e).1 ++ (step c e).0.waiting) ++ lost
    whole : ((step c e).0.failed ≡ true) ⊎ (lost ≡ [])
    stays : c.failed ≡ true → (step c e).0.failed ≡ true
    closed : c.failed ≡ true → c.waiting ≡ (step c e).1 ++ (step c e).0.waiting
    bounded : length (step c e).0.waiting ≤ (step c e).0.capacity
    sized : (step c e).0.capacity ≡ c.capacity

  send-failed : (c : Channel T) (v : T) → c.failed ≡ true → (send c v).1 ≡ c
  unfolding send
  send-failed c v f = rw f

  send-gone :
      (c : Channel T) (v : T)
      → c.failed ≡ false
      → c.connected ≡ false
      → (send c v).1 ≡ record c { failed = true }
  unfolding send try_send mark
  send-gone c v f d = rw (f, d)

  send-full :
      (c : Channel T) (v : T)
      → c.failed ≡ false
      → c.connected ≡ true
      → ltb (length c.waiting) c.capacity ≡ false
      → (send c v).1 ≡ record c { failed = true }
  unfolding send try_send mark
  send-full c v f d n = rw (f, d, n)

  send-accepted :
      (c : Channel T) (v : T)
      → c.failed ≡ false
      → c.connected ≡ true
      → ltb (length c.waiting) c.capacity ≡ true
      → (send c v).1 ≡ record c { waiting = c.waiting ++ v ∷ [] }
  unfolding send try_send mark
  send-accepted c v f d n = rw (f, d, n)

  refusing :
      (c c' : Channel T) (v : T)
      → (send c v).1 ≡ c'
      → c'.waiting ≡ c.waiting
      → c'.capacity ≡ c.capacity
      → c'.failed ≡ true
      → length c.waiting ≤ c.capacity
      → Stepped c (sends v)
  unfolding step
  refusing c c' v e w k f h = record {
    lost = v ∷ [];
    moved = rw e (rw w);
    whole = inl (rw e f);
    stays = λ _. rw e f;
    closed = λ _. rw e (sym w);
    bounded = rw e (rw (w, k) h);
    sized = rw e k;
  }

  sends-Stepped : (c : Channel T) (v : T) → length c.waiting ≤ c.capacity → Stepped c (sends v)
  unfolding step
  sends-Stepped c v h = elim (Bool-cases c.failed) [
    | inl f ↦ refusing c c v (send-failed c v f) refl refl f h
    | inr f ↦ elim (Bool-cases c.connected) [
      | inr d ↦ refusing c (record c { failed = true }) v (send-gone c v f d) refl refl refl h
      | inl d ↦ elim (Bool-cases (ltb (length c.waiting) c.capacity)) [
        | inr n ↦ refusing c (record c { failed = true }) v (send-full c v f d n) refl refl refl h
        | inl n ↦
            let e = send-accepted c v f d n in
            record {
              lost = [];
              moved = rw e (sym (append-nil _));
              whole = inr refl;
              stays = λ t. cc;
              closed = λ t. cc;
              bounded = rw e (ground (arith, length-append c.waiting (v ∷ [])));
              sized = rw e refl;
            }
      ]
    ]
  ]

  receives-Stepped : (c : Channel T) → length c.waiting ≤ c.capacity → Stepped c receives
  unfolding step
  receives-Stepped c h = from c.waiting refl
    where
      from : (w : List T) → c.waiting ≡ w → Stepped c receives
      from [] e = record {
        lost = [];
        moved = rw e refl;
        whole = inr refl;
        stays = λ f. rw e f;
        closed = λ f. rw e refl;
        bounded = rw e (omega (arith, h, ap length e));
        sized = rw e refl;
      }
      from (v ∷ rest) e = record {
        lost = [];
        moved = rw e (rw (append-nil rest) refl);
        whole = inr refl;
        stays = λ f. rw e f;
        closed = λ f. rw e;
        bounded = rw e (omega (arith, h, ap length e));
        sized = rw e refl;
      }

  stepped : (c : Channel T) (e : Event T) → length c.waiting ≤ c.capacity → Stepped c e
  unfolding step
  stepped c (sends v) h = sends-Stepped c v h
  stepped c receives h = receives-Stepped c h
  stepped c hangs_up h = record {
    lost = [];
    moved = refl;
    whole = inr refl;
    stays = λ f. f;
    closed = λ f. refl;
    bounded = h;
    sized = refl;
  }
  stepped c fails h = record {
    lost = [];
    moved = refl;
    whole = inr refl;
    stays = λ f. refl;
    closed = λ f. refl;
    bounded = h;
    sized = refl;
  }

  sent-cons :
      (e : Event T) (events : List (Event T)) → sent (e ∷ events) ≡ sent (e ∷ []) ++ sent events
  sent-cons (sends v) events = refl
  sent-cons receives events = refl
  sent-cons hangs_up events = refl
  sent-cons fails events = refl

  -- A run of a queue whose flag is set.
  record Closed (c : Channel T) (events : List (Event T)) : Type 0 where
    kept : c.waiting ≡ (run c events).1 ++ (run c events).0.waiting
    still : (run c events).0.failed ≡ true
    bounded : length (run c events).0.waiting ≤ c.capacity

  run-Closed :
      (c : Channel T) (events : List (Event T))
      → length c.waiting ≤ c.capacity
      → c.failed ≡ true
      → Closed c events
  unfolding run
  run-Closed c [] h f = record { kept = refl; still = f; bounded = h }
  run-Closed c (e ∷ events) h f =
      let s = stepped c e h in
      let r = run-Closed (step c e).0 events s.bounded (s.stays f) in
      record {
        kept =
            s.closed f
            ∙ ap (◌++◌ (step c e).1) r.kept
            ∙ sym (
                append_assoc (step c e).1 (run (step c e).0 events).1
                  (run (step c e).0 events).0.waiting);
        still = r.still;
        bounded = omega (arith, r.bounded, s.sized);
      }

  regroup_closed :
      (g w l z a b : List T) → w ≡ a ++ b → ((g ++ w) ++ l) ++ z ≡ ((g ++ a) ++ b) ++ (l ++ z)
  regroup_closed g w l z a b e = ap (λ t. ((g ++ t) ++ l) ++ z) e ∙ simp append_assoc

  regroup_open :
      (g w l z a b d : List T)
      → l ≡ []
      → w ++ z ≡ (a ++ b) ++ d
      → ((g ++ w) ++ l) ++ z ≡ ((g ++ a) ++ b) ++ d
  regroup_open g w l z a b d n e =
      ap (λ t. ((g ++ w) ++ t) ++ z) n
      ∙ ap (λ t. t ++ z) (append-nil (g ++ w))
      ∙ append_assoc g w z
      ∙ ap (◌++◌ g) e
      ∙ simp append_assoc

  -- Over any interleaving of sends, receipts and failures, what the receiver has got and what is
  -- waiting are together a prefix of what was waiting and sent, in order and with no gap; the prefix
  -- is all of it unless the flag is set; and no more is waiting than the capacity.
  pub run-Delivers :
      (c : Channel T) (events : List (Event T)) → length c.waiting ≤ c.capacity → Delivers c events
  unfolding run
  run-Delivers c [] h = record { lost = []; prefix = refl; whole = inr refl; bounded = h }
  run-Delivers c (e ∷ events) h =
      let s = stepped c e h in
      let c' = (step c e).0 in
      let got = (step c e).1 in
      let start : c.waiting ++ sent (e ∷ events) ≡ ((got ++ c'.waiting) ++ s.lost) ++ sent events =
        ap (◌++◌ c.waiting) (sent-cons e events)
        ∙ sym (append_assoc c.waiting (sent (e ∷ [])) (sent events))
        ∙ ap (λ t. t ++ sent events) s.moved in
      elim s.whole [
        | inl f ↦
            let r = run-Closed c' events s.bounded f in
            record {
              lost = s.lost ++ sent events;
              prefix =
                  start
                  ∙ regroup_closed got c'.waiting s.lost (sent events) (run c' events).1
                      (run c' events).0.waiting r.kept;
              whole = inl r.still;
              bounded = omega (arith, r.bounded, s.sized);
            }
        | inr n ↦
            let r = run-Delivers c' events s.bounded in
            record {
              lost = r.lost;
              prefix =
                  start
                  ∙ regroup_open got c'.waiting s.lost (sent events) (run c' events).1
                      (run c' events).0.waiting r.lost n r.prefix;
              whole = r.whole;
              bounded = omega (arith, r.bounded, s.sized);
            }
      ]
