-- ===== src/Core/Engine/Publishing/Snapshots.antt =====
-- src/core/exchange/mod.rs, `publish_market_data`: what readers see afterwards.
use rust_trader.Base.{
  ℕ, ◌≡◌, refl, sym, ap, subst, ◌∙◌, inl, inr, false, none, some, List, [], ◌∷◌, Bool-cases,
}
use rust_trader.Base.Eq.{int_eq}
use rust_trader.Base.Int.{ℤ}
use rust_trader.Base.Lists.{All, All-map}
use rust_trader.Base.Maps.{lookup, insert, update, lookup-insert, lookup-update, lookup-update_ne}
use rust_trader.Base.Index.{Distinct, beq_comm_false}
use rust_trader.Decimal.{DecimalOps}
use rust_trader.Core.Books.{Book, OrderBook}
use rust_trader.Core.Books.Entry.{build_book}
use rust_trader.Core.Market.{Statistics, InstrumentSnapshot, MarketDataPublisher, publish, snapshot}
use rust_trader.Core.Engine.{Engine}
use rust_trader.Core.Engine.Publishing.{
  book_for, with_best, publish_one, publish_all, publish_market_data,
}
use rust_trader.Core.Engine.Publishing.Depicted.{Depicts, snapshot_at-Depicts}
use rust_trader.Core.Engine.Publishing

-- Entries other than the first one.
All-later :
    (P Q : ℤ × ℕ → Type 0) (id : ℤ) (pending : List (ℤ × ℕ))
    → lookup id pending ≡ none
    → ((entry : ℤ × ℕ) → int_eq.beq id entry.0 ≡ false → P entry → Q entry)
    → All P pending
    → All Q pending
unfolding lookup
All-later P Q id [] h f a = tt
All-later P Q id ((j, s) ∷ pending) h f a = elim (Bool-cases (int_eq.beq j id)) [
  | inl same ↦ cc (rw same at h)
  | inr other ↦
      let h' : lookup id pending ≡ none = rw other at h in
      (f (j, s) (beq_comm_false j id other) a.0, All-later P Q id pending h' f a.1)
]

lookup_later :
    (j id : ℤ) (sequence : ℕ) (pending : List (ℤ × ℕ))
    → lookup j ((id, sequence) ∷ pending) ≡ none
    → (int_eq.beq id j ≡ false) × (lookup j pending ≡ none)
unfolding lookup
lookup_later j id sequence pending h = elim (Bool-cases (int_eq.beq id j)) [
  | inl same ↦ cc (rw same at h)
  | inr other ↦ (other, rw other at h)
]

module _ {D : Type 0} ⦃dec : DecimalOps D⦄ where
  -- An instrument whose book can be published.
  pub record Ready (e : Engine D) (id : ℤ) : Type 0 where
    pub stats : Statistics D
    pub cached : lookup id e.stats_cache ≡ some stats
    pub old : InstrumentSnapshot D
    pub slot : snapshot e.market_data id ≡ some old
    pub numbered : (book_for e id).instrument_id ≡ id

  -- The snapshot of a book at a version, with the statistics of the best prices.
  abbrev shown_book : Engine D → ℤ → ℕ → Book D
  shown_book e id sequence = record (build_book (book_for e id)) { sequence = sequence }

  abbrev shown : (e : Engine D) (id : ℤ) → ℕ → Ready e id → InstrumentSnapshot D
  shown e id sequence r = record {
    book = shown_book e id sequence;
    stats = with_best r.stats (shown_book e id sequence);
    version = sequence;
  }

  -- The engine after one publication.
  abbrev one_published : (e : Engine D) (id : ℤ) → ℕ → Ready e id → Engine D
  one_published e id sequence r = record e {
    books = insert id (book_for e id) e.books;
    stats_cache = update id (with_best r.stats (shown_book e id sequence)) e.stats_cache;
    market_data = record e.market_data {
      slots = update id (shown e id sequence r) e.market_data.slots;
    };
  }

  numbered_book :
      (e : Engine D) (id : ℤ)
      → (build_book (book_for e id)).instrument_id ≡ (book_for e id).instrument_id
  unfolding build_book
  numbered_book e id = refl

  publish_lem :
      (p : MarketDataPublisher D) (id : ℤ) (b : Book D) (stats : Statistics D)
      (old : InstrumentSnapshot D)
      → b.instrument_id ≡ id
      → snapshot p id ≡ some old
      → publish p b stats
        ≡ some (record p {
          slots = update id (record { book = b; stats = stats; version = b.sequence }) p.slots;
        })
  unfolding publish snapshot
  publish_lem p id b stats old n h =
      let slot : lookup b.instrument_id p.slots ≡ some old = ap (λ i. lookup i p.slots) n ∙ h in
      rw (slot, publish)
        (ap
          (λ i. some (record p {
            slots = update i (record { book = b; stats = stats; version = b.sequence }) p.slots;
          }))
          n)

  publish_one_lem :
      (e : Engine D) (id : ℤ) (sequence : ℕ)
      → (r : Ready e id) → publish_one id sequence e ≡ some (one_published e id sequence r)
  unfolding publish_one Publishing.build_book
  publish_one_lem e id sequence r =
      rw (r.cached, publish_one)
        (rw
          (publish_lem e.market_data id (shown_book e id sequence)
            (with_best r.stats (shown_book e id sequence)) r.old (numbered_book e id ∙ r.numbered)
            r.slot)
          refl)

  book_for-published :
      (e : Engine D) (id : ℤ) (sequence : ℕ) (r : Ready e id) (j : ℤ)
      → book_for (one_published e id sequence r) j ≡ book_for e j
  book_for-published e id sequence r j = elim (Bool-cases (int_eq.beq id j)) [
    | inl same ↦
        let s : id ≡ j = (int_eq.beq_iff id j).0 same in
        rw (lookup-insert id j (book_for e id) e.books) (rw same (ap (book_for e) s))
    | inr other ↦ rw (lookup-insert id j (book_for e id) e.books) (rw other refl)
  ]

  slots-published :
      (e : Engine D) (id : ℤ) (sequence : ℕ) (r : Ready e id) (j : ℤ)
      → int_eq.beq id j ≡ false
      → snapshot (one_published e id sequence r).market_data j ≡ snapshot e.market_data j
  unfolding snapshot
  slots-published e id sequence r j n =
      lookup-update_ne id j (shown e id sequence r) e.market_data.slots n

  -- The instruments to be published next are as ready as before.
  still_Ready :
      (e : Engine D) (id : ℤ) (sequence : ℕ) (r : Ready e id) (j : ℤ)
      → int_eq.beq id j ≡ false
      → Ready e j
      → Ready (one_published e id sequence r) j
  still_Ready e id sequence r j n t = record {
    stats = t.stats;
    cached =
        lookup-update_ne id j (with_best r.stats (shown_book e id sequence)) e.stats_cache n
        ∙ t.cached;
    old = t.old;
    slot = slots-published e id sequence r j n ∙ t.slot;
    numbered =
        ap (λ (b : OrderBook D). b.instrument_id) (book_for-published e id sequence r j)
        ∙ t.numbered;
  }

  Ready-without :
      (e : Engine D) (id : ℤ) → Ready e id → Ready (record e { pending_market_data = [] }) id
  Ready-without e id r = record {
    stats = r.stats;
    cached = r.cached;
    old = r.old;
    slot = r.slot;
    numbered = r.numbered;
  }

  -- A reader sees a snapshot that depicts the book at the version.
  pub record Shown (e e' : Engine D) (entry : ℤ × ℕ) : Type 0 where
    pub stats : Statistics D
    pub cached : lookup entry.0 e.stats_cache ≡ some stats
    pub view : InstrumentSnapshot D
    pub seen : snapshot e'.market_data entry.0 ≡ some view
    pub depicts : Depicts (book_for e entry.0) stats entry.1 view

  pub record Published (e e' : Engine D) (pending : List (ℤ × ℕ)) : Type 0 where
    pub each : All (Shown e e') pending
    pub others :
        (id : ℤ) → lookup id pending ≡ none → snapshot e'.market_data id ≡ snapshot e.market_data id
    pub books : (id : ℤ) → book_for e' id ≡ book_for e id
    pub sessions : e'.sessions ≡ e.sessions
    pub emptied : e'.pending_market_data ≡ e.pending_market_data

  Shown-later :
      (e : Engine D) (id : ℤ) (sequence : ℕ) (r : Ready e id) (e' : Engine D) (entry : ℤ × ℕ)
      → int_eq.beq id entry.0 ≡ false
      → Shown (one_published e id sequence r) e' entry
      → Shown e e' entry
  Shown-later e id sequence r e' entry n s = record {
    stats = s.stats;
    cached =
        sym (
          lookup-update_ne id entry.0 (with_best r.stats (shown_book e id sequence)) e.stats_cache
            n)
        ∙ s.cached;
    view = s.view;
    seen = s.seen;
    depicts =
        subst (λ (b : OrderBook D). Depicts b s.stats entry.1 s.view)
          (book_for-published e id sequence r entry.0) s.depicts;
  }

  publish_all_cons :
      (e e1 e' : Engine D) (id : ℤ) (sequence : ℕ) (pending : List (ℤ × ℕ))
      → publish_one id sequence e ≡ some e1
      → publish_all pending e1 ≡ some e'
      → publish_all ((id, sequence) ∷ pending) e ≡ some e'
  unfolding publish_all
  publish_all_cons e e1 e' id sequence pending h k = rw (h, publish_all) k

  own_slot :
      (e : Engine D) (id : ℤ) (sequence : ℕ)
      → (r : Ready e id)
      → snapshot (one_published e id sequence r).market_data id ≡ some (shown e id sequence r)
  unfolding snapshot
  own_slot e id sequence r =
      lookup-update id (shown e id sequence r) r.old e.market_data.slots r.slot

  publish_all_lem :
      (e : Engine D) (pending : List (ℤ × ℕ))
      → Distinct pending
      → All (λ (entry : ℤ × ℕ). Ready e entry.0) pending
      → (e' : Engine D) × (publish_all pending e ≡ some e') × Published e e' pending
  unfolding publish_all
  publish_all_lem e [] d a = (
    e,
    refl,
    record {
      each = tt;
      others = λ id h. refl;
      books = λ id. refl;
      sessions = refl;
      emptied = refl;
    },
  )
  publish_all_lem e ((id, sequence) ∷ pending) d a =
      let r = a.0 in
      let e1 = one_published e id sequence r in
      let (e', returns, p) = publish_all_lem e1 pending d.1 (
        All-later (λ (entry : ℤ × ℕ). Ready e entry.0) (λ (entry : ℤ × ℕ). Ready e1 entry.0) id
          pending d.0 (λ entry n t. still_Ready e id sequence r entry.0 n t) a.1) in
      (
        e',
        publish_all_cons e e1 e' id sequence pending (publish_one_lem e id sequence r) returns,
        record {
          each = (
            record {
              stats = r.stats;
              cached = r.cached;
              view = shown e id sequence r;
              seen = p.others id d.0 ∙ own_slot e id sequence r;
              depicts = snapshot_at-Depicts (book_for e id) r.stats sequence;
            },
            All-later (Shown e1 e') (Shown e e') id pending d.0 (Shown-later e id sequence r e')
                p.each,
          );
          others = λ j h.
              let (n, k) = lookup_later j id sequence pending h in
              p.others j k ∙ slots-published e id sequence r j n;
          books = λ j. p.books j ∙ book_for-published e id sequence r j;
          sessions = p.sessions;
          emptied = p.emptied;
        },
      )

  -- Where every pending instrument is registered and has statistics, publishing does not panic.
  -- Readers then see the last book of each at its last version: one row for each level with its price
  -- and total, and in the statistics the best price and quantity of each side, or zeros where it is
  -- empty, beside the figures of the trades; the other snapshots, the books and the sessions are as before, and nothing is pending.
  pub publish_market_data-Published :
      (e : Engine D)
      → Distinct e.pending_market_data
      → All (λ (entry : ℤ × ℕ). Ready e entry.0) e.pending_market_data
      → (e' : Engine D) × (publish_market_data e ≡ some e')
        × Published (record e { pending_market_data = [] }) e' e.pending_market_data
  unfolding publish_market_data
  publish_market_data-Published e d a =
      publish_all_lem (record e { pending_market_data = [] }) e.pending_market_data d
        (All-map _ _ e.pending_market_data (λ entry r. Ready-without e entry.0 r) a)
