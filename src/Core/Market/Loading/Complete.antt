-- ===== src/Core/Market/Loading/Complete.antt =====
-- src/core/instrument.rs, `load_from_reader`: a text of good lines is loaded.
use rust_trader.Base.{◌≡◌, refl, ◌∙◌, Bool, true, false, Option, none, some, List, [], ◌∷◌, arith}
use rust_trader.Base.Eq.{Eq, Text, eqb_text, int_eq, text_eq}
use rust_trader.Base.Int.{eqb_ℤ}
use rust_trader.Base.Lists.{All, is_empty}
use rust_trader.Base.Maps.{lookup, insert, lookup-insert_ne}
use rust_trader.Base.Outcome.{ok}
use rust_trader.Core.Market.{
  Instrument, InstrumentMap, new_instruments, get_by_symbol, get_by_id, put,
}
use rust_trader.Core.Market.Loading.{
  parse_line, enter, load_line, load_lines, load_from_reader, max_ℤ,
}

-- The lines can be read, and each states what the list says.
abbrev pub Parsed : List (Option Text) → List (Option Instrument) → Type 0
Parsed [] [] = Unit {0}
Parsed (some s ∷ lines) (entry ∷ entries) = (parse_line s ≡ ok entry) × Parsed lines entries
Parsed _ _ = ⊥

abbrev pub Differs : Instrument → Option Instrument → Type 0
Differs i none = Unit {0}
Differs i (some j) = (eqb_ℤ i.id j.id ≡ false) × (eqb_text i.symbol j.symbol ≡ false)

-- No two instruments have an identifier or a symbol in common.
abbrev pub Apart : List (Option Instrument) → Type 0
Apart [] = Unit {0}
Apart (none ∷ entries) = Apart entries
Apart (some i ∷ entries) = All (Differs i) entries × Apart entries

abbrev pub any_instrument : List (Option Instrument) → Bool
any_instrument [] = false
any_instrument (none ∷ entries) = any_instrument entries
any_instrument (some i ∷ entries) = true

abbrev Absent : InstrumentMap → Option Instrument → Type 0
Absent m none = Unit {0}
Absent m (some j) = (lookup j.id m.by_id ≡ none) × (lookup j.symbol m.by_symbol ≡ none)

abbrev entered : InstrumentMap → Instrument → InstrumentMap
entered m i = put (record m { last_id = max_ℤ m.last_id i.id }) i

Absent-entered :
    (m : InstrumentMap) (i : Instrument) (entry : Option Instrument)
    → Differs i entry × Absent m entry
    → Absent (entered m i) entry
unfolding put
Absent-entered m i none d = tt
Absent-entered m i (some j) ((d, e), (f, g)) = (
  lookup-insert_ne i.id j.id i m.by_id d ∙ f,
  lookup-insert_ne i.symbol j.symbol i m.by_symbol e ∙ g,
)

enter-Absent :
    (m : InstrumentMap) (i : Instrument) → Absent m (some i) → enter m (some i) ≡ ok (entered m i)
unfolding enter get_by_id get_by_symbol
enter-Absent m i a = rw (a.0, a.1) refl

both :
    {A : Type 0} (P Q R : A → Type 0) (xs : List A)
    → ((x : A) → P x × Q x → R x)
    → All P xs
    → All Q xs
    → All R xs
both P Q R [] f p q = tt
both P Q R (x ∷ xs) f p q = (f x (p.0, q.0), both P Q R xs f p.1 q.1)

insert_occupied :
    {K V : Type 0} ⦃e : Eq K⦄ (k : K) (v : V) (m : List (K × V)) → is_empty (insert k v m) ≡ false
unfolding insert
insert_occupied k v [] = refl
insert_occupied k v ((j, w) ∷ m) = ground arith

entered_occupied : (m : InstrumentMap) (i : Instrument) → is_empty (entered m i).by_id ≡ false
unfolding put
entered_occupied m i = insert_occupied i.id i m.by_id

-- The registry that the lines make of one.
record Made (m : InstrumentMap) (lines : List (Option Text)) (entries : List (Option Instrument))
    : Type 0 where
  made : InstrumentMap
  loads : load_lines m lines ≡ ok made
  filled : any_instrument entries ≡ true → is_empty made.by_id ≡ false
  kept : is_empty m.by_id ≡ false → is_empty made.by_id ≡ false

load_lines-Made :
    (lines : List (Option Text)) (entries : List (Option Instrument)) (m : InstrumentMap)
    → Parsed lines entries
    → Apart entries
    → All (Absent m) entries
    → Made m lines entries
unfolding load_lines load_line
load_lines-Made [] [] m p a q = record { made = m; loads = refl; filled = λ h. cc; kept = λ h. h }
load_lines-Made [] (e ∷ es) m p a q = absurd p
load_lines-Made (none ∷ lines) [] m p a q = absurd p
load_lines-Made (none ∷ lines) (e ∷ es) m p a q = absurd p
load_lines-Made (some s ∷ lines) [] m p a q = absurd p
load_lines-Made (some s ∷ lines) (none ∷ es) m p a q =
    let r = load_lines-Made lines es m p.1 a q.1 in
    record { made = r.made; loads = rw (p.0, enter) r.loads; filled = r.filled; kept = r.kept }
load_lines-Made (some s ∷ lines) (some i ∷ es) m p a q =
    let absent =
      both (Differs i) (Absent m) (Absent (entered m i)) es (Absent-entered m i) a.0 q.1 in
    let r = load_lines-Made lines es (entered m i) p.1 a.1 absent in
    record {
      made = r.made;
      loads = rw (p.0, enter-Absent m i q.0) r.loads;
      filled = λ h. r.kept (entered_occupied m i);
      kept = λ h. r.kept (entered_occupied m i);
    }

new_Absent : (entries : List (Option Instrument)) → All (Absent new_instruments) entries
unfolding new_instruments lookup
new_Absent [] = tt
new_Absent (none ∷ es) = (tt, new_Absent es)
new_Absent (some i ∷ es) = ((refl, refl), new_Absent es)

-- A text is loaded when its lines can be read and each is empty, a comment or an instrument, there is
-- an instrument, and no two have an identifier or a symbol in common.
pub load_from_reader-Apart :
    (lines : List (Option Text)) (entries : List (Option Instrument))
    → Parsed lines entries
    → Apart entries
    → any_instrument entries ≡ true
    → (m : InstrumentMap) × (load_from_reader lines ≡ ok m)
unfolding load_from_reader
load_from_reader-Apart lines entries p a some_one =
    let r = load_lines-Made lines entries new_instruments p a (new_Absent entries) in
    (r.made, rw (r.loads, r.filled some_one) refl)
