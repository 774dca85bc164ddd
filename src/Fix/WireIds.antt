-- ===== src/Fix/WireIds.antt =====
-- src/fix/session.rs, `WireIdMap`: a client's order identifiers, which are texts, against the engine's.
pub mod Choosing
pub mod Lossless
use rust_trader.Base.{
  ℕ, zero, suc, ◌+◌, ◌-◌, Bool, true, false, not, ◌&&◌, Option, none, some, List, [], ◌∷◌, ltb,
  ◌==◌, if◌then◌else◌,
}
use rust_trader.Base.Eq.{Text, int_eq, text_eq}
use rust_trader.Base.Int.{ℤ, pos, ltb_ℤ, eqb_ℤ}
use rust_trader.Base.Lists.{is_empty}
use rust_trader.Base.Maps.{lookup, insert, contains_key}
use rust_trader.Base.Outcome.{Outcome, ok, err, ◌>>=◌, ◌>>◌, ensure}
use rust_trader.Base.Texts.{parse_i32}
use rust_trader.Core.Orders.{OrderId}
use rust_trader.Core.Engine.{quote_order_id}

pub data WireError : Type 0 where
  empty_id too_many_ids duplicate_id : WireError

-- `next_internal` is an `i32` that is never negative.
pub record WireIdMap : Type 0 where
  pub wire_to_internal : List (Text × OrderId)
  pub internal_to_wire : List (OrderId × Text)
  pub next_internal : ℕ

unfoldable pub new_wire_ids : WireIdMap
new_wire_ids = record { wire_to_internal = []; internal_to_wire = []; next_internal = 1 }

abbrev pub i32_max : ℕ
i32_max = 2147483647

abbrev usable : Option ℤ → Option ℤ
usable none = none
usable (some id) = if ltb_ℤ (pos 0) id && not (eqb_ℤ id quote_order_id) then some id else none

-- The number that a wire identifier is, if it can be an engine's.
unfoldable pub preferred : Text → Option OrderId
preferred wire = usable (parse_i32 wire)

abbrev pub taken : WireIdMap → OrderId → Bool
taken m id = contains_key (lookup id m.internal_to_wire)

abbrev pub free : WireIdMap → ℕ → Bool
free m candidate =
    ltb 0 candidate && not (eqb_ℤ (pos candidate) quote_order_id) && not (taken m (pos candidate))

-- The search for a free number, where `room` numbers lie between the candidate and the largest; that
-- none is left is the failure of `checked_add`.
unfoldable pub search_id : WireIdMap → ℕ → ℕ → Outcome WireError ℕ
search_id m zero candidate = if free m candidate then ok candidate else err too_many_ids
search_id m (suc room) candidate = elim (free m candidate) [
  | true ↦ ok candidate
  | false ↦ search_id m room (candidate + 1)
]

-- At least 1.
abbrev pub at_least_one : ℕ → ℕ
at_least_one zero = 1
at_least_one (suc n) = suc n

abbrev pub saturating_i32 : ℕ → ℕ
saturating_i32 n = if n == i32_max then n else n + 1

unfoldable pub next_free : WireIdMap → Outcome WireError (OrderId × WireIdMap)
unfolding search_id
next_free m = do
  let start = at_least_one m.next_internal
  id ← search_id m (i32_max - start) start
  ok (pos id, record m { next_internal = at_least_one (saturating_i32 id) })

-- The identifier for a text that has none yet, with the advanced counter.
unfoldable pub choose : WireIdMap → Option OrderId → Outcome WireError (OrderId × WireIdMap)
unfolding next_free
choose m none = next_free m
choose m (some id) = if not (taken m id) then ok (id, m) else next_free m

abbrev pub mapped : WireIdMap → Text → OrderId → WireIdMap
mapped m wire id = record m {
  wire_to_internal = insert wire id m.wire_to_internal;
  internal_to_wire = insert id wire m.internal_to_wire;
}

unfoldable pub intern : WireIdMap → Text → Outcome WireError (OrderId × WireIdMap)
unfolding preferred choose
intern m wire = do
  ensure (not (is_empty wire)) empty_id
  elim (lookup wire m.wire_to_internal) [
    | some id ↦ ok (id, m)
    | none ↦ choose m (preferred wire) >>= λ r. ok (r.0, mapped r.1 wire r.0)
  ]

unfoldable pub wire_for : WireIdMap → OrderId → Option Text
wire_for m id = lookup id m.internal_to_wire

unfoldable pub fresh_id : WireIdMap → Text → Outcome WireError (OrderId × WireIdMap)
unfolding intern
fresh_id m wire = do
  ensure (not (contains_key (lookup wire m.wire_to_internal))) duplicate_id
  intern m wire
