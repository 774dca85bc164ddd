-- ===== src/Core/Wrapping.antt =====
-- The counters of src/core/exchange/mod.rs and src/core/instrument.rs: machine integers that wrap
-- around, or saturate.
use rust_trader.Base.{ℕ, ◌+◌, ◌%◌, ◌==◌, if◌then◌else◌}
use rust_trader.Base.Int.{ℤ, pos, negsuc, ◌+ℤ◌}

abbrev pub next_u64 : ℕ → ℕ
next_u64 n = (n + 1) % 18446744073709551616

abbrev pub saturating_next_u64 : ℕ → ℕ
saturating_next_u64 n = if n == 18446744073709551615 then n else n + 1

abbrev pub next_i32 : ℤ → ℤ
next_i32 (pos n) = if n == 2147483647 then negsuc 2147483647 else pos (n + 1)
next_i32 z = z +ℤ pos 1

abbrev pub next_i64 : ℤ → ℤ
next_i64 (pos n) = if n == 9223372036854775807 then negsuc 9223372036854775807 else pos (n + 1)
next_i64 z = z +ℤ pos 1
