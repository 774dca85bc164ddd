-- ===== src/Decimal.antt =====
-- `rust_decimal::Decimal`, which is not part of the repository: the operations that the exchange
-- calls, as an interface, and what it relies on, as laws in two records. A value stands for the
-- number, so that 1.0 and 1.00 are one value. The arithmetic laws are those of exact arithmetic,
-- which the crate documents for results of up to 28 digits; past that it rounds or panics, and
-- theorems that take `IsExact` say nothing.
mod Defs
pub mod Whole
pub mod Order
pub mod Sums
pub use Defs.*
