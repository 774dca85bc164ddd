-- ===== src/Core.antt =====
-- src/core: orders, price levels, order books and the matching loop.
pub mod Orders
pub mod Levels
pub mod Books
pub mod Tiers
pub mod Wrapping
pub mod Market
pub mod Engine
