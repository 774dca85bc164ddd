-- ===== src/Tests/Samples.antt =====
-- Orders and books over whole numbers.
use rust_trader.Base.{[], ◌∷◌, refl, arith}
use rust_trader.Base.Eq.{codes, nat_eq, int_eq, text_eq, pair_eq}
use rust_trader.Base.Maps.{lookup}
use rust_trader.Base.Int.{ℤ, pos}
use rust_trader.Decimal.Whole.{whole}
use rust_trader.Core.Orders.{Order, buy, sell, limit_order, effective_price}
use rust_trader.Core.Levels.{PriceLevel, identity}
use rust_trader.Core.Levels.Invariant.{LevelInv}
use rust_trader.Core.Books.{OrderBook}
use rust_trader.Core.Books.Matching.{BookInv}

-- Session `a` buys 10 at 100, session `b` sells 4 at 99 after that.
abbrev pub bid : Order ℤ
unfolding limit_order
bid = limit_order (codes "a") (pos 1) (pos 7) buy (pos 100) (pos 10) 1

abbrev pub ask : Order ℤ
unfolding limit_order
ask = limit_order (codes "b") (pos 2) (pos 7) sell (pos 99) (pos 4) 2

abbrev pub level_of : Order ℤ → PriceLevel ℤ
level_of o = record {
  price = o.price;
  orders = (0, o) ∷ [];
  index = (identity o, 0) ∷ [];
  total = o.remaining;
  next = 1;
}

abbrev pub crossed : OrderBook ℤ
crossed = record {
  instrument_id = pos 7;
  bids = (pos 100, level_of bid) ∷ [];
  asks = (pos 99, level_of ask) ∷ [];
}

pub level_of-LevelInv : (o : Order ℤ) → LevelInv (level_of o)
unfolding lookup
level_of-LevelInv o = record { mirrored = refl; ascending = omega arith; distinct = (refl, tt) }

pub crossed-BookInv : BookInv crossed
unfolding effective_price limit_order
crossed-BookInv = record {
  bids = (
    record {
      inv = level_of-LevelInv bid;
      priced = refl;
      occupied = refl;
      placed = ((refl, refl), tt);
    },
    tt,
    tt,
  );
  asks = (
    record {
      inv = level_of-LevelInv ask;
      priced = refl;
      occupied = refl;
      placed = ((refl, refl), tt);
    },
    tt,
    tt,
  );
}
