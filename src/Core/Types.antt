-- ===== src/Core/Types.antt =====
-- core/types.hpp: prices in ticks, quantities, sides and book levels.
use trading_bot_v.Prelude.{ℕ, ◌-◌, ◌^◌, ℤ}
use trading_bot_v.Core.Double.{Double}

-- `class Price`. A price is an integral number of ticks.
pub record Price : Type 0 where
  pub ticks : ℤ

abbrev pub from_ticks : ℤ → Price
from_ticks t = record { ticks = t }

pub data Side : Type 0 where
  bid ask : Side

abbrev pub opposite : Side → Side
opposite bid = ask
opposite ask = bid

abbrev pub max_symbols : ℕ
max_symbols = 64

abbrev pub invalid_symbol_id : ℕ
invalid_symbol_id = 2 ^ 16 - 1

abbrev pub max_book_walk : ℕ
max_book_walk = 32

-- `class Qty`
pub record Qty (D : Type 0) : Type 0 where
  pub value : D

pub record PriceLevel (D : Type 0) : Type 0 where
  pub price : Price
  pub qty : Qty D

module _ {D : Type 0} ⦃d : Double D⦄ where
  -- `Price::fromDouble` and `Price::toDouble`
  abbrev pub from_double : D → D → Price
  from_double px tick_size = record { ticks = d.round (d.div px tick_size) }

  abbrev pub to_double : Price → D → D
  to_double p tick_size = d.mul (d.of_int p.ticks) tick_size
