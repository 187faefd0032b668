-- ===== src/Strategy/PnlTracker/Tests.antt =====
-- A concrete closing fill, in thousandths.
use trading_bot_v.Prelude.{◌≡◌, refl, pos, negsuc, ◌+ℤ◌}
use trading_bot_v.Core.Double.{Milli, milli_double, Milli-IsDouble}
use trading_bot_v.Strategy.PnlTracker.{PnlState, fill_state}
use trading_bot_v.Strategy.PnlTracker.Flat.{FlatEntry, fill_state-flat}

-- a position of 2 at 19.00, closed at 20.00
abbrev held : PnlState Milli
held = record { cash = pos 0; position = pos 2000; avg_entry = pos 19_000; realized = pos 0 }

fill_state-flat_example :
    ((fill_state (pos 20_000) (negsuc 1999) held).position ≡ pos 0)
    × FlatEntry (pos 20_000) (negsuc 1999) held (fill_state (pos 20_000) (negsuc 1999) held)
unfolding ◌+ℤ◌
fill_state-flat_example = fill_state-flat Milli-IsDouble (pos 20_000) (negsuc 1999) held refl
