-- ===== src/Util/HdrHistogram/Tests.antt =====
-- The cells of concrete durations.
use trading_bot_v.Prelude.{ℕ, ◌*◌, ◌≤◌, ◌<◌, ◌≡◌, refl, pos, arith}
use trading_bot_v.Util.Words.{clzll, testbit}
use trading_bot_v.Util.HdrHistogram.{index_for, value_at, num_cells}
use trading_bot_v.Util.HdrHistogram.Error.{value_at-index_for}

value_at-index_for_example :
    (index_for 1_000_000 < num_cells)
    × ((n : ℕ) × (value_at (index_for 1_000_000) ≡ pos n)
        × (64 * n ≤ 65_000_000)
        × (63_000_000 ≤ 64 * n))
value_at-index_for_example = value_at-index_for 1_000_000 (omega arith)

cell_of_thousand : value_at (index_for 1000) ≡ pos 1000
unfolding index_for value_at clzll testbit
cell_of_thousand = refl
