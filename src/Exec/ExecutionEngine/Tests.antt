-- ===== src/Exec/ExecutionEngine/Tests.antt =====
-- The execution of a concrete order, in thousandths, against a book of 64 slots.
use trading_bot_v.Prelude.{◌≡◌, refl, List, [], ◌∷◌, pos, ◌+ℤ◌, ◌-ℤ◌, ◌*ℤ◌, for_range}
use trading_bot_v.Core.Double.{Milli, milli_double, Milli-IsDouble, Milli-IsDifference}
use trading_bot_v.Core.Types.{PriceLevel, bid, ask}
use trading_bot_v.Util.Words.{clzll, ctzll, testbit}
use trading_bot_v.Md.Bitmap.{set_bit, clear_bit, highest_set, lowest_set}
use trading_bot_v.Md.BoundedBook.{
  Book, depth, initial, update_book, recenter_if_near_edge, write_bid, write_ask, rebase,
}
use trading_bot_v.Exec.OrderTypes.{NewOrder}
use trading_bot_v.Exec.ExecutionEngine.{simulate, fill_walk}
use trading_bot_v.Exec.ExecutionEngine.Fill.{
  AllFiniteQty, IsExecution, against, reached, simulate-IsExecution,
}

-- Every number of thousandths is finite.
all_finite : (levels : List (PriceLevel Milli)) → AllFiniteQty levels
all_finite [] = tt
all_finite (level ∷ levels) = (refl, all_finite levels)

-- a purchase of 3 at 20.00 or less
abbrev order : NewOrder Milli
order = record {
  id = 1;
  symbol_id = 7;
  side = bid;
  price = record { ticks = pos 2000 };
  qty = record { value = pos 3000 };
  created_ns = pos 0;
}

-- 1 is offered at 19.98 and 1.5 at 20.00.
abbrev book : Book Milli
book =
    let anchored =
      update_book 64 (initial 64) bid (record { ticks = pos 1990 }) (record { value = pos 4000 }) in
    let offered =
      update_book 64 anchored ask (record { ticks = pos 1998 }) (record { value = pos 1000 }) in
    update_book 64 offered ask (record { ticks = pos 2000 }) (record { value = pos 1500 })

simulate-IsExecution_example :
    IsExecution
      (reached bid (pos 10) (pos 20_000) (against 64 book bid))
      (pos 3000)
      (pos 0)
      (simulate 64 order book (pos 10) (pos 9)).exec_qty.value
unfolding ◌*ℤ◌
simulate-IsExecution_example =
    simulate-IsExecution Milli-IsDouble Milli-IsDifference 64 book (pos 10) (pos 9) order refl refl
      (all_finite (against 64 book bid))

-- 2.5 of 3 are filled.
partial_fill : (simulate 64 order book (pos 10) (pos 9)).exec_qty.value ≡ pos 2500
unfolding simulate fill_walk depth update_book recenter_if_near_edge write_bid write_ask rebase
    set_bit clear_bit highest_set lowest_set clzll ctzll testbit ◌+ℤ◌ ◌-ℤ◌ ◌*ℤ◌ for_range
partial_fill = refl
