-- ===== src/Exec/ExecutionEngine.antt =====
-- exec/execution_engine.hpp, `ExecutionEngine::simulate`: the fill of an order against the book.
pub mod Fill
mod Tests
use trading_bot_v.Prelude.{ℕ, ℤ, Bool, true, false, List, [], ◌∷◌, if◌then◌else◌}
use trading_bot_v.Core.Double.{Double}
use trading_bot_v.Core.Types.{
  Price, PriceLevel, Qty, Side, bid, ask, opposite, from_double, to_double, max_book_walk,
}
use trading_bot_v.Md.BoundedBook.{Book, depth}
use trading_bot_v.Exec.OrderTypes.{NewOrder, ExecutionReport}

-- `remaining`, `filled` and `cost`
pub record Walk (D : Type 0) : Type 0 where
  pub remaining : D
  pub filled : D
  pub cost : D

module _ {D : Type 0} ⦃d : Double D⦄ where
  -- `match`: the limit reaches a level's price
  abbrev pub reaches : Side → D → D → Bool
  reaches bid limit_px level_px = d.le level_px limit_px
  reaches ask limit_px level_px = d.le limit_px level_px

  abbrev pub take_level : D → PriceLevel D → Walk D → Walk D
  take_level tick_size level w =
      let fill_size = if d.lt w.remaining level.qty.value then w.remaining else level.qty.value in
      record {
        remaining = d.sub w.remaining fill_size;
        filled = d.add w.filled fill_size;
        cost = d.add w.cost (d.mul fill_size (to_double level.price tick_size));
      }

  -- the loop over the levels of the opposing side
  unfoldable pub fill_walk : Side → D → D → List (PriceLevel D) → Walk D → Walk D
  fill_walk side tick_size limit_px [] w = w
  fill_walk side tick_size limit_px (level ∷ levels) w =
      let taken = take_level tick_size level w in
      let rest = fill_walk side tick_size limit_px levels taken in
      if reaches side limit_px (to_double level.price tick_size)
      then if d.le taken.remaining d.tiny then taken else rest
      else w

  abbrev pub walk_start : Qty D → Walk D
  walk_start qty = record { remaining = qty.value; filled = d.nought; cost = d.nought }

  unfoldable pub simulate : ℕ → NewOrder D → Book D → D → ℤ → ExecutionReport D
  unfolding fill_walk
  simulate cap order book tick_size now =
      let w =
        fill_walk order.side tick_size (to_double order.price tick_size)
          (depth cap book (opposite order.side) max_book_walk) (walk_start order.qty) in
      record {
        id = order.id;
        symbol_id = order.symbol_id;
        side = order.side;
        is_fill = d.lt d.nought w.filled;
        exec_price =
            if d.lt d.nought w.filled
            then from_double (d.div w.cost w.filled) tick_size
            else order.price;
        exec_qty = record { value = w.filled };
        completed_ns = now;
      }
