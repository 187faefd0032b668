-- ===== src/Strategy/OrderSizer.antt =====
-- strategy/order_sizer.hpp, `OrderSizer::computeOrder`: the size and the limit of an order that the
-- book can fill.
use trading_bot_v.Prelude.{ℕ, List, [], ◌∷◌, pos, if◌then◌else◌}
use trading_bot_v.Core.Double.{Double, min_double}
use trading_bot_v.Core.Types.{PriceLevel, Side, bid, ask, from_double, to_double, max_book_walk}
use trading_bot_v.Md.BoundedBook.{Book, depth}
use trading_bot_v.Exec.RiskManager.{is_bid}
use trading_bot_v.Strategy.Signals.{Signal, SignalAction, no_signal}

-- `accSize` and `limitPx`
pub record Sized (D : Type 0) : Type 0 where
  pub acc_size : D
  pub limit_px : D

abbrev pub side_action : Side → SignalAction
side_action bid = SignalAction.buy
side_action ask = SignalAction.sell

module _ {D : Type 0} ⦃d : Double D⦄ where
  -- the loop over the levels of the opposing side
  unfoldable pub size_walk : D → D → List (PriceLevel D) → Sized D → Sized D
  size_walk tick_size target_qty [] z = z
  size_walk tick_size target_qty (level ∷ levels) z =
      let fill = min_double (d.sub target_qty z.acc_size) level.qty.value in
      let taken : Sized D = record {
        acc_size = d.add z.acc_size fill;
        limit_px = to_double level.price tick_size;
      } in
      let rest = size_walk tick_size target_qty levels taken in
      if d.le fill d.nought then z else if d.le target_qty taken.acc_size then taken else rest

  unfoldable pub size_levels : List (PriceLevel D) → D → Side → D → Signal D
  unfolding size_walk
  size_levels [] tick_size side target_qty = no_signal
  size_levels (level ∷ levels) tick_size side target_qty =
      let z =
        size_walk tick_size target_qty (level ∷ levels)
          (record { acc_size = d.nought; limit_px = d.nought }) in
      if d.le z.acc_size d.nought then no_signal else record {
        action = side_action side;
        price = from_double z.limit_px tick_size;
        qty = record { value = z.acc_size };
        ts = pos 0;
      }

  unfoldable pub compute_order : ℕ → Book D → D → Side → D → Signal D
  unfolding size_levels
  compute_order cap book tick_size side target_qty =
      if d.le target_qty d.nought
      then no_signal
      else size_levels (depth cap book (if is_bid side then ask else bid) max_book_walk) tick_size
          side target_qty
