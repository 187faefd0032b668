-- ===== src/Strategy/ImbalanceStrategy/Tests.antt =====
-- Each property of the strategy at a concrete run, in thousandths, on books of 64 slots.
use trading_bot_v.Prelude.{ℕ, true, pos, [], ◌∷◌}
use trading_bot_v.Core.Double.{Milli, milli_double}
use trading_bot_v.Core.Types.{bid, ask}
use trading_bot_v.Md.BoundedBook.{Book, initial, update_book}
use trading_bot_v.Strategy.Signals.{StrategyParams}
use trading_bot_v.Strategy.ImbalanceStrategy.{
  Strategy, imbalance_strategy, on_reconnect, set_initial_cash, set_symbol,
}
use trading_bot_v.Strategy.ImbalanceStrategy.Window.{
  IsStrategy, StrategyEvent, imbalance_strategy-IsStrategy, run_events, run_events-IsStrategy,
}
use trading_bot_v.Strategy.ImbalanceStrategy.Recent.{IsWindow, roll_all, roll_all-IsWindow}

abbrev params : StrategyParams Milli
params = record {
  depth_levels = 5;
  smoothing_window = 2;
  entry_imbalance = pos 300;
  take_profit_bps = pos 8000;
  stop_loss_bps = pos 8000;
  max_spread_bps = pos 20_000;
  trade_fraction = pos 100;
  cooldown_s = pos 2000;
  allow_short = true;
}

abbrev strategy : Strategy Milli
strategy = set_initial_cash (pos 1_000_000) (set_symbol 0 (pos 10) (imbalance_strategy params))

-- 4 bid at 19.90 and 1 offered at 19.91
abbrev book : Book Milli
book =
    update_book 64
      (update_book 64 (initial 64) bid (record { ticks = pos 1990 }) (record { value = pos 4000 }))
      ask (record { ticks = pos 1991 }) (record { value = pos 1000 })

run_events-IsStrategy_example : IsStrategy 64 (
    run_events 64
      (imbalance_strategy params)
      (StrategyEvent.market book (pos 5) ∷ StrategyEvent.reconnect ∷ []))
run_events-IsStrategy_example =
    run_events-IsStrategy 64 params
      (StrategyEvent.market book (pos 5) ∷ StrategyEvent.reconnect ∷ [])

roll_all-IsWindow_example :
    IsWindow
      (roll_all (pos 3 ∷ pos 2 ∷ pos 1 ∷ []) (on_reconnect (imbalance_strategy params)))
      (pos 3 ∷ pos 2 ∷ pos 1 ∷ [])
roll_all-IsWindow_example =
    roll_all-IsWindow 64 (pos 3 ∷ pos 2 ∷ pos 1 ∷ []) (imbalance_strategy params)
      (imbalance_strategy-IsStrategy 64 params)

abbrev noon : ℕ
noon = 3_000_000_000
