-- ===== src/Strategy/Signals.antt =====
-- strategy/signal.hpp: what the strategy asks for, and its parameters.
use trading_bot_v.Prelude.{ℕ, ℤ, pos, Bool, true, false}
use trading_bot_v.Core.Double.{Double}
use trading_bot_v.Core.Types.{Price, Qty}

pub data SignalAction : Type 0 where
  none buy sell : SignalAction

pub record Signal (D : Type 0) : Type 0 where
  pub action : SignalAction
  pub price : Price
  pub qty : Qty D
  pub ts : ℤ

abbrev pub no_signal : {D : Type 0} ⦃d : Double D⦄ → Signal D
no_signal ⦃d⦄ = record {
  action = SignalAction.none;
  price = record { ticks = pos 0 };
  qty = record { value = d.nought };
  ts = pos 0;
}

abbrev pub is_actionable : {D : Type 0} → Signal D → Bool
is_actionable s = elim s.action [ SignalAction.none ↦ false | _ ↦ true ]

pub record StrategyParams (D : Type 0) : Type 0 where
  pub depth_levels : ℕ
  pub smoothing_window : ℕ
  pub entry_imbalance : D
  pub take_profit_bps : D
  pub stop_loss_bps : D
  pub max_spread_bps : D
  pub trade_fraction : D
  pub cooldown_s : D
  pub allow_short : Bool
