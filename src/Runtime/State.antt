-- ===== src/Runtime/State.antt =====
-- The members of `class Runtime`, its configuration, its events and `struct Metrics`
-- (core/metrics.hpp).
use trading_bot_v.Prelude.{ℕ, ◌+◌, ◌%◌, ◌^◌, ℤ, Bool, List, String}
use trading_bot_v.Core.Types.{PriceLevel}
use trading_bot_v.Md.BoundedBook.{Book}
use trading_bot_v.Md.Messages.{CoinbaseChange}
use trading_bot_v.Md.WsClient.{WsConfig}
use trading_bot_v.Exec.RiskManager.{Risk}
use trading_bot_v.Exec.CircuitBreaker.{Breaker}
use trading_bot_v.Strategy.Signals.{StrategyParams}
use trading_bot_v.Strategy.ImbalanceStrategy.{Strategy}
use trading_bot_v.Util.SpscQueue.{Queue}
use trading_bot_v.Util.HdrHistogram.{Histogram}

-- `struct RuntimeConfig`
pub record RuntimeConfig (D : Type 0) : Type 0 where
  pub product_id : String
  pub symbol_id : ℕ
  pub tick_size : D
  pub max_position : D
  pub initial_cash : D
  pub strategy : StrategyParams D
  pub network_core_id : ℤ
  pub strategy_core_id : ℤ
  pub strategy_busy_spin : Bool
  pub strategy_sleep_us : ℤ
  pub circuit_error_threshold : ℕ
  pub circuit_window_msgs : ℕ
  pub ws : WsConfig

-- Each event begins with its time of receipt. A list is the used part of its array.
pub data MarketEvent (D : Type 0) : Type 0 where
  snapshot : ℤ → List (PriceLevel D) → List (PriceLevel D) → MarketEvent D
  l2_update : ℤ → List (CoinbaseChange D) → MarketEvent D
  heartbeat : ℤ → MarketEvent D

pub record Metrics : Type 0 where
  pub wire_to_parse : Histogram
  pub parse_to_book : Histogram
  pub book_to_signal : Histogram
  pub signal_to_order : Histogram
  pub order_to_fill : Histogram
  pub tick_to_signal : Histogram
  pub queue_depth : Histogram
  pub msgs_received : ℕ
  pub parse_errors : ℕ
  pub reconnects : ℕ
  pub heartbeats_recv : ℕ
  pub signals_generated : ℕ
  pub orders_sent : ℕ
  pub orders_approved : ℕ
  pub orders_rejected : ℕ
  pub fills : ℕ
  pub partial_fills : ℕ
  pub circuit_blocked : ℕ
  pub queue_full_drops : ℕ
  pub pre_snapshot_drops : ℕ

-- `++` on a counter
abbrev pub bump : ℕ → ℕ
bump n = (n + 1) % 2 ^ 64

-- what `publishPnl` stores for the main thread
pub record Published (D : Type 0) : Type 0 where
  pub cash : D
  pub position : D
  pub avg_entry : D
  pub realized : D

pub record Runtime (D : Type 0) : Type 0 where
  pub cfg : RuntimeConfig D
  pub metrics : Metrics
  pub book : Book D
  pub strategy : Strategy D
  pub risk : Risk D
  pub breaker : Breaker
  pub queue : Queue (MarketEvent D)
  pub book_invalidate : Bool
  pub book_ready : Bool
  pub mark_bid : D
  pub mark_ask : D
  pub pnl : Published D
  pub next_order_id : ℕ
