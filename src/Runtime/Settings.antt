-- ===== src/Runtime/Settings.antt =====
-- src/main.cpp, `loadConfig`: the reading of the settings from a JSON value. What nlohmann's JSON
-- does with a text is a parameter.
use trading_bot_v.Prelude.{
  ℕ, ◌%◌, ◌^◌, ◌-◌, ℤ, pos, negsuc, Bool, true, false, Option, none, some, String, if◌then◌else◌,
}
use trading_bot_v.Core.Double.{Double}
use trading_bot_v.Core.Error.{Result}
use trading_bot_v.Md.WsClient.{WsConfig, default_ws}
use trading_bot_v.Strategy.Signals.{StrategyParams}
use trading_bot_v.Runtime.State.{RuntimeConfig}

-- nlohmann's calls on its values. `value(key, default)` gives the default for a key that is missing,
-- and throws, here `none`, on a value of another type and on a value that is no object.
pub record JsonLib (D V : Type 0) : Type 0 where
  -- `in >> j`, which throws on a text that is not JSON
  pub read : String → Option V
  pub contains : V → String → Bool
  pub at : V → String → V
  pub value_string : V → String → String → Option String
  pub value_int : V → String → ℤ → Option ℤ
  -- of a `size_t` or a `uint64_t`
  pub value_size : V → String → ℕ → Option ℕ
  pub value_double : V → String → D → Option D
  pub value_bool : V → String → Bool → Option Bool

-- the literals 0.01, 0.1, 0.3, 2.0, 5.0 and 8.0
pub record Literals (D : Type 0) : Type 0 where
  pub hundredth : D
  pub tenth : D
  pub three_tenths : D
  pub two : D
  pub five : D
  pub eight : D

-- how a call ends: with a result, or with an exception that it does not catch
pub data Outcome (A : Type 0) : Type 0 where
  returned : Result A → Outcome A
  thrown : Outcome A

infixl 5 ◌>>=◌
abbrev pub ◌>>=◌ : {A B : Type 0} → Option A → (A → Option B) → Option B
none >>= f = none
some a >>= f = f a

-- the settings of one object, read if the key is there
abbrev pub section_of : {D V A : Type 0} → JsonLib D V → V → String → A → (V → Option A) → Option A
section_of lib j key default f = if lib.contains j key then f (lib.at j key) else some default

-- the initializers of `RuntimeConfig` and of `StrategyParams`
module _ {D : Type 0} ⦃d : Double D⦄ (lit : Literals D) where
  abbrev pub default_strategy : StrategyParams D
  default_strategy = record {
    depth_levels = 5;
    smoothing_window = 5;
    entry_imbalance = lit.three_tenths;
    take_profit_bps = lit.eight;
    stop_loss_bps = lit.eight;
    max_spread_bps = lit.five;
    trade_fraction = lit.tenth;
    cooldown_s = lit.two;
    allow_short = true;
  }

-- the settings under "threading" and under "risk"
pub record Threading : Type 0 where
  pub network_core : ℤ
  pub strategy_core : ℤ
  pub busy_spin : Bool
  pub sleep_us : ℤ

pub record Circuit : Type 0 where
  pub error_threshold : ℕ
  pub window_msgs : ℕ

abbrev pub default_threading : Threading
default_threading = record {
  network_core = negsuc 0;
  strategy_core = negsuc 0;
  busy_spin = false;
  sleep_us = pos 50;
}

abbrev pub default_circuit : Circuit
default_circuit = record { error_threshold = 20; window_msgs = 500 }

-- `static_cast` of an `int` to 16 bits
abbrev pub to_symbol : ℤ → ℕ
to_symbol (pos n) = n % 2 ^ 16
to_symbol (negsuc n) = 2 ^ 16 - 1 - n % 2 ^ 16

module _ {D V : Type 0} ⦃d : Double D⦄ (lib : JsonLib D V) (lit : Literals D) where
  abbrev pub read_threading : V → Option Threading
  read_threading t = do
    network_core ← lib.value_int t "network_core" (negsuc 0)
    strategy_core ← lib.value_int t "strategy_core" (negsuc 0)
    busy_spin ← lib.value_bool t "strategy_busy_spin" false
    sleep_us ← lib.value_int t "strategy_sleep_us" (pos 50)
    some (record {
      network_core = network_core;
      strategy_core = strategy_core;
      busy_spin = busy_spin;
      sleep_us = sleep_us;
    })

  abbrev pub read_strategy : V → Option (StrategyParams D)
  read_strategy s = do
    depth_levels ← lib.value_size s "depth_levels" 5
    smoothing_window ← lib.value_size s "smoothing_window" 5
    entry_imbalance ← lib.value_double s "entry_imbalance" lit.three_tenths
    take_profit_bps ← lib.value_double s "take_profit_bps" lit.eight
    stop_loss_bps ← lib.value_double s "stop_loss_bps" lit.eight
    max_spread_bps ← lib.value_double s "max_spread_bps" lit.five
    trade_fraction ← lib.value_double s "trade_fraction" lit.tenth
    cooldown_s ← lib.value_double s "cooldown_s" lit.two
    allow_short ← lib.value_bool s "allow_short" true
    some (record {
      depth_levels = depth_levels;
      smoothing_window = smoothing_window;
      entry_imbalance = entry_imbalance;
      take_profit_bps = take_profit_bps;
      stop_loss_bps = stop_loss_bps;
      max_spread_bps = max_spread_bps;
      trade_fraction = trade_fraction;
      cooldown_s = cooldown_s;
      allow_short = allow_short;
    })

  abbrev pub read_circuit : V → Option Circuit
  read_circuit r = do
    error_threshold ← lib.value_size r "circuit_error_threshold" 20
    window_msgs ← lib.value_size r "circuit_window_msgs" 500
    some (record { error_threshold = error_threshold; window_msgs = window_msgs })

  abbrev pub read_venue : V → Option WsConfig
  read_venue v = do
    host ← lib.value_string v "host" default_ws.host
    port ← lib.value_string v "port" default_ws.port
    channel ← lib.value_string v "channel" default_ws.channel
    some (record default_ws { host = host; port = port; channel = channel })

  -- the whole reading: the settings, and the symbol before it is cast to 16 bits
  unfoldable pub read_config : V → Option (RuntimeConfig D × ℤ)
  read_config j = do
    product_id ← lib.value_string j "product_id" "BTC-USD"
    symbol_id ← lib.value_int j "symbol_id" (pos 0)
    tick_size ← lib.value_double j "tick_size" lit.hundredth
    max_position ← lib.value_double j "max_position" lit.five
    initial_cash ← lib.value_double j "initial_cash" d.ten_thousand
    threading ← section_of lib j "threading" default_threading read_threading
    strategy ← section_of lib j "strategy" (default_strategy lit) read_strategy
    circuit ← section_of lib j "risk" default_circuit read_circuit
    ws ← section_of lib j "venue" default_ws read_venue
    some (
      record {
        product_id = product_id;
        symbol_id = to_symbol symbol_id;
        tick_size = tick_size;
        max_position = max_position;
        initial_cash = initial_cash;
        strategy = strategy;
        network_core_id = threading.network_core;
        strategy_core_id = threading.strategy_core;
        strategy_busy_spin = threading.busy_spin;
        strategy_sleep_us = threading.sleep_us;
        circuit_error_threshold = circuit.error_threshold;
        circuit_window_msgs = circuit.window_msgs;
        ws = ws;
      },
      symbol_id,
    )
