-- ===== src/Runtime/Config/Valid.antt =====
-- main.cpp, `loadConfig`: what a configuration that is returned satisfies, and what the runtime
-- does with it.
use trading_bot_v.Prelude.{
  ◌≤◌, ◌<◌, ℤ, pos, ◌≤ℤ◌, ◌≡◌, ◌≢◌, refl, subst, false, Option, none, some, String, arith, if-cases,
  eq_iff,
}
use trading_bot_v.Core.Double.{Double}
use trading_bot_v.Core.Types.{max_symbols}
use trading_bot_v.Core.Error.{error, value}
use trading_bot_v.Strategy.ImbalanceStrategy.{Strategy, max_depth, max_rolling}
use trading_bot_v.Runtime.State.{RuntimeConfig}
use trading_bot_v.Md.WsClient.{default_ws}
use trading_bot_v.Runtime.Settings.{
  section_of, default_threading, default_strategy, default_circuit, read_threading, read_strategy,
  read_circuit, read_venue, JsonLib, Literals, Outcome, returned, thrown, read_config, to_symbol,
  ◌>>=◌,
}
use trading_bot_v.Runtime.Config.{checked, is_invalid, load_config, of_file, of_json, of_settings}

-- of a call that does not throw
abbrev Holds : {A : Type 0} → (A → Type 0) → Option A → Type 0
Holds P none = Unit {0}
Holds P (some a) = P a

bind-Holds :
    {A B : Type 0} (P : B → Type 0) (m : Option A) (f : A → Option B)
    → ((a : A) → Holds P (f a))
    → Holds P (m >>= f)
bind-Holds P none f h = tt
bind-Holds P (some a) f h = h a

-- of a configuration that a call returns
abbrev Delivers : {A : Type 0} → (A → Type 0) → Outcome A → Type 0
Delivers P (returned (value a)) = P a
Delivers P (returned (error e)) = Unit {0}
Delivers P thrown = Unit {0}

module _ {D : Type 0} ⦃d : Double D⦄ where
  -- No comparison of the numbers is true that the code refuses.
  pub record IsValidConfig (cfg : RuntimeConfig D) : Type 0 where
    pub tick_size : d.le cfg.tick_size d.nought ≡ false
    pub max_position : d.le cfg.max_position d.nought ≡ false
    pub initial_cash : d.lt cfg.initial_cash d.nought ≡ false
    pub symbol : cfg.symbol_id < max_symbols
    pub depth_least : 1 ≤ cfg.strategy.depth_levels
    pub depth_most : cfg.strategy.depth_levels ≤ max_depth
    pub window_least : 1 ≤ cfg.strategy.smoothing_window
    pub window_most : cfg.strategy.smoothing_window ≤ max_rolling
    pub error_threshold : 1 ≤ cfg.circuit_error_threshold
    pub window_msgs : 1 ≤ cfg.circuit_window_msgs
    pub sleep : pos 1 ≤ℤ cfg.strategy_sleep_us
    pub fraction_least : d.le cfg.strategy.trade_fraction d.nought ≡ false
    pub fraction_most : d.lt d.one cfg.strategy.trade_fraction ≡ false
    pub entry_least : d.lt cfg.strategy.entry_imbalance d.nought ≡ false
    pub entry_most : d.lt d.one cfg.strategy.entry_imbalance ≡ false
    pub take_profit : d.le cfg.strategy.take_profit_bps d.nought ≡ false
    pub stop_loss : d.le cfg.strategy.stop_loss_bps d.nought ≡ false
    pub host : cfg.ws.host ≢ ""
    pub port : cfg.ws.port ≢ ""

  is_invalid-IsValidConfig :
      (cfg : RuntimeConfig D) (symbol : ℤ)
      → cfg.symbol_id ≡ to_symbol symbol
      → is_invalid cfg symbol ≡ false
      → IsValidConfig cfg
  unfolding is_invalid
  is_invalid-IsValidConfig cfg symbol e h =
      ground (arith, eq_iff cfg.ws.host "", eq_iff cfg.ws.port "")

  checked-IsValidConfig :
      (cfg : RuntimeConfig D) (symbol : ℤ)
      → cfg.symbol_id ≡ to_symbol symbol
      → Delivers IsValidConfig (checked cfg symbol)
  checked-IsValidConfig cfg symbol e =
      if-cases (Delivers IsValidConfig) (is_invalid cfg symbol) (λ bad. tt)
        (λ good. is_invalid-IsValidConfig cfg symbol e good)

abbrev IsCast : (D : Type 0) → RuntimeConfig D × ℤ → Type 0
IsCast D r = r.0.symbol_id ≡ to_symbol r.1

module _ {D V : Type 0} ⦃d : Double D⦄ (lib : JsonLib D V) (lit : Literals D) where
  read_config-IsCast : (j : V) → Holds (IsCast D) (read_config lib lit j)
  unfolding read_config
  read_config-IsCast j =
      bind-Holds (IsCast D) (lib.value_string j "product_id" "BTC-USD") _ (λ product_id.
        bind-Holds (IsCast D) (lib.value_int j "symbol_id" (pos 0)) _ (λ symbol_id.
          bind-Holds (IsCast D) (lib.value_double j "tick_size" lit.hundredth) _ (λ tick_size.
            bind-Holds (IsCast D) (lib.value_double j "max_position" lit.five) _ (λ max_position.
              bind-Holds (IsCast D) (lib.value_double j "initial_cash" d.ten_thousand) _
                (λ initial_cash.
                  bind-Holds (IsCast D)
                    (section_of lib j "threading" default_threading (read_threading lib lit)) _
                    (λ threading.
                      bind-Holds (IsCast D)
                        (section_of lib j "strategy" (default_strategy lit) (read_strategy lib lit))
                        _
                        (λ strategy.
                          bind-Holds (IsCast D)
                            (section_of lib j "risk" default_circuit (read_circuit lib lit)) _
                            (λ circuit.
                              bind-Holds (IsCast D)
                                (section_of lib j "venue" default_ws (read_venue lib lit)) _
                                (λ ws. refl)))))))))

  settings-IsValidConfig :
      (o : Option (RuntimeConfig D × ℤ))
      → Holds (IsCast D) o
      → Delivers IsValidConfig (of_settings lib lit o)
  settings-IsValidConfig none h = tt
  settings-IsValidConfig (some r) h = checked-IsValidConfig r.0 r.1 h

  json-IsValidConfig : (o : Option V) → Delivers IsValidConfig (of_json lib lit o)
  json-IsValidConfig none = tt
  json-IsValidConfig (some j) =
      settings-IsValidConfig (read_config lib lit j) (read_config-IsCast j)

  file-IsValidConfig : (o : Option String) → Delivers IsValidConfig (of_file lib lit o)
  file-IsValidConfig none = tt
  file-IsValidConfig (some text) = json-IsValidConfig (lib.read text)

  module _ (open_file : String → Option String) where
    -- If `loadConfig` returns a configuration, then none of the comparisons that it refuses holds
    -- of the tick size, the maximum position, the cash, the fraction, the entry threshold, the
    -- take profit and the stop loss, the symbol is below 64, the depth and the window are between
    -- 1 and 32, the breaker's threshold and window are at least 1, the sleep is at least 1, and
    -- host and port are not empty.
    pub load_config-IsValidConfig :
        (path : String) (cfg : RuntimeConfig D)
        → load_config lib lit open_file path ≡ returned (value cfg)
        → IsValidConfig cfg
    unfolding load_config
    load_config-IsValidConfig path cfg e =
        subst (Delivers IsValidConfig) e (file-IsValidConfig (open_file path))
