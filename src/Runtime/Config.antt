-- ===== src/Runtime/Config.antt =====
-- src/main.cpp, `loadConfig`: the stages of the loading, and the checks of the settings. The file
-- that a path names is a parameter.
use text.Mathlib.Text.{◌==◌ as str_eq}
use trading_bot_v.Prelude.{
  ℕ, ◌%◌, ◌^◌, ◌-◌, ℤ, pos, negsuc, pos_part, leb_ℤ, ltb_ℤ, Bool, true, false, ◌||◌, Option, none,
  some, String, ltb, leb, ◌==◌, if◌then◌else◌,
}
use trading_bot_v.Core.Double.{Double}
use trading_bot_v.Core.Types.{max_symbols}
use trading_bot_v.Core.Error.{ErrorCode, Result, error, value}
use trading_bot_v.Md.WsClient.{WsConfig, default_ws}
use trading_bot_v.Strategy.Signals.{StrategyParams}
use trading_bot_v.Strategy.ImbalanceStrategy.{max_depth, max_rolling}
use trading_bot_v.Runtime.State.{RuntimeConfig}
use trading_bot_v.Runtime.Settings.{JsonLib, Literals, Outcome, read_config, returned, thrown}
mod Valid
mod Schema
mod Throws
mod Tests

-- the conditions that are refused, in the order of the code
abbrev pub bad_symbol : ℤ → Bool
bad_symbol id = ltb_ℤ id (pos 0) || leb max_symbols (pos_part id)

module _ {D : Type 0} ⦃d : Double D⦄ where
  abbrev pub bad_strategy : StrategyParams D → Bool
  bad_strategy s =
      s.depth_levels == 0
      || s.smoothing_window == 0
      || ltb max_depth s.depth_levels
      || ltb max_rolling s.smoothing_window

  abbrev pub bad_amounts : StrategyParams D → Bool
  bad_amounts s =
      d.le s.trade_fraction d.nought
      || d.lt d.one s.trade_fraction
      || d.lt s.entry_imbalance d.nought
      || d.lt d.one s.entry_imbalance
      || d.le s.take_profit_bps d.nought
      || d.le s.stop_loss_bps d.nought

  unfoldable pub is_invalid : RuntimeConfig D → ℤ → Bool
  is_invalid cfg symbol =
      d.le cfg.tick_size d.nought
      || d.le cfg.max_position d.nought
      || d.lt cfg.initial_cash d.nought
      || bad_symbol symbol
      || bad_strategy cfg.strategy
      || cfg.circuit_error_threshold == 0
      || cfg.circuit_window_msgs == 0
      || leb_ℤ cfg.strategy_sleep_us (pos 0)
      || bad_amounts cfg.strategy
      || str_eq cfg.ws.host ""
      || str_eq cfg.ws.port ""

  abbrev pub checked : RuntimeConfig D → ℤ → Outcome (RuntimeConfig D)
  checked cfg symbol =
      if is_invalid cfg symbol
      then returned (error ErrorCode.config_invalid_value)
      else returned (value cfg)

module _ {D V : Type 0} ⦃d : Double D⦄ (lib : JsonLib D V) (lit : Literals D) where
  -- what follows the reading of the settings, of the JSON value and of the file
  abbrev pub of_settings : Option (RuntimeConfig D × ℤ) → Outcome (RuntimeConfig D)
  of_settings none = thrown
  of_settings (some r) = checked r.0 r.1

  abbrev pub of_json : Option V → Outcome (RuntimeConfig D)
  of_json none = returned (error ErrorCode.parse_malformed_json)
  of_json (some j) = of_settings (read_config lib lit j)

  abbrev pub of_file : Option String → Outcome (RuntimeConfig D)
  of_file none = returned (error ErrorCode.config_file_not_found)
  of_file (some text) = of_json (lib.read text)

  -- `open_file path` is the text of a file that can be opened.
  unfoldable pub load_config : (String → Option String) → String → Outcome (RuntimeConfig D)
  unfolding read_config is_invalid
  load_config open_file path = of_file (open_file path)
