-- ===== src/Runtime/Config/Tests.antt =====
-- Each property of the loading at concrete files, in thousandths, with a library of JSON whose
-- values are lists of settings.
use text.Mathlib.Text.{◌==◌ as str_eq}
use trading_bot_v.Prelude.{
  ℕ, ℤ, Bool, true, ◌&&◌, pos, pos_part, negsuc, ◌≡◌, ◌↔◌, refl, false, Option, none, some, List,
  [], ◌∷◌, String, if◌then◌else◌,
}
use trading_bot_v.Core.Double.{Milli, milli_double}
use trading_bot_v.Core.Error.{value}
use trading_bot_v.Runtime.State.{RuntimeConfig}
use trading_bot_v.Runtime.Settings.{
  JsonLib, Literals, read_config, returned, thrown, default_strategy,
}
use trading_bot_v.Runtime.Config.{is_invalid, load_config}
use trading_bot_v.Runtime.Config.Valid.{IsValidConfig, load_config-IsValidConfig}
use trading_bot_v.Runtime.Config.Schema.{IsTyped, Kind, View, fits, is_some}
use trading_bot_v.Runtime.Config.Throws.{HoldsMistyped, load_config-thrown}
use trading_bot_v.Md.WsClient.{default_ws}

data Setting : Type 0 where
  str : String → Setting
  int : ℤ → Setting

-- a JSON value: a text, a number or an object of such
data Json : Type 0 where
  setting : Setting → Json
  object : List (String × Setting) → Json

lookup : List (String × Setting) → String → Option Setting
lookup [] key = none
lookup ((k, v) ∷ settings) key = if str_eq k key then some v else lookup settings key

-- `value`, with what a setting is read as
value_as : {A : Type 0} → (Setting → Option A) → Json → String → A → Option A
unfolding lookup
value_as f (setting s) key default = none
value_as f (object settings) key default = elim (lookup settings key) [
  | none ↦ some default
  | some s ↦ f s
]

abbrev as_string : Setting → Option String
as_string (str s) = some s
as_string (int n) = none

abbrev as_int : Setting → Option ℤ
as_int (str s) = none
as_int (int n) = some n

abbrev as_size : Setting → Option ℕ
as_size (str s) = none
as_size (int n) = some (pos_part n)

abbrev as_bool : Setting → Option Bool
as_bool s = none

abbrev kind_of : Kind → Setting → Bool
kind_of Kind.string (str s) = true
kind_of Kind.string (int n) = false
kind_of Kind.truth s = false
kind_of _ (str s) = false
kind_of _ (int n) = true

abbrev has : Option Setting → Bool
has none = false
has (some s) = true

abbrev under : Option Setting → Json
under none = object []
under (some s) = setting s

abbrev lit : Literals Milli
lit = record {
  hundredth = pos 10;
  tenth = pos 100;
  three_tenths = pos 300;
  two = pos 2000;
  five = pos 5000;
  eight = pos 8000;
}

-- The texts of two files: one sets the symbol, the other gives the product a number.
abbrev lib : JsonLib Milli Json
lib = record {
  read = λ s.
      if str_eq s "{\"symbol_id\":3}"
      then some (object (("symbol_id", int (pos 3)) ∷ []))
      else if str_eq s "{\"product_id\":3}"
      then some (object (("product_id", int (pos 3)) ∷ []))
      else none;
  contains = λ j key. elim j [ setting s ↦ false | object settings ↦ has (lookup settings key) ];
  at = λ j key. elim j [ setting s ↦ object [] | object settings ↦ under (lookup settings key) ];
  value_string = value_as as_string;
  value_int = value_as as_int;
  value_size = value_as as_size;
  value_double = value_as as_int;
  value_bool = value_as as_bool;
}

abbrev view : View Json
view = record {
  is_object = λ j. elim j [ setting s ↦ false | object settings ↦ true ];
  find = λ j key. elim j [
    | setting s ↦ none
    | object settings ↦ elim (lookup settings key) [ none ↦ none | some s ↦ some (setting s) ]
  ];
  is_a = λ kind j. elim j [ setting s ↦ kind_of kind s | object settings ↦ false ];
}

value_as-fits :
    {A : Type 0} (kind : Kind) (f : Setting → Option A)
    → ((s : Setting) → is_some (f s) ≡ kind_of kind s)
    → (j : Json) (key : String) (default : A)
    → is_some (value_as f j key default) ≡ fits view j key kind
unfolding value_as
value_as-fits kind f same (setting s) key default = refl
value_as-fits kind f same (object settings) key default = go (lookup settings key)
  where
    go :
        (o : Option Setting)
        → is_some (elim o [ none ↦ some default | some s ↦ f s ]) ≡ (
            true
            && elim (elim o as (λ _. Option Json) [ none ↦ none | some s ↦ some (setting s) ]) [
              | none ↦ true
              | some v ↦ view.is_a kind v
            ])
    go none = refl
    go (some s) = same s

lib-IsTyped : IsTyped view lib
lib-IsTyped = record {
  as_string = value_as-fits Kind.string as_string kind_string;
  as_int = value_as-fits Kind.int as_int kind_int;
  as_size = value_as-fits Kind.size as_size kind_size;
  as_real = value_as-fits Kind.real as_int kind_real;
  as_truth = value_as-fits Kind.truth as_bool (λ s. refl);
  found = lib-found;
  same = lib-same;
}
  where
    kind_string : (s : Setting) → is_some (as_string s) ≡ kind_of Kind.string s
    kind_string (str _) = refl
    kind_string (int _) = refl

    kind_int : (s : Setting) → is_some (as_int s) ≡ kind_of Kind.int s
    kind_int (str _) = refl
    kind_int (int _) = refl

    kind_size : (s : Setting) → is_some (as_size s) ≡ kind_of Kind.size s
    kind_size (str _) = refl
    kind_size (int _) = refl

    kind_real : (s : Setting) → is_some (as_int s) ≡ kind_of Kind.real s
    kind_real (str _) = refl
    kind_real (int _) = refl

    lib-found : (j : Json) (key : String) → lib.contains j key ≡ is_some (view.find j key)
    lib-found (setting s) key = refl
    lib-found (object settings) key = go (lookup settings key)
      where
        go :
            (o : Option Setting)
            → has o
              ≡ is_some (elim o as (λ _. Option Json) [ none ↦ none | some s ↦ some (setting s) ])
        go none = refl
        go (some s) = refl

    lib-same : (j : Json) (key : String) (v : Json) → view.find j key ≡ some v → lib.at j key ≡ v
    lib-same (setting s) key v e = cc
    lib-same (object settings) key v e = go (lookup settings key) e
      where
        go :
            (o : Option Setting)
            → elim o as (λ _. Option Json) [ none ↦ none | some s ↦ some (setting s) ] ≡ some v
            → under o ≡ v
        go none e = cc
        go (some s) e = cc

abbrev files : String → Option String
files path =
    if str_eq path "config.json"
    then some "{\"symbol_id\":3}"
    else if str_eq path "bad.json"
    then some "{\"product_id\":3}"
    else none

abbrev loaded : RuntimeConfig Milli
loaded = record {
  product_id = "BTC-USD";
  symbol_id = 3;
  tick_size = pos 10;
  max_position = pos 5000;
  initial_cash = pos 10_000_000;
  strategy = default_strategy lit;
  network_core_id = negsuc 0;
  strategy_core_id = negsuc 0;
  strategy_busy_spin = false;
  strategy_sleep_us = pos 50;
  circuit_error_threshold = 20;
  circuit_window_msgs = 500;
  ws = default_ws;
}

load_config_json : load_config lib lit files "config.json" ≡ returned (value loaded)
unfolding load_config read_config is_invalid value_as lookup
load_config_json = refl

load_config-IsValidConfig_example : IsValidConfig loaded
load_config-IsValidConfig_example =
    load_config-IsValidConfig lib lit files "config.json" loaded load_config_json

load_config_bad : load_config lib lit files "bad.json" ≡ thrown
unfolding load_config read_config is_invalid value_as lookup
load_config_bad = refl

load_config-thrown_example :
    (load_config lib lit files "bad.json" ≡ thrown)
    ↔ HoldsMistyped lib lit view lib-IsTyped (files "bad.json")
load_config-thrown_example = load_config-thrown lib lit view lib-IsTyped files "bad.json"
