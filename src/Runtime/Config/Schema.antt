-- ===== src/Runtime/Config/Schema.antt =====
-- The settings of main.cpp's `loadConfig` with their types, and when the reading of one of the
-- sections gives a result.
use trading_bot_v.Prelude.{
  ℕ, ℤ, Bool, true, false, ◌&&◌, ◌≡◌, ◌∙◌, ap, refl, Option, none, some, List, [], ◌∷◌, String,
  if◌then◌else◌,
}
use trading_bot_v.Core.Double.{Double}
use trading_bot_v.Runtime.Settings.{
  JsonLib, Literals, ◌>>=◌, read_circuit, read_strategy, read_threading, read_venue, section_of,
}

-- the types that settings are read as: a text, an `int`, a `size_t` or `uint64_t`, a `double` and a
-- `bool`
pub data Kind : Type 0 where
  string int size real truth : Kind

abbrev pub is_some : {A : Type 0} → Option A → Bool
is_some none = false
is_some (some a) = true

-- the settings, with their types: those of the value itself and those of each of its sections
abbrev pub top_level : List (String × Kind)
top_level =
    ("product_id", Kind.string)
    ∷ ("symbol_id", Kind.int)
    ∷ ("tick_size", Kind.real)
    ∷ ("max_position", Kind.real)
    ∷ ("initial_cash", Kind.real)
    ∷ []

abbrev pub threading : List (String × Kind)
threading =
    ("network_core", Kind.int)
    ∷ ("strategy_core", Kind.int)
    ∷ ("strategy_busy_spin", Kind.truth)
    ∷ ("strategy_sleep_us", Kind.int)
    ∷ []

abbrev pub strategy : List (String × Kind)
strategy =
    ("depth_levels", Kind.size)
    ∷ ("smoothing_window", Kind.size)
    ∷ ("entry_imbalance", Kind.real)
    ∷ ("take_profit_bps", Kind.real)
    ∷ ("stop_loss_bps", Kind.real)
    ∷ ("max_spread_bps", Kind.real)
    ∷ ("trade_fraction", Kind.real)
    ∷ ("cooldown_s", Kind.real)
    ∷ ("allow_short", Kind.truth)
    ∷ []

abbrev pub risk : List (String × Kind)
risk = ("circuit_error_threshold", Kind.size) ∷ ("circuit_window_msgs", Kind.size) ∷ []

abbrev pub venue : List (String × Kind)
venue = ("host", Kind.string) ∷ ("port", Kind.string) ∷ ("channel", Kind.string) ∷ []

-- A JSON value seen from outside: whether it is an object, the value that an object has under a key,
-- and whether a value can be read as a type.
pub record View (V : Type 0) : Type 0 where
  pub is_object : V → Bool
  pub find : V → String → Option V
  pub is_a : Kind → V → Bool

module _ {V : Type 0} (view : View V) where
  -- `j` is an object, and what it has under the key, if anything, is of the type.
  abbrev pub fits : V → String → Kind → Bool
  fits j key kind =
      view.is_object j && elim (view.find j key) [ none ↦ true | some v ↦ view.is_a kind v ]

  abbrev pub fit_all : V → List (String × Kind) → Bool
  fit_all j [] = true
  fit_all j (setting ∷ settings) = fits j setting.0 setting.1 && fit_all j settings

  -- The settings of a section that is there fit.
  abbrev pub section_fits : V → String → List (String × Kind) → Bool
  section_fits j key settings = elim (view.find j key) [ none ↦ true | some v ↦ fit_all v settings ]

  abbrev pub is_well_typed : V → Bool
  is_well_typed j =
      fit_all j top_level
      && (section_fits j "threading" threading
          && (section_fits j "strategy" strategy
              && (section_fits j "risk" risk && section_fits j "venue" venue)))

  -- What nlohmann documents: `value` gives a result for an object that has nothing under the key, or
  -- a value that can be read as the type, and throws for any other; `contains` and `operator[]` find
  -- the same value.
  pub record IsTyped {D : Type 0} (lib : JsonLib D V) : Type 0 where
    pub as_string :
        (j : V) (key default : String)
        → is_some (lib.value_string j key default) ≡ fits j key Kind.string
    pub as_int :
        (j : V) (key : String) (default : ℤ)
        → is_some (lib.value_int j key default) ≡ fits j key Kind.int
    pub as_size :
        (j : V) (key : String) (default : ℕ)
        → is_some (lib.value_size j key default) ≡ fits j key Kind.size
    pub as_real :
        (j : V) (key : String) (default : D)
        → is_some (lib.value_double j key default) ≡ fits j key Kind.real
    pub as_truth :
        (j : V) (key : String) (default : Bool)
        → is_some (lib.value_bool j key default) ≡ fits j key Kind.truth
    pub found : (j : V) (key : String) → lib.contains j key ≡ is_some (view.find j key)
    pub same : (j : V) (key : String) (v : V) → view.find j key ≡ some v → lib.at j key ≡ v

-- A sequence of reads gives a result if the first does and those after it do.
pub then_some :
    {A B : Type 0} (o : Option A) (f : A → Option B) (p q : Bool)
    → is_some o ≡ p
    → ((a : A) → is_some (f a) ≡ q)
    → is_some (o >>= f) ≡ (p && q)
then_some none f p q e rest = ap (λ z. z && q) e
then_some (some a) f p q e rest = rest a ∙ ap (λ z. z && q) e

module _ {D V : Type 0} ⦃d : Double D⦄ (lib : JsonLib D V) (lit : Literals D) (view : View V)
    (laws : IsTyped view lib) where
  pub read_threading-fit : (t : V) → is_some (read_threading lib lit t) ≡ fit_all view t threading
  read_threading-fit t = then_some _ _ _ _ (laws.as_int t "network_core" _) (λ x0.
      then_some _ _ _ _ (laws.as_int t "strategy_core" _) (λ x1.
        then_some _ _ _ _ (laws.as_truth t "strategy_busy_spin" _)
          (λ x2. then_some _ _ _ _ (laws.as_int t "strategy_sleep_us" _) (λ x3. refl))))

  pub read_strategy-fit : (s : V) → is_some (read_strategy lib lit s) ≡ fit_all view s strategy
  read_strategy-fit s = then_some _ _ _ _ (laws.as_size s "depth_levels" _) (λ x0.
      then_some _ _ _ _ (laws.as_size s "smoothing_window" _) (λ x1.
        then_some _ _ _ _ (laws.as_real s "entry_imbalance" _) (λ x2.
          then_some _ _ _ _ (laws.as_real s "take_profit_bps" _) (λ x3.
            then_some _ _ _ _ (laws.as_real s "stop_loss_bps" _) (λ x4.
              then_some _ _ _ _ (laws.as_real s "max_spread_bps" _) (λ x5.
                then_some _ _ _ _ (laws.as_real s "trade_fraction" _) (λ x6.
                  then_some _ _ _ _ (laws.as_real s "cooldown_s" _)
                    (λ x7. then_some _ _ _ _ (laws.as_truth s "allow_short" _) (λ x8. refl)))))))))

  pub read_circuit-fit : (r : V) → is_some (read_circuit lib lit r) ≡ fit_all view r risk
  read_circuit-fit r =
      then_some _ _ _ _ (laws.as_size r "circuit_error_threshold" _)
        (λ x0. then_some _ _ _ _ (laws.as_size r "circuit_window_msgs" _) (λ x1. refl))

  pub read_venue-fit : (v : V) → is_some (read_venue lib lit v) ≡ fit_all view v venue
  read_venue-fit v = then_some _ _ _ _ (laws.as_string v "host" _) (λ x0.
      then_some _ _ _ _ (laws.as_string v "port" _)
        (λ x1. then_some _ _ _ _ (laws.as_string v "channel" _) (λ x2. refl)))

  pub section_of-fit :
      {A : Type 0} (j : V) (key : String) (default : A) (f : V → Option A)
      (settings : List (String × Kind))
      → ((v : V) → is_some (f v) ≡ fit_all view v settings)
      → is_some (section_of lib j key default f) ≡ section_fits view j key settings
  section_of-fit {A} j key default f settings each = go (view.find j key) refl
    where
      go :
          (o : Option V)
          → view.find j key ≡ o
          → is_some (if lib.contains j key then f (lib.at j key) else some default)
            ≡ elim o [ none ↦ true | some v ↦ fit_all view v settings ]
      go none e =
          ap (λ t. is_some (if t then f (lib.at j key) else some default))
            (laws.found j key ∙ ap is_some e)
      go (some v) e =
          ap (λ t. is_some (if t then f (lib.at j key) else some default))
            (laws.found j key ∙ ap is_some e)
          ∙ ap (λ z. is_some (f z)) (laws.same j key v e)
          ∙ each v
