-- ===== src/Runtime/Config/Throws.antt =====
-- main.cpp, `loadConfig`: when an exception leaves it.
use trading_bot_v.Prelude.{
  ℤ, Bool, true, false, ◌&&◌, ◌≡◌, ◌∙◌, ◌↔◌, ap, refl, sym, Option, none, some, List, [], ◌∷◌,
  String, if-cases,
}
use trading_bot_v.Core.Double.{Double}
use trading_bot_v.Md.WsClient.{default_ws}
use trading_bot_v.Runtime.State.{RuntimeConfig}
use trading_bot_v.Runtime.Settings.{
  JsonLib, Literals, Outcome, ◌>>=◌, default_circuit, default_strategy, default_threading,
  read_config, thrown,
}
use trading_bot_v.Runtime.Config.{is_invalid, load_config, of_file, of_json, of_settings}
use trading_bot_v.Runtime.Config.Schema.{
  IsTyped, Kind, View, fit_all, fits, is_some, is_well_typed, read_circuit-fit, read_strategy-fit,
  read_threading-fit, read_venue-fit, risk, section_fits, section_of-fit, strategy, then_some,
  threading, top_level, venue,
}

-- the last read, of which the result is kept whole
last :
    {A B : Type 0} (o : Option A) (f : A → B) {p : Bool}
    → is_some o ≡ p
    → is_some (o >>= (λ a. some (f a))) ≡ p
last none f e = e
last (some a) f e = e

and_assoc : (a b c : Bool) → (a && (b && c)) ≡ ((a && b) && c)
and_assoc true b c = refl
and_assoc false b c = refl

is_some-false : {A : Type 0} (o : Option A) → is_some o ≡ false → o ≡ none
is_some-false none e = refl
is_some-false (some a) e = cc

module _ {D V : Type 0} ⦃d : Double D⦄ (lib : JsonLib D V) (lit : Literals D) (view : View V)
    (laws : IsTyped view lib) where
  -- the settings of the value itself, and what is tested after them
  abbrev fit_then : V → List (String × Kind) → Bool → Bool
  fit_then j [] rest = rest
  fit_then j (setting ∷ settings) rest = fits view j setting.0 setting.1 && fit_then j settings rest

  fit_then_lem :
      (j : V) (settings : List (String × Kind)) (rest : Bool)
      → fit_then j settings rest ≡ (fit_all view j settings && rest)
  fit_then_lem j [] rest = refl
  fit_then_lem j (setting ∷ settings) rest =
      ap (λ z. fits view j setting.0 setting.1 && z) (fit_then_lem j settings rest)
      ∙ and_assoc (fits view j setting.0 setting.1) (fit_all view j settings) rest

  -- The reading of all settings gives a result just for a value that is well typed.
  read_config-fit : (j : V) → is_some (read_config lib lit j) ≡ is_well_typed view j
  unfolding read_config
  read_config-fit j =
      then_some _ _ _ (fit_then j after_0 sections) (laws.as_string j "product_id" _) (λ x0.
        then_some _ _ _ (fit_then j after_1 sections) (laws.as_int j "symbol_id" _) (λ x1.
          then_some _ _ _ (fit_then j after_2 sections) (laws.as_real j "tick_size" _) (λ x2.
            then_some _ _ _ (fit_then j after_3 sections) (laws.as_real j "max_position" _) (λ x3.
              then_some _ _ _ sections (laws.as_real j "initial_cash" _) (λ x4.
                then_some _ _ _ after_threading
                  (section_of-fit lib lit view laws j "threading" default_threading _ threading
                    (read_threading-fit lib lit view laws))
                  (λ t.
                    then_some _ _ _ after_strategy
                      (section_of-fit lib lit view laws j "strategy" (default_strategy lit) _
                        strategy (read_strategy-fit lib lit view laws))
                      (λ s.
                        then_some _ _ _ (section_fits view j "venue" venue)
                          (section_of-fit lib lit view laws j "risk" default_circuit _ risk
                            (read_circuit-fit lib lit view laws))
                          (λ c. last _ _ (
                            section_of-fit lib lit view laws j "venue" default_ws _ venue
                              (read_venue-fit lib lit view laws))))))))))
      ∙ fit_then_lem j top_level sections
    where
      after_3 : List (String × Kind)
      after_3 = ("initial_cash", Kind.real) ∷ []

      after_2 : List (String × Kind)
      after_2 = ("max_position", Kind.real) ∷ after_3

      after_1 : List (String × Kind)
      after_1 = ("tick_size", Kind.real) ∷ after_2

      after_0 : List (String × Kind)
      after_0 = ("symbol_id", Kind.int) ∷ after_1

      after_strategy : Bool
      after_strategy = section_fits view j "risk" risk && section_fits view j "venue" venue

      after_threading : Bool
      after_threading = section_fits view j "strategy" strategy && after_strategy

      sections : Bool
      sections = section_fits view j "threading" threading && after_threading

  -- a file with a JSON value that is not well typed
  abbrev pub HoldsMistyped : Option String → Type 0
  HoldsMistyped file =
      (words : String) × (j : V) × (file ≡ some words)
      × (lib.read words ≡ some j)
      × (is_well_typed view j ≡ false)

  config_none : (j : V) → (read_config lib lit j ≡ none) ↔ (is_well_typed view j ≡ false)
  config_none j = (
    (λ e. sym (read_config-fit j) ∙ ap is_some e),
    (λ e. is_some-false _ (read_config-fit j ∙ e)),
  )

  settings_thrown : (o : Option (RuntimeConfig D × ℤ)) → of_settings lib lit o ≡ thrown → o ≡ none
  settings_thrown none e = refl
  settings_thrown (some r) e =
      if-cases (λ (z : Outcome (RuntimeConfig D)). z ≡ thrown → some r ≡ none) (is_invalid r.0 r.1)
        (λ bad f. cc) (λ good f. cc) e

  json_thrown :
      (o : Option V)
      → of_json lib lit o ≡ thrown
      → (j : V) × (o ≡ some j) × (read_config lib lit j ≡ none)
  json_thrown none e = cc
  json_thrown (some j) e = (j, refl, settings_thrown (read_config lib lit j) e)

  file_thrown : (o : Option String) → of_file lib lit o ≡ thrown → HoldsMistyped o
  file_thrown none e = cc
  file_thrown (some words) e =
      let r = json_thrown (lib.read words) e in (words, r.0, refl, r.1, (config_none r.0).0 r.2)

  mistyped_thrown : (o : Option String) → HoldsMistyped o → of_file lib lit o ≡ thrown
  mistyped_thrown o (words, j, opened, parsed, mistyped) =
      ap (of_file lib lit) opened
      ∙ ap (of_json lib lit) parsed
      ∙ ap (of_settings lib lit) ((config_none j).1 mistyped)

  -- With nlohmann's documented behaviour `IsTyped`: an exception leaves `loadConfig` if and only
  -- if the file can be opened, its text is JSON, and the value is no object, or one of its five
  -- settings, or of those under "threading", "strategy", "risk" or "venue" if it has that section,
  -- is there with a value that cannot be read as the setting's type, or such a section is no
  -- object.
  pub load_config-thrown :
      (open_file : String → Option String) (path : String)
      → (load_config lib lit open_file path ≡ thrown) ↔ HoldsMistyped (open_file path)
  unfolding load_config
  load_config-thrown open_file path =
      (file_thrown (open_file path), mistyped_thrown (open_file path))
