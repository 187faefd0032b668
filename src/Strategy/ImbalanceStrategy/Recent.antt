-- ===== src/Strategy/ImbalanceStrategy/Recent.antt =====
-- The rolling window holds the latest imbalances since the last reconnect.
use native.Mathlib.Nat.{mod-add-mod, mod-eq_of_lt, mod_self, add-mod-mod}
use trading_bot_v.Prelude.{
  ℕ, zero, suc, ◌+◌, ◌-◌, ◌%◌, ◌≤◌, ◌<◌, ◌≡◌, ◌≢◌, refl, sym, ap, ◌∙◌, some, List, [], ◌∷◌, ltb,
  arith, get_elem?, length, update, update_self, update-ne, if◌then◌else◌,
}
use trading_bot_v.Core.Double.{Double}
use trading_bot_v.Strategy.ImbalanceStrategy.{Strategy, on_reconnect, roll}
use trading_bot_v.Strategy.ImbalanceStrategy.Window.{
  IsStrategy, reconnect-IsStrategy, roll-IsStrategy,
}
use trading_bot_v.Util.SpscQueue.Index.{mod_apart}

-- where the `j`-th latest imbalance stands, with the next one to come at `h`
abbrev pub place : ℕ → ℕ → ℕ → ℕ
place w h j = (h + (w - suc j)) % w

place_first : (w h : ℕ) → h < w → place w ((h + 1) % w) 0 ≡ h
place_first w h lt =
    mod-add-mod (h + 1) w (w - 1)
    ∙ ap (λ n. n % w) {x = h + 1 + (w - 1)} {y = h + w} (omega arith)
    ∙ sym (add-mod-mod h w w)
    ∙ ap (λ n. (h + n) % w) (mod_self w)
    ∙ ap (λ n. n % w) {x = h + 0} {y = h} (omega arith)
    ∙ mod-eq_of_lt lt

place_next : (w h j : ℕ) → suc j < w → place w ((h + 1) % w) (suc j) ≡ place w h j
place_next w h j lt =
    mod-add-mod (h + 1) w (w - suc (suc j))
    ∙ ap (λ n. n % w) {x = h + 1 + (w - suc (suc j))} {y = h + (w - suc j)} (omega arith)

place_ne : (w h j : ℕ) → h < w → suc j < w → h ≢ place w h j
place_ne w h j lt below e = mod_apart w (h + (w - suc j)) (h + w) (omega arith) (omega arith) (
    sym e
    ∙ sym (mod-eq_of_lt lt)
    ∙ ap (λ n. n % w) {x = h} {y = h + 0} (omega arith)
    ∙ ap (λ n. (h + n) % w) (sym (mod_self w))
    ∙ add-mod-mod h w w)

module _ {D : Type 0} ⦃d : Double D⦄ where
  -- the imbalances `recent`, the latest first, as far as the window has room for them
  pub record IsWindow (s : Strategy D) (recent : List D) : Type 0 where
    pub known : s.rolling_count ≤ length recent
    pub complete : s.rolling_count < s.params.smoothing_window → s.rolling_count ≡ length recent
    pub held :
        (j : ℕ)
        → j < s.rolling_count
        → get_elem? recent j ≡ some (s.rolling (place s.params.smoothing_window s.rolling_head j))

  roll-IsWindow :
      (cap : ℕ) (x : D) {s : Strategy D} (recent : List D)
      → IsStrategy cap s
      → IsWindow s recent
      → IsWindow (roll x s) (x ∷ recent)
  unfolding roll
  roll-IsWindow cap x {s} recent v win = record {
    known = ground (arith, win.known);
    complete = λ h. ground (arith, h, win.complete, v.count_le);
    held = at;
  }
    where
      w : ℕ
      w = s.params.smoothing_window

      at :
          (j : ℕ)
          → j < (if ltb s.rolling_count w then s.rolling_count + 1 else s.rolling_count)
          → get_elem? (x ∷ recent) j
            ≡ some (update s.rolling s.rolling_head x (place w ((s.rolling_head + 1) % w) j))
      at zero h = ap some (
          sym (
            ap (update s.rolling s.rolling_head x) (place_first w s.rolling_head v.head_lt)
            ∙ update_self s.rolling s.rolling_head x))
      at (suc j) h =
          let short : suc j < w = ground (arith, h, v.count_le) in
          let old : j < s.rolling_count = ground (arith, h) in
          win.held j old
          ∙ ap some (
              sym (
                ap (update s.rolling s.rolling_head x) (place_next w s.rolling_head j short)
                ∙ update-ne s.rolling s.rolling_head _ x
                    (place_ne w s.rolling_head j v.head_lt short)))

  -- the imbalances `xs` rolled in, the last of the list first
  unfoldable pub roll_all : List D → Strategy D → Strategy D
  roll_all [] s = s
  roll_all (x ∷ xs) s = roll x (roll_all xs s)

  rolled :
      (cap : ℕ) (xs : List D) (s : Strategy D)
      → IsStrategy cap s
      → IsStrategy cap (roll_all xs (on_reconnect s)) × IsWindow (roll_all xs (on_reconnect s)) xs
  unfolding roll_all on_reconnect
  rolled cap [] s v = (
    reconnect-IsStrategy cap v,
    record { known = omega arith; complete = λ h. refl; held = λ j h. absurd (omega arith) },
  )
  rolled cap (x ∷ xs) s v =
      let before = rolled cap xs s v in
      (roll-IsStrategy cap x before.0, roll-IsWindow cap x xs before.0 before.1)

  -- When any imbalances have been rolled in after a reconnect of a strategy in good order, the
  -- window holds the latest of them, all of them until it is full, and the j-th latest stands j +
  -- 1 places before the next index.
  pub roll_all-IsWindow :
      (cap : ℕ) (xs : List D) (s : Strategy D)
      → IsStrategy cap s
      → IsWindow (roll_all xs (on_reconnect s)) xs
  roll_all-IsWindow cap xs s v = (rolled cap xs s v).1
