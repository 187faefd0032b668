-- ===== src/Md/BoundedBook/Levels.antt =====
-- The book seen from outside: the quantity at each price, and how `update`, `rebase` and `clear`
-- change it.
use trading_bot_v.Prelude.{
  ℕ, suc, ◌<◌, ◌≡◌, refl, ◌∙◌, ap, Bool, true, false, ℤ, pos, ◌+ℤ◌, ◌-ℤ◌, int_laws, arith, update,
  ltb, for_range, for_range_keeps, update_self, update-ne, ◌≢◌, Option, some, none, if◌then◌else◌,
}
use native.Mathlib.Decide.{ℕ_discrete}
use trading_bot_v.Core.Double.{Double}
use trading_bot_v.Core.Types.{Side, bid, ask}
use trading_bot_v.Md.BoundedBook.{Book, center, slot?, shift_step, rebase}
use trading_bot_v.Md.BoundedBook.Invariant.{slot?-eq-some}

abbrev pub same_side : Side → Side → Bool
same_side bid bid = true
same_side ask ask = true
same_side _ _ = false

module _ {D : Type 0} ⦃d : Double D⦄ where
  abbrev pub ladder : Side → Book D → ℕ → D
  ladder bid b = b.bids
  ladder ask b = b.asks

  module _ (cap : ℕ) where
    -- `x` at a tick inside the window of the book, 0.0 outside
    abbrev pub within : Book D → ℤ → D → D
    within b tick x = elim (slot? cap (pos (center cap) +ℤ (tick -ℤ b.ref_tick))) [
      | none ↦ d.nought
      | some _ ↦ x
    ]

    -- the quantity that the book holds at a price
    abbrev pub level_in : ℤ → (ℕ → D) → ℤ → D
    level_in ref slots tick = elim (slot? cap (pos (center cap) +ℤ (tick -ℤ ref))) [
      | none ↦ d.nought
      | some i ↦ slots i
    ]

    abbrev pub level : Book D → Side → ℤ → D
    level b side tick = level_in b.ref_tick (ladder side b) tick

    -- what the loop of `rebase` puts into slot `j`
    abbrev pub shifted : ℤ → (ℕ → D) → ℕ → D
    shifted shift slots j = elim (slot? cap (pos j +ℤ shift)) [
      | none ↦ d.nought
      | some src ↦ slots src
    ]

    -- One round of the loop fills slot `k` and leaves the others alone.
    shift_step_self :
        (shift : ℤ) (slots : ℕ → D) (k : ℕ) (new : ℕ → D)
        → new k ≡ d.nought
        → shift_step cap shift slots k new k ≡ shifted shift slots k
    unfolding shift_step
    shift_step_self shift slots k new h = go (slot? cap (pos k +ℤ shift))
      where
        go :
            (o : Option ℕ)
            → (elim o as (λ _. ℕ → D) [ none ↦ new | some src ↦ update new k (slots src) ]) k
              ≡ elim o [ none ↦ d.nought | some src ↦ slots src ]
        go none = h
        go (some src) = update_self new k (slots src)

    shift_step-ne :
        (shift : ℤ) (slots : ℕ → D) (k j : ℕ) (new : ℕ → D)
        → k ≢ j
        → shift_step cap shift slots k new j ≡ new j
    unfolding shift_step
    shift_step-ne shift slots k j new ne = go (slot? cap (pos k +ℤ shift))
      where
        go :
            (o : Option ℕ)
            → (elim o as (λ _. ℕ → D) [ none ↦ new | some src ↦ update new k (slots src) ]) j
              ≡ new j
        go none = refl
        go (some src) = update-ne new k j (slots src) ne

    abbrev Filled : ℤ → (ℕ → D) → ℕ → (ℕ → D) → Type 0
    Filled shift slots k new =
        (j : ℕ) → new j ≡ (if ltb j k then shifted shift slots j else d.nought)

    shift_step-Filled :
        (shift : ℤ) (slots : ℕ → D) (k : ℕ) (new : ℕ → D)
        → k < cap
        → Filled shift slots k new
        → Filled shift slots (suc k) (shift_step cap shift slots k new)
    shift_step-Filled shift slots k new h all j = elim (ℕ_discrete k j) [
      | yes e ↦
          let self = shift_step_self shift slots k new (all k ∙ ground arith) in
          rw (← e) (self ∙ ground arith)
      | no ne ↦ shift_step-ne shift slots k j new ne ∙ all j ∙ ground arith
    ]

    -- The ladders after the loop of `rebase`.
    pub shifted_lem :
        (shift : ℤ) (slots : ℕ → D) (j : ℕ)
        → j < cap
        → for_range cap 0 (shift_step cap shift slots) (λ _. d.nought) j ≡ shifted shift slots j
    shifted_lem shift slots j h = loop j ∙ ground arith
      where
        loop : Filled shift slots cap (for_range cap 0 (shift_step cap shift slots) (λ _. d.nought))
        loop =
            for_range_keeps (Filled shift slots) (shift_step cap shift slots) cap 0 cap
              (omega arith) (shift_step-Filled shift slots) (λ _. d.nought) (λ j. ground arith)

    pub ladder-rebase :
        (side : Side) (b : Book D) (new_ref : ℤ) (j : ℕ)
        → j < cap
        → ladder side (rebase cap b new_ref) j ≡ shifted (new_ref -ℤ b.ref_tick) (ladder side b) j
    unfolding rebase
    ladder-rebase bid b new_ref j h = shifted_lem (new_ref -ℤ b.ref_tick) b.bids j h
    ladder-rebase ask b new_ref j h = shifted_lem (new_ref -ℤ b.ref_tick) b.asks j h

    -- After `rebase` every price of the new window holds, on each side, what it held before, and
    -- prices outside it hold nothing.
    pub level-rebase :
        (b : Book D) (new_ref : ℤ) (side : Side) (tick : ℤ)
        → level (rebase cap b new_ref) side tick
          ≡ within (record b { ref_tick = new_ref }) tick (level b side tick)
    unfolding rebase
    level-rebase b new_ref side tick = go (slot? cap (pos (center cap) +ℤ (tick -ℤ new_ref))) refl
      where
        go :
            (o : Option ℕ)
            → slot? cap (pos (center cap) +ℤ (tick -ℤ new_ref)) ≡ o
            → elim o [ none ↦ d.nought | some i ↦ ladder side (rebase cap b new_ref) i ]
              ≡ elim o [ none ↦ d.nought | some _ ↦ level b side tick ]
        go none e = refl
        go (some i) e =
            let (h, at) = slot?-eq-some cap _ e in
            let same : pos i +ℤ (new_ref -ℤ b.ref_tick) ≡ pos (center cap) +ℤ (tick -ℤ b.ref_tick) =
              rw (← at) (omega int_laws) in
            ladder-rebase side b new_ref i h
            ∙ ap (λ z. elim (slot? cap z) [ none ↦ d.nought | some src ↦ ladder side b src ]) same
