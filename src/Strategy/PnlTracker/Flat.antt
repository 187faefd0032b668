-- ===== src/Strategy/PnlTracker/Flat.antt =====
-- A fill that leaves no position.
use trading_bot_v.Prelude.{
  ◌≡◌, refl, sym, ◌∙◌, Bool, true, false, not, ◌&&◌, ◌||◌, ◌⊎◌, if◌then◌else◌, if-true, if-false,
  Bool-cases, inl, inr, true-ne-false,
}
use trading_bot_v.Core.Double.{Double, IsDouble}
use trading_bot_v.Strategy.PnlTracker.{
  PnlState, close_position, fill_state, flipped, is_tiny, open_position, same_direction, same_truth,
}

or-true : (a b : Bool) → (a || b) ≡ true → (a ≡ true) ⊎ (b ≡ true)
or-true true b h = inl refl
or-true false b h = inr h

or-false : (a b : Bool) → (a || b) ≡ false → (a ≡ false) × (b ≡ false)
or-false true b h = cc
or-false false b h = (refl, h)

-- what the test `a != 0 && b != c` says when it passes, and when it fails
neither : (a b : Bool) → (not a && not b) ≡ true → (a ≡ false) × (b ≡ false)
neither true b h = cc
neither false true h = cc
neither false false h = (refl, refl)

either : (a b : Bool) → (not a && not b) ≡ false → (a ≡ true) ⊎ (b ≡ true)
either true b h = inl refl
either false true h = inr refl
either false false h = cc

same_truth-true : (a b : Bool) → same_truth a b ≡ true → a ≡ b
same_truth-true true b h = sym h
same_truth-true false true h = cc
same_truth-true false false h = refl

same_truth-false : (a b : Bool) → same_truth a b ≡ false → a ≡ not b
same_truth-false true true h = cc
same_truth-false true false h = refl
same_truth-false false true h = refl
same_truth-false false false h = cc

module _ {D : Type 0} ⦃d : Double D⦄ where
  -- The entry price after a fill that leaves at most 1e-12: 0.0 if there was no position, if the fill
  -- has its sign, or if what is left is 0.0 or has its sign; the fill's price if it was turned.
  pub data FlatEntry (px signed : D) (s after : PnlState D) : Type 0 where
    from_none :
        d.eq s.position d.nought ≡ true → after.avg_entry ≡ d.nought → FlatEntry px signed s after
    added :
        d.lt d.nought s.position ≡ d.lt d.nought signed
        → after.avg_entry ≡ d.nought
        → FlatEntry px signed s after
    closed :
        d.eq (d.add s.position signed) d.nought ≡ true
        → after.avg_entry ≡ d.nought
        → FlatEntry px signed s after
    reduced :
        d.lt d.nought (d.add s.position signed) ≡ d.lt d.nought s.position
        → after.avg_entry ≡ d.nought
        → FlatEntry px signed s after
    turned :
        d.eq s.position d.nought ≡ false
        → d.lt d.nought s.position ≡ not (d.lt d.nought signed)
        → d.eq (d.add s.position signed) d.nought ≡ false
        → d.lt d.nought (d.add s.position signed) ≡ not (d.lt d.nought s.position)
        → after.avg_entry ≡ px
        → FlatEntry px signed s after

module _ {D : Type 0} ⦃d : Double D⦄ (laws : IsDouble D) where
  not_above : (a : D) → d.le a d.tiny ≡ true → d.lt d.tiny a ≡ false
  not_above a h = elim (Bool-cases (d.lt d.tiny a)) [
    | inl e ↦
        absurd
          (true-ne-false (sym (laws.lt_of_lt_of_le d.tiny a d.tiny e h) ∙ laws.lt_irrefl d.tiny))
    | inr e ↦ e
  ]

  -- With the laws of `IsDouble`, a fill after which the position is at most 1e-12 in size leaves a
  -- position of exactly 0.0. The entry price is 0.0 if there was no position, if the fill has the
  -- sign of the position, or if what is left is 0.0 or has its sign. If there was a position, the
  -- fill has not its sign, and what is left is not 0.0 and has not its sign either, the entry
  -- price is the fill's price.
  pub fill_state-flat :
      (px signed : D) (s : PnlState D)
      → d.le (d.abs (d.add s.position signed)) d.tiny ≡ true
      → ((fill_state px signed s).position ≡ d.nought)
        × FlatEntry px signed s (fill_state px signed s)
  unfolding fill_state open_position close_position
  fill_state-flat px signed s tiny = (
    if-true _ _ _ tiny,
    by_direction (same_direction s.position signed) (flipped s.position (d.add s.position signed))
        refl refl,
  )
    where
      new_pos : D
      new_pos = d.add s.position signed

      paid : PnlState D
      paid = record s { cash = d.sub s.cash (d.mul signed px) }

      -- the state by the two tests
      after : Bool → Bool → PnlState D
      after same turns =
          let entered : PnlState D =
            if same then open_position px signed new_pos paid else record paid {
              realized = (close_position px signed new_pos paid).realized;
              avg_entry = if turns then px else if is_tiny new_pos then d.nought else s.avg_entry;
            } in
          record entered { position = if is_tiny new_pos then d.nought else new_pos }

      by_direction :
          (same turns : Bool)
          → same_direction s.position signed ≡ same
          → flipped s.position new_pos ≡ turns
          → FlatEntry px signed s (after same turns)
      by_direction true turns e f = elim (or-true _ _ e) [
        | inl none ↦ FlatEntry.from_none none (if-false _ _ _ (not_above (d.abs new_pos) tiny))
        | inr alike ↦
            FlatEntry.added (same_truth-true _ _ alike)
              (if-false _ _ _ (not_above (d.abs new_pos) tiny))
      ]
      by_direction false true e f =
          let some_position = or-false _ _ e in
          let some_left = neither _ _ f in
          FlatEntry.turned some_position.0 (same_truth-false _ _ some_position.1) some_left.0
            (same_truth-false _ _ some_left.1) refl
      by_direction false false e f = elim (either _ _ f) [
        | inl none ↦ FlatEntry.closed none (if-true _ _ _ tiny)
        | inr alike ↦ FlatEntry.reduced (same_truth-true _ _ alike) (if-true _ _ _ tiny)
      ]
