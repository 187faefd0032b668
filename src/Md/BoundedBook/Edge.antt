-- ===== src/Md/BoundedBook/Edge.antt =====
-- The one touch that recentering does not keep: bid and ask at the opposite ends of the window.
use mathlib.Core.Path.{ap₂}
use trading_bot_v.Prelude.{
  ℕ, ◌+◌, ◌-◌, ◌/◌, ◌<◌, ◌≡◌, ◌≢◌, refl, ◌∙◌, ap, true, false, ◌&&◌, pos, ◌+ℤ◌, ◌-ℤ◌, int_laws,
  arith, eqb_ℤ, leb_ℤ, ltb_ℤ, pos_part, neg_part, if-false, none,
}
use trading_bot_v.Core.Double.{Double}
use trading_bot_v.Core.Types.{ask}
use trading_bot_v.Md.Bitmap.Index.{IsCapacity}
use trading_bot_v.Md.Bitmap.Scan.{IsLowest}
use trading_bot_v.Md.BoundedBook.{
  Book, center, rebase, recentered, recenter_if_near_edge, top_of_book, touch_low, touch_high,
  no_touch, well_inside, recenter_margin,
}
use trading_bot_v.Md.BoundedBook.Invariant.{IsBook, live, rebase-IsBook}
use trading_bot_v.Md.BoundedBook.Levels.{ladder-rebase}
use trading_bot_v.Md.BoundedBook.Moved.{IsLowest-unique, dead-moved, shift_parts}
use trading_bot_v.Md.BoundedBook.Touch.{recentered_lem}
use trading_bot_v.Md.BoundedBook.Recenter.{top_of_book-ask_none, top_of_book-ask_at}

module _ {D : Type 0} ⦃d : Double D⦄ {cap : ℕ} (c : IsCapacity cap)
    (still : d.lt d.nought d.nought ≡ false) (b : Book D) (v : IsBook cap b)
    (anchored : b.have_ref ≡ true) (low : b.best_bid ≡ pos 0)
    (high : b.best_ask ≡ pos (cap - 1)) where
  ends : (touch_low cap b ≡ pos 0) × (touch_high cap b ≡ pos (cap - 1))
  ends = (ground (arith, c.large), ground (arith, c.large))

  touched : no_touch cap b ≡ false
  touched = ground (arith, c.large)

  near_edge : well_inside cap b ≡ false
  near_edge =
      ap₂
        (λ l h.
          leb_ℤ (pos (recenter_margin cap)) l && ltb_ℤ h (pos cap -ℤ pos (recenter_margin cap)))
        ends.0 ends.1
      ∙ ground (arith, c.large)

  -- the new reference lies one tick below the old one
  one_below :
      pos_part (recentered cap b) + neg_part b.ref_tick + 1
      ≡ neg_part (recentered cap b) + pos_part b.ref_tick
  one_below =
      let half : (0 + (cap - 1)) / 2 + 1 ≡ center cap = omega (arith, c.whole, c.large) in
      rw (recentered_lem cap b 0 (cap - 1) ends.0 ends.1) (step _ half)
    where
      step :
          (m : ℕ)
          → m + 1 ≡ center cap
          → pos_part (b.ref_tick +ℤ (pos m -ℤ pos (center cap))) + neg_part b.ref_tick + 1
            ≡ neg_part (b.ref_tick +ℤ (pos m -ℤ pos (center cap))) + pos_part b.ref_tick
      step m h = omega int_laws

  moves : eqb_ℤ (recentered cap b) b.ref_tick ≡ false
  moves = ground (arith, one_below)

  recenter-rebases : recenter_if_near_edge cap b ≡ rebase cap b (recentered cap b)
  unfolding recenter_if_near_edge
  recenter-rebases =
      if-false (no_touch cap b) _ _ touched
      ∙ if-false (well_inside cap b) _ _ near_edge
      ∙ if-false (eqb_ℤ (recentered cap b) b.ref_tick) _ _ moves

  lost_slot : (j s : ℕ) → pos j +ℤ (recentered cap b -ℤ b.ref_tick) ≡ pos s → s + 1 ≡ j
  lost_slot j s e = omega (int_laws, one_below, shift_parts (recentered cap b -ℤ b.ref_tick) j s e)

  dead_below : IsLowest cap (live b.asks) b.best_ask → (s : ℕ) → s + 1 < cap → live b.asks s ≡ false
  dead_below (IsLowest.none_live e all) s h = all s (omega arith)
  dead_below (IsLowest.live_at t e ht alive below) s h = below s (ground arith)

  -- On a book in good order with a reference, whose best bid is in the first slot and whose best
  -- ask is in the last one, `topOfBook` has an ask, and after `recenterIfNearEdge` it has none.
  pub recenter-loses_ask :
      (top_of_book cap b ask ≢ none) × (top_of_book cap (recenter_if_near_edge cap b) ask ≡ none)
  recenter-loses_ask = (
    λ e. cc (top_of_book-ask_at cap b (cap - 1) (omega (arith, c.large)) high),
    ap (λ after. top_of_book cap after ask) recenter-rebases
        ∙ top_of_book-ask_none cap (rebase cap b (recentered cap b)) (
            IsLowest-unique (rebase-IsBook c b (recentered cap b) anchored).ask_best (
              IsLowest.none_live refl λ j h.
                dead-moved cap still (recentered cap b -ℤ b.ref_tick) b.asks _
                  (ladder-rebase cap ask b (recentered cap b)) j h
                  λ s hs from. dead_below v.ask_best s (omega (arith, lost_slot j s from)))),
  )
