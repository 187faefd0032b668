-- ===== src/Md/BoundedBook/Touch.antt =====
-- Recentering never loses the best bid or ask, unless the two stand at the opposite ends of the
-- window.
use Prim.Native.Nat.{min, max}
use mathlib.Core.Path.{ap₂}
use trading_bot_v.Prelude.{
  ℕ, ◌+◌, ◌-◌, ◌/◌, ◌≤◌, ◌<◌, ◌≡◌, refl, sym, ◌∙◌, ap, true, false, ℤ, pos, negsuc, pos_part,
  neg_part, ◌+ℤ◌, ◌-ℤ◌, ◌<ℤ◌, int_laws, arith,
}
use trading_bot_v.Core.Double.{Double}
use trading_bot_v.Core.Types.{Side, bid, ask}
use trading_bot_v.Md.Bitmap.Index.{IsCapacity}
use trading_bot_v.Md.Bitmap.Scan.{IsHighest, IsLowest}
use trading_bot_v.Md.BoundedBook.{
  Book, center, recentered, recenter_if_near_edge, top_of_book, touch_low, touch_high, halve,
}
use trading_bot_v.Md.BoundedBook.Invariant.{IsBook, live, recenter_cases}
use trading_bot_v.Md.BoundedBook.Recenter.{
  top_of_book-bid_moved, top_of_book-ask_moved, top_of_book-bid_empty, top_of_book-ask_empty,
  top_of_book-bid_none, top_of_book-ask_none,
}

halve-sum : (l h : ℕ) → halve (pos l +ℤ pos h) ≡ pos ((l + h) / 2)
unfolding ◌+ℤ◌
halve-sum l h = ground arith

shift-cancel :
    (ref : ℤ) (j m c s : ℕ) → j + m ≡ s + c → pos j +ℤ ((ref +ℤ (pos m -ℤ pos c)) -ℤ ref) ≡ pos s
shift-cancel ref j m c s e = omega int_laws

module _ {D : Type 0} ⦃d : Double D⦄ (cap : ℕ) (b : Book D) where
  touch-both :
      (s t : ℕ)
      → b.best_bid ≡ pos s
      → b.best_ask ≡ pos t
      → t < cap
      → (touch_low cap b ≡ pos (min s t)) × (touch_high cap b ≡ pos (max s t))
  touch-both s t e f h = (ground arith, ground arith)

  touch-bid :
      (s : ℕ)
      → b.best_bid ≡ pos s
      → b.best_ask ≡ pos cap
      → (touch_low cap b ≡ pos s) × (touch_high cap b ≡ pos s)
  touch-bid s e f = (ground arith, ground arith)

  touch-ask :
      (t : ℕ)
      → b.best_bid ≡ negsuc 0
      → b.best_ask ≡ pos t
      → t < cap
      → (touch_low cap b ≡ pos t) × (touch_high cap b ≡ pos t)
  touch-ask t e f h = (ground arith, ground arith)

  pub recentered_lem :
      (l h : ℕ)
      → touch_low cap b ≡ pos l
      → touch_high cap b ≡ pos h
      → recentered cap b ≡ b.ref_tick +ℤ (pos ((l + h) / 2) -ℤ pos (center cap))
  recentered_lem l h low high =
      ap (λ m. b.ref_tick +ℤ (m -ℤ pos (center cap)))
        (ap₂ (λ x y. halve (x +ℤ y)) low high ∙ halve-sum l h)

  -- the slot that slot `s` moves to when the window is recentered on slots `l` and `h`
  abbrev moved_to : ℕ → ℕ → ℕ → ℕ
  moved_to l h s = s + cap / 2 - (l + h) / 2

  -- A slot between the ends of the touch stays inside the recentered window.
  follows-recentered :
      (c : IsCapacity cap) (l h s : ℕ)
      → touch_low cap b ≡ pos l
      → touch_high cap b ≡ pos h
      → l ≤ s
      → s ≤ h
      → h < cap
      → h + 1 < l + cap
      → (s < cap)
        × (moved_to l h s < cap)
        × (pos (moved_to l h s) +ℤ (recentered cap b -ℤ b.ref_tick) ≡ pos s)
  follows-recentered c l h s low high ls sh hc narrow = (
    omega arith,
    omega (arith, c.whole),
    ap (λ r. pos (moved_to l h s) +ℤ (r -ℤ b.ref_tick)) (recentered_lem l h low high)
        ∙ shift-cancel b.ref_tick (moved_to l h s) ((l + h) / 2) (center cap) s
            (omega (arith, c.whole)),
  )

  -- The touch spans less than the whole window.
  abbrev pub IsNarrow : Type 0
  IsNarrow = touch_high cap b <ℤ touch_low cap b +ℤ pos (cap - 1)

  narrow-slots :
      (l h : ℕ)
      → 0 < cap
      → touch_low cap b ≡ pos l
      → touch_high cap b ≡ pos h
      → IsNarrow
      → h + 1 < l + cap
  narrow-slots l h p low high n =
      let low_pos : pos_part (touch_low cap b) ≡ l = ap pos_part low in
      let low_neg : neg_part (touch_low cap b) ≡ 0 = ap neg_part low in
      let high_pos : pos_part (touch_high cap b) ≡ h = ap pos_part high in
      let high_neg : neg_part (touch_high cap b) ≡ 0 = ap neg_part high in omega int_laws

module _ {D : Type 0} ⦃d : Double D⦄ {cap : ℕ} (c : IsCapacity cap)
    (still : d.lt d.nought d.nought ≡ false) (b : Book D) (v : IsBook cap b)
    (anchored : b.have_ref ≡ true) where
  abbrev Kept : Side → Book D → Type 0
  Kept side after = top_of_book cap after side ≡ top_of_book cap b side

  Kept-bid :
      (l h s : ℕ)
      → b.best_bid ≡ pos s
      → touch_low cap b ≡ pos l
      → touch_high cap b ≡ pos h
      → l ≤ s
      → s ≤ h
      → h < cap
      → IsNarrow cap b
      → Kept bid (recenter_if_near_edge cap b)
  Kept-bid l h s e low high ls sh hc n = recenter_cases cap (Kept bid) b refl (
      top_of_book-bid_moved c still b v anchored (recentered cap b) s (moved_to cap b l h s) e (
        follows-recentered cap b c l h s low high ls sh hc
          (narrow-slots cap b l h (omega (arith, c.large)) low high n)))

  Kept-ask :
      (l h s : ℕ)
      → b.best_ask ≡ pos s
      → touch_low cap b ≡ pos l
      → touch_high cap b ≡ pos h
      → l ≤ s
      → s ≤ h
      → h < cap
      → IsNarrow cap b
      → Kept ask (recenter_if_near_edge cap b)
  Kept-ask l h s e low high ls sh hc n = recenter_cases cap (Kept ask) b refl (
      top_of_book-ask_moved c still b v anchored (recentered cap b) s (moved_to cap b l h s) e (
        follows-recentered cap b c l h s low high ls sh hc
          (narrow-slots cap b l h (omega (arith, c.large)) low high n)))

  recenter-bid :
      IsHighest cap (live b.bids) b.best_bid
      → IsLowest cap (live b.asks) b.best_ask
      → IsNarrow cap b
      → Kept bid (recenter_if_near_edge cap b)
  recenter-bid (IsHighest.none_live e all) _ n = recenter_cases cap (Kept bid) b refl (
      top_of_book-bid_empty c still b v anchored (recentered cap b) all
      ∙ sym (top_of_book-bid_none cap b e))
  recenter-bid (IsHighest.live_at s e h _ _) (IsLowest.none_live f _) n =
      let (low, high) = touch-bid cap b s e f in
      Kept-bid s s s e low high (omega arith) (omega arith) h n
  recenter-bid (IsHighest.live_at s e h _ _) (IsLowest.live_at t f k _ _) n =
      let (low, high) = touch-both cap b s t e f k in
      Kept-bid (min s t) (max s t) s e low high (omega arith) (omega arith) (omega arith) n

  recenter-ask :
      IsHighest cap (live b.bids) b.best_bid
      → IsLowest cap (live b.asks) b.best_ask
      → IsNarrow cap b
      → Kept ask (recenter_if_near_edge cap b)
  recenter-ask _ (IsLowest.none_live e all) n = recenter_cases cap (Kept ask) b refl (
      top_of_book-ask_empty c still b v anchored (recentered cap b) all
      ∙ sym (top_of_book-ask_none cap b e))
  recenter-ask (IsHighest.none_live e _) (IsLowest.live_at t f k _ _) n =
      let (low, high) = touch-ask cap b t e f k in
      Kept-ask t t t f low high (omega arith) (omega arith) k n
  recenter-ask (IsHighest.live_at s e h _ _) (IsLowest.live_at t f k _ _) n =
      let (low, high) = touch-both cap b s t e f k in
      Kept-ask (min s t) (max s t) t f low high (omega arith) (omega arith) (omega arith) n

  -- On a book in good order with a reference, whose touch spans less than the whole window,
  -- `recenterIfNearEdge` leaves the top of the book of each side as it was: the same price and
  -- quantity, or still none.
  pub top_of_book-recenter :
      (side : Side)
      → IsNarrow cap b
      → top_of_book cap (recenter_if_near_edge cap b) side ≡ top_of_book cap b side
  top_of_book-recenter bid n = recenter-bid v.bid_best v.ask_best n
  top_of_book-recenter ask n = recenter-ask v.bid_best v.ask_best n
