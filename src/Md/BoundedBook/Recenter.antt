-- ===== src/Md/BoundedBook/Recenter.antt =====
-- Recentering and the touch: the best bid and the best ask survive a rebase that follows them.
use trading_bot_v.Prelude.{
  ℕ, ◌<◌, ◌≡◌, refl, sym, ◌∙◌, ap, subst, ltb_ℤ, leb_ℤ, true, false, ℤ, pos, negsuc, pos_part, ◌+ℤ◌,
  ◌-ℤ◌, int_laws, arith, some, none, if◌then◌else◌,
}
use trading_bot_v.Core.Double.{Double}
use trading_bot_v.Core.Types.{from_ticks, Side, bid, ask}
use trading_bot_v.Md.Bitmap.Index.{IsCapacity}
use trading_bot_v.Md.Bitmap.Scan.{IsHighest, IsLowest}
use trading_bot_v.Md.BoundedBook.{Book, center, rebase, top_of_book, level_at}
use trading_bot_v.Md.BoundedBook.Invariant.{IsBook, live, rebase-IsBook}
use trading_bot_v.Md.BoundedBook.Levels.{ladder, ladder-rebase}
use trading_bot_v.Md.BoundedBook.Moved.{
  IsHighest-unique, IsLowest-unique, IsHighest-moved, IsLowest-moved, dead-moved, shifted-some,
}

module _ {D : Type 0} ⦃d : Double D⦄ (cap : ℕ) (b : Book D) where
  pub top_of_book-bid_at :
      (s : ℕ) → b.best_bid ≡ pos s → top_of_book cap b bid ≡ some (level_at cap b b.bids s)
  unfolding top_of_book
  top_of_book-bid_at s e =
      ap (λ z. if ltb_ℤ z (pos 0) then none else some (level_at cap b b.bids (pos_part z))) e
      ∙ ground arith

  pub top_of_book-bid_none : b.best_bid ≡ negsuc 0 → top_of_book cap b bid ≡ none
  unfolding top_of_book
  top_of_book-bid_none e =
      ap (λ z. if ltb_ℤ z (pos 0) then none else some (level_at cap b b.bids (pos_part z))) e

  pub top_of_book-ask_at :
      (s : ℕ)
      → s < cap
      → b.best_ask ≡ pos s
      → top_of_book cap b ask ≡ some (level_at cap b b.asks s)
  unfolding top_of_book
  top_of_book-ask_at s h e =
      ap (λ z. if leb_ℤ (pos cap) z then none else some (level_at cap b b.asks (pos_part z))) e
      ∙ ground arith

  pub top_of_book-ask_none : b.best_ask ≡ pos cap → top_of_book cap b ask ≡ none
  unfolding top_of_book
  top_of_book-ask_none e =
      ap (λ z. if leb_ℤ (pos cap) z then none else some (level_at cap b b.asks (pos_part z))) e
      ∙ ground arith

module _ {D : Type 0} ⦃d : Double D⦄ {cap : ℕ} (c : IsCapacity cap)
    (still : d.lt d.nought d.nought ≡ false) (b : Book D) (v : IsBook cap b)
    (anchored : b.have_ref ≡ true) (new_ref : ℤ) where
  abbrev shift : ℤ
  shift = new_ref -ℤ b.ref_tick

  abbrev after : Book D
  after = rebase cap b new_ref

  after-IsBook : IsBook cap after
  after-IsBook = rebase-IsBook c b new_ref anchored

  -- The level that moved from slot `s` to slot `j` has the same price and quantity.
  level_at-moved :
      (side : Side) (s j : ℕ)
      → s < cap
      → j < cap
      → pos j +ℤ shift ≡ pos s
      → level_at cap after (ladder side after) j ≡ level_at cap b (ladder side b) s
  unfolding rebase
  level_at-moved side s j hs h at =
      λ i. record { price = from_ticks (tick i); qty = record { value = held i } }
    where
      tick : new_ref +ℤ (pos j -ℤ pos (center cap)) ≡ b.ref_tick +ℤ (pos s -ℤ pos (center cap))
      tick = rw (← at) (omega int_laws)

      held : ladder side after j ≡ ladder side b s
      held = ladder-rebase cap side b new_ref j h ∙ shifted-some cap shift (ladder side b) j s hs at

  abbrev pub Follows : ℕ → ℕ → Type 0
  Follows s j = (s < cap) × (j < cap) × (pos j +ℤ shift ≡ pos s)

  -- A best bid that stays inside the window stays the best bid.
  pub top_of_book-bid_moved :
      (s j : ℕ)
      → b.best_bid ≡ pos s
      → Follows s j
      → top_of_book cap after bid ≡ top_of_book cap b bid
  top_of_book-bid_moved s j e (hs, h, at) =
      top_of_book-bid_at cap after j best
      ∙ ap some (level_at-moved bid s j hs h at)
      ∙ sym (top_of_book-bid_at cap b s e)
    where
      best : after.best_bid ≡ pos j
      best = IsHighest-unique after-IsBook.bid_best (
          IsHighest-moved cap still shift b.bids after.bids (ladder-rebase cap bid b new_ref) s j
            (subst (IsHighest cap (live b.bids)) e v.bid_best) h at)

  pub top_of_book-ask_moved :
      (s j : ℕ)
      → b.best_ask ≡ pos s
      → Follows s j
      → top_of_book cap after ask ≡ top_of_book cap b ask
  top_of_book-ask_moved s j e (hs, h, at) =
      top_of_book-ask_at cap after j h best
      ∙ ap some (level_at-moved ask s j hs h at)
      ∙ sym (top_of_book-ask_at cap b s hs e)
    where
      best : after.best_ask ≡ pos j
      best = IsLowest-unique after-IsBook.ask_best (
          IsLowest-moved cap still shift b.asks after.asks (ladder-rebase cap ask b new_ref) s j
            (subst (IsLowest cap (live b.asks)) e v.ask_best) hs h at)

  -- A side without live levels has none after the rebase.
  pub top_of_book-bid_empty :
      ((i : ℕ) → i < cap → live b.bids i ≡ false) → top_of_book cap after bid ≡ none
  top_of_book-bid_empty all = top_of_book-bid_none cap after (
      IsHighest-unique after-IsBook.bid_best (
        IsHighest.none_live refl λ j h.
          dead-moved cap still shift b.bids after.bids (ladder-rebase cap bid b new_ref) j h
            λ s hs _. all s hs))

  pub top_of_book-ask_empty :
      ((i : ℕ) → i < cap → live b.asks i ≡ false) → top_of_book cap after ask ≡ none
  top_of_book-ask_empty all = top_of_book-ask_none cap after (
      IsLowest-unique after-IsBook.ask_best (
        IsLowest.none_live refl λ j h.
          dead-moved cap still shift b.asks after.asks (ladder-rebase cap ask b new_ref) j h
            λ s hs _. all s hs))
