-- ===== src/Md/BoundedBook/Tests.antt =====
-- The book at work: runs of the code, and the theorems at concrete books of 64 slots.
use trading_bot_v.Prelude.{
  ℕ, ◌≡◌, ◌≢◌, refl, true, ℤ, pos, ◌+ℤ◌, ◌-ℤ◌, some, none, List, [], ◌∷◌, arith, for_range, take,
}
use mathlib.Core.List.{head?}
use trading_bot_v.Util.Words.{clzll, ctzll, testbit}
use trading_bot_v.Core.Double.{Milli, milli_double}
use trading_bot_v.Core.Types.{from_ticks, Qty, Side, bid, ask}
use trading_bot_v.Md.Bitmap.{set_bit, clear_bit, highest_set, lowest_set}
use trading_bot_v.Md.Bitmap.Index.{IsCapacity}
use trading_bot_v.Md.BoundedBook.{
  Book, initial, seed_reference, update_book, recenter_if_near_edge, write_bid, write_ask, rebase,
  top_of_book, depth, write,
}
use trading_bot_v.Md.BoundedBook.Invariant.{
  IsBook, initial-IsBook, update_book-IsBook, write-IsBook,
}
use trading_bot_v.Md.BoundedBook.Levels.{level, within, level-rebase}
use trading_bot_v.Md.BoundedBook.Update.{
  replaced, level-update_book, update_book-outside, OffWindow,
}
use trading_bot_v.Md.BoundedBook.Touch.{top_of_book-recenter}
use trading_bot_v.Md.BoundedBook.Edge.{recenter-loses_ask}
use trading_bot_v.Md.BoundedBook.Depth.{best_first, depth-eq-take, top_of_book-best}

abbrev qty : ℕ → Qty Milli
qty n = record { value = pos n }

-- `(side, tick, quantity)`
abbrev Change : Type 0
Change = Side × ℤ × ℕ

abbrev run : Book Milli → List Change → Book Milli
run b [] = b
run b ((side, tick, n) ∷ rest) = run (update_book 64 b side (from_ticks tick) (qty n)) rest

cap64 : IsCapacity 64
cap64 = omega arith

run-IsBook : (b : Book Milli) (changes : List Change) → IsBook 64 b → IsBook 64 (run b changes)
run-IsBook b [] v = v
run-IsBook b ((side, tick, n) ∷ rest) v =
    run-IsBook (update_book 64 b side (from_ticks tick) (qty n)) rest
      (update_book-IsBook cap64 side (from_ticks tick) (qty n) v)

abbrev two_sided : List Change
two_sided = (bid, pos 100, 5) ∷ (bid, pos 99, 6) ∷ (ask, pos 103, 7) ∷ (bid, pos 100, 0) ∷ []

abbrev book : Book Milli
book = run (initial 64) two_sided

book-IsBook : IsBook 64 book
book-IsBook = run-IsBook (initial 64) two_sided (initial-IsBook 64 refl)

two_sided_top :
    (top_of_book 64 book bid ≡ some (record { price = from_ticks (pos 99); qty = qty 6 }))
    × (top_of_book 64 book ask ≡ some (record { price = from_ticks (pos 103); qty = qty 7 }))
unfolding update_book top_of_book recenter_if_near_edge write_bid write_ask rebase set_bit clear_bit
    highest_set lowest_set clzll ctzll testbit ◌+ℤ◌ ◌-ℤ◌ for_range
two_sided_top = (refl, refl)

-- Asks ever farther away from three bids pull the touch apart, until it spans 63 of the 64 slots.
abbrev pulled_apart : List Change
pulled_apart =
    (bid, pos 100, 1)
    ∷ (bid, pos 99, 1)
    ∷ (bid, pos 98, 1)
    ∷ (ask, pos 131, 1)
    ∷ (ask, pos 146, 1)
    ∷ (ask, pos 131, 0)
    ∷ (ask, pos 154, 1)
    ∷ (ask, pos 146, 0)
    ∷ (ask, pos 158, 1)
    ∷ (ask, pos 154, 0)
    ∷ (ask, pos 160, 1)
    ∷ (ask, pos 158, 0)
    ∷ (ask, pos 161, 1)
    ∷ (ask, pos 160, 0)
    ∷ (bid, pos 100, 0)
    ∷ []

abbrev wide_book : Book Milli
wide_book = run (initial 64) pulled_apart

wide_book-IsBook : IsBook 64 wide_book
wide_book-IsBook = run-IsBook (initial 64) pulled_apart (initial-IsBook 64 refl)

wide_touch :
    (wide_book.best_bid ≡ pos 1) × (wide_book.best_ask ≡ pos 63) × (wide_book.have_ref ≡ true)
unfolding update_book recenter_if_near_edge write_bid write_ask rebase set_bit clear_bit highest_set
    lowest_set clzll ctzll testbit ◌+ℤ◌ ◌-ℤ◌ for_range
wide_touch = (refl, refl, refl)

update_book-IsBook_example :
    IsBook 64 (update_book 64 (initial {D = Milli} 64) bid (from_ticks (pos 100)) (qty 5))
update_book-IsBook_example =
    update_book-IsBook cap64 bid (from_ticks (pos 100)) (qty 5) (initial-IsBook 64 refl)

-- A quantity lands at its price in an empty book.
level-update_book_example :
    let after = update_book 64 (initial {D = Milli} 64) bid (from_ticks (pos 100)) (qty 5) in
    level 64 after bid (pos 100)
    ≡ within 64 after
        (pos 100)
        (replaced 64 (initial {D = Milli} 64) bid (from_ticks (pos 100)) (pos 5) bid (pos 100))
unfolding seed_reference ◌+ℤ◌ ◌-ℤ◌
level-update_book_example =
    level-update_book 64 bid (from_ticks (pos 100)) (qty 5) bid (pos 100) (initial-IsBook 64 refl)
      refl

update_book-outside_example : update_book 64 book ask (from_ticks (pos 500)) (qty 1) ≡ book
unfolding update_book recenter_if_near_edge write_bid write_ask rebase set_bit clear_bit highest_set
    lowest_set clzll ctzll testbit ◌+ℤ◌ ◌-ℤ◌ for_range
update_book-outside_example =
    update_book-outside 64 ask (from_ticks (pos 500)) (qty 1) refl (OffWindow.above 368 refl)

level-rebase_example :
    level 64 (rebase 64 book (pos 110)) ask (pos 103)
    ≡ within 64 (record book { ref_tick = pos 110 }) (pos 103) (level 64 book ask (pos 103))
level-rebase_example = level-rebase 64 book (pos 110) ask (pos 103)

-- a new ask in the last slot, before the window is recentered
abbrev near_edge : Book Milli
near_edge = write 64 ask book 63 (pos 2)

top_of_book-recenter_example :
    top_of_book 64 (recenter_if_near_edge 64 near_edge) bid ≡ top_of_book 64 near_edge bid
unfolding update_book recenter_if_near_edge write_bid write_ask rebase set_bit clear_bit highest_set
    lowest_set clzll ctzll testbit ◌+ℤ◌ ◌-ℤ◌ for_range
top_of_book-recenter_example =
    top_of_book-recenter cap64 refl near_edge
      (write-IsBook cap64 ask 63 (pos 2) (omega arith) refl book-IsBook) refl bid (omega arith)

-- the wide book when its best bid is withdrawn, before the window is recentered
abbrev at_both_ends : Book Milli
at_both_ends = write 64 bid wide_book 1 (pos 0)

recenter-loses_ask_example :
    (top_of_book 64 at_both_ends ask ≢ none)
    × (top_of_book 64 (recenter_if_near_edge 64 at_both_ends) ask ≡ none)
unfolding update_book recenter_if_near_edge write_bid write_ask rebase set_bit clear_bit highest_set
    lowest_set clzll ctzll testbit ◌+ℤ◌ ◌-ℤ◌ for_range
recenter-loses_ask_example =
    recenter-loses_ask cap64 refl at_both_ends
      (write-IsBook cap64 bid 1 (pos 0) (omega arith) refl wide_book-IsBook) refl refl refl

depth-eq-take_example : depth 64 book bid 5 ≡ take 5 (best_first 64 book bid)
depth-eq-take_example = depth-eq-take 64 bid 5 book-IsBook

top_of_book-best_example : top_of_book 64 book ask ≡ head? (best_first 64 book ask)
top_of_book-best_example = top_of_book-best 64 ask book-IsBook
