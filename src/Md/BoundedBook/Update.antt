-- ===== src/Md/BoundedBook/Update.antt =====
-- `update` writes one price level; the others keep their quantity as far as the window reaches.
use trading_bot_v.Prelude.{
  ℕ, suc, ◌+◌, ◌/◌, ◌<◌, if-true, ◌≡◌, refl, sym, ◌∙◌, ap, Bool, true, false, ◌&&◌, ℤ, pos, ◌+ℤ◌,
  ◌-ℤ◌, eqb_ℤ, int_laws, ◌==◌, pos_part, neg_part, arith, Bool-cases, eqb_ℤ→eq, inl, inr, update,
  Option, some, none, if◌then◌else◌,
}
use trading_bot_v.Core.Double.{Double}
use trading_bot_v.Core.Types.{Price, Qty, Side, bid, ask}
use trading_bot_v.Md.BoundedBook.{
  Book, center, slot?, seed_reference, rebase, recentered, write_bid, write_ask, write,
  recenter_if_near_edge, update_anchored, update_book, slot_index,
}
use trading_bot_v.Md.BoundedBook.Invariant.{IsBook, recenter_cases, slot?-eq-some}
use trading_bot_v.Md.BoundedBook.Levels.{same_side, ladder, within, level_in, level, level-rebase}

-- A slot holds one tick: two ticks are equal just if their slots are.
slot_sum :
    (cap : ℕ) (ref p : ℤ) (i : ℕ)
    → pos (center cap) +ℤ (p -ℤ ref) ≡ pos i
    → center cap + pos_part p + neg_part ref ≡ i + neg_part p + pos_part ref
slot_sum cap ref p i e =
    let z = pos (center cap) +ℤ (p -ℤ ref) in
    let above : pos_part z ≡ i = ap pos_part e in
    let below : neg_part z ≡ 0 = ap neg_part e in omega int_laws

slot-eq :
    (cap : ℕ) (ref p q : ℤ) (i j : ℕ)
    → pos (center cap) +ℤ (p -ℤ ref) ≡ pos i
    → pos (center cap) +ℤ (q -ℤ ref) ≡ pos j
    → eqb_ℤ p q ≡ (j == i)
slot-eq cap ref p q i j e f = ground (arith, slot_sum cap ref p i e, slot_sum cap ref q j f)

-- The reference tick itself stands in the middle slot.
slot?-ref :
    (cap : ℕ) (t : ℤ) → 0 < cap → slot? cap (pos (center cap) +ℤ (t -ℤ t)) ≡ some (center cap)
slot?-ref cap t h =
    let e : pos (center cap) +ℤ (t -ℤ t) ≡ pos (center cap) = omega int_laws in rw e (ground arith)

module _ {D : Type 0} ⦃d : Double D⦄ (cap : ℕ) where
  write-ref_tick :
      (side : Side) (b : Book D) (slot : ℕ) (qty : D)
      → (write cap side b slot qty).ref_tick ≡ b.ref_tick
  unfolding write_bid write_ask
  write-ref_tick bid b slot qty = ground arith
  write-ref_tick ask b slot qty = ground arith

  ladder-write :
      (side s : Side) (b : Book D) (slot : ℕ) (qty : D) (j : ℕ)
      → ladder s (write cap side b slot qty) j
        ≡ (if same_side side s then update (ladder s b) slot qty j else ladder s b j)
  unfolding write_bid write_ask
  ladder-write bid bid b slot qty j = ground arith
  ladder-write bid ask b slot qty j = ground arith
  ladder-write ask bid b slot qty j = ground arith
  ladder-write ask ask b slot qty j = ground arith

  -- the book's levels with the quantity at one price replaced
  abbrev pub replaced : Book D → Side → Price → D → Side → ℤ → D
  replaced b side price qty s tick =
      if same_side side s && eqb_ℤ tick price.ticks then qty else level cap b s tick

  rebase-ref_tick : (b : Book D) (new_ref : ℤ) → (rebase cap b new_ref).ref_tick ≡ new_ref
  unfolding rebase
  rebase-ref_tick b new_ref = refl

  module _ (b : Book D) (side : Side) (price : Price) (slot : ℕ)
      (inside : slot? cap (slot_index cap b price) ≡ some slot) (qty : D) (s : Side)
      (tick : ℤ) where
    -- OffWindow the window nothing is held and nothing was replaced.
    replaced_outside :
        slot? cap (pos (center cap) +ℤ (tick -ℤ b.ref_tick)) ≡ none
        → replaced b side price qty s tick ≡ d.nought
    replaced_outside e = elim (Bool-cases (eqb_ℤ tick price.ticks)) [
      | inl same ↦
          let at : tick ≡ price.ticks = eqb_ℤ→eq tick price.ticks same in
          absurd (clash (rw at at e))
      | inr other ↦ ground (arith, held)
    ]
      where
        held : level cap b s tick ≡ d.nought
        held = ap (λ o. elim o [ none ↦ d.nought | some j ↦ ladder s b j ]) e

        clash : slot? cap (slot_index cap b price) ≡ none → ⊥
        clash h = cc

    replaced_inside :
        (i : ℕ)
        → slot? cap (pos (center cap) +ℤ (tick -ℤ b.ref_tick)) ≡ some i
        → ladder s (write cap side b slot qty) i ≡ replaced b side price qty s tick
    replaced_inside i e =
        ladder-write side s b slot qty i
        ∙ ground (
          arith,
          held,
          slot-eq cap b.ref_tick tick price.ticks i slot (slot?-eq-some cap _ e).1
              (slot?-eq-some cap _ inside).1,
        )
      where
        held : level cap b s tick ≡ ladder s b i
        held = ap (λ o. elim o [ none ↦ d.nought | some j ↦ ladder s b j ]) e

    -- The write of `update` sets the level of its price, and no other.
    level-write : level cap (write cap side b slot qty) s tick ≡ replaced b side price qty s tick
    level-write =
        ap (λ r. level_in cap r (ladder s (write cap side b slot qty)) tick)
          (write-ref_tick side b slot qty)
        ∙ go (slot? cap (pos (center cap) +ℤ (tick -ℤ b.ref_tick))) refl
      where
        go :
            (o : Option ℕ)
            → slot? cap (pos (center cap) +ℤ (tick -ℤ b.ref_tick)) ≡ o
            → elim o [ none ↦ d.nought | some i ↦ ladder s (write cap side b slot qty) i ]
              ≡ replaced b side price qty s tick
        go none e = sym (replaced_outside e)
        go (some i) e = replaced_inside i e

    within-replaced :
        within cap b tick (replaced b side price qty s tick) ≡ replaced b side price qty s tick
    within-replaced = go (slot? cap (pos (center cap) +ℤ (tick -ℤ b.ref_tick))) refl
      where
        go :
            (o : Option ℕ)
            → slot? cap (pos (center cap) +ℤ (tick -ℤ b.ref_tick)) ≡ o
            → elim o [ none ↦ d.nought | some _ ↦ replaced b side price qty s tick ]
              ≡ replaced b side price qty s tick
        go none e = sym (replaced_outside e)
        go (some i) e = refl

    level-update_anchored :
        let after = update_anchored cap side price (record { value = qty }) b in
        level cap after s tick ≡ within cap after tick (replaced b side price qty s tick)
    unfolding update_anchored
    level-update_anchored =
        rw (inside, update_anchored)
          (recenter_cases cap
            (λ after.
              level cap after s tick ≡ within cap after tick (replaced b side price qty s tick))
            (write cap side b slot qty)
            (level-write
              ∙ sym within-replaced
              ∙ sym (
                  ap
                    (λ r.
                      within cap (record b { ref_tick = r }) tick
                        (replaced b side price qty s tick))
                    (write-ref_tick side b slot qty)))
            (level-rebase cap (write cap side b slot qty)
                (recentered cap (write cap side b slot qty)) s tick
              ∙ ap
                  (within cap (record b { ref_tick = recentered cap (write cap side b slot qty) })
                    tick)
                  level-write
              ∙ sym (
                  ap
                    (λ r.
                      within cap (record b { ref_tick = r }) tick
                        (replaced b side price qty s tick))
                    (rebase-ref_tick (write cap side b slot qty) _))))

  -- Anchoring an empty book changes no level.
  level-seed_reference :
      {b : Book D} (price : Price) (s : Side) (tick : ℤ)
      → IsBook cap b
      → level cap (seed_reference cap b price) s tick ≡ level cap b s tick
  unfolding seed_reference
  level-seed_reference {b} price s tick v = seed b.have_ref refl
    where
      anchored : Book D
      anchored = record b { ref_tick = price.ticks; have_ref = true }

      nothing : b.have_ref ≡ false → (side : Side) (i : ℕ) → ladder side b i ≡ d.nought
      nothing e bid i = (v.unanchored e i).0
      nothing e ask i = (v.unanchored e i).1

      held :
          b.have_ref ≡ false
          → (o : Option ℕ) → elim o [ none ↦ d.nought | some i ↦ ladder s b i ] ≡ d.nought
      held e none = refl
      held e (some i) = nothing e s i

      side_same : (side : Side) → ladder side anchored ≡ ladder side b
      side_same bid = refl
      side_same ask = refl

      seed :
          (t : Bool)
          → b.have_ref ≡ t
          → level cap (if t then b else anchored) s tick ≡ level cap b s tick
      seed true e = refl
      seed false e =
          ap (λ slots. level_in cap price.ticks slots tick) (side_same s)
          ∙ held e _
          ∙ sym (held e _)

  -- After `update` of a price inside the window of a book in good order, that price and side hold
  -- the new quantity, every other price and side in the window that the book then has hold what
  -- they held before, and prices outside that window hold nothing.
  pub level-update_book :
      {b : Book D} (side : Side) (price : Price) (qty : Qty D) {slot : ℕ} (s : Side) (tick : ℤ)
      → IsBook cap b
      → slot? cap (slot_index cap (seed_reference cap b price) price) ≡ some slot
      → let after = update_book cap b side price qty in
        level cap after s tick ≡ within cap after tick (replaced b side price qty.value s tick)
  unfolding update_book
  level-update_book {b} side price qty {slot} s tick v inside =
      level-update_anchored (seed_reference cap b price) side price slot inside qty.value s tick
      ∙ ap
          (λ x.
            within cap (update_book cap b side price qty) tick
              (if same_side side s && eqb_ℤ tick price.ticks then qty.value else x))
          (level-seed_reference price s tick v)

  -- the tick of slot 0
  abbrev pub lowest_tick : Book D → ℤ
  lowest_tick b = b.ref_tick -ℤ pos (cap / 2)

  -- a price below the `cap` ticks from the lowest, or above them
  pub data OffWindow (b : Book D) (price : Price) : Type 0 where
    below : (n : ℕ) → price.ticks +ℤ pos (suc n) ≡ lowest_tick b → OffWindow b price
    above : (n : ℕ) → price.ticks ≡ lowest_tick b +ℤ pos (cap + n) → OffWindow b price

  OffWindow-slot? :
      {b : Book D} (price : Price) → OffWindow b price → slot? cap (slot_index cap b price) ≡ none
  OffWindow-slot? {b} price outside = go (slot? cap (slot_index cap b price)) refl outside
    where
      go : (o : Option ℕ) → slot? cap (slot_index cap b price) ≡ o → OffWindow b price → o ≡ none
      go none e _ = refl
      go (some i) e (OffWindow.below n h) =
          let inside = slot?-eq-some cap (slot_index cap b price) e in
          let sum = slot_sum cap b.ref_tick price.ticks i inside.1 in
          let above : pos_part (price.ticks +ℤ pos (suc n)) ≡ pos_part (lowest_tick b) =
            ap pos_part h in
          let below : neg_part (price.ticks +ℤ pos (suc n)) ≡ neg_part (lowest_tick b) =
            ap neg_part h in
          absurd (omega int_laws)
      go (some i) e (OffWindow.above n h) =
          let inside = slot?-eq-some cap (slot_index cap b price) e in
          let sum = slot_sum cap b.ref_tick price.ticks i inside.1 in
          let above : pos_part price.ticks ≡ pos_part (lowest_tick b +ℤ pos (cap + n)) =
            ap pos_part h in
          let below : neg_part price.ticks ≡ neg_part (lowest_tick b +ℤ pos (cap + n)) =
            ap neg_part h in
          absurd (omega int_laws)

  -- For a book with a reference, `update` of a price below the tick of slot 0, which is half the
  -- capacity below the reference, or at least the capacity above that tick, returns the book
  -- unchanged.
  pub update_book-outside :
      {b : Book D} (side : Side) (price : Price) (qty : Qty D)
      → b.have_ref ≡ true
      → OffWindow b price
      → update_book cap b side price qty ≡ b
  unfolding update_book seed_reference update_anchored
  update_book-outside {b} side price qty seeded outside =
      ap (update_anchored cap side price qty) (if-true b.have_ref _ _ seeded)
      ∙ ap
          (λ (o : Option ℕ). elim o [
            | none ↦ b
            | some slot ↦ recenter_if_near_edge cap (write cap side b slot qty.value)
          ])
          (OffWindow-slot? price outside)
