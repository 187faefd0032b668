-- ===== src/Md/BoundedBook/Invariant.antt =====
-- What every operation of the book keeps: the indexes and the best slots agree with the ladders.
use trading_bot_v.Prelude.{
  ℕ, suc, ◌<◌, ◌≡◌, refl, sym, ◌∙◌, Bool, true, false, ℤ, pos, negsuc, eqb_ℤ, arith, inl, inr,
  Bool-cases, ltb, update, for_range, for_range_keeps, ◌&&◌, some, Option-cases, if◌then◌else◌,
  if-elim,
}
use trading_bot_v.Core.Double.{Double}
use trading_bot_v.Core.Types.{Price, Qty, Side, bid, ask}
use trading_bot_v.Md.Bitmap.{Bitmap, empty}
use trading_bot_v.Md.Bitmap.Index.{
  IsCapacity, IsIndex, empty-IsIndex, IsIndex-congr, set_bit-IsIndex, clear_bit-IsIndex,
}
use trading_bot_v.Md.Bitmap.Scan.{IsHighest, IsLowest, highest_set-IsHighest, lowest_set-IsLowest}
use trading_bot_v.Md.Bitmap.Best.{
  IsHighest-congr, IsLowest-congr, raise-IsHighest, lower-IsLowest, keep-IsHighest, keep-IsLowest,
}
use trading_bot_v.Md.BoundedBook.{
  Book, slot?, initial, clear, seed_reference, index_step, no_touch, well_inside, rebase,
  recenter_if_near_edge, write_bid, write_ask, write, update_anchored, update_book, recentered,
  slot_index,
}

-- A slot that passes the window's test is below the capacity.
pub slot?-eq-some : (cap : ℕ) (z : ℤ) {i : ℕ} → slot? cap z ≡ some i → (i < cap) × (z ≡ pos i)
slot?-eq-some cap (pos i) e = ground arith
slot?-eq-some cap (negsuc n) e = cc

module _ {D : Type 0} ⦃d : Double D⦄ where
  -- a slot whose quantity is positive
  abbrev pub live : (ℕ → D) → ℕ → Bool
  live slots i = d.lt d.nought (slots i)

  pub record IsBook (cap : ℕ) (b : Book D) : Type 0 where
    pub bid_index : IsIndex cap (live b.bids) b.bid_bits
    pub ask_index : IsIndex cap (live b.asks) b.ask_bits
    pub bid_best : IsHighest cap (live b.bids) b.best_bid
    pub ask_best : IsLowest cap (live b.asks) b.best_ask
    -- Without a reference the ladders hold zeros.
    pub unanchored : b.have_ref ≡ false → (i : ℕ) → (b.bids i ≡ d.nought) × (b.asks i ≡ d.nought)

  module _ (cap : ℕ) where
    -- `recenterIfNearEdge` leaves the book alone or rebases it onto the middle of its touch.
    pub recenter_cases {κ} :
        (P : Book D → Type κ) (b : Book D)
        → P b
        → P (rebase cap b (recentered cap b))
        → P (recenter_if_near_edge cap b)
    unfolding recenter_if_near_edge
    recenter_cases P b same moved = if-elim P (no_touch cap b) same (
        if-elim P (well_inside cap b) same
          (if-elim P (eqb_ℤ (recentered cap b) b.ref_tick) same moved))

  module _ {cap : ℕ} (c : IsCapacity cap) where
    live-update :
        (slots : ℕ → D) (slot : ℕ) (qty : D) (b : Bool)
        → d.lt d.nought qty ≡ b
        → (i : ℕ) → i < cap
        → update (live slots) slot b i ≡ live (update slots slot qty) i
    live-update slots slot qty b e i h = ground arith

    write_bid-IsBook :
        {b : Book D} (slot : ℕ) (qty : D)
        → slot < cap
        → b.have_ref ≡ true
        → IsBook cap b
        → IsBook cap (write_bid cap b slot qty)
    unfolding write_bid
    write_bid-IsBook {b} slot qty h anchored v = elim (Bool-cases (d.lt d.nought qty)) [
      | inl e ↦
          let same = live-update b.bids slot qty true e in
          rw e record {
            bid_index = IsIndex-congr same (set_bit-IsIndex c v.bid_index slot h);
            ask_index = v.ask_index;
            bid_best = IsHighest-congr same (raise-IsHighest slot h v.bid_best);
            ask_best = v.ask_best;
            unanchored = λ none. absurd (cc);
          }
      | inr e ↦
          let same = live-update b.bids slot qty false e in
          let index = IsIndex-congr same (clear_bit-IsIndex c v.bid_index slot h) in
          rw e record {
            bid_index = index;
            ask_index = v.ask_index;
            bid_best = elim (Bool-cases (eqb_ℤ (pos slot) b.best_bid)) [
              | inl at ↦ rw at (highest_set-IsHighest c index)
              | inr other ↦ rw other (IsHighest-congr same (keep-IsHighest slot h other v.bid_best))
            ];
            ask_best = v.ask_best;
            unanchored = λ none. absurd (cc);
          }
    ]

    write_ask-IsBook :
        {b : Book D} (slot : ℕ) (qty : D)
        → slot < cap
        → b.have_ref ≡ true
        → IsBook cap b
        → IsBook cap (write_ask cap b slot qty)
    unfolding write_ask
    write_ask-IsBook {b} slot qty h anchored v = elim (Bool-cases (d.lt d.nought qty)) [
      | inl e ↦
          let same = live-update b.asks slot qty true e in
          rw e record {
            bid_index = v.bid_index;
            ask_index = IsIndex-congr same (set_bit-IsIndex c v.ask_index slot h);
            bid_best = v.bid_best;
            ask_best = IsLowest-congr same (lower-IsLowest slot h v.ask_best);
            unanchored = λ none. absurd (cc);
          }
      | inr e ↦
          let same = live-update b.asks slot qty false e in
          let index = IsIndex-congr same (clear_bit-IsIndex c v.ask_index slot h) in
          rw e record {
            bid_index = v.bid_index;
            ask_index = index;
            bid_best = v.bid_best;
            ask_best = elim (Bool-cases (eqb_ℤ (pos slot) b.best_ask)) [
              | inl at ↦ rw at (lowest_set-IsLowest c index)
              | inr other ↦ rw other (IsLowest-congr same (keep-IsLowest slot h other v.ask_best))
            ];
            unanchored = λ none. absurd (cc);
          }
    ]

    pub write-IsBook :
        (side : Side) {b : Book D} (slot : ℕ) (qty : D)
        → slot < cap
        → b.have_ref ≡ true
        → IsBook cap b
        → IsBook cap (write cap side b slot qty)
    write-IsBook bid = write_bid-IsBook
    write-IsBook ask = write_ask-IsBook

    -- The loop of `rebuildIndex` indexes the slots that it has passed.
    index_step-IsIndex :
        (slots : ℕ → D) (k : ℕ) (bm : Bitmap)
        → k < cap
        → IsIndex cap (λ i. ltb i k && live slots i) bm
        → IsIndex cap (λ i. ltb i (suc k) && live slots i) (index_step cap slots k bm)
    unfolding index_step
    index_step-IsIndex slots k bm h v = elim (Bool-cases (live slots k)) [
      | inl e ↦ rw e (IsIndex-congr (λ i hi. ground arith) (set_bit-IsIndex c v k h))
      | inr e ↦ rw e (IsIndex-congr (λ i hi. ground arith) v)
    ]

    rebuilt-IsIndex :
        (slots : ℕ → D) → IsIndex cap (live slots) (for_range cap 0 (index_step cap slots) empty)
    rebuilt-IsIndex slots = IsIndex-congr (λ i h. ground arith) loop
      where
        loop :
            IsIndex cap
              (λ i. ltb i cap && live slots i)
              (for_range cap 0 (index_step cap slots) empty)
        loop =
            for_range_keeps (λ k bm. IsIndex cap (λ i. ltb i k && live slots i) bm)
              (index_step cap slots) cap 0 cap (omega arith) (index_step-IsIndex slots) empty
              (IsIndex-congr (λ i h. ground arith) (empty-IsIndex cap))

    -- `rebase` yields a book in good order from any ladders.
    pub rebase-IsBook :
        (b : Book D) (new_ref : ℤ) → b.have_ref ≡ true → IsBook cap (rebase cap b new_ref)
    unfolding rebase
    rebase-IsBook b new_ref anchored = record {
      bid_index = rebuilt-IsIndex _;
      ask_index = rebuilt-IsIndex _;
      bid_best = highest_set-IsHighest c (rebuilt-IsIndex _);
      ask_best = lowest_set-IsLowest c (rebuilt-IsIndex _);
      unanchored = λ none. absurd (cc);
    }

    pub recenter-IsBook :
        {b : Book D} → b.have_ref ≡ true → IsBook cap b → IsBook cap (recenter_if_near_edge cap b)
    recenter-IsBook {b} anchored v =
        recenter_cases cap (IsBook cap) b v (rebase-IsBook b (recentered cap b) anchored)

    write-have_ref :
        (side : Side) (b : Book D) (slot : ℕ) (qty : D)
        → (write cap side b slot qty).have_ref ≡ b.have_ref
    unfolding write_bid write_ask
    write-have_ref bid b slot qty = ground arith
    write-have_ref ask b slot qty = ground arith

    update_anchored-IsBook :
        (side : Side) (price : Price) (qty : Qty D) {b : Book D}
        → b.have_ref ≡ true
        → IsBook cap b
        → IsBook cap (update_anchored cap side price qty b)
    unfolding update_anchored
    update_anchored-IsBook side price qty {b} anchored v =
        elim (Option-cases (slot? cap (slot_index cap b price))) [
          | inl outside ↦ rw (outside, update_anchored) v
          | inr (slot, inside) ↦
              rw (inside, update_anchored)
                (recenter-IsBook (write-have_ref side b slot qty.value ∙ anchored)
                  (write-IsBook side slot qty.value (slot?-eq-some cap _ inside).0 anchored v))
        ]

    pub seed_reference-IsBook :
        (price : Price) {b : Book D}
        → IsBook cap b
        → IsBook cap (seed_reference cap b price) × ((seed_reference cap b price).have_ref ≡ true)
    unfolding seed_reference
    seed_reference-IsBook price {b} v = seed b.have_ref refl
      where
        anchored : Book D
        anchored = record b { ref_tick = price.ticks; have_ref = true }

        seed :
            (t : Bool)
            → b.have_ref ≡ t
            → IsBook cap (if t then b else anchored) × ((if t then b else anchored).have_ref ≡ true)
        seed true e = (v, e)
        seed false e = (
          record {
            bid_index = v.bid_index;
            ask_index = v.ask_index;
            bid_best = v.bid_best;
            ask_best = v.ask_best;
            unanchored = λ none. absurd (cc);
          },
          refl,
        )

    -- Whatever the side, price and quantity, `update` of a book in good order leaves a book in
    -- good order: each bitmap holds exactly the slots with a positive quantity, the cached best
    -- bid is the highest and the cached best ask the lowest such slot, and a book without a
    -- reference holds only zeros.
    pub update_book-IsBook :
        (side : Side) (price : Price) (qty : Qty D) {b : Book D}
        → IsBook cap b
        → IsBook cap (update_book cap b side price qty)
    unfolding update_book
    update_book-IsBook side price qty {b} v =
        let (w, anchored) = seed_reference-IsBook price v in
        update_anchored-IsBook side price qty anchored w

  module _ (cap : ℕ) (still : d.lt d.nought d.nought ≡ false) where
    pub initial-IsBook : IsBook cap (initial cap)
    initial-IsBook = record {
      bid_index = IsIndex-congr (λ i h. sym still) (empty-IsIndex cap);
      ask_index = IsIndex-congr (λ i h. sym still) (empty-IsIndex cap);
      bid_best = IsHighest.none_live refl (λ i h. still);
      ask_best = IsLowest.none_live refl (λ i h. still);
      unanchored = λ e i. (refl, refl);
    }

    pub clear-IsBook : (b : Book D) → IsBook cap (clear cap b)
    unfolding clear
    clear-IsBook b = record {
      bid_index = IsIndex-congr (λ i h. sym still) (empty-IsIndex cap);
      ask_index = IsIndex-congr (λ i h. sym still) (empty-IsIndex cap);
      bid_best = IsHighest.none_live refl (λ i h. still);
      ask_best = IsLowest.none_live refl (λ i h. still);
      unanchored = λ e i. (refl, refl);
    }
