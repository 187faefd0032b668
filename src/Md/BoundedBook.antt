-- ===== src/Md/BoundedBook.antt =====
-- md/bounded_book.hpp, `class BoundedBook`: two ladders of quantities around a reference tick, each
-- with a bitmap index and its best slot. `cap` is the template's `Capacity`.
pub mod Invariant
pub mod Levels
pub mod Update
pub mod Moved
pub mod Recenter
pub mod Touch
pub mod Edge
pub mod Depth
mod Tests
use trading_bot_v.Prelude.{
  min_ℤ, max_ℤ, ℕ, zero, suc, ◌+◌, ◌-◌, ◌*◌, ◌/◌, ◌%◌, ◌^◌, ℤ, pos, negsuc, pos_part, neg_part,
  sub_ℕ, ◌+ℤ◌, ◌-ℤ◌, ltb_ℤ, leb_ℤ, eqb_ℤ, Bool, true, false, not, ◌&&◌, Option, none, some, List,
  [], ◌∷◌, ltb, if◌then◌else◌, update, for_range,
}
use trading_bot_v.Core.Double.{Double}
use trading_bot_v.Core.Types.{Price, from_ticks, Qty, PriceLevel, Side, bid, ask}
use trading_bot_v.Md.Bitmap.{Bitmap, empty, set_bit, clear_bit, highest_set, lowest_set}

pub record Book (D : Type 0) : Type 0 where
  pub ref_tick : ℤ
  pub have_ref : Bool
  pub bids : ℕ → D
  pub asks : ℕ → D
  pub bid_bits : Bitmap
  pub ask_bits : Bitmap
  pub best_bid : ℤ
  pub best_ask : ℤ
  pub rebase_count : ℕ

-- `int64_t` division by 2, towards 0
abbrev pub halve : ℤ → ℤ
halve a = sub_ℕ (pos_part a / 2) (neg_part a / 2)

module _ (cap : ℕ) where
  abbrev pub center : ℕ
  center = cap / 2

  abbrev pub recenter_margin : ℕ
  recenter_margin = cap / 8

  -- the test `idx < 0 || idx >= Capacity`, and the cast to an index where it fails
  abbrev pub slot? : ℤ → Option ℕ
  slot? (negsuc n) = none
  slot? (pos i) = if ltb i cap then some i else none

module _ {D : Type 0} ⦃d : Double D⦄ (cap : ℕ) where
  -- the default member initialisers
  abbrev pub initial : Book D
  initial = record {
    ref_tick = pos 0;
    have_ref = false;
    bids = λ _. d.nought;
    asks = λ _. d.nought;
    bid_bits = empty;
    ask_bits = empty;
    best_bid = negsuc 0;
    best_ask = pos cap;
    rebase_count = 0;
  }

  unfoldable pub clear : Book D → Book D
  clear b = record b {
    bids = λ _. d.nought;
    asks = λ _. d.nought;
    bid_bits = empty;
    ask_bits = empty;
    best_bid = negsuc 0;
    best_ask = pos cap;
    have_ref = false;
  }

  unfoldable pub seed_reference : Book D → Price → Book D
  seed_reference b price =
      if b.have_ref then b else record b { ref_tick = price.ticks; have_ref = true }

  -- the loop of `rebuildIndex`, for one of the two ladders
  unfoldable pub index_step : (ℕ → D) → ℕ → Bitmap → Bitmap
  index_step slots i bm = if d.lt d.nought (slots i) then set_bit bm i else bm

  unfoldable pub rebuild_index : Book D → Book D
  unfolding index_step
  rebuild_index b =
      let bid_bits = for_range cap 0 (index_step b.bids) empty in
      let ask_bits = for_range cap 0 (index_step b.asks) empty in
      record b {
        bid_bits = bid_bits;
        ask_bits = ask_bits;
        best_bid = highest_set bid_bits;
        best_ask = lowest_set cap ask_bits;
      }

  -- the loop of `rebase`, for one of the two ladders
  unfoldable pub shift_step : ℤ → (ℕ → D) → ℕ → (ℕ → D) → ℕ → D
  shift_step shift slots i new = elim (slot? cap (pos i +ℤ shift)) [
    | none ↦ new
    | some src ↦ update new i (slots src)
  ]

  unfoldable pub rebase : Book D → ℤ → Book D
  unfolding shift_step rebuild_index
  rebase b new_ref =
      let shift = new_ref -ℤ b.ref_tick in
      let rebuilt = rebuild_index (record b {
        bids = for_range cap 0 (shift_step shift b.bids) (λ _. d.nought);
        asks = for_range cap 0 (shift_step shift b.asks) (λ _. d.nought);
        ref_tick = new_ref;
      }) in
      record rebuilt { rebase_count = (b.rebase_count + 1) % 2 ^ 64 }

  abbrev pub have_bid : Book D → Bool
  have_bid b = leb_ℤ (pos 0) b.best_bid

  abbrev pub have_ask : Book D → Bool
  have_ask b = ltb_ℤ b.best_ask (pos cap)

  -- `lo` and `hi` of `recenterIfNearEdge`
  abbrev pub touch_low : Book D → ℤ
  touch_low b =
      if have_bid b && have_ask b
      then min_ℤ b.best_bid b.best_ask
      else if have_bid b
      then b.best_bid
      else b.best_ask

  abbrev pub touch_high : Book D → ℤ
  touch_high b =
      if have_bid b && have_ask b
      then max_ℤ b.best_bid b.best_ask
      else if have_ask b
      then b.best_ask
      else b.best_bid

  abbrev pub recentered : Book D → ℤ
  recentered b = b.ref_tick +ℤ (halve (touch_low b +ℤ touch_high b) -ℤ pos (center cap))

  abbrev pub no_touch : Book D → Bool
  no_touch b = not (have_bid b) && not (have_ask b)

  abbrev pub well_inside : Book D → Bool
  well_inside b =
      leb_ℤ (pos (recenter_margin cap)) (touch_low b)
      && ltb_ℤ (touch_high b) (pos cap -ℤ pos (recenter_margin cap))

  unfoldable pub recenter_if_near_edge : Book D → Book D
  recenter_if_near_edge b =
      if no_touch b
      then b
      else if well_inside b
      then b
      else if eqb_ℤ (recentered b) b.ref_tick
      then b
      else rebase b (recentered b)

  -- the write of `update` to one ladder, before the window is recentered
  unfoldable pub write_bid : Book D → ℕ → D → Book D
  write_bid b slot qty =
      if d.lt d.nought qty
      then record b {
        bids = update b.bids slot qty;
        bid_bits = set_bit b.bid_bits slot;
        best_bid = if ltb_ℤ b.best_bid (pos slot) then pos slot else b.best_bid;
      }
      else let bits = clear_bit b.bid_bits slot in
        record b {
          bids = update b.bids slot qty;
          bid_bits = bits;
          best_bid = if eqb_ℤ (pos slot) b.best_bid then highest_set bits else b.best_bid;
        }

  unfoldable pub write_ask : Book D → ℕ → D → Book D
  write_ask b slot qty =
      if d.lt d.nought qty
      then record b {
        asks = update b.asks slot qty;
        ask_bits = set_bit b.ask_bits slot;
        best_ask = if ltb_ℤ (pos slot) b.best_ask then pos slot else b.best_ask;
      }
      else let bits = clear_bit b.ask_bits slot in
        record b {
          asks = update b.asks slot qty;
          ask_bits = bits;
          best_ask = if eqb_ℤ (pos slot) b.best_ask then lowest_set cap bits else b.best_ask;
        }

  abbrev pub write : Side → Book D → ℕ → D → Book D
  write bid = write_bid
  write ask = write_ask

  -- `idx` of `update`
  abbrev pub slot_index : Book D → Price → ℤ
  slot_index b price = pos (center cap) +ℤ (price.ticks -ℤ b.ref_tick)

  -- `update` on a book with a reference
  unfoldable pub update_anchored : Side → Price → Qty D → Book D → Book D
  update_anchored side price qty b = elim (slot? cap (slot_index b price)) [
    | none ↦ b
    | some slot ↦ recenter_if_near_edge (write side b slot qty.value)
  ]

  unfoldable pub update_book : Book D → Side → Price → Qty D → Book D
  unfolding update_anchored seed_reference
  update_book b side price qty = update_anchored side price qty (seed_reference b price)

  -- the level of a ladder's slot
  abbrev pub level_at : Book D → (ℕ → D) → ℕ → PriceLevel D
  level_at b slots i = record {
    price = from_ticks (b.ref_tick +ℤ (pos i -ℤ pos (center cap)));
    qty = record { value = slots i };
  }

  unfoldable pub top_of_book : Book D → Side → Option (PriceLevel D)
  top_of_book b bid =
      if ltb_ℤ b.best_bid (pos 0) then none else some (level_at b b.bids (pos_part b.best_bid))
  top_of_book b ask =
      if leb_ℤ (pos cap) b.best_ask then none else some (level_at b b.asks (pos_part b.best_ask))

  -- the loop of `depth` over the slots `i - 1`, `i - 2`, … of the bids, with room for `n` levels
  unfoldable pub depth_down : Book D → ℕ → ℕ → List (PriceLevel D)
  depth_down b zero n = []
  depth_down b (suc i) zero = []
  depth_down b (suc i) (suc n) =
      let live = d.lt d.nought (b.bids i) in
      let rest = depth_down b i (if live then n else suc n) in
      if live then level_at b b.bids i ∷ rest else rest

  -- the loop over the `left` slots of the asks from `i` upwards
  unfoldable pub depth_up : Book D → ℕ → ℕ → ℕ → List (PriceLevel D)
  depth_up b zero i n = []
  depth_up b (suc left) i zero = []
  depth_up b (suc left) i (suc n) =
      let live = d.lt d.nought (b.asks i) in
      let rest = depth_up b left (suc i) (if live then n else suc n) in
      if live then level_at b b.asks i ∷ rest else rest

  -- The list is `out[0 .. filled)`.
  unfoldable pub depth : Book D → Side → ℕ → List (PriceLevel D)
  unfolding depth_down depth_up
  depth b bid n = elim b.best_bid [ pos i ↦ depth_down b (suc i) n | negsuc _ ↦ [] ]
  depth b ask n = depth_up b (cap - pos_part b.best_ask) (pos_part b.best_ask) n
