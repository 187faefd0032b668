-- ===== src/Md/Bitmap/Scan.antt =====
-- `highestSet` and `lowestSet` find the extreme live slots.
use trading_bot_v.Prelude.{
  ℕ, ◌+◌, ◌*◌, ◌/◌, ◌%◌, ◌<◌, ◌≡◌, ◌≢◌, Bool, true, false, refl, sym, ◌∙◌, ◌==◌, ℤ, pos, negsuc,
  arith, inl, inr, Bool-cases, ==_iff,
}
use native.Mathlib.Decide.{ℕ_discrete, dec_lt}
use trading_bot_v.Util.Words.{testbit, IsTop, IsBottom, testbit-zero, clzll-IsTop, ctzll-IsBottom}
use trading_bot_v.Md.Bitmap.{Bitmap, highest_set, lowest_set}
use trading_bot_v.Md.Bitmap.Index.{IsCapacity, IsIndex}

-- `best` is the greatest live slot below `cap`, or -1 if there is none.
pub data IsHighest (cap : ℕ) (live : ℕ → Bool) (best : ℤ) : Type 0 where
  none_live : best ≡ negsuc 0 → ((i : ℕ) → i < cap → live i ≡ false) → IsHighest cap live best
  live_at :
      (s : ℕ)
      → best ≡ pos s
      → s < cap
      → live s ≡ true
      → ((i : ℕ) → s < i → i < cap → live i ≡ false)
      → IsHighest cap live best

-- `best` is the least live slot below `cap`, or `cap` if there is none.
pub data IsLowest (cap : ℕ) (live : ℕ → Bool) (best : ℤ) : Type 0 where
  none_live : best ≡ pos cap → ((i : ℕ) → i < cap → live i ≡ false) → IsLowest cap live best
  live_at :
      (s : ℕ)
      → best ≡ pos s
      → s < cap
      → live s ≡ true
      → ((i : ℕ) → i < s → live i ≡ false)
      → IsLowest cap live best

module _ {cap : ℕ} (c : IsCapacity cap) {live : ℕ → Bool} {bm : Bitmap}
    (v : IsIndex cap live bm) where
  -- A word without its bit in the summary holds no live slot.
  dead_word : (i : ℕ) → i < cap → testbit bm.summary (i / 64) ≡ false → live i ≡ false
  dead_word i h e = ground (
    arith,
    v.bits i h,
    v.summary_bits (i / 64) (omega (arith, c.small)),
    ==_iff (bm.words (i / 64)) 0,
    testbit-zero (i % 64),
  )

  no_summary : bm.summary ≡ 0 → (i : ℕ) → i < cap → live i ≡ false
  no_summary e i h = dead_word i h (rw e (testbit-zero (i / 64)))

  -- A word with its bit in the summary is not 0, and all its slots are below the capacity.
  word_ne_zero : (w : ℕ) → w < 64 → testbit bm.summary w ≡ true → bm.words w ≢ 0
  word_ne_zero w h set e = ground (arith, v.summary_bits w h)

  word_in_range : (w : ℕ) → bm.words w ≢ 0 → w * 64 < cap
  word_in_range w ne = elim (dec_lt (w * 64) cap) [
    | yes p ↦ p
    | no p ↦ absurd (ne (v.idle w (omega arith)))
  ]

  -- The bit at `b` of word `w` is the slot `w * 64 + b`.
  bit-live : (w b : ℕ) → w * 64 < cap → b < 64 → testbit (bm.words w) b ≡ live (w * 64 + b)
  bit-live w b range small =
      let word : (w * 64 + b) / 64 ≡ w = omega arith in
      let bit : (w * 64 + b) % 64 ≡ b = omega arith in
      let at = v.bits (w * 64 + b) (omega (arith, c.whole)) in rw (word, bit) at at

  same_word : (i w : ℕ) → i / 64 ≡ w → i < cap → testbit (bm.words w) (i % 64) ≡ live i
  same_word i w e h = rw (← e) (v.bits i h)

  IsHighest-at :
      (w b : ℕ)
      → IsTop 64 bm.summary w
      → IsTop 64 (bm.words w) b
      → IsHighest cap live (pos (w * 64 + b))
  IsHighest-at w b top_w top_b =
      let range = word_in_range w (word_ne_zero w top_w.in_range top_w.set) in
      live_at (w * 64 + b) refl (omega (arith, c.whole, top_b.in_range))
        (sym (bit-live w b range top_b.in_range) ∙ top_b.set)
        λ i h h'. elim (ℕ_discrete (i / 64) w) [
          | yes e ↦
              sym (same_word i w e h')
              ∙ top_b.above (i % 64) (omega (arith, top_b.in_range)) (omega arith)
          | no ne ↦
              dead_word i h'
                (top_w.above (i / 64) (omega (arith, top_b.in_range)) (omega (arith, c.small)))
        ]

  IsLowest-at :
      (w b : ℕ)
      → IsBottom 0 64 bm.summary w
      → IsBottom 0 64 (bm.words w) b
      → IsLowest cap live (pos (w * 64 + b))
  IsLowest-at w b low_w low_b =
      let range = word_in_range w (word_ne_zero w low_w.in_range low_w.set) in
      live_at (w * 64 + b) refl (omega (arith, c.whole, low_b.in_range))
        (sym (bit-live w b range low_b.in_range) ∙ low_b.set)
        λ i h. elim (ℕ_discrete (i / 64) w) [
          | yes e ↦
              sym (same_word i w e (omega (arith, c.whole, low_b.in_range)))
              ∙ low_b.below (i % 64) (omega arith) (omega arith)
          | no ne ↦
              dead_word i (omega (arith, c.whole, low_b.in_range))
                (low_w.below (i / 64) (omega arith) (omega (arith, low_b.in_range)))
        ]

  -- `highestSet` returns the greatest live slot, or -1; its second `__builtin_clzll` is never
  -- called with 0.
  pub highest_set-IsHighest : IsHighest cap live (highest_set bm)
  unfolding highest_set
  highest_set-IsHighest = elim (Bool-cases (bm.summary == 0)) [
    | inl e ↦ rw e (none_live refl (no_summary (ground arith)))
    | inr ne ↦
        let top = clzll-IsTop bm.summary v.summary_word (ground arith) in
        let word = word_ne_zero _ top.in_range top.set in
        rw ne (IsHighest-at _ _ top (clzll-IsTop _ (v.word _) word))
  ]

  -- `lowestSet` returns the least live slot, or the capacity.
  pub lowest_set-IsLowest : IsLowest cap live (lowest_set cap bm)
  unfolding lowest_set
  lowest_set-IsLowest = elim (Bool-cases (bm.summary == 0)) [
    | inl e ↦ rw e (none_live refl (no_summary (ground arith)))
    | inr ne ↦
        let low = ctzll-IsBottom bm.summary v.summary_word (ground arith) in
        let word = word_ne_zero _ low.in_range low.set in
        rw ne (IsLowest-at _ _ low (ctzll-IsBottom _ (v.word _) word))
  ]
