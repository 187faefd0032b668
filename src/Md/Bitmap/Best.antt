-- ===== src/Md/Bitmap/Best.antt =====
-- The best slot of a ladder when one slot is marked live or dead.
use trading_bot_v.Prelude.{
  ℕ, ◌<◌, ◌≡◌, Bool, true, false, sym, ◌∙◌, ℤ, pos, ltb_ℤ, eqb_ℤ, arith, if◌then◌else◌, update,
}
use native.Mathlib.Decide.{dec_lt}
use trading_bot_v.Md.Bitmap.Scan.{IsHighest, IsLowest}

module _ {cap : ℕ} {live live' : ℕ → Bool} (same : (i : ℕ) → i < cap → live i ≡ live' i) where
  pub IsHighest-congr : {best : ℤ} → IsHighest cap live best → IsHighest cap live' best
  IsHighest-congr (IsHighest.none_live e all) =
      IsHighest.none_live e λ i h. sym (same i h) ∙ all i h
  IsHighest-congr (IsHighest.live_at s e h at above) =
      IsHighest.live_at s e h (sym (same s h) ∙ at) λ i hi h'. sym (same i h') ∙ above i hi h'

  pub IsLowest-congr : {best : ℤ} → IsLowest cap live best → IsLowest cap live' best
  IsLowest-congr (IsLowest.none_live e all) = IsLowest.none_live e λ i h. sym (same i h) ∙ all i h
  IsLowest-congr (IsLowest.live_at s e h at below) =
      IsLowest.live_at s e h (sym (same s h) ∙ at) λ i hi. sym (same i (omega arith)) ∙ below i hi

module _ {cap : ℕ} {live : ℕ → Bool} {best : ℤ} (slot : ℕ) (h : slot < cap) where
  -- A slot that becomes live is the best one if it beats the old best slot.
  pub raise-IsHighest :
      IsHighest cap live best
      → IsHighest cap (update live slot true) (if ltb_ℤ best (pos slot) then pos slot else best)
  raise-IsHighest (IsHighest.none_live e all) =
      IsHighest.live_at slot (ground arith) h (ground arith) λ i hi h'. ground (arith, all i h')
  raise-IsHighest (IsHighest.live_at s e hs at above) = elim (dec_lt s slot) [
    | yes p ↦
        IsHighest.live_at slot (ground arith) h (ground arith)
          λ i hi h'. ground (arith, above i (omega arith) h')
    | no p ↦
        IsHighest.live_at s (ground arith) hs (ground arith)
          λ i hi h'. ground (arith, above i hi h')
  ]

  pub lower-IsLowest :
      IsLowest cap live best
      → IsLowest cap (update live slot true) (if ltb_ℤ (pos slot) best then pos slot else best)
  lower-IsLowest (IsLowest.none_live e all) =
      IsLowest.live_at slot (ground arith) h (ground arith)
        λ i hi. ground (arith, all i (omega arith))
  lower-IsLowest (IsLowest.live_at s e hs at below) = elim (dec_lt slot s) [
    | yes p ↦
        IsLowest.live_at slot (ground arith) h (ground arith)
          λ i hi. ground (arith, below i (omega arith))
    | no p ↦ IsLowest.live_at s (ground arith) hs (ground arith) λ i hi. ground (arith, below i hi)
  ]

  -- A slot other than the best one can die without changing the best one.
  pub keep-IsHighest :
      eqb_ℤ (pos slot) best ≡ false
      → IsHighest cap live best
      → IsHighest cap (update live slot false) best
  keep-IsHighest ne (IsHighest.none_live e all) =
      IsHighest.none_live e λ i h'. ground (arith, all i h')
  keep-IsHighest ne (IsHighest.live_at s e hs at above) =
      IsHighest.live_at s e hs (ground arith) λ i hi h'. ground (arith, above i hi h')

  pub keep-IsLowest :
      eqb_ℤ (pos slot) best ≡ false
      → IsLowest cap live best
      → IsLowest cap (update live slot false) best
  keep-IsLowest ne (IsLowest.none_live e all) =
      IsLowest.none_live e λ i h'. ground (arith, all i h')
  keep-IsLowest ne (IsLowest.live_at s e hs at below) =
      IsLowest.live_at s e hs (ground arith) λ i hi. ground (arith, below i hi)
