-- ===== src/Md/BoundedBook/Moved.antt =====
-- The best slots of a ladder that `rebase` has moved.
use trading_bot_v.Prelude.{
  ℕ, ◌+◌, ◌<◌, ◌≡◌, refl, sym, ◌∙◌, ap, Bool, true, false, ℤ, pos, pos_part, neg_part, ◌+ℤ◌,
  int_laws, arith, Option, some, none, Bool-cases, inl, inr,
}
use trading_bot_v.Core.Double.{Double}
use trading_bot_v.Md.Bitmap.Scan.{IsHighest, IsLowest}
use trading_bot_v.Md.BoundedBook.{slot?}
use trading_bot_v.Md.BoundedBook.Invariant.{live, slot?-eq-some}
use trading_bot_v.Md.BoundedBook.Levels.{shifted}

-- A ladder has one greatest and one least live slot.
pub IsHighest-unique :
    {cap : ℕ} {f : ℕ → Bool} {a b : ℤ} → IsHighest cap f a → IsHighest cap f b → a ≡ b
IsHighest-unique (IsHighest.none_live e all) (IsHighest.none_live e' all') = e ∙ sym e'
IsHighest-unique (IsHighest.none_live e all) (IsHighest.live_at s e' h at above) =
    absurd (cc (all s h))
IsHighest-unique (IsHighest.live_at s e h at above) (IsHighest.none_live e' all) =
    absurd (cc (all s h))
IsHighest-unique (IsHighest.live_at s e h at above) (IsHighest.live_at t e' h' at' above') =
    ground (arith, above t, above' s)

pub IsLowest-unique :
    {cap : ℕ} {f : ℕ → Bool} {a b : ℤ} → IsLowest cap f a → IsLowest cap f b → a ≡ b
IsLowest-unique (IsLowest.none_live e all) (IsLowest.none_live e' all') = e ∙ sym e'
IsLowest-unique (IsLowest.none_live e all) (IsLowest.live_at s e' h at below) =
    absurd (cc (all s h))
IsLowest-unique (IsLowest.live_at s e h at below) (IsLowest.none_live e' all) =
    absurd (cc (all s h))
IsLowest-unique (IsLowest.live_at s e h at below) (IsLowest.live_at t e' h' at' below') =
    ground (arith, below t, below' s)

pub shift_parts :
    (shift : ℤ) (j s : ℕ) → pos j +ℤ shift ≡ pos s → j + pos_part shift ≡ s + neg_part shift
shift_parts shift j s e =
    let z = pos j +ℤ shift in
    let above : pos_part z ≡ s = ap pos_part e in
    let below : neg_part z ≡ 0 = ap neg_part e in omega int_laws

module _ {D : Type 0} ⦃d : Double D⦄ (cap : ℕ) where
  -- What `shifted` puts into slot `j` from slot `s`.
  pub shifted-some :
      (shift : ℤ) (slots : ℕ → D) (j s : ℕ)
      → s < cap
      → pos j +ℤ shift ≡ pos s
      → shifted cap shift slots j ≡ slots s
  shifted-some shift slots j s h e =
      ap (λ z. elim (slot? cap z) [ none ↦ d.nought | some src ↦ slots src ]) e ∙ ground arith

  -- A live slot of the shifted ladder comes from a live slot of the old one.
  module _ (still : d.lt d.nought d.nought ≡ false) (shift : ℤ) (slots : ℕ → D) where
    shifted-live :
        (j : ℕ)
        → d.lt d.nought (shifted cap shift slots j) ≡ true
        → (s : ℕ) × (s < cap) × (pos j +ℤ shift ≡ pos s) × (live slots s ≡ true)
    shifted-live j = go (slot? cap (pos j +ℤ shift)) refl
      where
        go :
            (o : Option ℕ)
            → slot? cap (pos j +ℤ shift) ≡ o
            → d.lt d.nought (elim o [ none ↦ d.nought | some src ↦ slots src ]) ≡ true
            → (s : ℕ) × (s < cap) × (pos j +ℤ shift ≡ pos s) × (live slots s ≡ true)
        go none e h = absurd (cc)
        go (some s) e h = (s, (slot?-eq-some cap _ e).0, (slot?-eq-some cap _ e).1, h)

    module _ (new : ℕ → D) (moved : (j : ℕ) → j < cap → new j ≡ shifted cap shift slots j) where
      -- If no slot of the old ladder that could move to `j` is live, slot `j` is dead.
      pub dead-moved :
          (j : ℕ)
          → j < cap
          → ((s : ℕ) → s < cap → pos j +ℤ shift ≡ pos s → live slots s ≡ false)
          → live new j ≡ false
      dead-moved j h none_live = elim (Bool-cases (live new j)) [
        | inr dead ↦ dead
        | inl alive ↦
            let (s, hs, at, was) = shifted-live j (sym (ap (d.lt d.nought) (moved j h)) ∙ alive) in
            absurd (cc (none_live s hs at))
      ]

      live-moved :
          (j s : ℕ) → j < cap → s < cap → pos j +ℤ shift ≡ pos s → live new j ≡ live slots s
      live-moved j s h hs e = ap (d.lt d.nought) (moved j h ∙ shifted-some shift slots j s hs e)

      pub IsHighest-moved :
          (s j : ℕ)
          → IsHighest cap (live slots) (pos s)
          → j < cap
          → pos j +ℤ shift ≡ pos s
          → IsHighest cap (live new) (pos j)
      IsHighest-moved s j (IsHighest.none_live e all) h at = absurd (cc)
      IsHighest-moved s j (IsHighest.live_at t e ht alive above) h at =
          let same : s ≡ t = ground arith in
          IsHighest.live_at j refl h (live-moved j t h ht (at ∙ e) ∙ alive)
            λ i hi h'. dead-moved i h' λ u hu from. above u (omega (arith, beyond i u hi from)) hu
        where
          beyond : (i u : ℕ) → j < i → pos i +ℤ shift ≡ pos u → s < u
          beyond i u hi from = omega (arith, shift_parts shift j s at, shift_parts shift i u from)

      pub IsLowest-moved :
          (s j : ℕ)
          → IsLowest cap (live slots) (pos s)
          → s < cap
          → j < cap
          → pos j +ℤ shift ≡ pos s
          → IsLowest cap (live new) (pos j)
      IsLowest-moved s j (IsLowest.none_live e all) hs h at = absurd (ground arith)
      IsLowest-moved s j (IsLowest.live_at t e ht alive below) hs h at =
          let same : s ≡ t = ground arith in
          IsLowest.live_at j refl h (live-moved j t h ht (at ∙ e) ∙ alive) λ i hi.
            dead-moved i (omega arith) λ u hu from. below u (omega (arith, short i u hi from))
        where
          short : (i u : ℕ) → i < j → pos i +ℤ shift ≡ pos u → u < s
          short i u hi from = omega (arith, shift_parts shift j s at, shift_parts shift i u from)
