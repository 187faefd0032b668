-- ===== src/Util/HdrHistogram/Error.antt =====
-- The cell of a duration is in range, and the value that it stands for is near the duration.
use native.Mathlib.Nat.{
  two-pow-succ, le-div_iff_mul-le, div-lt_iff_lt-mul, div-mul-le_self, lt-div-mul-add,
  pow-le-pow_right, mul-le-mul_right,
}
use native.Mathlib.Decide.{dec_lt}
use trading_bot_v.Prelude.{
  ℕ, zero, suc, ◌+◌, ◌-◌, ◌*◌, ◌/◌, ◌%◌, ◌^◌, ◌≤◌, ◌<◌, ◌≡◌, ◌⊎◌, inl, inr, ℤ, pos, refl, sym, ap,
  ◌∙◌, true, false, arith, ltb, ==→eq, true-ne-false, lt→ltb, if-true, if-false,
}
use trading_bot_v.Util.Words.{clzll, clzll-IsTop, testbit, testbit-zero, zero_of_bits}
use trading_bot_v.Util.SpscQueue.Index.{two-pow_pos}
use trading_bot_v.Util.HdrHistogram.{index_for, num_cells, octave_of, signed_word, value_at}

-- A word lies between the power of its highest bit and the next one.
top_bounds :
    (t n x : ℕ)
    → x < 2 ^ n
    → testbit x t ≡ true
    → ((j : ℕ) → t < j → j < n → testbit x j ≡ false)
    → (2 ^ t ≤ x) × (x < 2 ^ suc t)
unfolding testbit
top_bounds zero zero x h set above = absurd (omega (arith, ==→eq _ _ set))
top_bounds zero (suc n) x h set above =
    let none_above : x / 2 ≡ 0 =
      zero_of_bits n (x / 2) (omega (arith, h, two-pow-succ n))
        (λ j lt. above (suc j) (omega arith) (omega arith)) in
    (omega (arith, ==→eq _ _ set), omega (arith, none_above))
top_bounds (suc t) zero x h set above = absurd (
    true-ne-false
      (sym set ∙ ap (λ y. testbit y t) {x = x / 2} {y = 0} (omega arith) ∙ testbit-zero t))
top_bounds (suc t) (suc n) x h set above =
    let half =
      top_bounds t n (x / 2) (omega (arith, h, two-pow-succ n)) set
        (λ j lt lt'. above (suc j) (omega arith) (omega arith)) in
    (omega (arith, half.0, two-pow-succ t), omega (arith, half.1, two-pow-succ (suc t)))

pow_five : (o : ℕ) → 2 ^ (o + 5) ≡ 32 * 2 ^ o
pow_five o =
    ap (λ n. 2 ^ n) {x = o + 5} {y = suc (suc (suc (suc (suc o))))} (omega arith)
    ∙ omega (
      arith,
      two-pow-succ o,
      two-pow-succ (suc o),
      two-pow-succ (suc (suc o)),
      two-pow-succ (suc (suc (suc o))),
      two-pow-succ (suc (suc (suc (suc o)))),
    )

-- The octave of a value from 32 on.
octave_bounds :
    (v : ℕ)
    → 32 ≤ v
    → v < 2 ^ 63
    → (32 * 2 ^ octave_of v ≤ v) × (v < 64 * 2 ^ octave_of v) × (octave_of v ≤ 57)
octave_bounds v low high =
    let top = clzll-IsTop v (omega arith) (λ e. absurd (omega arith)) in
    bounded (64 - 1 - clzll v) (top_bounds (64 - 1 - clzll v) 64 v (omega arith) top.set top.above)
  where
    bounded :
        (t : ℕ)
        → (2 ^ t ≤ v) × (v < 2 ^ suc t)
        → (32 * 2 ^ (t - 5) ≤ v) × (v < 64 * 2 ^ (t - 5)) × (t - 5 ≤ 57)
    bounded t b = elim (dec_lt t 5) [
      | yes p ↦ absurd (
          omega
            (arith, b.1, pow-le-pow_right {n = 2} (omega arith) {i = suc t} {j = 5} (omega arith)))
      | no p ↦
          let same : 2 ^ t ≡ 32 * 2 ^ (t - 5) =
            ap (λ n. 2 ^ n) {x = t} {y = t - 5 + 5} (omega arith) ∙ pow_five (t - 5) in
          (
            omega (arith, same, b.0),
            omega (arith, same, b.1, two-pow-succ t),
            elim (dec_lt t 63) [
              | yes q ↦ omega arith
              | no q ↦ absurd (
                  omega (
                    arith,
                    b.0,
                    pow-le-pow_right {n = 2} (omega arith) {i = 63} {j = t} (omega arith),
                  ))
            ],
          )
    ]

-- A value from 32 on, by its octave `o`: its cell, and the value that the cell stands for.
in_octave :
    (v o : ℕ)
    → 32 * 2 ^ o ≤ v
    → v < 64 * 2 ^ o
    → o ≤ 57
    → (32 ≤ v / 2 ^ o)
      × (v / 2 ^ o < 64)
      × (v / 2 ^ o * 2 ^ o ≤ v)
      × (v < v / 2 ^ o * 2 ^ o + 2 ^ o)
in_octave v o low high small = (
  (le-div_iff_mul-le (two-pow_pos o)).1 low,
  (div-lt_iff_lt-mul (two-pow_pos o)).1 high,
  div-mul-le_self v (2 ^ o),
  lt-div-mul-add (two-pow_pos o),
)

not_lt : (a b : ℕ) → b ≤ a → ltb a b ≡ false
not_lt a b h = ground arith

one_or_even : (o : ℕ) → (2 ^ o ≡ 1) ⊎ (2 ^ o % 2 ≡ 0)
one_or_even zero = inl refl
one_or_even (suc o) = inr (omega (arith, two-pow-succ o))

value_below : (v : ℕ) → v < 32 → value_at v ≡ pos v
unfolding value_at
value_below v h = if-true _ _ _ (lt→ltb v 32 h)

word_sum :
    (p m : ℕ)
    → p + m / 2 < 2 ^ 63
    → m < 2 ^ 64
    → signed_word ((p % 2 ^ 64 + m % 2 ^ 64 / 2) % 2 ^ 64) ≡ pos (p + m / 2)
word_sum p m h h' =
    ap signed_word {x = (p % 2 ^ 64 + m % 2 ^ 64 / 2) % 2 ^ 64} {y = p + m / 2} (omega arith)
    ∙ if-true _ _ _ (lt→ltb (p + m / 2) (2 ^ 63) h)

-- the value that the cell of octave `o` and quotient `q` stands for
value_of_cell :
    (o q : ℕ)
    → 32 ≤ q
    → q < 64
    → o ≤ 57
    → value_at (32 * (o + 1) + (q - 32)) ≡ pos (q * 2 ^ o + 2 ^ o / 2)
unfolding value_at
value_of_cell o q low high small =
    if-false _ _ _ (not_lt (32 * (o + 1) + (q - 32)) 32 (omega arith))
    ∙ ap cell {x = (32 * (o + 1) + (q - 32) - 32) / 32} {y = o} (omega arith)
    ∙ ap (λ n. signed_word ((n * 2 ^ o % 2 ^ 64 + 2 ^ o % 2 ^ 64 / 2) % 2 ^ 64))
        {x = 32 + (32 * (o + 1) + (q - 32) - 32) % 32} {y = q} (omega arith)
    ∙ word_sum (q * 2 ^ o) (2 ^ o)
        (omega (arith, bounded, pow-le-pow_right {n = 2} (omega arith) {i = o} {j = 57} small))
        (omega (arith, pow-le-pow_right {n = 2} (omega arith) {i = o} {j = 57} small))
  where
    cell : ℕ → ℤ
    cell octave = signed_word (
        ((32 + (32 * (o + 1) + (q - 32) - 32) % 32) * 2 ^ octave % 2 ^ 64 + 2 ^ octave % 2 ^ 64 / 2)
        % 2 ^ 64)

    bounded : q * 2 ^ o ≤ 63 * 2 ^ o
    bounded = mul-le-mul_right (2 ^ o) (omega arith)

-- For a duration below 2^63 the index of its cell is below the number of cells, and the value v'
-- that the cell stands for is not negative and within a 64th of the duration v: 64 v' is at most
-- 65 v, and at least 63 v.
pub value_at-index_for :
    (v : ℕ)
    → v < 2 ^ 63
    → (index_for v < num_cells)
      × ((n : ℕ) × (value_at (index_for v) ≡ pos n) × (64 * n ≤ 65 * v) × (63 * v ≤ 64 * n))
unfolding index_for
value_at-index_for v h = elim (dec_lt v 32) [
  | yes p ↦
      let cell : index_for v ≡ v = if-true _ _ _ (lt→ltb v 32 p) in
      (omega (arith, cell), (v, ap value_at cell ∙ small p, omega arith, omega arith))
  | no p ↦
      let o = octave_of v in
      let b = octave_bounds v (omega arith) h in
      let c = in_octave v o b.0 b.1 b.2 in
      let cell : index_for v ≡ 32 * (o + 1) + (v / 2 ^ o - 32) =
        if-false _ _ _ (not_lt v 32 (omega arith))
        ∙ if-true _ _ _ (lt→ltb (32 * (o + 1) + (v / 2 ^ o - 32)) 2048 (omega (arith, b.2, c.1))) in
      (
        omega (arith, cell, b.2, c.1),
        (
          v / 2 ^ o * 2 ^ o + 2 ^ o / 2,
          ap value_at cell ∙ value_of_cell o (v / 2 ^ o) c.0 c.1 b.2,
          omega (arith, b.0, c.2, c.3),
          near (2 ^ o) (v / 2 ^ o * 2 ^ o) (one_or_even o) b.0 c.3,
        ),
      )
]
  where
    small : v < 32 → value_at v ≡ pos v
    small p = value_below v p

    near : (m p : ℕ) → (m ≡ 1) ⊎ (m % 2 ≡ 0) → 32 * m ≤ v → v < p + m → 63 * v ≤ 64 * (p + m / 2)
    near m p (inl e) low high = omega arith
    near m p (inr e) low high = omega arith
