-- ===== src/Util/Words/Scan.antt =====
-- `__builtin_clzll` and `__builtin_ctzll`, as the number of zero bits before the first set one.
-- At 0, where the builtins are undefined, both count all 64 bits.
use trading_bot_v.Prelude.{
  ℕ, zero, suc, ◌+◌, ◌-◌, ◌≤◌, ◌<◌, ◌≡◌, ◌≢◌, true, false, arith, if◌then◌else◌, ◌⊎◌, inl, inr,
  Bool-cases, extend_below,
}
use native.Mathlib.Decide.{dec_lt}
use trading_bot_v.Util.Words.Bits.{testbit, word_mod, zero_of_bits}

-- zero bits from bit `n - 1` downwards
unfoldable pub leading : ℕ → ℕ → ℕ
leading zero x = 0
leading (suc n) x = if testbit x n then 0 else suc (leading n x)

-- zero bits from bit `i` upwards, among the next `n`
unfoldable pub trailing : ℕ → ℕ → ℕ → ℕ
trailing zero i x = 0
trailing (suc n) i x = if testbit x i then 0 else suc (trailing n (suc i) x)

unfoldable pub clzll : ℕ → ℕ
unfolding leading
clzll x = leading 64 x

unfoldable pub ctzll : ℕ → ℕ
unfolding trailing
ctzll x = trailing 64 0 x

-- Bit `t` is the highest one of the lowest `n` bits that is set.
pub record IsTop (n x t : ℕ) : Type 0 where
  pub in_range : t < n
  pub set : testbit x t ≡ true
  pub above : (j : ℕ) → t < j → j < n → testbit x j ≡ false

-- Bit `t` is the lowest one from bit `i` upwards that is set, and one of the next `n`.
pub record IsBottom (i n x t : ℕ) : Type 0 where
  pub from : i ≤ t
  pub in_range : t < i + n
  pub set : testbit x t ≡ true
  pub below : (j : ℕ) → i ≤ j → j < t → testbit x j ≡ false

IsTop-suc : {n x t : ℕ} → IsTop n x t → testbit x n ≡ false → IsTop (suc n) x t
IsTop-suc {n} {x} {t} top e = record {
  in_range = omega (arith, top.in_range);
  set = top.set;
  above = λ j h h'. elim (dec_lt j n) [
    | yes p ↦ top.above j h p
    | no p ↦ let at : j ≡ n = omega arith in rw at e
  ];
}

leading-IsTop :
    (n x : ℕ)
    → ((j : ℕ) → j < n → testbit x j ≡ false) ⊎ ((t : ℕ) × IsTop n x t × (t + 1 + leading n x ≡ n))
unfolding leading
leading-IsTop zero x = inl (λ j h. absurd (omega arith))
leading-IsTop (suc n) x = elim (Bool-cases (testbit x n)) [
  | inl e ↦ rw e (inr (n, here e, omega arith))
  | inr e ↦ rw e (elim (leading-IsTop n x) [
    | inl all ↦ inl (extend_below (testbit x) false n all e)
    | inr (t, top, count) ↦ inr (t, IsTop-suc top e, omega arith)
  ])
]
  where
    here : testbit x n ≡ true → IsTop (suc n) x n
    here e = record { in_range = omega arith; set = e; above = λ j h h'. absurd (omega arith) }

IsBottom-suc : {i n x t : ℕ} → IsBottom (suc i) n x t → testbit x i ≡ false → IsBottom i (suc n) x t
IsBottom-suc {i} {n} {x} {t} bottom e = record {
  from = omega (arith, bottom.from);
  in_range = omega (arith, bottom.in_range);
  set = bottom.set;
  below = λ j h h'. elim (dec_lt i j) [
    | yes p ↦ bottom.below j p h'
    | no p ↦ let at : j ≡ i = omega arith in rw at e
  ];
}

trailing-IsBottom :
    (n i x : ℕ)
    → ((j : ℕ) → i ≤ j → j < i + n → testbit x j ≡ false)
      ⊎ ((t : ℕ) × IsBottom i n x t × (i + trailing n i x ≡ t))
unfolding trailing
trailing-IsBottom zero i x = inl (λ j h h'. absurd (omega arith))
trailing-IsBottom (suc n) i x = elim (Bool-cases (testbit x i)) [
  | inl e ↦ rw e (inr (i, here e, omega arith))
  | inr e ↦ rw e (elim (trailing-IsBottom n (suc i) x) [
    | inl all ↦ inl (λ j h h'. elim (dec_lt i j) [
      | yes p ↦ all j p (omega arith)
      | no p ↦ let at : j ≡ i = omega arith in rw at e
    ])
    | inr (t, bottom, count) ↦ inr (t, IsBottom-suc bottom e, omega arith)
  ])
]
  where
    here : testbit x i ≡ true → IsBottom i (suc n) x i
    here e = record {
      from = omega arith;
      in_range = omega arith;
      set = e;
      below = λ j h h'. absurd (omega arith);
    }

-- On a word that is not 0, `63 - clz` is the index of the highest set bit.
pub clzll-IsTop : (x : ℕ) → x < word_mod → x ≢ 0 → IsTop 64 x (64 - 1 - clzll x)
unfolding clzll
clzll-IsTop x h ne = elim (leading-IsTop 64 x) [
  | inl all ↦ absurd (ne (zero_of_bits 64 x h all))
  | inr (t, top, count) ↦ let e : 64 - 1 - leading 64 x ≡ t = omega arith in rw e top
]

-- On a word that is not 0, `ctz` is the index of the lowest set bit.
pub ctzll-IsBottom : (x : ℕ) → x < word_mod → x ≢ 0 → IsBottom 0 64 x (ctzll x)
unfolding ctzll
ctzll-IsBottom x h ne = elim (trailing-IsBottom 64 0 x) [
  | inl all ↦ absurd (ne (zero_of_bits 64 x h (λ j hj. all j (omega arith) (omega arith))))
  | inr (t, bottom, count) ↦ let e : trailing 64 0 x ≡ t = omega arith in rw e bottom
]
