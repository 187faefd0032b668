-- ===== src/Core/Double/Defs.antt =====
-- The operations on `double`, and the laws of them that hold in IEEE 754 arithmetic.
use trading_bot_v.Prelude.{ℤ, ◌≡◌, Bool, true, false}

pub record Double (D : Type 0) : Type 0 where
  -- 0.0, 1.0, 1e-12, 0.5, 1e4 and 1e9
  pub nought : D
  pub one : D
  pub tiny : D
  pub half : D
  pub ten_thousand : D
  pub billion : D
  pub add : D → D → D
  pub sub : D → D → D
  pub mul : D → D → D
  pub div : D → D → D
  pub neg : D → D
  pub abs : D → D
  -- `a < b`, `a <= b` and `a == b`; `a > b` is `b < a`, and `a >= b` is `b <= a`
  pub lt : D → D → Bool
  pub le : D → D → Bool
  pub eq : D → D → Bool
  -- `std::isfinite`: neither an infinity nor NaN
  pub finite : D → Bool
  -- `static_cast<double>` of an `int64_t`, and `std::llround`
  pub of_int : ℤ → D
  pub round : D → ℤ

-- `std::min(a, b)` is `b < a ? b : a`.
abbrev pub min_double : {D : Type 0} ⦃d : Double D⦄ → D → D → D
min_double ⦃d⦄ a b = elim (d.lt b a) [ true ↦ b | false ↦ a ]

abbrev pub IsFinite : {D : Type 0} ⦃d : Double D⦄ → D → Type 0
IsFinite ⦃d⦄ a = d.finite a ≡ true

infix 50 ◌≼◌ ◌≺◌
abbrev pub ◌≼◌ : {D : Type 0} ⦃d : Double D⦄ → D → D → Type 0
◌≼◌ ⦃d⦄ a b = d.le a b ≡ true

abbrev pub ◌≺◌ : {D : Type 0} ⦃d : Double D⦄ → D → D → Type 0
◌≺◌ ⦃d⦄ a b = d.lt a b ≡ true

pub record IsDouble (D : Type 0) ⦃d : Double D⦄ : Type 0 where
  pub finite_nought : IsFinite d.nought
  pub le_refl : (a : D) → IsFinite a → a ≼ a
  pub le_trans : (a b c : D) → a ≼ b → b ≼ c → a ≼ c
  pub le_of_lt : (a b : D) → a ≺ b → a ≼ b
  pub lt_irrefl : (a : D) → d.lt a a ≡ false
  pub lt_of_lt_of_le : (a b c : D) → a ≺ b → b ≼ c → a ≺ c
  pub le_of_not_lt : (a b : D) → IsFinite a → IsFinite b → d.lt a b ≡ false → b ≼ a
  pub le_of_not_le : (a b : D) → IsFinite a → IsFinite b → d.le a b ≡ false → b ≼ a
  -- Rounding is monotone, so a sum is monotone in each operand.
  pub add_mono : (a b c : D) → IsFinite a → IsFinite b → IsFinite c → b ≼ c → d.add a b ≼ d.add a c
  pub add-nought_le : (a b : D) → IsFinite a → IsFinite b → d.nought ≼ b → a ≼ d.add a b
  pub add-nought_ge : (a b : D) → IsFinite a → IsFinite b → b ≼ d.nought → d.add a b ≼ a
  pub neg_anti : (a b : D) → a ≼ b → d.neg b ≼ d.neg a
  pub neg-nought_le : (a : D) → d.nought ≼ a → d.neg a ≼ d.nought
  pub finite_neg : (a : D) → IsFinite a → IsFinite (d.neg a)
  -- Multiplication by 1.0 and -1.0 is exact.
  pub mul_one : (a : D) → IsFinite a → d.mul a d.one ≡ a
  pub mul-neg_one : (a : D) → IsFinite a → d.mul a (d.neg d.one) ≡ d.neg a
