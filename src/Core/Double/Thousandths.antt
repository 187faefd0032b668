-- ===== src/Core/Double/Thousandths.antt =====
-- A concrete arithmetic to run the code on: decimal numbers in thousandths, rounded towards 0.
use trading_bot_v.Prelude.{
  ℕ, ◌+◌, ◌/◌, ℤ, pos, negsuc, pos_part, neg_part, sub_ℕ, ◌+ℤ◌, ◌-ℤ◌, ◌*ℤ◌, ltb_ℤ, leb_ℤ, eqb_ℤ,
  true, ◌≡◌, refl, arith,
}
use trading_bot_v.Core.Double.Defs.{Double, IsDouble}

abbrev pub Milli : Type 0
Milli = ℤ

-- towards 0
abbrev divide : ℤ → ℕ → ℤ
divide a n = sub_ℕ (pos_part a / n) (neg_part a / n)

abbrev pub negate : ℤ → ℤ
negate a = sub_ℕ (neg_part a) (pos_part a)

-- A quotient by a value that is not positive is that of its absolute value, negated.
abbrev quotient : Milli → Milli → Milli
quotient a (pos n) = divide (a *ℤ pos 1000) n
quotient a (negsuc n) = divide (negate a *ℤ pos 1000) (n + 1)

abbrev magnitude : ℤ → ℤ
magnitude a = pos (pos_part a + neg_part a)

-- to the nearest integer, halves away from 0
abbrev nearest : Milli → ℤ
nearest a = sub_ℕ ((pos_part a + 500) / 1000) ((neg_part a + 500) / 1000)

instance abbrev pub milli_double : Double Milli
milli_double = record {
  nought = pos 0;
  one = pos 1000;
  tiny = pos 0;
  half = pos 500;
  ten_thousand = pos 10_000_000;
  billion = pos 1_000_000_000_000;
  add = ◌+ℤ◌;
  sub = ◌-ℤ◌;
  mul = λ a b. divide (a *ℤ b) 1000;
  div = quotient;
  neg = negate;
  abs = magnitude;
  lt = ltb_ℤ;
  le = leb_ℤ;
  eq = eqb_ℤ;
  finite = λ _. true;
  of_int = λ n. n *ℤ pos 1000;
  round = nearest;
}

-- The laws can be met.
Milli-add_mono : (a b c : Milli) → leb_ℤ b c ≡ true → leb_ℤ (a +ℤ b) (a +ℤ c) ≡ true
unfolding ◌+ℤ◌
Milli-add_mono a b c h = ground arith

pub Milli-IsDouble : IsDouble Milli
unfolding ◌+ℤ◌ ◌*ℤ◌
Milli-IsDouble = record {
  finite_nought = refl;
  le_refl = λ a h. ground arith;
  le_trans = λ a b c h k. ground arith;
  le_of_lt = λ a b h. ground arith;
  lt_irrefl = λ a. ground arith;
  lt_of_lt_of_le = λ a b c h k. ground arith;
  le_of_not_lt = λ a b p q h. ground arith;
  le_of_not_le = λ a b p q h. ground arith;
  add_mono = λ a b c p q r h. Milli-add_mono a b c h;
  add-nought_le = λ a b p q h. ground arith;
  add-nought_ge = λ a b p q h. ground arith;
  neg_anti = λ a b h. ground arith;
  neg-nought_le = λ a h. ground arith;
  finite_neg = λ a h. refl;
  mul_one = λ a h. ground arith;
  mul-neg_one = λ a h. ground arith;
}
