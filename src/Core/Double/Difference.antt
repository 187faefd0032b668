-- ===== src/Core/Double/Difference.antt =====
-- Laws of the subtraction of finite values in IEEE 754 arithmetic.
use trading_bot_v.Prelude.{◌≡◌, ◌+ℤ◌, ◌-ℤ◌, ◌*ℤ◌, refl, arith, int_laws}
use trading_bot_v.Core.Double.Defs.{Double, IsFinite, ◌≼◌}
use trading_bot_v.Core.Double.Thousandths.{Milli, milli_double}

pub record IsDifference (D : Type 0) ⦃d : Double D⦄ : Type 0 where
  pub nought-tiny : d.nought ≼ d.tiny
  pub sub_self : (a : D) → IsFinite a → d.sub a a ≡ d.nought
  pub sub-nought : (a x : D) → IsFinite a → IsFinite x → x ≼ a → d.nought ≼ d.sub a x
  -- The difference lies between 0.0 and `a`.
  pub finite_sub : (a x : D) → IsFinite a → IsFinite x → d.nought ≼ x → x ≼ a → IsFinite (d.sub a x)

pub Milli-IsDifference : IsDifference Milli
unfolding ◌+ℤ◌ ◌-ℤ◌ ◌*ℤ◌
Milli-IsDifference = record {
  nought-tiny = refl;
  sub_self = λ a fa. omega int_laws;
  sub-nought = λ a x fa fx h. ground arith;
  finite_sub = λ a x fa fx h k. refl;
}
