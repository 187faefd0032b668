-- ===== src/Prelude/Arrays.antt =====
-- A `std::array` as a function of the index. Every index that the code uses is shown to lie below
-- the array's size where the component's invariant is stated.
use Prim.Native.Nat.{ℕ, zero, suc, ◌+◌, ◌<◌}
use mathlib.Core.Path.{◌≡◌, subst}
use mathlib.Core.Logic.{◌≢◌}
use mathlib.Core.Bool.{Bool}
use native.Mathlib.Decide.{dec_lt}
use native.Mathlib.Omega.{arith}
use trading_bot_v.Prelude.Tests.{◌==◌, if◌then◌else◌}

-- `a[i] = v`
abbrev pub update {ℓ} : {A : Type ℓ} → (ℕ → A) → ℕ → A → ℕ → A
update f i v j = if i == j then v else f j

pub update_self {ℓ} : {A : Type ℓ} (f : ℕ → A) (i : ℕ) (v : A) → update f i v i ≡ v
update_self f i v = ground arith

pub update-ne {ℓ} : {A : Type ℓ} (f : ℕ → A) (i j : ℕ) (v : A) → i ≢ j → update f i v j ≡ f j
update-ne f i j v h = ground arith

-- `for (size_t i = from; i < from + rounds; ++i) state = step(i, state)`
unfoldable pub for_range {ℓ} : {S : Type ℓ} → ℕ → ℕ → (ℕ → S → S) → S → S
for_range zero from step state = state
for_range (suc rounds) from step state = for_range rounds (suc from) step (step from state)

-- A statement that each round below the end takes from one index to the next holds at the end.
pub for_range_keeps {ℓ κ} :
    {S : Type ℓ} (Holds : ℕ → S → Type κ) (step : ℕ → S → S) (rounds from end : ℕ)
    → from + rounds ≡ end
    → ((i : ℕ) (state : S) → i < end → Holds i state → Holds (suc i) (step i state))
    → (state : S) → Holds from state
    → Holds end (for_range rounds from step state)
unfolding for_range
for_range_keeps Holds step zero from end e round state h =
    subst (λ i. Holds i state) (omega arith) h
for_range_keeps Holds step (suc rounds) from end e round state h =
    for_range_keeps Holds step rounds (suc from) end (omega arith) round (step from state)
      (round from state (omega arith) h)

-- A test that answers `b` below `n` and at `n` answers `b` below `suc n`.
pub extend_below :
    (f : ℕ → Bool) (b : Bool) (n : ℕ)
    → ((j : ℕ) → j < n → f j ≡ b)
    → f n ≡ b
    → (j : ℕ) → j < suc n
    → f j ≡ b
extend_below f b n all here j h = elim (dec_lt j n) [
  | yes p ↦ all j p
  | no p ↦ let e : j ≡ n = omega arith in rw e here
]
