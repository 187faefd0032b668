-- ===== src/Util/SpscQueue/Index.antt =====
-- The slot of a counter: masking is a remainder, and a window of the capacity's length has one
-- counter for each slot.
use Prim.Native.Nat.{bit_and}
use native.Mathlib.Nat.{two-pow-succ, mod-add-mod, mod-lt, mod-eq_of_lt, mod-eq-sub-mod}
use native.Mathlib.Decide.{dec_lt}
use trading_bot_v.Prelude.{
  ℕ, zero, suc, ◌+◌, ◌-◌, ◌*◌, ◌/◌, ◌%◌, ◌^◌, ◌≤◌, ◌<◌, ◌≡◌, ◌≢◌, sym, ap, ◌∙◌, arith,
}
use trading_bot_v.Util.Words.{and_halves}
use trading_bot_v.Util.SpscQueue.{slot}

pub two-pow_pos : (k : ℕ) → 0 < 2 ^ k
two-pow_pos zero = omega arith
two-pow_pos (suc k) = omega (arith, two-pow-succ k, two-pow_pos k)

mod_double : (m a : ℕ) → 0 < m → a % (m + m) ≡ (a / 2 % m) * 2 + a % 2
mod_double m a h = grind arith

mod-two-pow : (k a : ℕ) → a % 2 ^ suc k ≡ (a / 2 % 2 ^ k) * 2 + a % 2
mod-two-pow k a = ap (λ m. a % m) (two-pow-succ k) ∙ mod_double (2 ^ k) a (two-pow_pos k)

and_none : (bound a : ℕ) → a ≤ bound → bit_and a 0 ≡ 0
and_none bound zero h = omega (arith, and_halves 0 0)
and_none zero (suc a) h = absurd (omega arith)
and_none (suc bound) (suc a) h =
    omega (arith, and_halves (suc a) 0, and_none bound (suc a / 2) (omega arith))

bit_and-mask : (k a : ℕ) → bit_and a (2 ^ k - 1) ≡ a % 2 ^ k
bit_and-mask zero a = omega (arith, and_none a a (omega arith))
bit_and-mask (suc k) a =
    and_halves a (2 ^ suc k - 1)
    ∙ rw (half, ones) (omega (arith, bit_and-mask k (a / 2), mod-two-pow k a))
  where
    half : (2 ^ suc k - 1) / 2 ≡ 2 ^ k - 1
    half = omega (arith, two-pow-succ k, two-pow_pos k)

    ones : (2 ^ suc k - 1) % 2 ≡ 1
    ones = omega (arith, two-pow-succ k, two-pow_pos k)

-- A remainder by a larger power of two keeps the remainder by a smaller one.
mod-mod-two-pow : (k j a : ℕ) → a % 2 ^ (k + j) % 2 ^ k ≡ a % 2 ^ k
mod-mod-two-pow zero j a = omega arith
mod-mod-two-pow (suc k) j a = omega (
  arith,
  mod-two-pow k a,
  mod-two-pow k (a % 2 ^ (suc k + j)),
  larger,
  rest (mod-mod-two-pow k j (a / 2)),
)
  where
    larger : a % 2 ^ (suc k + j) ≡ (a / 2 % 2 ^ (k + j)) * 2 + a % 2
    larger = let e : suc k + j ≡ suc (k + j) = omega arith in rw e (mod-two-pow (k + j) a)

    rest :
        a / 2 % 2 ^ (k + j) % 2 ^ k ≡ a / 2 % 2 ^ k
        → a % 2 ^ (suc k + j) / 2 % 2 ^ k ≡ a / 2 % 2 ^ k
    rest ih =
        let e : a % 2 ^ (suc k + j) / 2 ≡ a / 2 % 2 ^ (k + j) = omega (arith, larger) in rw e ih

-- The slot of a counter that has wrapped is that of the count itself.
pub slot-mod : (k n : ℕ) → k ≤ 64 → slot (2 ^ k) (n % 2 ^ 64) ≡ n % 2 ^ k
slot-mod k n h =
    bit_and-mask k (n % 2 ^ 64)
    ∙ ap (λ w. n % 2 ^ w % 2 ^ k) {x = 64} {y = k + (64 - k)} (omega arith)
    ∙ mod-mod-two-pow k (64 - k) n

-- Two counts less than a capacity apart have different slots.
pub mod_apart : (c i j : ℕ) → i < j → j < i + c → i % c ≢ j % c
mod_apart c i j h h' e = elim (dec_lt (i % c + (j - i)) c) [
  | yes p ↦ omega (arith, apart, mod-eq_of_lt p)
  | no p ↦
      let below : i % c + (j - i) - c < c = omega (arith, mod-lt i {m = c} (omega arith)) in
      let once : (i % c + (j - i)) % c ≡ (i % c + (j - i) - c) % c =
        mod-eq-sub-mod {n = i % c + (j - i)} {m = c} (omega arith) in
      omega (arith, apart, once, mod-eq_of_lt below)
]
  where
    apart : (i % c + (j - i)) % c ≡ i % c
    apart =
        mod-add-mod i c (j - i) ∙ ap (λ n. n % c) {x = i + (j - i)} {y = j} (omega arith) ∙ sym e
