-- ===== src/Util/Words/Bits.antt =====
-- Bits of a number, and how `|`, `&` and `~` act on them.
use Prim.Native.Nat.{bit_and, bit_or, digits, bit_and-bitwise, bit_or-bitwise, min, max}
use native.Mathlib.Nat.{two-pow-succ}
use trading_bot_v.Prelude.{
  ℕ, zero, suc, ◌+◌, ◌-◌, ◌*◌, ◌/◌, ◌%◌, ◌^◌, ◌≤◌, ◌<◌, ◌≡◌, refl, sym, ap, ◌∙◌, Bool, false, not,
  ◌&&◌, ◌||◌, arith, ◌==◌,
}

-- bit `j` of `x`
unfoldable pub testbit : ℕ → ℕ → Bool
testbit x zero = x % 2 == 1
testbit x (suc j) = testbit (x / 2) j

abbrev pub word_mod : ℕ
word_mod = 2 ^ 64

-- ~x
abbrev pub complement : ℕ → ℕ
complement x = word_mod - 1 - x

-- The definition of `&` and `|` walks the digits on a count that only has to be large enough.
module _ (rest : ℕ → ℕ) (digit : ℕ → ℕ → ℕ) where
  digits-zero : (count y : ℕ) → digits rest digit count zero y ≡ rest y
  digits-zero zero y = refl
  digits-zero (suc count) y = refl

  digits_count : (x k l y : ℕ) → x ≤ k → x ≤ l → digits rest digit k x y ≡ digits rest digit l x y
  digits_count zero k l y hk hl = digits-zero k y ∙ sym (digits-zero l y)
  digits_count (suc x) zero l y hk hl = absurd (omega arith)
  digits_count (suc x) (suc k) zero y hk hl = absurd (omega arith)
  digits_count (suc x) (suc k) (suc l) y hk hl =
      ap (λ t. t * 2 + digit (suc x % 2) (y % 2))
        (digits_count (suc x / 2) k l (y / 2) (omega arith) (omega arith))

pub and_halves : (x y : ℕ) → bit_and x y ≡ bit_and (x / 2) (y / 2) * 2 + min (x % 2) (y % 2)
and_halves zero y = omega (arith, bit_and-bitwise 0 y, bit_and-bitwise 0 (y / 2))
and_halves (suc x) y =
    let fewer =
      digits_count (λ _. zero) min (suc x / 2) x (suc x / 2) (y / 2) (omega arith) (omega arith) in
    omega (arith, fewer, bit_and-bitwise (suc x) y, bit_and-bitwise (suc x / 2) (y / 2))

or_halves : (x y : ℕ) → bit_or x y ≡ bit_or (x / 2) (y / 2) * 2 + max (x % 2) (y % 2)
or_halves zero y = omega (arith, bit_or-bitwise 0 y, bit_or-bitwise 0 (y / 2))
or_halves (suc x) y =
    let fewer =
      digits_count (λ y. y) max (suc x / 2) x (suc x / 2) (y / 2) (omega arith) (omega arith) in
    omega (arith, fewer, bit_or-bitwise (suc x) y, bit_or-bitwise (suc x / 2) (y / 2))

pub testbit-and : (a b j : ℕ) → testbit (bit_and a b) j ≡ testbit a j && testbit b j
unfolding testbit
testbit-and a b zero = ground (arith, and_halves a b)
testbit-and a b (suc j) = rw (half) (testbit-and (a / 2) (b / 2) j)
  where
    half : bit_and a b / 2 ≡ bit_and (a / 2) (b / 2)
    half = omega (arith, and_halves a b)

pub testbit-or : (a b j : ℕ) → testbit (bit_or a b) j ≡ testbit a j || testbit b j
unfolding testbit
testbit-or a b zero = ground (arith, or_halves a b)
testbit-or a b (suc j) = rw (half) (testbit-or (a / 2) (b / 2) j)
  where
    half : bit_or a b / 2 ≡ bit_or (a / 2) (b / 2)
    half = omega (arith, or_halves a b)

pub testbit-zero : (j : ℕ) → testbit 0 j ≡ false
unfolding testbit
testbit-zero zero = refl
testbit-zero (suc j) = testbit-zero j

pub testbit-pow : (b j : ℕ) → testbit (2 ^ b) j ≡ (b == j)
unfolding testbit
testbit-pow zero zero = refl
testbit-pow zero (suc j) = rw (testbit-zero j) (ground arith)
testbit-pow (suc b) zero = ground (arith, two-pow-succ b)
testbit-pow (suc b) (suc j) = rw (half) (rw (testbit-pow b j) (ground arith))
  where
    half : 2 ^ suc b / 2 ≡ 2 ^ b
    half = omega (arith, two-pow-succ b)

-- Within `n` bits the complement flips every bit.
testbit-complement_width :
    (n x j : ℕ) → x < 2 ^ n → j < n → testbit (2 ^ n - 1 - x) j ≡ not (testbit x j)
unfolding testbit
testbit-complement_width zero x j hx hj = absurd (omega arith)
testbit-complement_width (suc n) x zero hx hj = ground (arith, two-pow-succ n)
testbit-complement_width (suc n) x (suc j) hx hj =
    rw (half) (testbit-complement_width n (x / 2) j (omega (arith, two-pow-succ n)) (omega arith))
  where
    half : (2 ^ suc n - 1 - x) / 2 ≡ 2 ^ n - 1 - x / 2
    half = omega (arith, two-pow-succ n)

pub testbit-complement :
    (x j : ℕ) → x < word_mod → j < 64 → testbit (complement x) j ≡ not (testbit x j)
testbit-complement x j = testbit-complement_width 64 x j

-- A number with no bit set below `n` that fits `n` bits is 0.
pub zero_of_bits : (n x : ℕ) → x < 2 ^ n → ((j : ℕ) → j < n → testbit x j ≡ false) → x ≡ 0
unfolding testbit
zero_of_bits zero x h none_set = omega arith
zero_of_bits (suc n) x h none_set = ground (
  arith,
  none_set 0 (omega arith),
  zero_of_bits n (x / 2) (omega (arith, two-pow-succ n)) (λ j hj. none_set (suc j) (omega arith)),
)

bit_or-lt : (n a b : ℕ) → a < 2 ^ n → b < 2 ^ n → bit_or a b < 2 ^ n
bit_or-lt zero zero zero p q = omega arith
bit_or-lt zero zero (suc b) p q = absurd (omega arith)
bit_or-lt zero (suc a) b p q = absurd (omega arith)
bit_or-lt (suc n) a b p q = omega (
  arith,
  or_halves a b,
  two-pow-succ n,
  bit_or-lt n (a / 2) (b / 2) (omega (arith, two-pow-succ n)) (omega (arith, two-pow-succ n)),
)

bit_and-le : (n a b : ℕ) → a ≤ n → bit_and a b ≤ a
bit_and-le n zero b h = omega (arith, bit_and-bitwise 0 b)
bit_and-le zero (suc a) b h = absurd (omega arith)
bit_and-le (suc n) (suc a) b h =
    omega (arith, and_halves (suc a) b, bit_and-le n (suc a / 2) (b / 2) (omega arith))

pow-lt : (b n : ℕ) → b < n → 2 ^ b < 2 ^ n
pow-lt b zero h = absurd (omega arith)
pow-lt zero (suc n) h = omega (arith, two-pow-succ n, pow-pos n)
  where
    pow-pos : (n : ℕ) → 0 < 2 ^ n
    pow-pos zero = omega arith
    pow-pos (suc n) = omega (arith, two-pow-succ n, pow-pos n)
pow-lt (suc b) (suc n) h = omega (arith, two-pow-succ b, two-pow-succ n, pow-lt b n (omega arith))

-- Words stay words.
pub bit_or-word : (a b : ℕ) → a < word_mod → b < word_mod → bit_or a b < word_mod
bit_or-word a b = bit_or-lt 64 a b

pub bit_and-word : (a b : ℕ) → a < word_mod → bit_and a b < word_mod
bit_and-word a b h = omega (arith, bit_and-le a a b (omega arith))

pub pow-word : (b : ℕ) → b < 64 → 2 ^ b < word_mod
pow-word b h = pow-lt b 64 h
