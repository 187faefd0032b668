-- ===== src/Md/Bitmap/Index.antt =====
-- `setBit` and `clearBit` keep the bitmap in step with the slots that it indexes.
use Prim.Native.Nat.{bit_and, bit_or, bit_and-bitwise}
use trading_bot_v.Prelude.{
  ℕ, ◌*◌, ◌/◌, ◌%◌, ◌^◌, ◌≤◌, ◌<◌, ◌≡◌, Bool, true, false, not, ap, ◌==◌, update, arith,
}
use trading_bot_v.Util.Words.{
  testbit, word_mod, complement, testbit-and, testbit-or, testbit-zero, testbit-pow,
  testbit-complement, bit_or-word, bit_and-word, pow-word,
}
use trading_bot_v.Md.Bitmap.{Bitmap, empty, set_bit, clear_bit}

-- What the `static_assert`s on `Capacity` give: whole words, at least one and at most 64 of them.
pub record IsCapacity (cap : ℕ) : Type 0 where
  pub whole : cap % 64 ≡ 0
  pub large : 64 ≤ cap
  pub small : cap ≤ 4096

-- The bitmap holds just the slots below `cap` at which `live` answers true.
pub record IsIndex (cap : ℕ) (live : ℕ → Bool) (bm : Bitmap) : Type 0 where
  pub bits : (i : ℕ) → i < cap → testbit (bm.words (i / 64)) (i % 64) ≡ live i
  pub word : (w : ℕ) → bm.words w < word_mod
  pub idle : (w : ℕ) → cap ≤ w * 64 → bm.words w ≡ 0
  pub summary_word : bm.summary < word_mod
  pub summary_bits : (w : ℕ) → w < 64 → testbit bm.summary w ≡ not (bm.words w == 0)

pub empty-IsIndex : (cap : ℕ) → IsIndex cap (λ _. false) empty
empty-IsIndex cap = record {
  bits = λ i h. testbit-zero (i % 64);
  word = λ w. omega arith;
  idle = λ w h. omega arith;
  summary_word = omega arith;
  summary_bits = λ w h. testbit-zero w;
}

pub IsIndex-congr :
    {cap : ℕ} {live live' : ℕ → Bool} {bm : Bitmap}
    → ((i : ℕ) → i < cap → live i ≡ live' i)
    → IsIndex cap live bm
    → IsIndex cap live' bm
IsIndex-congr {bm = bm} same v = record {
  bits = λ i h. ground (arith, v.bits i h, same i h);
  word = v.word;
  idle = v.idle;
  summary_word = v.summary_word;
  summary_bits = v.summary_bits;
}

module _ {cap : ℕ} (c : IsCapacity cap) {live : ℕ → Bool} {bm : Bitmap} (v : IsIndex cap live bm)
    (idx : ℕ) (h : idx < cap) where
  abbrev word_at : ℕ
  word_at = bm.words (idx / 64)

  set_bit-bits :
      (i : ℕ)
      → i < cap
      → testbit ((set_bit bm idx).words (i / 64)) (i % 64) ≡ update live idx true i
  unfolding set_bit
  set_bit-bits i hi = ground (
    arith,
    v.bits i hi,
    testbit-or word_at (2 ^ (idx % 64)) (i % 64),
    testbit-pow (idx % 64) (i % 64),
  )

  or_ne_zero : bit_or word_at (2 ^ (idx % 64)) ≡ 0 → ⊥
  or_ne_zero e = ground (
    arith,
    testbit-or word_at (2 ^ (idx % 64)) (idx % 64),
    testbit-pow (idx % 64) (idx % 64),
    testbit-zero (idx % 64),
  )

  set_bit-summary_bits :
      (w : ℕ) → w < 64 → testbit (set_bit bm idx).summary w ≡ not ((set_bit bm idx).words w == 0)
  unfolding set_bit
  set_bit-summary_bits w hw = ground (
    arith,
    v.summary_bits w hw,
    testbit-or bm.summary (2 ^ (idx / 64)) w,
    testbit-pow (idx / 64) w,
    or_ne_zero,
  )

  -- Setting the bit of a slot marks that slot live, and no other.
  pub set_bit-IsIndex : IsIndex cap (update live idx true) (set_bit bm idx)
  unfolding set_bit
  set_bit-IsIndex = record {
    bits = set_bit-bits;
    word = λ w. ground (
      arith,
      v.word w,
      bit_or-word word_at (2 ^ (idx % 64)) (v.word (idx / 64)) (pow-word (idx % 64) (omega arith)),
    );
    idle = λ w hw. ground (arith, v.idle w hw, c.whole);
    summary_word =
        bit_or-word bm.summary (2 ^ (idx / 64)) v.summary_word
          (pow-word (idx / 64) (omega (arith, c.small)));
    summary_bits = set_bit-summary_bits;
  }

  clear_mask : (b j : ℕ) → b < 64 → j < 64 → testbit (complement (2 ^ b)) j ≡ not (b == j)
  clear_mask b j hb hj =
      rw (testbit-complement (2 ^ b) j (pow-word b hb) hj) (ap not (testbit-pow b j))

  abbrev cleared : ℕ
  cleared = bit_and word_at (complement (2 ^ (idx % 64)))

  clear_bit-bits :
      (i : ℕ)
      → i < cap
      → testbit ((clear_bit bm idx).words (i / 64)) (i % 64) ≡ update live idx false i
  unfolding clear_bit
  clear_bit-bits i hi = ground (
    arith,
    v.bits i hi,
    testbit-and word_at (complement (2 ^ (idx % 64))) (i % 64),
    clear_mask (idx % 64) (i % 64) (omega arith) (omega arith),
  )

  clear_bit-summary_bits :
      (w : ℕ)
      → w < 64
      → testbit (clear_bit bm idx).summary w ≡ not ((clear_bit bm idx).words w == 0)
  unfolding clear_bit
  clear_bit-summary_bits w hw = ground (
    arith,
    v.summary_bits w hw,
    testbit-and bm.summary (complement (2 ^ (idx / 64))) w,
    clear_mask (idx / 64) w (omega (arith, c.small)) hw,
    and-zero,
  )
    where
      and-zero : word_at ≡ 0 → cleared ≡ 0
      and-zero e = rw e (bit_and-bitwise 0 (complement (2 ^ (idx % 64))))

  -- Clearing the bit of a slot marks that slot dead, and no other.
  pub clear_bit-IsIndex : IsIndex cap (update live idx false) (clear_bit bm idx)
  unfolding clear_bit
  clear_bit-IsIndex = record {
    bits = clear_bit-bits;
    word = λ w.
        ground
          (arith, v.word w, bit_and-word word_at (complement (2 ^ (idx % 64))) (v.word (idx / 64)));
    idle = λ w hw. ground (arith, v.idle w hw, c.whole);
    summary_word = ground (
      arith,
      v.summary_word,
      bit_and-word bm.summary (complement (2 ^ (idx / 64))) v.summary_word,
    );
    summary_bits = clear_bit-summary_bits;
  }
