-- ===== src/Md/Bitmap.antt =====
-- md/bounded_book.hpp, the bitmap index over the slots of a ladder: one bit per slot in 64-bit
-- words, and a summary word with one bit per word that is not 0.
pub mod Index
pub mod Scan
pub mod Best
use Prim.Native.Nat.{bit_and, bit_or}
use trading_bot_v.Prelude.{
  ℕ, ◌+◌, ◌-◌, ◌*◌, ◌/◌, ◌%◌, ◌^◌, ℤ, pos, negsuc, ◌==◌, if◌then◌else◌, update,
}
use trading_bot_v.Util.Words.{complement, clzll, ctzll}

abbrev pub word_bits : ℕ
word_bits = 64

-- `Bitmap` and its summary word, which the code passes around together
pub record Bitmap : Type 0 where
  pub words : ℕ → ℕ
  pub summary : ℕ

-- `fill(0)`
abbrev pub empty : Bitmap
empty = record { words = λ _. 0; summary = 0 }

-- Called with `b < 64` alone, as the callers take a remainder or a word's index.
abbrev pub bit_at : ℕ → ℕ
bit_at b = 2 ^ b

unfoldable pub set_bit : Bitmap → ℕ → Bitmap
set_bit bm idx =
    let w = idx / word_bits in
    record {
      words = update bm.words w (bit_or (bm.words w) (bit_at (idx % word_bits)));
      summary = bit_or bm.summary (bit_at w);
    }

unfoldable pub clear_bit : Bitmap → ℕ → Bitmap
clear_bit bm idx =
    let w = idx / word_bits in
    let word = bit_and (bm.words w) (complement (bit_at (idx % word_bits))) in
    record {
      words = update bm.words w word;
      summary = if word == 0 then bit_and bm.summary (complement (bit_at w)) else bm.summary;
    }

unfoldable pub highest_set : Bitmap → ℤ
highest_set bm =
    if bm.summary == 0
    then negsuc 0
    else let w = word_bits - 1 - clzll bm.summary in
      let b = word_bits - 1 - clzll (bm.words w) in pos (w * word_bits + b)

unfoldable pub lowest_set : ℕ → Bitmap → ℤ
lowest_set capacity bm =
    if bm.summary == 0
    then pos capacity
    else let w = ctzll bm.summary in let b = ctzll (bm.words w) in pos (w * word_bits + b)
