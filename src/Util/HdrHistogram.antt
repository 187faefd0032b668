-- ===== src/Util/HdrHistogram.antt =====
-- util/hdr_histogram.hpp, `class HdrHistogram`: counts of durations in 32 cells to each power of two.
pub mod Error
mod Tests
use trading_bot_v.Prelude.{
  ℕ, zero, suc, ◌+◌, ◌-◌, ◌*◌, ◌/◌, ◌%◌, ◌^◌, ℤ, pos, negsuc, ltb, leb, ltb_ℤ, ◌==◌, if◌then◌else◌,
  update,
}
use trading_bot_v.Util.Words.{clzll}

abbrev pub sub_bits : ℕ
sub_bits = 5

abbrev pub sub_count : ℕ
sub_count = 32

abbrev pub num_cells : ℕ
num_cells = 64 * sub_count

pub record Histogram : Type 0 where
  pub counts : ℕ → ℕ
  pub count : ℕ
  pub sum : ℕ
  pub max : ℕ

abbrev pub empty_histogram : Histogram
empty_histogram = record { counts = λ _. 0; count = 0; sum = 0; max = 0 }

-- The octave of a value from 32 on: the index of its highest bit, less 5.
abbrev pub octave_of : ℕ → ℕ
octave_of v = 63 - clzll v - sub_bits

unfoldable pub index_for : ℕ → ℕ
index_for v =
    let idx = sub_count * (octave_of v + 1) + (v / 2 ^ octave_of v - sub_count) in
    if ltb v sub_count then v else if ltb idx num_cells then idx else num_cells - 1

-- `static_cast<int64_t>` of a `uint64_t`
abbrev pub signed_word : ℕ → ℤ
signed_word n = if ltb n (2 ^ 63) then pos n else negsuc (2 ^ 64 - 1 - n)

unfoldable pub value_at : ℕ → ℤ
value_at idx =
    let rel = idx - sub_count in
    let octave = rel / sub_count in
    let lower_edge = (sub_count + rel % sub_count) * 2 ^ octave % 2 ^ 64 in
    let half_width = 2 ^ octave % 2 ^ 64 / 2 in
    if ltb idx sub_count then pos idx else signed_word ((lower_edge + half_width) % 2 ^ 64)

-- `ns < 0` counts as 0.
abbrev pub word_of : ℤ → ℕ
word_of (pos n) = n
word_of (negsuc _) = 0

unfoldable pub record_ns : ℤ → Histogram → Histogram
record_ns ns h =
    let v = word_of ns in
    record {
      counts = update h.counts (index_for v) ((h.counts (index_for v) + 1) % 2 ^ 64);
      count = (h.count + 1) % 2 ^ 64;
      sum = (h.sum + v) % 2 ^ 64;
      max = if ltb h.max v then v else h.max;
    }

-- the loop of `percentileNs` over the `left` cells from `i` on
unfoldable pub percentile_walk : (ℕ → ℕ) → ℤ → ℕ → ℕ → ℕ → ℕ → ℤ
percentile_walk counts mx target zero i cum = mx
percentile_walk counts mx target (suc left) i cum =
    let next = (cum + counts i) % 2 ^ 64 in
    let rest = percentile_walk counts mx target left (suc i) next in
    if leb target next then if ltb_ℤ (value_at i) mx then value_at i else mx else rest

-- `percentileNs`, with `target` for the product of the percentile and the count, rounded down
unfoldable pub percentile_ns : ℕ → Histogram → ℤ
percentile_ns target h =
    if h.count == 0
    then pos 0
    else percentile_walk h.counts (signed_word h.max) (if target == 0 then 1 else target) num_cells
        0 0
