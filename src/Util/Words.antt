-- ===== src/Util/Words.antt =====
-- `uint64_t` as a number below 2^64: the bit operations of the code and the builtins that count
-- zeros, with their laws bit by bit.
mod Bits
mod Scan
unfoldable pub use Bits.*
unfoldable pub use Scan.*
