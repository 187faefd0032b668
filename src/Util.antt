-- ===== src/Util.antt =====
-- Machine words, and the containers of include/trading/util.
pub mod Words
pub mod SpscQueue
pub mod HdrHistogram
