-- ===== src/Core.antt =====
-- include/trading/core: numbers, prices, quantities and the other types that every part shares.
pub mod Double
pub mod Types
pub mod Error
pub mod Logger
