-- ===== src/Strategy.antt =====
-- strategy/: signals, the size of an order, profit and loss, and the strategy itself.
pub mod Signals
pub mod PnlTracker
pub mod OrderSizer
pub mod ImbalanceStrategy
