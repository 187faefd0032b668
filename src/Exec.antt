-- ===== src/Exec.antt =====
-- exec/: the checks on an order, and its simulated execution.
pub mod OrderTypes
pub mod CircuitBreaker
pub mod RiskManager
pub mod ExecutionEngine
