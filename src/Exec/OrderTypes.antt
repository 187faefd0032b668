-- ===== src/Exec/OrderTypes.antt =====
-- exec/order_types.hpp: an order and the report of its execution.
use trading_bot_v.Prelude.{ℕ, ℤ, Bool}
use trading_bot_v.Core.Types.{Price, Qty, Side}

pub record NewOrder (D : Type 0) : Type 0 where
  pub id : ℕ
  pub symbol_id : ℕ
  pub side : Side
  pub price : Price
  pub qty : Qty D
  pub created_ns : ℤ

pub record ExecutionReport (D : Type 0) : Type 0 where
  pub id : ℕ
  pub symbol_id : ℕ
  pub side : Side
  pub is_fill : Bool
  pub exec_price : Price
  pub exec_qty : Qty D
  pub completed_ns : ℤ
