-- ===== src/Core/Double.antt =====
-- What the code does with a `double`. The operations are a parameter of the model: `Double D` gives
-- them on a type `D`, and `IsDouble D` states the facts of IEEE 754 arithmetic that proofs rely on,
-- each with the premise (finite operands, no NaN) under which it holds of a real `double`.
mod Thousandths
mod Difference
mod Defs
unfoldable pub use Thousandths.*
unfoldable pub use Defs.*
pub use Difference.*
