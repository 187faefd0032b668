-- ===== src/Exec/CircuitBreaker.antt =====
-- exec/circuit_breaker.hpp, `class CircuitBreaker`: trips on errors within a window of messages.
-- Each call runs without one of another thread in between.
pub mod Window
mod Tests
use trading_bot_v.Prelude.{
  ℕ, ◌+◌, ◌%◌, ◌^◌, Bool, true, false, List, [], ◌∷◌, leb, ◌==◌, if◌then◌else◌,
}

pub record Breaker : Type 0 where
  pub threshold : ℕ
  pub window_messages : ℕ
  pub msgs : ℕ
  pub errors : ℕ
  pub tripped : Bool

abbrev pub circuit_breaker : ℕ → ℕ → Breaker
circuit_breaker threshold window_messages = record {
  threshold = threshold;
  window_messages = window_messages;
  msgs = 0;
  errors = 0;
  tripped = false;
}

-- `fetch_add(1) + 1` on a `uint64_t`
abbrev pub next_count : ℕ → ℕ
next_count n = (n + 1) % 2 ^ 64

-- The end of a window: the errors are exchanged for 0, and none untrips.
abbrev pub end_window : Breaker → Breaker
end_window c =
    if c.errors == 0 then record c { errors = 0; tripped = false } else record c { errors = 0 }

unfoldable pub record_message : Breaker → Breaker
record_message c =
    let n = next_count c.msgs in
    if c.window_messages == 0
    then c
    else if n % c.window_messages == 0
    then end_window (record c { msgs = n })
    else record c { msgs = n }

unfoldable pub record_error : Breaker → Breaker
record_error c =
    let e = next_count c.errors in
    if leb c.threshold e then record c { errors = e; tripped = true } else record c { errors = e }

abbrev pub is_tripped : Breaker → Bool
is_tripped c = c.tripped

unfoldable pub reset : Breaker → Breaker
reset c = record c { tripped = false; errors = 0 }

-- the calls that the runtime makes
pub data Call : Type 0 where
  message error : Call

unfoldable pub run_calls : Breaker → List Call → Breaker
unfolding record_message record_error
run_calls c [] = c
run_calls c (Call.message ∷ calls) = run_calls (record_message c) calls
run_calls c (Call.error ∷ calls) = run_calls (record_error c) calls
