-- ===== src/Exec/CircuitBreaker/Tests.antt =====
-- Each property of the breaker at a concrete one.
use trading_bot_v.Prelude.{◌≡◌, refl, true, false, [], ◌∷◌, ◌++◌, leb, arith}
use trading_bot_v.Exec.CircuitBreaker.{Breaker, Call, circuit_breaker, is_tripped, run_calls}
use trading_bot_v.Exec.CircuitBreaker.Window.{
  is_tripped-open_window, is_tripped-dirty_window, is_tripped-quiet_windows, quiet,
}

-- two errors trip it, and a window has five messages
abbrev breaker : Breaker
breaker = circuit_breaker 2 5

is_tripped-open_window_example :
    is_tripped (run_calls breaker (Call.error ∷ Call.message ∷ Call.error ∷ [])) ≡ leb 2 2
is_tripped-open_window_example =
    is_tripped-open_window (Call.error ∷ Call.message ∷ Call.error ∷ []) breaker (omega arith) refl
      refl record { before_end = omega arith; messages_fit = omega arith; errors_fit = omega arith }

-- in its second window, with an error in it
abbrev tripped_breaker : Breaker
tripped_breaker = record breaker { msgs = 7; errors = 3; tripped = true }

is_tripped-dirty_window_example : is_tripped (run_calls tripped_breaker (quiet 3)) ≡ true
is_tripped-dirty_window_example =
    is_tripped-dirty_window tripped_breaker (omega arith) (omega arith) (omega arith) refl

is_tripped-quiet_windows_example :
    is_tripped (run_calls tripped_breaker (quiet 3 ++ quiet 5)) ≡ false
is_tripped-quiet_windows_example =
    is_tripped-quiet_windows tripped_breaker (omega arith) (omega arith)
