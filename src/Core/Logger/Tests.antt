-- ===== src/Core/Logger/Tests.antt =====
-- Each property of the logger at a concrete run of two threads and the drainer.
use trading_bot_v.Prelude.{pos, false, ◌≡◌, refl, List, [], ◌∷◌, arith}
use trading_bot_v.Core.Logger.{
  Drainer, Act, Line, LogLevel, Logger, Writer, act, begin_log, drain_step, logger, run_logger,
  writer_step,
}
use trading_bot_v.Core.Logger.Order.{
  IsInOrder, IsTested, run_logger-IsInOrder, writer_step-IsTested,
}

abbrev hello : Line
hello = record { level = LogLevel.info; text = 104 ∷ 105 ∷ [] }

abbrev world : Line
world = record { level = LogLevel.warn; text = 119 ∷ [] }

-- Thread 0 reads the head. Thread 1 logs a line, which is printed, and then thread 0 goes on.
abbrev overtaken : List Act
overtaken =
    Act.call 0 hello
    ∷ Act.call 1 world
    ∷ Act.write 1 (pos 7) false
    ∷ Act.write 1 (pos 7) false
    ∷ Act.write 1 (pos 7) false
    ∷ Act.write 1 (pos 7) false
    ∷ Act.drain
    ∷ Act.drain
    ∷ Act.drain
    ∷ Act.drain
    ∷ Act.drain
    ∷ Act.write 0 (pos 9) false
    ∷ []

-- Its line is dropped, although the ring is empty.
overtaken_drops : (run_logger overtaken logger).ring.dropped ≡ 1
unfolding run_logger act begin_log writer_step drain_step
overtaken_drops = refl

overtaken_empty : (run_logger overtaken logger).ring.tail ≡ (run_logger overtaken logger).ring.head
unfolding run_logger act begin_log writer_step drain_step
overtaken_empty = refl

-- The drainer finds the ring empty. A thread logs a line, the logger is stopped, and the drainer ends.
abbrev stopped_late : List Act
stopped_late =
    Act.drain
    ∷ Act.call 0 hello
    ∷ Act.write 0 (pos 7) false
    ∷ Act.write 0 (pos 7) false
    ∷ Act.write 0 (pos 7) false
    ∷ Act.write 0 (pos 7) false
    ∷ Act.stop
    ∷ Act.drain
    ∷ []

-- The line was logged before the stop, and is never printed.
stopped_late_ended : (run_logger stopped_late logger).drainer ≡ Drainer.ended
unfolding run_logger act begin_log writer_step drain_step
stopped_late_ended = refl

stopped_late_printed : (run_logger stopped_late logger).printed ≡ []
unfolding run_logger act begin_log writer_step drain_step
stopped_late_printed = refl

stopped_late_claims : (run_logger stopped_late logger).claims ≡ hello ∷ []
unfolding run_logger act begin_log writer_step drain_step
stopped_late_claims = refl

run_logger-IsInOrder_example : IsInOrder (run_logger overtaken logger)
run_logger-IsInOrder_example = run_logger-IsInOrder overtaken (omega arith)

abbrev passed : Logger
passed = record logger { ring = record (logger.ring) { head = 1; tail = 1 } }

writer_step-IsTested_example :
    IsTested passed 0 hello 0 (writer_step (Writer.loaded hello 0) 0 (pos 9) false passed)
writer_step-IsTested_example =
    writer_step-IsTested passed 0 hello 0 (pos 9) false (omega arith) (omega arith)
