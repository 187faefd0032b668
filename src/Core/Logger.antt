-- ===== src/Core/Logger.antt =====
-- core/logger.hpp and src/core/logger.cpp, `class Logger`: threads that log lines into a ring, and
-- the drainer that prints them. Each access of a shared variable is a step of its own, and the
-- threads take their steps in any order.
use trading_bot_v.Prelude.{
  ℕ, pos, ◌-◌, ℤ, Bool, true, false, not, ◌&&◌, List, [], ◌∷◌, ◌++◌, String, leb, ltb, ◌==◌, take,
  update, if◌then◌else◌,
}
use trading_bot_v.Util.SpscQueue.{add_word, slot, sub_word}
mod Invariant
mod Owners
mod Steps
mod Records
mod Threads
mod Drained
mod Order
mod Tests

pub data LogLevel : Type 0 where
  debug info warn error : LogLevel

abbrev pub level_name : LogLevel → String
level_name LogLevel.debug = "DEBUG"
level_name LogLevel.info = "INFO"
level_name LogLevel.warn = "WARN"
level_name LogLevel.error = "ERROR"

abbrev pub ring_size : ℕ
ring_size = 4096

abbrev pub max_line : ℕ
max_line = 512

-- the arguments of `log`; a text is its bytes
pub record Line : Type 0 where
  pub level : LogLevel
  pub text : List ℕ

-- `struct Record` without its stamp. The text is what stands before the NUL that ends it.
pub record Record : Type 0 where
  pub level : LogLevel
  pub wall_ns : ℤ
  pub text : List ℕ

-- a printed line; the format of the time is left out
pub record Printed : Type 0 where
  pub wall_ns : ℤ
  pub level : String
  pub text : List ℕ

-- the members of the logger
pub record Ring : Type 0 where
  pub head : ℕ
  pub tail : ℕ
  pub dropped : ℕ
  pub running : Bool
  pub ready : ℕ → ℕ
  pub records : ℕ → Record

-- Where a thread is in `log`, with the variable `head`: before the test of the room, before the
-- exchange, before the writing of the record, and before its stamp.
pub data Writer : Type 0 where
  idle : Writer
  loaded checked claimed written : Line → ℕ → Writer

-- Where the drainer is, with its variables `head` and `tail`: before the loads of the two, before
-- that of the running flag, at its end, before the test of a stamp, before the printing, and before
-- the store of the tail.
pub data Drainer : Type 0 where
  waiting empty ended : Drainer
  scanning found : ℕ → ℕ → Drainer
  storing : ℕ → Drainer

-- The threads, the ring, what is printed, and the lines that have claimed a position, in order.
pub record Logger : Type 0 where
  pub ring : Ring
  pub writers : ℕ → Writer
  pub drainer : Drainer
  pub printed : List Printed
  pub claims : List Line

-- what `%s` prints
abbrev pub until_nul : List ℕ → List ℕ
until_nul [] = []
until_nul (c ∷ cs) = if c == 0 then [] else c ∷ until_nul cs

abbrev pub print : Record → Printed
print r = record { wall_ns = r.wall_ns; level = level_name r.level; text = until_nul r.text }

abbrev pub set_writer : ℕ → Writer → Logger → Logger
set_writer i w s = record s { writers = update s.writers i w }

-- a call of `log` by thread `i`: the first load
unfoldable pub begin_log : ℕ → Line → Logger → Logger
begin_log i line s = elim (s.writers i) [
  | Writer.idle ↦ set_writer i (Writer.loaded line s.ring.head) s
  | _ ↦ s
]

-- the next step of thread `i`, with the clock, and whether the weak exchange fails by chance
unfoldable pub writer_step : Writer → ℕ → ℤ → Bool → Logger → Logger
writer_step Writer.idle i wall_ns spurious s = s
writer_step (Writer.loaded line head) i wall_ns spurious s =
    if leb ring_size (sub_word head s.ring.tail)
    then set_writer i Writer.idle
        (record s { ring = record (s.ring) { dropped = add_word s.ring.dropped 1 } })
    else set_writer i (Writer.checked line head) s
writer_step (Writer.checked line head) i wall_ns spurious s =
    if s.ring.head == head && not spurious
    then set_writer i (Writer.claimed line head) (record s {
      ring = record (s.ring) { head = add_word head 1 };
      claims = s.claims ++ (line ∷ []);
    })
    else set_writer i (Writer.loaded line s.ring.head) s
writer_step (Writer.claimed line head) i wall_ns spurious s =
    set_writer i (Writer.written line head) (record s {
      ring = record (s.ring) {
        records = update s.ring.records (slot ring_size head) (record {
          level = line.level;
          wall_ns = wall_ns;
          text = take (max_line - 1) line.text;
        });
      };
    })
writer_step (Writer.written line head) i wall_ns spurious s = set_writer i Writer.idle (record s {
  ring = record (s.ring) { ready = update s.ring.ready (slot ring_size head) (add_word head 1) };
})

-- the next step of the drainer
unfoldable pub drain_step : Drainer → Logger → Logger
drain_step Drainer.waiting s =
    if s.ring.tail == s.ring.head
    then record s { drainer = Drainer.empty }
    else record s { drainer = Drainer.scanning s.ring.head s.ring.tail }
drain_step Drainer.empty s =
    if s.ring.running
    then record s { drainer = Drainer.waiting }
    else record s { drainer = Drainer.ended }
drain_step (Drainer.scanning head tail) s =
    if ltb tail head && (s.ring.ready (slot ring_size tail) == add_word tail 1)
    then record s { drainer = Drainer.found head tail }
    else record s { drainer = Drainer.storing tail }
drain_step (Drainer.found head tail) s = record s {
  printed = s.printed ++ (print (s.ring.records (slot ring_size tail)) ∷ []);
  drainer = Drainer.scanning head (add_word tail 1);
}
drain_step (Drainer.storing tail) s = record s {
  ring = record (s.ring) { tail = tail };
  drainer = Drainer.waiting;
}
drain_step Drainer.ended s = s

-- whose step is next
pub data Act : Type 0 where
  call : ℕ → Line → Act
  write : ℕ → ℤ → Bool → Act
  drain stop : Act

unfoldable pub act : Act → Logger → Logger
unfolding begin_log writer_step drain_step
act (Act.call i line) s = begin_log i line s
act (Act.write i wall_ns spurious) s = writer_step (s.writers i) i wall_ns spurious s
act Act.drain s = drain_step s.drainer s
act Act.stop s = record s { ring = record (s.ring) { running = false } }

unfoldable pub run_logger : List Act → Logger → Logger
unfolding act
run_logger [] s = s
run_logger (a ∷ acts) s = run_logger acts (act a s)

-- the constructor
abbrev pub logger : Logger
logger = record {
  ring = record {
    head = 0;
    tail = 0;
    dropped = 0;
    running = true;
    ready = λ j. 0;
    records = λ j. record { level = LogLevel.debug; wall_ns = pos 0; text = [] };
  };
  writers = λ i. Writer.idle;
  drainer = Drainer.waiting;
  printed = [];
  claims = [];
}
