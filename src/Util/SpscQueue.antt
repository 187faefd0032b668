-- ===== src/Util/SpscQueue.antt =====
-- util/spsc_queue.hpp, `class SPSCQueue`: a ring between one producer and one consumer. The two
-- methods run as three steps each, in any interleaving: the load of the other side's counter, the
-- access to the slot, and the store that publishes it. The acquire and release orderings make these
-- steps sequentially consistent for the other thread.
pub mod Index
pub mod Fifo
pub mod Calls
pub mod Sequential
mod Tests
use Prim.Native.Nat.{bit_and}
use trading_bot_v.Prelude.{
  ℕ, ◌+◌, ◌-◌, ◌%◌, ◌^◌, Bool, true, false, Option, none, some, List, [], ◌∷◌, ◌++◌, leb, ◌==◌,
  if◌then◌else◌, update,
}

-- `uint64_t` arithmetic
abbrev pub add_word : ℕ → ℕ → ℕ
add_word a b = (a + b) % 2 ^ 64

abbrev pub sub_word : ℕ → ℕ → ℕ
sub_word a b = (a + 2 ^ 64 - b) % 2 ^ 64

pub record Queue {ℓ} (A : Type ℓ) : Type ℓ where
  pub head : ℕ
  pub tail : ℕ
  pub slots : ℕ → A

-- where a thread stands inside `try_push` and `try_pop`, with its local variables
pub data Producer {ℓ} (A : Type ℓ) : Type ℓ where
  idle : Producer A
  checked : ℕ → A → Producer A
  written : ℕ → A → Producer A

pub data Consumer {ℓ} (A : Type ℓ) : Type ℓ where
  idle : Consumer A
  checked : ℕ → Consumer A
  taken : ℕ → A → Consumer A

-- The queue, its two threads, and the values that `try_push` and `try_pop` have completed with.
pub record System {ℓ} (A : Type ℓ) : Type ℓ where
  pub queue : Queue A
  pub producer : Producer A
  pub consumer : Consumer A
  pub sent : List A
  pub received : List A

-- `i & (Capacity - 1)`
abbrev pub slot : ℕ → ℕ → ℕ
slot cap i = bit_and i (cap - 1)

module _ {ℓ} {A : Type ℓ} (cap : ℕ) where
  unfoldable pub try_push : Queue A → A → Bool × Queue A
  try_push q value = if leb cap (sub_word q.head q.tail) then (false, q) else (
    true,
    record q { slots = update q.slots (slot cap q.head) value; head = add_word q.head 1 },
  )

  unfoldable pub try_pop : Queue A → Option A × Queue A
  try_pop q =
      if q.tail == q.head
      then (none, q)
      else (some (q.slots (slot cap q.tail)), record q { tail = add_word q.tail 1 })

  unfoldable pub size : Queue A → ℕ
  size q = sub_word q.head q.tail

  -- the next step of the producer; an idle one calls `try_push value`
  unfoldable pub produce_from : Producer A → A → System A → System A
  produce_from Producer.idle value s =
      if leb cap (sub_word s.queue.head s.queue.tail)
      then s
      else record s { producer = Producer.checked s.queue.head value }
  produce_from (Producer.checked head v) value s = record s {
    queue = record (s.queue) { slots = update s.queue.slots (slot cap head) v };
    producer = Producer.written head v;
  }
  produce_from (Producer.written head v) value s = record s {
    queue = record (s.queue) { head = add_word head 1 };
    producer = Producer.idle;
    sent = s.sent ++ (v ∷ []);
  }

  unfoldable pub produce : A → System A → System A
  unfolding produce_from
  produce value s = produce_from s.producer value s

  -- the next step of the consumer; an idle one calls `try_pop`
  unfoldable pub consume_from : Consumer A → System A → System A
  consume_from Consumer.idle s =
      if s.queue.tail == s.queue.head
      then s
      else record s { consumer = Consumer.checked s.queue.tail }
  consume_from (Consumer.checked tail) s = record s {
    consumer = Consumer.taken tail (s.queue.slots (slot cap tail));
  }
  consume_from (Consumer.taken tail v) s = record s {
    queue = record (s.queue) { tail = add_word tail 1 };
    consumer = Consumer.idle;
    received = s.received ++ (v ∷ []);
  }

  unfoldable pub consume : System A → System A
  unfolding consume_from
  consume s = consume_from s.consumer s

  -- `some value` is a step of the producer, `none` one of the consumer.
  unfoldable pub run : System A → List (Option A) → System A
  unfolding produce consume
  run s [] = s
  run s (some value ∷ steps) = run (produce value s) steps
  run s (none ∷ steps) = run (consume s) steps

module _ {ℓ} {A : Type ℓ} where
  abbrev pub start : (ℕ → A) → System A
  start slots = record {
    queue = record { head = 0; tail = 0; slots = slots };
    producer = Producer.idle;
    consumer = Consumer.idle;
    sent = [];
    received = [];
  }
