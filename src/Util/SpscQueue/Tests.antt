-- ===== src/Util/SpscQueue/Tests.antt =====
-- A queue of two slots under one interleaving, and each property of the queue at it.
use trading_bot_v.Prelude.{
  ℕ, zero, suc, ◌+◌, ◌%◌, ◌<◌, get_elem?, ◌≤◌, ◌≡◌, ◌↔◌, refl, false, Option, none, some, List, [],
  ◌∷◌, arith, length, take,
}
use trading_bot_v.Util.SpscQueue.{
  Producer, Consumer, Queue, System, try_push, try_pop, size, produce_from, produce, consume_from,
  consume, run, start,
}
use trading_bot_v.Util.SpscQueue.Calls.{run-prefix, try_push-refuses}
use trading_bot_v.Util.SpscQueue.Sequential.{
  Pops, Pushes, Represents, try_pop-Pops, try_push-Pushes,
}

-- Three pushes, a refused fourth in between, and one pop whose steps alternate with theirs.
abbrev schedule : List (Option ℕ)
schedule =
    some 7
    ∷ some 7
    ∷ some 7
    ∷ none
    ∷ some 8
    ∷ none
    ∷ some 8
    ∷ some 8
    ∷ some 9
    ∷ none
    ∷ some 9
    ∷ some 9
    ∷ some 9
    ∷ []

abbrev after : System ℕ
after = record {
  queue = record { head = 3; tail = 1; slots = (run 2 (start (λ i. 0)) schedule).queue.slots };
  producer = Producer.idle;
  consumer = Consumer.idle;
  sent = 7 ∷ 8 ∷ 9 ∷ [];
  received = 7 ∷ [];
}

run-schedule : run 2 (start (λ i. 0)) schedule ≡ after
unfolding run produce produce_from consume consume_from
run-schedule = refl

run-prefix_example :
    (after.received ≡ take (length after.received) after.sent)
    × (size 2 after.queue + length after.received ≡ length after.sent)
    × (size 2 after.queue ≤ 2)
run-prefix_example = run-prefix 1 (omega arith) (λ i. 0) schedule after run-schedule

try_push-refuses_example :
    (((try_push 2 after.queue 5).0 ≡ false) ↔ (length after.sent ≡ length after.received + 2))
    × (((try_pop 2 after.queue).0 ≡ none) ↔ (length after.sent ≡ length after.received))
try_push-refuses_example = try_push-refuses 1 (omega arith) (λ i. 0) schedule after run-schedule 5

-- a queue of two slots with its second one full, after 3 pushes and 2 pops
abbrev queue : Queue ℕ
queue = record { head = 3; tail = 2; slots = λ i. 40 + i }

queue-Represents : Represents 1 queue (40 ∷ [])
queue-Represents = record {
  popped = 2;
  tail_word = refl;
  head_word = refl;
  fits = omega arith;
  held = first;
}
  where
    first : (i : ℕ) → i < 1 → get_elem? (40 ∷ []) i ≡ some (40 + (2 + i) % 2)
    first zero h = refl
    first (suc i) h = absurd (omega arith)

try_push-Pushes_example : Pushes 1 (40 ∷ []) 5 (try_push 2 queue 5) queue
try_push-Pushes_example = try_push-Pushes 1 (omega arith) 5 queue-Represents

try_pop-Pops_example : Pops 1 (40 ∷ []) (try_pop 2 queue) queue
try_pop-Pops_example = try_pop-Pops 1 (omega arith) queue-Represents
