-- ===== src/Core/Logger/Order.antt =====
-- logger.cpp: under every interleaving the printed lines are those logged, in order; and what the
-- test of the room does.
use trading_bot_v.Prelude.{
  ℕ, suc, ◌+◌, ◌^◌, ◌<◌, ◌≤◌, ◌≡◌, refl, ℤ, Bool, false, not, ◌&&◌, List, [], ◌∷◌, map, take,
  length, leb, ltb, ◌==◌, none-ne-some, if-elim, if-cases, arith, length-append, Bool-cases, inl,
  inr,
}
use trading_bot_v.Util.SpscQueue.{add_word, slot, sub_word}
use trading_bot_v.Core.Logger.{
  Act, Drainer, Line, Logger, Writer, act, begin_log, drain_step, logger, ring_size, run_logger,
  set_writer, writer_step,
}
use trading_bot_v.Core.Logger.Invariant.{IsLogged, said, shown, stored}
use trading_bot_v.Core.Logger.Threads.{begin_log-IsLogged, ring-IsLogged, writer_step-IsLogged}
use trading_bot_v.Core.Logger.Drained.{drain_step-IsLogged}

-- A step claims one position at most.
abbrev ClaimsOne : Logger → Logger → Type 0
ClaimsOne s s' = length s'.claims ≤ length s.claims + 1

writer_step-ClaimsOne :
    (w : Writer) (i : ℕ) (wall_ns : ℤ) (spurious : Bool) (s : Logger)
    → ClaimsOne s (writer_step w i wall_ns spurious s)
unfolding writer_step
writer_step-ClaimsOne Writer.idle i wall_ns spurious s = omega arith
writer_step-ClaimsOne (Writer.loaded line h) i wall_ns spurious s =
    if-elim (ClaimsOne s) (leb ring_size (sub_word h s.ring.tail)) (omega arith) (omega arith)
writer_step-ClaimsOne (Writer.checked line h) i wall_ns spurious s =
    if-elim (ClaimsOne s) (s.ring.head == h && not spurious)
      (omega (arith, length-append s.claims (line ∷ []))) (omega arith)
writer_step-ClaimsOne (Writer.claimed line h) i wall_ns spurious s = omega arith
writer_step-ClaimsOne (Writer.written line h) i wall_ns spurious s = omega arith

drain_step-ClaimsOne : (d : Drainer) (s : Logger) → ClaimsOne s (drain_step d s)
unfolding drain_step
drain_step-ClaimsOne Drainer.waiting s =
    if-elim (ClaimsOne s) (s.ring.tail == s.ring.head) (omega arith) (omega arith)
drain_step-ClaimsOne Drainer.empty s =
    if-elim (ClaimsOne s) s.ring.running (omega arith) (omega arith)
drain_step-ClaimsOne (Drainer.scanning h t) s =
    if-elim (ClaimsOne s) (ltb t h && (s.ring.ready (slot ring_size t) == add_word t 1))
      (omega arith) (omega arith)
drain_step-ClaimsOne (Drainer.found h t) s = omega arith
drain_step-ClaimsOne (Drainer.storing t) s = omega arith
drain_step-ClaimsOne Drainer.ended s = omega arith

begin_log-ClaimsOne :
    (w : Writer) (i : ℕ) (line : Line) (s : Logger)
    → ClaimsOne s (elim w [ Writer.idle ↦ set_writer i (Writer.loaded line s.ring.head) s | _ ↦ s ])
begin_log-ClaimsOne Writer.idle i line s = omega arith
begin_log-ClaimsOne _ i line s = omega arith

act-ClaimsOne : (a : Act) (s : Logger) → ClaimsOne s (act a s)
unfolding act begin_log
act-ClaimsOne (Act.call i line) s = begin_log-ClaimsOne (s.writers i) i line s
act-ClaimsOne (Act.write i wall_ns spurious) s =
    writer_step-ClaimsOne (s.writers i) i wall_ns spurious s
act-ClaimsOne Act.drain s = drain_step-ClaimsOne s.drainer s
act-ClaimsOne Act.stop s = omega arith

act-IsLogged :
    (a : Act) (s : Logger) → IsLogged s → suc (length s.claims) < 2 ^ 63 → IsLogged (act a s)
unfolding act
act-IsLogged (Act.call i line) s v small = begin_log-IsLogged v small i line
act-IsLogged (Act.write i wall_ns spurious) s v small =
    writer_step-IsLogged v small i (s.writers i) wall_ns spurious refl
act-IsLogged Act.drain s v small = drain_step-IsLogged v s.drainer refl (omega (arith, small))
act-IsLogged Act.stop s v small = ring-IsLogged s.ring.dropped false v

run_logger-IsLogged :
    (acts : List Act) (s : Logger)
    → IsLogged s
    → length s.claims + length acts < 2 ^ 63
    → IsLogged (run_logger acts s)
unfolding run_logger
run_logger-IsLogged [] s v small = v
run_logger-IsLogged (a ∷ acts) s v small =
    run_logger-IsLogged acts (act a s) (act-IsLogged a s v (omega (arith, small)))
      (omega (arith, small, act-ClaimsOne a s))

logger-IsLogged : IsLogged logger
logger-IsLogged = record {
  head_is = refl;
  tail_le = omega arith;
  printed_le = omega arith;
  room = omega arith;
  lines = refl;
  stamps = λ j. omega arith;
  at_writers = λ i. tt;
  distinct = λ i j p a b. absurd (none-ne-some a);
  covered = λ p a b. absurd (omega (arith, b));
  at_drainer = refl;
}

-- The printed lines are the first of those that claimed a position, in the order of their claims and
-- each as it was logged, and less than a ring is claimed and not yet printed.
pub record IsInOrder (s : Logger) : Type 0 where
  pub lines : map said s.printed ≡ map (λ l. shown (stored l)) (take (length s.printed) s.claims)
  pub printed_le : length s.printed ≤ length s.claims
  pub room : length s.claims ≤ s.ring.tail + ring_size
  pub tail_le : s.ring.tail ≤ length s.printed
  pub head_is : s.ring.head ≡ length s.claims

-- Whatever the interleaving of fewer than 2^63 steps of any number of threads that log and of the
-- drainer, and whichever weak exchanges fail by chance: the printed lines are the first of those
-- that claimed a position, in the order of their claims, each with its level and its text, cut to
-- 511 bytes and at its first NUL; the head counts the claims, the tail is at most what is printed,
-- and at most 4096 positions are claimed from the tail on.
pub run_logger-IsInOrder :
    (acts : List Act) → length acts < 2 ^ 63 → IsInOrder (run_logger acts logger)
run_logger-IsInOrder acts small =
    let v = run_logger-IsLogged acts logger logger-IsLogged (omega (arith, small)) in
    record {
      lines = v.lines;
      printed_le = v.printed_le;
      room = v.room;
      tail_le = v.tail_le;
      head_is = v.head_is;
    }

-- a line that is dropped
abbrev pub drop_line : ℕ → Logger → Logger
drop_line i s =
    set_writer i Writer.idle
      (record s { ring = record (s.ring) { dropped = add_word s.ring.dropped 1 } })

-- The three ways in which the test of the room ends.
pub data IsTested (s : Logger) (i : ℕ) (line : Line) (h : ℕ) : Logger → Type 0 where
  stale : h < s.ring.tail → IsTested s i line h (drop_line i s)
  full : s.ring.tail + ring_size ≤ h → IsTested s i line h (drop_line i s)
  free :
      s.ring.tail ≤ h
      → h < s.ring.tail + ring_size
      → IsTested s i line h (set_writer i (Writer.checked line h) s)

-- For a head that a thread has read and a tail below 2^63, the test of the room counts the line as
-- dropped if that head is behind the tail or the ring's size or more before it, and otherwise lets
-- the thread go on to claim a position.
pub writer_step-IsTested :
    (s : Logger) (i : ℕ) (line : Line) (h : ℕ) (wall_ns : ℤ) (spurious : Bool)
    → h < 2 ^ 63
    → s.ring.tail < 2 ^ 63
    → IsTested s i line h (writer_step (Writer.loaded line h) i wall_ns spurious s)
unfolding writer_step
writer_step-IsTested s i line h wall_ns spurious small small' =
    if-cases (IsTested s i line h) (leb ring_size (sub_word h s.ring.tail))
      (λ refused. elim (Bool-cases (ltb h s.ring.tail)) [
        | inl behind ↦ IsTested.stale (ground arith)
        | inr ahead ↦ IsTested.full (ground arith)
      ])
      (λ space. IsTested.free (ground arith) (ground arith))
