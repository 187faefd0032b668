-- ===== src/Core/Logger/Threads.antt =====
-- logger.cpp: a thread's next step in `log`, and the start of a call, keep the ring in order.
use trading_bot_v.Prelude.{
  ℕ, suc, ◌-◌, ◌^◌, ◌<◌, ◌≡◌, ◌∙◌, refl, sym, ap, subst, ℤ, Bool, true, false, not, ◌&&◌, [], ◌∷◌,
  ◌++◌, take, length, leb, ◌==◌, if-cases, ==→eq, arith,
}
use trading_bot_v.Util.SpscQueue.{add_word, sub_word}
use trading_bot_v.Core.Logger.{
  Line, Logger, Writer, begin_log, max_line, ring_size, set_writer, writer_step,
}
use trading_bot_v.Core.Logger.Invariant.{AtWriter, IsLogged, owned}
use trading_bot_v.Core.Logger.Owners.{room_left}
use trading_bot_v.Core.Logger.Steps.{claim-IsLogged, set_writer-IsLogged}
use trading_bot_v.Core.Logger.Records.{stamp-IsLogged, write-IsLogged}

-- The count of what is dropped and the running flag are no part of the order.
pub ring-IsLogged :
    {s : Logger} (dropped : ℕ) (running : Bool)
    → IsLogged s
    → IsLogged (record s { ring = record (s.ring) { dropped = dropped; running = running } })
ring-IsLogged dropped running v = record {
  head_is = v.head_is;
  tail_le = v.tail_le;
  printed_le = v.printed_le;
  room = v.room;
  lines = v.lines;
  stamps = v.stamps;
  at_writers = v.at_writers;
  distinct = v.distinct;
  covered = v.covered;
  at_drainer = v.at_drainer;
}

pub and_left : (a b : Bool) → (a && b) ≡ true → a ≡ true
and_left true b e = refl
and_left false b e = cc

module _ {s : Logger} (v : IsLogged s) (small : suc (length s.claims) < 2 ^ 63) (i : ℕ) where
  -- what thread `i` knows, given where it is
  known :
      {w : Writer}
      → s.writers i ≡ w
      → AtWriter s.ring.tail s.ring.ready s.ring.records s.claims (length s.printed) w
  known e =
      subst (AtWriter s.ring.tail s.ring.ready s.ring.records s.claims (length s.printed)) e
        (v.at_writers i)

  pub writer_step-IsLogged :
      (w : Writer) (wall_ns : ℤ) (spurious : Bool)
      → s.writers i ≡ w
      → IsLogged (writer_step w i wall_ns spurious s)
  unfolding writer_step
  writer_step-IsLogged Writer.idle wall_ns spurious e = v
  writer_step-IsLogged (Writer.loaded line h) wall_ns spurious e =
      if-cases IsLogged (leb ring_size (sub_word h s.ring.tail))
        (λ full.
          set_writer-IsLogged i Writer.idle
            (ring-IsLogged (add_word s.ring.dropped 1) s.ring.running v) (sym (ap owned e)) tt)
        (λ space. set_writer-IsLogged i (Writer.checked line h) v (sym (ap owned e)) (
          known e,
          room_left h s.ring.tail (length s.claims) (length s.printed) (known e) v.tail_le
              v.printed_le (omega (arith, small)) space,
        ))
  writer_step-IsLogged (Writer.checked line h) wall_ns spurious e =
      if-cases IsLogged (s.ring.head == h && not spurious)
        (λ same. claimed_at (sym v.head_is ∙ ==→eq s.ring.head h (and_left _ _ same)))
        (λ other.
          set_writer-IsLogged i (Writer.loaded line s.ring.head) v (sym (ap owned e))
            (omega (arith, v.head_is)))
    where
      claimed_at :
          length s.claims ≡ h
          → IsLogged (
              set_writer i (Writer.claimed line h) (record s {
                ring = record (s.ring) { head = add_word h 1 };
                claims = s.claims ++ (line ∷ []);
              }))
      claimed_at n =
          subst
            (λ k. IsLogged (
              set_writer i (Writer.claimed line k) (record s {
                ring = record (s.ring) { head = add_word k 1 };
                claims = s.claims ++ (line ∷ []);
              })))
            n (claim-IsLogged i line v small (ap owned e) (omega (arith, n, (known e).1)))
  writer_step-IsLogged (Writer.claimed line h) wall_ns spurious e =
      write-IsLogged v (omega (arith, small)) line h (known e)
        (record { level = line.level; wall_ns = wall_ns; text = take (max_line - 1) line.text })
        refl i (ap owned e)
  writer_step-IsLogged (Writer.written line h) wall_ns spurious e =
      stamp-IsLogged v (omega (arith, small)) line h (known e).0 (known e).1 i (ap owned e)

  pub begin_log-IsLogged : (line : Line) → IsLogged (begin_log i line s)
  unfolding begin_log
  begin_log-IsLogged line = begun (s.writers i) refl
    where
      begun :
          (w : Writer)
          → s.writers i ≡ w
          → IsLogged
              (elim w [ Writer.idle ↦ set_writer i (Writer.loaded line s.ring.head) s | _ ↦ s ])
      begun Writer.idle e =
          set_writer-IsLogged i (Writer.loaded line s.ring.head) v (sym (ap owned e))
            (omega (arith, v.head_is))
      begun _ e = v
