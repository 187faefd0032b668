-- ===== src/Core/Logger/Steps.antt =====
-- logger.cpp, the beginning of `log`: a thread's new state, and the claim of a position, keep the
-- ring in order.
use trading_bot_v.Prelude.{
  ℕ, suc, ◌+◌, ◌^◌, ◌<◌, ◌≡◌, ◌∙◌, refl, sym, ap, none, some, none-ne-some, List, [], ◌∷◌, ◌++◌,
  map, length, ◌==◌, update_self, Bool-cases, inl, inr, ==→eq, ==_ne, arith, length-append,
  get_elem?-append_last, take-append,
}
use trading_bot_v.Util.SpscQueue.{add_word, slot}
use trading_bot_v.Core.Logger.{Line, Logger, Writer, ring_size, set_writer}
use trading_bot_v.Core.Logger.Invariant.{
  AtWriter, Free, Free-update, IsLogged, Owns, owned, owner-Owns, shown, stored, update_all,
}
use trading_bot_v.Core.Logger.Owners.{
  AtDrainer-claim, AtDrainer-update, AtWriter-append, Holds-append, distinct-update,
}

pub set_writer-IsLogged :
    {s : Logger} (i : ℕ) (w : Writer)
    → IsLogged s
    → owned w ≡ owned (s.writers i)
    → AtWriter s.ring.tail s.ring.ready s.ring.records s.claims (length s.printed) w
    → IsLogged (set_writer i w s)
set_writer-IsLogged {s = s} i w v same at = record {
  head_is = v.head_is;
  tail_le = v.tail_le;
  printed_le = v.printed_le;
  room = v.room;
  lines = v.lines;
  stamps = v.stamps;
  at_writers =
      update_all (AtWriter s.ring.tail s.ring.ready s.ring.records s.claims (length s.printed))
        s.writers i w at v.at_writers;
  distinct =
      distinct-update s.writers i w v.distinct
        (λ p k mine ne theirs. ne (v.distinct i k p (sym same ∙ mine) theirs));
  covered = λ p a b free. v.covered p a b (Free-update s.writers i w p (λ q. same ∙ q) free);
  at_drainer =
      AtDrainer-update s.drainer s.ring.tail (length s.printed) s.claims s.writers i w same
        v.at_drainer;
}

-- The exchange succeeds.
pub claim-IsLogged :
    {s : Logger} (i : ℕ) (line : Line)
    → IsLogged s
    → suc (length s.claims) < 2 ^ 63
    → owned (s.writers i) ≡ none
    → length s.claims < s.ring.tail + ring_size
    → IsLogged (
        set_writer i (Writer.claimed line (length s.claims)) (record s {
          ring = record (s.ring) { head = add_word (length s.claims) 1 };
          claims = s.claims ++ (line ∷ []);
        }))
claim-IsLogged {s = s} i line v small idle near = record {
  head_is = omega (arith, more);
  tail_le = v.tail_le;
  printed_le = omega (arith, more, v.printed_le);
  room = omega (arith, more, near);
  lines =
      v.lines
      ∙ ap (λ (xs : List Line). map (λ l. shown (stored l)) xs)
          (sym (take-append (length s.printed) s.claims (line ∷ []) v.printed_le));
  stamps = λ j. omega (arith, more, v.stamps j);
  at_writers =
      update_all
        (AtWriter s.ring.tail s.ring.ready s.ring.records (s.claims ++ (line ∷ []))
          (length s.printed))
        s.writers i (Writer.claimed line (length s.claims)) new
        (λ j.
          AtWriter-append s.ring.tail s.ring.ready s.ring.records s.claims (length s.printed)
            (s.writers j) line (v.at_writers j));
  distinct =
      distinct-update s.writers i (Writer.claimed line (length s.claims)) v.distinct
        (λ p k mine ne theirs. unclaimed k (theirs ∙ sym mine));
  covered = λ p a b free. elim (Bool-cases (length s.claims == p)) [
    | inl e ↦ absurd (
        free i (
          ap owned (update_self s.writers i (Writer.claimed line (length s.claims)))
          ∙ ap some (==→eq (length s.claims) p e)))
    | inr e ↦
        Holds-append line
          (v.covered p a (omega (arith, more, b, ==_ne (length s.claims) p e)) (
            Free-update s.writers i (Writer.claimed line (length s.claims)) p
              (λ q. absurd (none-ne-some (sym idle ∙ q))) free))
          (omega (arith, more, b, ==_ne (length s.claims) p e))
  ];
  at_drainer =
      AtDrainer-claim s.drainer s.ring.tail (length s.printed) s.claims s.writers i line
        v.at_drainer;
}
  where
    more : length (s.claims ++ (line ∷ [])) ≡ length s.claims + 1
    more = length-append s.claims (line ∷ [])

    unclaimed : Free s.writers (length s.claims)
    unclaimed k q =
        let own =
          owner-Owns s.ring.tail s.ring.ready s.ring.records s.claims (length s.printed)
            (s.writers k) (length s.claims) (v.at_writers k) q in
        omega (arith, own.1.below)

    new : Owns s.ring.ready (s.claims ++ (line ∷ [])) (length s.printed) line (length s.claims)
    new = record {
      claim = get_elem?-append_last s.claims line (length s.claims) refl;
      unprinted = v.printed_le;
      below = omega (arith, more);
      unstamped = λ e. omega (arith, e, v.stamps (slot ring_size (length s.claims)));
    }
