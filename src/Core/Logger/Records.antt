-- ===== src/Core/Logger/Records.antt =====
-- logger.cpp, the end of `log`: the record of a claimed position is written, and then stamped.
use trading_bot_v.Prelude.{
  ℕ, suc, ◌^◌, ◌<◌, ◌≤◌, ◌≡◌, ◌≢◌, ◌∙◌, sym, ap, subst, some, none-ne-some, List, length, get_elem?,
  ◌==◌, update, update_self, update-ne, Bool-cases, inl, inr, if-elim, if-cases, ==→eq, ==_ne,
  arith,
}
use trading_bot_v.Util.SpscQueue.{add_word, slot}
use trading_bot_v.Core.Logger.{Drainer, Line, Logger, Record, Writer, ring_size, set_writer}
use trading_bot_v.Core.Logger.Invariant.{
  AtDrainer, AtWriter, Free-update, Holds, IsLogged, Owns, owned, same_some, record_line,
  slot_apart, stored, update_all,
}
use trading_bot_v.Core.Logger.Owners.{AtDrainer-update, distinct-update}

same_line : {a b : Line} → some a ≡ some b → a ≡ b
same_line e = cc

-- The record of a claimed position is written.
module _ {s : Logger} (v : IsLogged s) (small : length s.claims < 2 ^ 63) (line : Line) (h : ℕ)
    (own : Owns s.ring.ready s.claims (length s.printed) line h) (r : Record)
    (same : record_line r ≡ stored line) where
  abbrev pub written_records : ℕ → Record
  written_records = update s.ring.records (slot ring_size h) r

  -- A position that holds its line still does.
  write-held :
      (line' : Line) (p : ℕ)
      → get_elem? s.claims p ≡ some line'
      → length s.printed ≤ p
      → p < length s.claims
      → record_line (s.ring.records (slot ring_size p)) ≡ stored line'
      → record_line (written_records (slot ring_size p)) ≡ stored line'
  write-held line' p claim least below held = elim (Bool-cases (h == p)) [
    | inl e ↦
        subst
          (λ q.
            get_elem? s.claims q ≡ some line'
            → record_line (written_records (slot ring_size q)) ≡ stored line')
          (==→eq h p e)
          (λ again.
            ap record_line (update_self s.ring.records (slot ring_size h) r)
            ∙ same
            ∙ ap stored (same_line (sym own.claim ∙ again)))
          claim
    | inr e ↦
        ap record_line (
          update-ne s.ring.records (slot ring_size h) (slot ring_size p) r (
            slot_apart h p s.ring.tail (omega (arith, v.tail_le, own.unprinted))
              (omega (arith, v.tail_le, least)) (omega (arith, v.room, own.below))
              (omega (arith, v.room, below)) (omega (arith, small, own.below))
              (omega (arith, small, below)) (==_ne h p e)))
        ∙ held
  ]

  AtWriter-write :
      (w : Writer)
      → AtWriter s.ring.tail s.ring.ready s.ring.records s.claims (length s.printed) w
      → AtWriter s.ring.tail s.ring.ready written_records s.claims (length s.printed) w
  AtWriter-write Writer.idle at = at
  AtWriter-write (Writer.loaded l p) at = at
  AtWriter-write (Writer.checked l p) at = at
  AtWriter-write (Writer.claimed l p) at = at
  AtWriter-write (Writer.written l p) (own', held) =
      (own', write-held l p own'.claim own'.unprinted own'.below held)

  pub write-IsLogged :
      (i : ℕ)
      → owned (s.writers i) ≡ some h
      → IsLogged (
          set_writer i
            (Writer.written line h)
            (record s { ring = record (s.ring) { records = written_records } }))
  write-IsLogged i mine = record {
    head_is = v.head_is;
    tail_le = v.tail_le;
    printed_le = v.printed_le;
    room = v.room;
    lines = v.lines;
    stamps = v.stamps;
    at_writers =
        update_all (AtWriter s.ring.tail s.ring.ready written_records s.claims (length s.printed))
          s.writers i (Writer.written line h)
          (own, ap record_line (update_self s.ring.records (slot ring_size h) r) ∙ same)
          (λ j. AtWriter-write (s.writers j) (v.at_writers j));
    distinct =
        distinct-update s.writers i (Writer.written line h) v.distinct
          (λ p k here ne theirs. ne (v.distinct i k p (mine ∙ here) theirs));
    covered = λ p a b free.
        let holds =
          v.covered p a b
            (Free-update s.writers i (Writer.written line h) p (λ q. sym mine ∙ q) free) in
        record {
          line = holds.line;
          claim = holds.claim;
          held = write-held holds.line p holds.claim a b holds.held;
        };
    at_drainer =
        AtDrainer-update s.drainer s.ring.tail (length s.printed) s.claims s.writers i
          (Writer.written line h) (sym mine) v.at_drainer;
  }

AtDrainer-idle :
    (d : Drainer) (tail e : ℕ) (claims : List Line) (writers : ℕ → Writer) (i : ℕ)
    → AtDrainer tail claims writers e d
    → AtDrainer tail claims (update writers i Writer.idle) e d
AtDrainer-idle Drainer.waiting tail e claims writers i a = a
AtDrainer-idle Drainer.empty tail e claims writers i a = a
AtDrainer-idle Drainer.ended tail e claims writers i a = a
AtDrainer-idle (Drainer.scanning h t) tail e claims writers i a = a
AtDrainer-idle (Drainer.storing t) tail e claims writers i a = a
AtDrainer-idle (Drainer.found h t) tail e claims writers i (a, b, c, free) =
    (a, b, c, update_all (λ (z : Writer). owned z ≢ some t) writers i Writer.idle none-ne-some free)

-- A claimed position is stamped.
module _ {s : Logger} (v : IsLogged s) (small : length s.claims < 2 ^ 63) (line : Line) (h : ℕ)
    (own : Owns s.ring.ready s.claims (length s.printed) line h)
    (held : record_line (s.ring.records (slot ring_size h)) ≡ stored line) where
  abbrev pub stamped : ℕ → ℕ
  stamped = update s.ring.ready (slot ring_size h) (add_word h 1)

  -- The stamp of another position is not affected.
  Owns-stamp :
      (l : Line) (p : ℕ)
      → h ≢ p
      → Owns s.ring.ready s.claims (length s.printed) l p
      → Owns stamped s.claims (length s.printed) l p
  Owns-stamp l p ne other = record {
    claim = other.claim;
    unprinted = other.unprinted;
    below = other.below;
    unstamped =
        if-elim (λ (n : ℕ). n ≢ suc p) (slot ring_size h == slot ring_size p)
          (λ e. omega (arith, small, own.below, ne, e)) other.unstamped;
  }

  AtWriter-stamp :
      (w : Writer)
      → owned w ≢ some h
      → AtWriter s.ring.tail s.ring.ready s.ring.records s.claims (length s.printed) w
      → AtWriter s.ring.tail stamped s.ring.records s.claims (length s.printed) w
  AtWriter-stamp Writer.idle ne at = at
  AtWriter-stamp (Writer.loaded l p) ne at = at
  AtWriter-stamp (Writer.checked l p) ne at = at
  AtWriter-stamp (Writer.claimed l p) ne at = Owns-stamp l p (λ e. ne (ap some (sym e))) at
  AtWriter-stamp (Writer.written l p) ne (at, there) =
      (Owns-stamp l p (λ e. ne (ap some (sym e))) at, there)

  pub stamp-IsLogged :
      (i : ℕ)
      → owned (s.writers i) ≡ some h
      → IsLogged
          (set_writer i Writer.idle (record s { ring = record (s.ring) { ready = stamped } }))
  stamp-IsLogged i mine = record {
    head_is = v.head_is;
    tail_le = v.tail_le;
    printed_le = v.printed_le;
    room = v.room;
    lines = v.lines;
    stamps = λ j.
        if-elim (λ (n : ℕ). n ≤ length s.claims) (slot ring_size h == j)
          (omega (arith, small, own.below)) (v.stamps j);
    at_writers = λ j.
        if-cases (AtWriter s.ring.tail stamped s.ring.records s.claims (length s.printed)) (i == j)
          (λ e. tt)
          (λ e.
            AtWriter-stamp (s.writers j) (λ theirs. ==_ne i j e (v.distinct i j h mine theirs))
              (v.at_writers j));
    distinct =
        distinct-update s.writers i Writer.idle v.distinct
          (λ p k here ne theirs. none-ne-some here);
    covered = λ p a b free. elim (Bool-cases (h == p)) [
      | inl e ↦
          subst (Holds s.ring.records s.claims) (==→eq h p e)
            (record { line = line; claim = own.claim; held = held })
      | inr e ↦ v.covered p a b (
          Free-update s.writers i Writer.idle p
            (λ q. absurd (==_ne h p e (same_some (sym mine ∙ q)))) free)
    ];
    at_drainer =
        AtDrainer-idle s.drainer s.ring.tail (length s.printed) s.claims s.writers i v.at_drainer;
  }
