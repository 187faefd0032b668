-- ===== src/Core/Logger/Drained.antt =====
-- logger.cpp, `drainLoop`: the drainer prints the lines in the order of their claims, each once and
-- as it was logged.
use trading_bot_v.Prelude.{
  ℕ, suc, ◌+◌, ◌^◌, ◌<◌, ◌≤◌, ◌≡◌, ◌≢◌, ◌∙◌, refl, sym, ap, subst, Bool, true, false, ◌&&◌, some,
  List, [], ◌∷◌, ◌++◌, map, take, String, length, ltb, ltb→lt, ◌==◌, ==→eq, if-cases, if-elim,
  arith, length-append, take-suc,
}
use trading_bot_v.Util.SpscQueue.{add_word, slot}
use trading_bot_v.Core.Logger.{Drainer, Line, Logger, Printed, Writer, drain_step, print, ring_size}
use trading_bot_v.Core.Logger.Invariant.{
  AtDrainer, AtWriter, Free, Holds, IsLogged, Owns, owned, owner-Owns, said, shown, stored,
}
use trading_bot_v.Core.Logger.Threads.{and_left}

map-append : {A B : Type 0} (f : A → B) (xs ys : List A) → map f (xs ++ ys) ≡ map f xs ++ map f ys
map-append f [] ys = refl
map-append f (x ∷ xs) ys = ap (λ zs. f x ∷ zs) (map-append f xs ys)

and_right : (a b : Bool) → (a && b) ≡ true → b ≡ true
and_right true b e = e
and_right false b e = cc

word : (t : ℕ) → t < 2 ^ 63 → add_word t 1 ≡ suc t
word t h = omega arith

module _ {s : Logger} (v : IsLogged s) where
  -- The drainer goes on, and changes nothing else.
  drainer-IsLogged :
      (d : Drainer)
      → AtDrainer s.ring.tail s.claims s.writers (length s.printed) d
      → IsLogged (record s { drainer = d })
  drainer-IsLogged d at = record {
    head_is = v.head_is;
    tail_le = v.tail_le;
    printed_le = v.printed_le;
    room = v.room;
    lines = v.lines;
    stamps = v.stamps;
    at_writers = v.at_writers;
    distinct = v.distinct;
    covered = v.covered;
    at_drainer = at;
  }

  -- A stamped position is owned by nobody.
  stamped-Free : (t : ℕ) → s.ring.ready (slot ring_size t) ≡ suc t → Free s.writers t
  stamped-Free t stamp i q =
      let own =
        owner-Owns s.ring.tail s.ring.ready s.ring.records s.claims (length s.printed) (s.writers i)
          t (v.at_writers i) q in
      own.1.unstamped stamp

  -- the tail moves up to what is printed
  AtWriter-store :
      (w : Writer)
      → AtWriter s.ring.tail s.ring.ready s.ring.records s.claims (length s.printed) w
      → AtWriter (length s.printed) s.ring.ready s.ring.records s.claims (length s.printed) w
  AtWriter-store Writer.idle at = at
  AtWriter-store (Writer.loaded l h) at = at
  AtWriter-store (Writer.checked l h) (at, near) = (at, omega (arith, near, v.tail_le))
  AtWriter-store (Writer.claimed l h) at = at
  AtWriter-store (Writer.written l h) at = at

  store-IsLogged :
      IsLogged
        (record s { ring = record (s.ring) { tail = length s.printed }; drainer = Drainer.waiting })
  store-IsLogged = record {
    head_is = v.head_is;
    tail_le = omega arith;
    printed_le = v.printed_le;
    room = omega (arith, v.room, v.tail_le);
    lines = v.lines;
    stamps = v.stamps;
    at_writers = λ i. AtWriter-store (s.writers i) (v.at_writers i);
    distinct = v.distinct;
    covered = v.covered;
    at_drainer = refl;
  }

  -- what the drainer knows, given where it is
  at : (d : Drainer) → s.drainer ≡ d → AtDrainer s.ring.tail s.claims s.writers (length s.printed) d
  at d e = subst (AtDrainer s.ring.tail s.claims s.writers (length s.printed)) e v.at_drainer

  -- one line more is printed
  Owns-print :
      (l : Line) (h : ℕ)
      → h ≢ length s.printed
      → Owns s.ring.ready s.claims (length s.printed) l h
      → Owns s.ring.ready s.claims (length s.printed + 1) l h
  Owns-print l h ne own = record {
    claim = own.claim;
    unprinted = omega (arith, ne, own.unprinted);
    below = own.below;
    unstamped = own.unstamped;
  }

  AtWriter-print :
      (w : Writer)
      → owned w ≢ some (length s.printed)
      → AtWriter s.ring.tail s.ring.ready s.ring.records s.claims (length s.printed) w
      → AtWriter s.ring.tail s.ring.ready s.ring.records s.claims (length s.printed + 1) w
  AtWriter-print Writer.idle ne at = at
  AtWriter-print (Writer.loaded l h) ne at = at
  AtWriter-print (Writer.checked l h) ne at = at
  AtWriter-print (Writer.claimed l h) ne at = Owns-print l h (λ q. ne (ap some q)) at
  AtWriter-print (Writer.written l h) ne (at, held) =
      (Owns-print l h (λ q. ne (ap some q)) at, held)

  print-IsLogged :
      (h : ℕ)
      → h ≤ length s.claims
      → length s.printed < length s.claims
      → Free s.writers (length s.printed)
      → length s.claims < 2 ^ 63
      → IsLogged (record s {
        printed = s.printed ++ (print (s.ring.records (slot ring_size (length s.printed))) ∷ []);
        drainer = Drainer.scanning h (add_word (length s.printed) 1);
      })
  print-IsLogged h in_claims behind free small = record {
    head_is = v.head_is;
    tail_le = omega (arith, more, v.tail_le);
    printed_le = omega (arith, more, behind);
    room = v.room;
    lines =
        map-append said s.printed (line ∷ [])
        ∙ ap (λ (xs : List (String × List ℕ)). xs ++ (said line ∷ [])) v.lines
        ∙ ap (λ (x : String × List ℕ). map kept (take e s.claims) ++ (x ∷ [])) (ap shown holds.held)
        ∙ sym (map-append kept (take e s.claims) (holds.line ∷ []))
        ∙ ap (map kept) (sym (take-suc e s.claims holds.line holds.claim))
        ∙ ap (λ n. map kept (take n s.claims)) {x = suc e} {y = length (s.printed ++ (line ∷ []))}
            (omega (arith, more));
    stamps = v.stamps;
    at_writers = λ i.
        subst (λ n. AtWriter s.ring.tail s.ring.ready s.ring.records s.claims n (s.writers i))
          (sym more) (AtWriter-print (s.writers i) (free i) (v.at_writers i));
    distinct = v.distinct;
    covered = λ p a b. v.covered p (omega (arith, more, a)) b;
    at_drainer = (omega (arith, more, behind, small), in_claims);
  }
    where
      e : ℕ
      e = length s.printed

      line : Printed
      line = print (s.ring.records (slot ring_size (length s.printed)))

      kept : Line → String × List ℕ
      kept l = shown (stored l)

      more : length (s.printed ++ (line ∷ [])) ≡ length s.printed + 1
      more = length-append s.printed (line ∷ [])

      holds : Holds s.ring.records s.claims (length s.printed)
      holds = v.covered (length s.printed) (omega arith) behind free

  pub drain_step-IsLogged :
      (d : Drainer) → s.drainer ≡ d → length s.claims < 2 ^ 63 → IsLogged (drain_step d s)
  unfolding drain_step
  drain_step-IsLogged Drainer.waiting e small =
      if-elim IsLogged (s.ring.tail == s.ring.head)
        (drainer-IsLogged Drainer.empty (at Drainer.waiting e))
        (drainer-IsLogged (Drainer.scanning s.ring.head s.ring.tail)
          (at Drainer.waiting e, omega (arith, v.head_is)))
  drain_step-IsLogged Drainer.empty e small =
      if-elim IsLogged s.ring.running (drainer-IsLogged Drainer.waiting (at Drainer.empty e))
        (drainer-IsLogged Drainer.ended (at Drainer.empty e))
  drain_step-IsLogged (Drainer.scanning h t) e small =
      if-cases (λ (z : Logger). IsLogged z)
        (ltb t h && (s.ring.ready (slot ring_size t) == add_word t 1))
        (λ go.
          let ahead : t < h = ltb→lt t h (and_left _ _ go) in
          drainer-IsLogged (Drainer.found h t) (
            (at (Drainer.scanning h t) e).0,
            (at (Drainer.scanning h t) e).1,
            omega (arith, ahead, (at (Drainer.scanning h t) e).1),
            stamped-Free t (
                ==→eq (s.ring.ready (slot ring_size t)) (add_word t 1) (and_right _ _ go)
                ∙ word t (omega (arith, ahead, small, (at (Drainer.scanning h t) e).1))),
          ))
        (λ halt. drainer-IsLogged (Drainer.storing t) (at (Drainer.scanning h t) e).0)
  drain_step-IsLogged (Drainer.found h t) e small =
      let (te, hn, tn, free) = at (Drainer.found h t) e in
      subst
        (λ k. IsLogged (record s {
          printed = s.printed ++ (print (s.ring.records (slot ring_size k)) ∷ []);
          drainer = Drainer.scanning h (add_word k 1);
        }))
        (sym te)
        (print-IsLogged h hn (omega (arith, te, tn)) (subst (Free s.writers) te free) small)
  drain_step-IsLogged (Drainer.storing t) e small =
      subst
        (λ k.
          IsLogged (record s { ring = record (s.ring) { tail = k }; drainer = Drainer.waiting }))
        (sym (at (Drainer.storing t) e)) store-IsLogged
  drain_step-IsLogged Drainer.ended e small = v
