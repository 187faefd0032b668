-- ===== src/Core/Logger/Owners.antt =====
-- logger.cpp: what one thread's new state, one more claim and one more stamp leave as it was.
use trading_bot_v.Prelude.{
  ℕ, ◌+◌, ◌^◌, ◌<◌, ◌≤◌, ◌≡◌, ◌≢◌, ◌∙◌, sym, ap, subst, false, some, ◌⊎◌, List, [], ◌∷◌, ◌++◌,
  length, leb, ◌==◌, update, update_self, update-ne, Bool-cases, inl, inr, ==→eq, ==_ne, arith,
  length-append, get_elem?-append,
}
use trading_bot_v.Util.SpscQueue.{sub_word}
use trading_bot_v.Core.Logger.{Drainer, Line, Record, Writer, ring_size}
use trading_bot_v.Core.Logger.Invariant.{
  AtDrainer, AtWriter, Holds, Owns, owned, same_some, update_all,
}

-- A thread that owns what it did goes on: nothing else changes.
pub AtDrainer-update :
    (d : Drainer) (tail e : ℕ) (claims : List Line) (writers : ℕ → Writer) (i : ℕ) (w : Writer)
    → owned w ≡ owned (writers i)
    → AtDrainer tail claims writers e d
    → AtDrainer tail claims (update writers i w) e d
AtDrainer-update Drainer.waiting tail e claims writers i w same a = a
AtDrainer-update Drainer.empty tail e claims writers i w same a = a
AtDrainer-update Drainer.ended tail e claims writers i w same a = a
AtDrainer-update (Drainer.scanning h t) tail e claims writers i w same a = a
AtDrainer-update (Drainer.storing t) tail e claims writers i w same a = a
AtDrainer-update (Drainer.found h t) tail e claims writers i w same (a, b, c, free) = (
  a,
  b,
  c,
  update_all (λ (z : Writer). owned z ≢ some t) writers i w (λ q. free i (sym same ∙ q)) free,
)

-- Who owns a position after a thread has a new state.
pub owned-cases :
    (writers : ℕ → Writer) (i : ℕ) (w : Writer) (j p : ℕ)
    → owned (update writers i w j) ≡ some p
    → ((i ≡ j) × (owned w ≡ some p)) ⊎ ((i ≢ j) × (owned (writers j) ≡ some p))
owned-cases writers i w j p q = elim (Bool-cases (i == j)) [
  | inl e ↦
      let ij : i ≡ j = ==→eq i j e in
      inl (
        ij,
        subst (λ k. owned (update writers i w k) ≡ some p → owned w ≡ some p) ij
            (λ z. sym (ap owned (update_self writers i w)) ∙ z) q,
      )
  | inr e ↦
      let ne : i ≢ j = ==_ne i j e in inr (ne, sym (ap owned (update-ne writers i j w ne)) ∙ q)
]

-- A position keeps one owner, if no other thread owns what the new state does.
pub distinct-update :
    (writers : ℕ → Writer) (i : ℕ) (w : Writer)
    → ((j k p : ℕ) → owned (writers j) ≡ some p → owned (writers k) ≡ some p → j ≡ k)
    → ((p k : ℕ) → owned w ≡ some p → i ≢ k → owned (writers k) ≢ some p)
    → (j k p : ℕ) → owned (update writers i w j) ≡ some p
    → owned (update writers i w k) ≡ some p
    → j ≡ k
distinct-update writers i w one other j k p a b = elim (owned-cases writers i w j p a) [
  | inl (ij, mine) ↦ elim (owned-cases writers i w k p b) [
    | inl (ik, _) ↦ sym ij ∙ ik
    | inr (ik, theirs) ↦ absurd (other p k mine ik theirs)
  ]
  | inr (ij, theirs) ↦ elim (owned-cases writers i w k p b) [
    | inl (_, mine) ↦ absurd (other p j mine ij theirs)
    | inr (_, d) ↦ one j k p theirs d
  ]
]

-- The test of the room: a position that passes it is less than a ring after the tail.
pub room_left :
    (h tail n e : ℕ)
    → h ≤ n
    → tail ≤ e
    → e ≤ n
    → n < 2 ^ 63
    → leb ring_size (sub_word h tail) ≡ false
    → h < tail + ring_size
room_left h tail n e a b c small test = ground arith

-- One more claim.
pub Owns-append :
    {ready : ℕ → ℕ} {claims : List Line} {e h : ℕ} {l : Line} (line : Line)
    → Owns ready claims e l h
    → Owns ready (claims ++ (line ∷ [])) e l h
Owns-append {claims = claims} {h = h} line own = record {
  claim = get_elem?-append claims (line ∷ []) h own.below ∙ own.claim;
  unprinted = own.unprinted;
  below = omega (arith, length-append claims (line ∷ []), own.below);
  unstamped = own.unstamped;
}

pub Holds-append :
    {records : ℕ → Record} {claims : List Line} {p : ℕ} (line : Line)
    → Holds records claims p
    → p < length claims
    → Holds records (claims ++ (line ∷ [])) p
Holds-append {claims = claims} {p = p} line holds h = record {
  line = holds.line;
  claim = get_elem?-append claims (line ∷ []) p h ∙ holds.claim;
  held = holds.held;
}

module _ (tail : ℕ) (ready : ℕ → ℕ) (records : ℕ → Record) (claims : List Line) (e : ℕ) where
  pub AtWriter-append :
      (w : Writer) (line : Line)
      → AtWriter tail ready records claims e w
      → AtWriter tail ready records (claims ++ (line ∷ [])) e w
  AtWriter-append Writer.idle line at = tt
  AtWriter-append (Writer.loaded l h) line at = omega (arith, length-append claims (line ∷ []), at)
  AtWriter-append (Writer.checked l h) line (at, near) =
      (omega (arith, length-append claims (line ∷ []), at), near)
  AtWriter-append (Writer.claimed l h) line own = Owns-append line own
  AtWriter-append (Writer.written l h) line (own, held) = (Owns-append line own, held)

pub AtDrainer-claim :
    (d : Drainer) (tail e : ℕ) (claims : List Line) (writers : ℕ → Writer) (i : ℕ) (line : Line)
    → AtDrainer tail claims writers e d
    → AtDrainer tail
        (claims ++ (line ∷ []))
        (update writers i (Writer.claimed line (length claims)))
        e
        d
AtDrainer-claim Drainer.waiting tail e claims writers i line a = a
AtDrainer-claim Drainer.empty tail e claims writers i line a = a
AtDrainer-claim Drainer.ended tail e claims writers i line a = a
AtDrainer-claim (Drainer.scanning h t) tail e claims writers i line (a, b) =
    (a, omega (arith, length-append claims (line ∷ []), b))
AtDrainer-claim (Drainer.storing t) tail e claims writers i line a = a
AtDrainer-claim (Drainer.found h t) tail e claims writers i line (a, b, c, free) = (
  a,
  omega (arith, length-append claims (line ∷ []), b),
  omega (arith, length-append claims (line ∷ []), c),
  update_all (λ (z : Writer). owned z ≢ some t) writers i (Writer.claimed line (length claims))
      (λ q. omega (arith, same_some q, c)) free,
)
