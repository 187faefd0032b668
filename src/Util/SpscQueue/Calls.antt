-- ===== src/Util/SpscQueue/Calls.antt =====
-- What callers of `try_push`, `try_pop` and `size` see under every interleaving.
use trading_bot_v.Prelude.{
  ℕ, ◌+◌, ◌^◌, ◌≤◌, ◌≡◌, ◌↔◌, subst, sym, ◌∙◌, refl, Bool, true, false, Option, none, List, leb,
  ◌==◌, leb→le, ==→eq, arith, le→leb, eq→==, true-ne-false, none-ne-some, Bool-cases, inl, inr, ◌%◌,
  length, take, update, if-true, if-false, ap,
}
use trading_bot_v.Util.SpscQueue.{
  slot, add_word, Queue, System, sub_word, try_push, try_pop, size, run, start,
}
use trading_bot_v.Util.SpscQueue.Fifo.{IsFifo, run-IsFifo, held_words, same_words}

module _ {ℓ} {A : Type ℓ} (k : ℕ) (small : k ≤ 63) (slots : ℕ → A) where
  start-IsFifo : IsFifo k (start slots)
  start-IsFifo = record {
    head_word = refl;
    tail_word = refl;
    ordered = omega arith;
    fits = omega arith;
    held = λ i low high. absurd (omega arith);
    prefix = refl;
    at_producer = tt;
    at_consumer = tt;
  }

  -- Whatever the interleaving of the steps of the two threads, from an empty queue of capacity 2 ^
  -- k with k at most 63, the values popped are a prefix of the values pushed, in order, `size` is
  -- the number of those pushed and not popped, and it is at most the capacity.
  pub run-prefix :
      (steps : List (Option A)) (s : System A)
      → run (2 ^ k) (start slots) steps ≡ s
      → (s.received ≡ take (length s.received) s.sent)
        × (size (2 ^ k) s.queue + length s.received ≡ length s.sent)
        × (size (2 ^ k) s.queue ≤ 2 ^ k)
  unfolding size
  run-prefix steps s reached = (
    v.prefix,
    omega (arith, held_words k small v, v.ordered),
    omega (arith, held_words k small v, v.fits),
  )
    where
      v : IsFifo k s
      v = subst (IsFifo k) reached (run-IsFifo k small steps start-IsFifo)

  -- In every state that the two threads can reach, `try_push` is refused exactly when the values
  -- pushed and not yet popped fill the capacity, and `try_pop` finds nothing exactly when every
  -- value pushed has been popped.
  pub try_push-refuses :
      (steps : List (Option A)) (s : System A)
      → run (2 ^ k) (start slots) steps ≡ s
      → (value : A)
      → (((try_push (2 ^ k) s.queue value).0 ≡ false) ↔ (length s.sent ≡ length s.received + 2 ^ k))
        × (((try_pop (2 ^ k) s.queue).0 ≡ none) ↔ (length s.sent ≡ length s.received))
  unfolding try_push try_pop
  try_push-refuses steps s reached value = ((refused, full), (nothing, empty))
    where
      v : IsFifo k s
      v = subst (IsFifo k) reached (run-IsFifo k small steps start-IsFifo)

      refused :
          (try_push (2 ^ k) s.queue value).0 ≡ false → length s.sent ≡ length s.received + 2 ^ k
      refused e = elim (Bool-cases (leb (2 ^ k) (sub_word s.queue.head s.queue.tail))) [
        | inl h ↦ omega (arith, leb→le _ _ h, held_words k small v, v.fits, v.ordered)
        | inr h ↦
            absurd (true-ne-false (sym (ap (λ (r : Bool × Queue A). r.0) (if-false _ _ _ h)) ∙ e))
      ]

      full : length s.sent ≡ length s.received + 2 ^ k → (try_push (2 ^ k) s.queue value).0 ≡ false
      full e =
          ap (λ (r : Bool × Queue A). r.0)
            (if-true _ _
              (
                true,
                record (s.queue) {
                  slots = update s.queue.slots (slot (2 ^ k) s.queue.head) value;
                  head = add_word s.queue.head 1;
                },
              )
              (le→leb (2 ^ k) (sub_word s.queue.head s.queue.tail)
                (omega (arith, e, held_words k small v))))

      nothing : (try_pop (2 ^ k) s.queue).0 ≡ none → length s.sent ≡ length s.received
      nothing e = elim (Bool-cases (s.queue.tail == s.queue.head)) [
        | inl h ↦ sym (same_words k small v (==→eq _ _ h))
        | inr h ↦
            absurd (none-ne-some (sym e ∙ ap (λ (r : Option A × Queue A). r.0) (if-false _ _ _ h)))
      ]

      empty : length s.sent ≡ length s.received → (try_pop (2 ^ k) s.queue).0 ≡ none
      empty e =
          ap (λ (r : Option A × Queue A). r.0)
            (if-true _ _ _ (
              eq→== s.queue.tail s.queue.head
                (v.tail_word ∙ ap (λ n. n % 2 ^ 64) (sym e) ∙ sym v.head_word)))
