-- ===== src/Util/SpscQueue/Sequential.antt =====
-- A call of `try_push` or `try_pop` that no other call overlaps does what it does to a bounded queue
-- of values.
use trading_bot_v.Prelude.{
  ℕ, suc, ◌+◌, ◌%◌, ◌^◌, ◌≤◌, ◌<◌, ◌≡◌, ◌≢◌, ◌⊎◌, inl, inr, sym, ap, ◌∙◌, true, false, Option, none,
  some, List, [], ◌∷◌, ◌++◌, leb, leb→le, leb-false, arith, Bool-cases, if-true, if-false, length,
  length-append, get_elem?, get_elem?-append, get_elem?-append_last, update, update_self, update-ne,
  Bool, subst, eq→==, ne→==,
}
use native.Mathlib.Decide.{dec_lt}
use trading_bot_v.Util.Words.{pow-word}
use trading_bot_v.Util.SpscQueue.{Queue, add_word, slot, sub_word, try_pop, try_push}
use trading_bot_v.Util.SpscQueue.Index.{mod_apart, slot-mod}

module _ {ℓ} {A : Type ℓ} (k : ℕ) where
  -- The queue holds the values `xs`, oldest first, after `popped` were taken from it: its counters
  -- are the two counts modulo 2^64, and the value of count n is in slot n modulo the capacity.
  pub record Represents (q : Queue A) (xs : List A) : Type ℓ where
    pub popped : ℕ
    pub tail_word : q.tail ≡ popped % 2 ^ 64
    pub head_word : q.head ≡ (popped + length xs) % 2 ^ 64
    pub fits : length xs ≤ 2 ^ k
    pub held : (i : ℕ) → i < length xs → get_elem? xs i ≡ some (q.slots ((popped + i) % 2 ^ k))

  -- `try_push` of a bounded queue: refused when it is full, and otherwise put behind the others
  abbrev pub Pushes : List A → A → Bool × Queue A → Queue A → Type ℓ
  Pushes xs value r q =
      ((length xs ≡ 2 ^ k) × (r ≡ (false, q)))
      ⊎ ((length xs < 2 ^ k) × (r.0 ≡ true) × Represents r.1 (xs ++ (value ∷ [])))

  -- `try_pop` of a queue: nothing when it is empty, and otherwise the first value
  abbrev pub Pops : List A → Option A × Queue A → Queue A → Type ℓ
  Pops [] r q = r ≡ (none, q)
  Pops (x ∷ xs) r q = (r.0 ≡ some x) × Represents r.1 xs

  module _ (small : k ≤ 63) where
    words_apart : {q : Queue A} {xs : List A} → Represents q xs → sub_word q.head q.tail ≡ length xs
    words_apart v = omega (arith, v.tail_word, v.head_word, v.fits, pow-word k (omega arith))

    pushed :
        {q : Queue A} {xs : List A} (value : A)
        → Represents q xs
        → length xs < 2 ^ k
        → Represents
            (record q {
              slots = update q.slots (slot (2 ^ k) q.head) value;
              head = add_word q.head 1;
            })
            (xs ++ (value ∷ []))
    pushed {q} {xs} value v room = record {
      popped = v.popped;
      tail_word = v.tail_word;
      head_word = omega (arith, longer, v.head_word);
      fits = omega (arith, longer, room);
      held = λ i low. elim (dec_lt i (length xs)) [
        | yes old ↦
            get_elem?-append xs (value ∷ []) i old
            ∙ v.held i old
            ∙ ap some (
                sym (
                  update-ne q.slots _ _ value (λ same.
                    mod_apart (2 ^ k) (v.popped + i) (v.popped + length xs) (omega (arith, old))
                      (omega (arith, room)) (sym same ∙ at_slot))))
        | no new ↦
            let last : i ≡ length xs = omega (arith, longer, low, new) in
            get_elem?-append_last xs value i last
            ∙ ap some (
                sym (update_self q.slots (slot (2 ^ k) q.head) value)
                ∙ ap (update q.slots (slot (2 ^ k) q.head) value)
                    (at_slot ∙ ap (λ n. (v.popped + n) % 2 ^ k) (sym last)))
      ];
    }
      where
        longer : length (xs ++ (value ∷ [])) ≡ length xs + 1
        longer = length-append xs (value ∷ [])

        at_slot : slot (2 ^ k) q.head ≡ (v.popped + length xs) % 2 ^ k
        at_slot = rw (v.head_word) (slot-mod k (v.popped + length xs) (omega arith))

    -- For a queue of capacity 2 ^ k, with k at most 63, that represents a list of values, by
    -- counters that may have wrapped: if the list is as long as the capacity, `try_push` answers
    -- false and leaves the queue as it is, and otherwise it is shorter, `try_push` answers true,
    -- and the queue represents the list with the value at its end.
    pub try_push-Pushes :
        {q : Queue A} {xs : List A} (value : A)
        → Represents q xs
        → Pushes xs value (try_push (2 ^ k) q value) q
    unfolding try_push
    try_push-Pushes {q} {xs} value v = elim (Bool-cases (leb (2 ^ k) (sub_word q.head q.tail))) [
      | inl full ↦ inl (omega (arith, leb→le _ _ full, words_apart v, v.fits), if-true _ _ _ full)
      | inr room ↦
          let taken : try_push (2 ^ k) q value ≡ (
            true,
            record q {
              slots = update q.slots (slot (2 ^ k) q.head) value;
              head = add_word q.head 1;
            },
          ) =
            if-false _ _ _ room in
          let small_enough : length xs < 2 ^ k = omega (arith, leb-false _ _ room, words_apart v) in
          inr (
            small_enough,
            ap (λ (r : Bool × Queue A). r.0) taken,
            subst (λ (r : Bool × Queue A). Represents r.1 (xs ++ (value ∷ []))) (sym taken)
                (pushed value v small_enough),
          )
    ]

    -- For a queue of capacity 2 ^ k, with k at most 63, that represents a list of values, by
    -- counters that may have wrapped: if the list is empty, `try_pop` gives nothing and leaves the
    -- queue as it is, and otherwise it gives the first value, and the queue represents the others.
    pub try_pop-Pops : {q : Queue A} {xs : List A} → Represents q xs → Pops xs (try_pop (2 ^ k) q) q
    unfolding try_pop
    try_pop-Pops {q} {xs = []} v =
        if-true _ _ _ (eq→== q.tail q.head (omega (arith, v.tail_word, v.head_word)))
    try_pop-Pops {q} {xs = x ∷ xs} v = (
      ap (λ (r : Option A × Queue A). r.0) taken ∙ first,
      subst (λ (r : Option A × Queue A). Represents r.1 xs) (sym taken) rest,
    )
      where
        apart : q.tail ≢ q.head
        apart e =
            absurd (omega (arith, e, v.tail_word, v.head_word, v.fits, pow-word k (omega arith)))

        taken :
            try_pop (2 ^ k) q
            ≡ (some (q.slots (slot (2 ^ k) q.tail)), record q { tail = add_word q.tail 1 })
        taken = if-false _ _ _ (ne→== q.tail q.head apart)

        at_slot : slot (2 ^ k) q.tail ≡ (v.popped + 0) % 2 ^ k
        at_slot =
            rw (v.tail_word) (slot-mod k v.popped (omega arith))
            ∙ ap (λ n. n % 2 ^ k) {x = v.popped} {y = v.popped + 0} (omega arith)

        first : some (q.slots (slot (2 ^ k) q.tail)) ≡ some x
        first = ap (λ i. some (q.slots i)) at_slot ∙ sym (v.held 0 (omega arith))

        rest : Represents (record q { tail = add_word q.tail 1 }) xs
        rest = record {
          popped = v.popped + 1;
          tail_word = omega (arith, v.tail_word);
          head_word =
              v.head_word
              ∙ ap (λ n. n % 2 ^ 64) {x = v.popped + suc (length xs)} {y = v.popped + 1 + length xs}
                  (omega arith);
          fits = omega (arith, v.fits);
          held = λ i low.
              v.held (suc i) (omega (arith, low))
              ∙ ap (λ n. some (q.slots (n % 2 ^ k))) {x = v.popped + suc i} {y = v.popped + 1 + i}
                  (omega arith);
        }
