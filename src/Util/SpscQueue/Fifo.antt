-- ===== src/Util/SpscQueue/Fifo.antt =====
-- Under every interleaving of the producer and the consumer the queue is first in, first out.
use trading_bot_v.Prelude.{
  ℕ, suc, ◌+◌, ◌-◌, ◌%◌, ◌^◌, ◌≤◌, ◌<◌, ◌≡◌, ◌≢◌, sym, ap, subst, ◌∙◌, Option, none, some, List, [],
  ◌∷◌, ◌++◌, leb, ◌==◌, update, update_self, update-ne, arith, if-cases, leb-false, ==_ne, length,
  get_elem?, take, length-append, get_elem?-append, get_elem?-append_last, take-append, take-suc,
}
use native.Mathlib.Decide.{dec_lt}
use trading_bot_v.Util.Words.{pow-word}
use trading_bot_v.Util.SpscQueue.{
  Producer, Consumer, System, slot, sub_word, produce_from, produce, consume_from, consume, run,
}
use trading_bot_v.Util.SpscQueue.Index.{slot-mod, mod_apart}

module _ {ℓ} {A : Type ℓ} (k : ℕ) where
  -- What a thread knows between its steps, with `h` values sent and `t` received.
  abbrev pub AtProducer : Producer A → (ℕ → A) → ℕ → ℕ → Type ℓ
  AtProducer Producer.idle slots h t = Unit
  AtProducer (Producer.checked head v) slots h t = (head ≡ h % 2 ^ 64) × (h < t + 2 ^ k) × Unit {ℓ}
  AtProducer (Producer.written head v) slots h t =
      (head ≡ h % 2 ^ 64) × (h < t + 2 ^ k) × (slots (h % 2 ^ k) ≡ v)

  abbrev pub AtConsumer : Consumer A → List A → ℕ → ℕ → Type ℓ
  AtConsumer Consumer.idle sent h t = Unit
  AtConsumer (Consumer.checked tail) sent h t = (tail ≡ t % 2 ^ 64) × (t < h) × Unit {ℓ}
  AtConsumer (Consumer.taken tail v) sent h t =
      (tail ≡ t % 2 ^ 64) × (t < h) × (get_elem? sent t ≡ some v)

  pub record IsFifo (s : System A) : Type ℓ where
    pub head_word : s.queue.head ≡ length s.sent % 2 ^ 64
    pub tail_word : s.queue.tail ≡ length s.received % 2 ^ 64
    pub ordered : length s.received ≤ length s.sent
    pub fits : length s.sent ≤ length s.received + 2 ^ k
    pub held :
        (i : ℕ)
        → length s.received ≤ i
        → i < length s.sent
        → get_elem? s.sent i ≡ some (s.queue.slots (i % 2 ^ k))
    pub prefix : s.received ≡ take (length s.received) s.sent
    pub at_producer : AtProducer s.producer s.queue.slots (length s.sent) (length s.received)
    pub at_consumer : AtConsumer s.consumer s.sent (length s.sent) (length s.received)

  AtConsumer-append :
      (c : Consumer A) (sent : List A) (w : A) (t : ℕ)
      → AtConsumer c sent (length sent) t
      → AtConsumer c (sent ++ (w ∷ [])) (length (sent ++ (w ∷ []))) t
  AtConsumer-append Consumer.idle sent w t a = tt
  AtConsumer-append (Consumer.checked tail) sent w t (e, behind, _) =
      (e, omega (arith, length-append sent (w ∷ []), behind), tt)
  AtConsumer-append (Consumer.taken tail u) sent w t (e, behind, found) = (
    e,
    omega (arith, length-append sent (w ∷ []), behind),
    get_elem?-append sent (w ∷ []) t behind ∙ found,
  )

  AtProducer-room :
      (p : Producer A) (slots : ℕ → A) (h t : ℕ)
      → AtProducer p slots h t
      → AtProducer p slots h (suc t)
  AtProducer-room Producer.idle slots h t a = tt
  AtProducer-room (Producer.checked head w) slots h t (e, room, _) = (e, omega (arith, room), tt)
  AtProducer-room (Producer.written head w) slots h t (e, room, stored) =
      (e, omega (arith, room), stored)

  module _ (small : k ≤ 63) where
    -- The difference of the counters is the number of values held, however they have wrapped.
    pub held_words :
        {s : System A}
        → IsFifo s
        → sub_word s.queue.head s.queue.tail ≡ length s.sent - length s.received
    held_words v =
        omega (arith, v.head_word, v.tail_word, v.ordered, v.fits, pow-word k (omega arith))

    pub same_words :
        {s : System A} → IsFifo s → s.queue.tail ≡ s.queue.head → length s.received ≡ length s.sent
    same_words v e =
        omega (arith, e, v.head_word, v.tail_word, v.ordered, v.fits, pow-word k (omega arith))

    produce-idle :
        {s : System A} (value : A) → IsFifo s → IsFifo (produce_from (2 ^ k) Producer.idle value s)
    unfolding produce_from
    produce-idle {s} value v =
        if-cases IsFifo (leb (2 ^ k) (sub_word s.queue.head s.queue.tail)) (λ full. v)
          (λ room. record {
            head_word = v.head_word;
            tail_word = v.tail_word;
            ordered = v.ordered;
            fits = v.fits;
            held = v.held;
            prefix = v.prefix;
            at_producer =
                (v.head_word, omega (arith, leb-false _ _ room, held_words v, v.ordered), tt);
            at_consumer = v.at_consumer;
          })

    produce-checked :
        {s : System A} {head : ℕ} (w value : A)
        → IsFifo s
        → AtProducer (Producer.checked head w) s.queue.slots (length s.sent) (length s.received)
        → IsFifo (produce_from (2 ^ k) (Producer.checked head w) value s)
    unfolding produce_from
    produce-checked {s} {head} w value v (e, room, _) = record {
      head_word = v.head_word;
      tail_word = v.tail_word;
      ordered = v.ordered;
      fits = v.fits;
      held = λ i low high.
          v.held i low high
          ∙ ap some (
              sym (
                update-ne s.queue.slots _ _ w (λ same.
                  mod_apart (2 ^ k) i (length s.sent) high (omega arith) (sym same ∙ at_slot))));
      prefix = v.prefix;
      at_producer = (
        e,
        room,
        ap (λ i. update s.queue.slots (slot (2 ^ k) head) w i) (sym at_slot)
            ∙ update_self s.queue.slots _ w,
      );
      at_consumer = v.at_consumer;
    }
      where
        at_slot : slot (2 ^ k) head ≡ length s.sent % 2 ^ k
        at_slot = rw e (slot-mod k (length s.sent) (omega arith))

    produce-written :
        {s : System A} {head : ℕ} (w value : A)
        → IsFifo s
        → AtProducer (Producer.written head w) s.queue.slots (length s.sent) (length s.received)
        → IsFifo (produce_from (2 ^ k) (Producer.written head w) value s)
    unfolding produce_from
    produce-written {s} {head} w value v (e, room, stored) = record {
      head_word = omega (arith, longer, e);
      tail_word = v.tail_word;
      ordered = omega (arith, longer, v.ordered);
      fits = omega (arith, longer, room);
      held = λ i low high. elim (dec_lt i (length s.sent)) [
        | yes old ↦ get_elem?-append s.sent (w ∷ []) i old ∙ v.held i low old
        | no new ↦
            let last : i ≡ length s.sent = omega (arith, longer, high, new) in
            get_elem?-append_last s.sent w i last
            ∙ ap some (sym stored ∙ ap (λ n. s.queue.slots (n % 2 ^ k)) (sym last))
      ];
      prefix = v.prefix ∙ sym (take-append (length s.received) s.sent (w ∷ []) v.ordered);
      at_producer = tt;
      at_consumer = AtConsumer-append s.consumer s.sent w (length s.received) v.at_consumer;
    }
      where
        longer : length (s.sent ++ (w ∷ [])) ≡ length s.sent + 1
        longer = length-append s.sent (w ∷ [])

    produce-IsFifo : {s : System A} (value : A) → IsFifo s → IsFifo (produce (2 ^ k) value s)
    unfolding produce produce_from
    produce-IsFifo {s} value v = by_thread s.producer v.at_producer
      where
        by_thread :
            (p : Producer A)
            → AtProducer p s.queue.slots (length s.sent) (length s.received)
            → IsFifo (produce_from (2 ^ k) p value s)
        by_thread Producer.idle a = produce-idle value v
        by_thread (Producer.checked head w) a = produce-checked w value v a
        by_thread (Producer.written head w) a = produce-written w value v a

    consume-idle : {s : System A} → IsFifo s → IsFifo (consume_from (2 ^ k) Consumer.idle s)
    unfolding consume_from
    consume-idle {s} v =
        if-cases IsFifo (s.queue.tail == s.queue.head) (λ empty. v)
          (λ some_held. record {
            head_word = v.head_word;
            tail_word = v.tail_word;
            ordered = v.ordered;
            fits = v.fits;
            held = v.held;
            prefix = v.prefix;
            at_producer = v.at_producer;
            at_consumer = (v.tail_word, behind (==_ne _ _ some_held), tt);
          })
      where
        behind : s.queue.tail ≢ s.queue.head → length s.received < length s.sent
        behind apart = elim (dec_lt (length s.received) (length s.sent)) [
          | yes p ↦ p
          | no p ↦ absurd (apart (omega (arith, v.head_word, v.tail_word, v.ordered, p)))
        ]

    consume-checked :
        {s : System A} (tail : ℕ)
        → IsFifo s
        → AtConsumer (Consumer.checked tail) s.sent (length s.sent) (length s.received)
        → IsFifo (consume_from (2 ^ k) (Consumer.checked tail) s)
    unfolding consume_from
    consume-checked {s} tail v (e, behind, _) = record {
      head_word = v.head_word;
      tail_word = v.tail_word;
      ordered = v.ordered;
      fits = v.fits;
      held = v.held;
      prefix = v.prefix;
      at_producer = v.at_producer;
      at_consumer = (
        e,
        behind,
        v.held (length s.received) (omega arith) behind
            ∙ ap (λ i. some (s.queue.slots i)) (sym at_slot),
      );
    }
      where
        at_slot : slot (2 ^ k) tail ≡ length s.received % 2 ^ k
        at_slot = rw e (slot-mod k (length s.received) (omega arith))

    consume-taken :
        {s : System A} (tail : ℕ) (w : A)
        → IsFifo s
        → AtConsumer (Consumer.taken tail w) s.sent (length s.sent) (length s.received)
        → IsFifo (consume_from (2 ^ k) (Consumer.taken tail w) s)
    unfolding consume_from
    consume-taken {s} tail w v (e, behind, found) = record {
      head_word = v.head_word;
      tail_word = omega (arith, longer, e);
      ordered = omega (arith, longer, behind);
      fits = omega (arith, longer, v.fits);
      held = λ i low high. v.held i (omega (arith, longer, low)) high;
      prefix =
          ap (λ xs. xs ++ (w ∷ [])) v.prefix
          ∙ sym (take-suc (length s.received) s.sent w found)
          ∙ ap (λ n. take n s.sent) (sym longer);
      at_producer =
          subst (λ n. AtProducer s.producer s.queue.slots (length s.sent) n) (sym longer)
            (AtProducer-room s.producer s.queue.slots (length s.sent) (length s.received)
              v.at_producer);
      at_consumer = tt;
    }
      where
        longer : length (s.received ++ (w ∷ [])) ≡ suc (length s.received)
        longer = omega (arith, length-append s.received (w ∷ []))

    consume-IsFifo : {s : System A} → IsFifo s → IsFifo (consume (2 ^ k) s)
    unfolding consume consume_from
    consume-IsFifo {s} v = by_thread s.consumer v.at_consumer
      where
        by_thread :
            (c : Consumer A)
            → AtConsumer c s.sent (length s.sent) (length s.received)
            → IsFifo (consume_from (2 ^ k) c s)
        by_thread Consumer.idle a = consume-idle v
        by_thread (Consumer.checked tail) a = consume-checked tail v a
        by_thread (Consumer.taken tail w) a = consume-taken tail w v a

    pub run-IsFifo :
        (steps : List (Option A)) {s : System A} → IsFifo s → IsFifo (run (2 ^ k) s steps)
    unfolding run
    run-IsFifo [] v = v
    run-IsFifo (some value ∷ steps) v = run-IsFifo steps (produce-IsFifo value v)
    run-IsFifo (none ∷ steps) v = run-IsFifo steps (consume-IsFifo v)
