-- ===== src/Exec/CircuitBreaker/Window.antt =====
-- The breaker within a window of messages, and over windows without an error.
use trading_bot_v.Prelude.{
  ℕ, zero, suc, ◌+◌, ◌-◌, ◌*◌, ◌%◌, ◌^◌, ◌<◌, ◌≡◌, refl, sym, ap, ◌∙◌, Bool, true, false, List, [],
  ◌∷◌, leb, ◌==◌, arith, ne→==, eq→==, if◌then◌else◌, ◌++◌, if-elim, if-cases, if-true, if-false,
  leb-false, replicate,
}
use native.Mathlib.Nat.{mod-add-mod, mod-eq_of_lt, mod-lt, mod_self}
use trading_bot_v.Exec.CircuitBreaker.{
  Breaker, Call, end_window, record_message, record_error, run_calls, is_tripped,
}

abbrev pub count_messages : List Call → ℕ
count_messages [] = 0
count_messages (Call.message ∷ calls) = suc (count_messages calls)
count_messages (Call.error ∷ calls) = count_messages calls

abbrev pub count_errors : List Call → ℕ
count_errors [] = 0
count_errors (Call.message ∷ calls) = count_errors calls
count_errors (Call.error ∷ calls) = suc (count_errors calls)

-- `calls` end before the window that `c` is in does, and no counter wraps.
pub record Within (c : Breaker) (calls : List Call) : Type 0 where
  pub before_end : c.msgs % c.window_messages + count_messages calls < c.window_messages
  pub messages_fit : c.msgs + count_messages calls < 2 ^ 64
  pub errors_fit : c.errors + count_errors calls < 2 ^ 64

mod_next : (m w : ℕ) → m % w + 1 < w → (m + 1) % w ≡ m % w + 1
mod_next m w h = sym (mod-add-mod m w 1) ∙ mod-eq_of_lt h

mod_wrap : (m w : ℕ) → 0 < w → m % w + 1 ≡ w → (m + 1) % w ≡ 0
mod_wrap m w h e = sym (mod-add-mod m w 1) ∙ ap (λ n. n % w) e ∙ mod_self w

-- A message that does not end the window is counted, and one that does ends it.
message_within :
    (c : Breaker)
    → c.msgs % c.window_messages + 1 < c.window_messages
    → c.msgs + 1 < 2 ^ 64
    → record_message c ≡ record c { msgs = c.msgs + 1 }
unfolding record_message
message_within c h fits =
    if-false _ _ _ (ne→== c.window_messages 0 (omega arith))
    ∙ ap
        (λ n.
          if n % c.window_messages == 0
          then end_window (record c { msgs = n })
          else record c { msgs = n })
        {x = (c.msgs + 1) % 2 ^ 64} {y = c.msgs + 1} (omega arith)
    ∙ if-false _ _ _ (
        ne→== ((c.msgs + 1) % c.window_messages) 0
          (omega (arith, mod_next c.msgs c.window_messages h)))

message_ends :
    (c : Breaker)
    → c.msgs % c.window_messages + 1 ≡ c.window_messages
    → c.msgs + 1 < 2 ^ 64
    → record_message c ≡ end_window (record c { msgs = c.msgs + 1 })
unfolding record_message
message_ends c h fits =
    if-false _ _ _ (ne→== c.window_messages 0 (omega arith))
    ∙ ap
        (λ n.
          if n % c.window_messages == 0
          then end_window (record c { msgs = n })
          else record c { msgs = n })
        {x = (c.msgs + 1) % 2 ^ 64} {y = c.msgs + 1} (omega arith)
    ∙ if-true _ _ _ (
        eq→== ((c.msgs + 1) % c.window_messages) 0
          (mod_wrap c.msgs c.window_messages (omega arith) h))

error_within :
    (c : Breaker)
    → c.errors + 1 < 2 ^ 64
    → c.tripped ≡ leb c.threshold c.errors
    → record_error c ≡ record c { errors = c.errors + 1; tripped = leb c.threshold (c.errors + 1) }
unfolding record_error
error_within c fits e =
    ap
      (λ n.
        if leb c.threshold n
        then record c { errors = n; tripped = true }
        else record c { errors = n })
      {x = (c.errors + 1) % 2 ^ 64} {y = c.errors + 1} (omega arith)
    ∙ if-cases
        (λ r. r ≡ record c { errors = c.errors + 1; tripped = leb c.threshold (c.errors + 1) })
        (leb c.threshold (c.errors + 1))
        (λ h. ap (λ t. record c { errors = c.errors + 1; tripped = t }) (sym h))
        (λ h.
          ap (λ t. record c { errors = c.errors + 1; tripped = t })
            (e ∙ lt→leb (leb-false _ _ h) ∙ sym h))
  where
    lt→leb : c.errors + 1 < c.threshold → leb c.threshold c.errors ≡ false
    lt→leb h = ground arith

-- Within a window the breaker is tripped exactly when its errors have reached the threshold, if it
-- was so before.
tripped_before :
    (calls : List Call) (c : Breaker)
    → Within c calls
    → is_tripped c ≡ leb c.threshold c.errors
    → is_tripped (run_calls c calls) ≡ leb c.threshold (c.errors + count_errors calls)
unfolding run_calls
tripped_before [] c w e = e ∙ ap (leb c.threshold) {x = c.errors} {y = c.errors + 0} (omega arith)
tripped_before (Call.message ∷ calls) c w e =
    ap (λ d. is_tripped (run_calls d calls))
      (message_within c (omega (arith, w.before_end)) (omega (arith, w.messages_fit)))
    ∙ tripped_before calls (record c { msgs = c.msgs + 1 })
        record {
          before_end = omega (
            arith,
            mod_next c.msgs c.window_messages (omega (arith, w.before_end)),
            w.before_end,
          );
          messages_fit = omega (arith, w.messages_fit);
          errors_fit = w.errors_fit;
        }
        e
tripped_before (Call.error ∷ calls) c w e =
    ap (λ d. is_tripped (run_calls d calls)) (error_within c (omega (arith, w.errors_fit)) e)
    ∙ tripped_before calls
        (record c { errors = c.errors + 1; tripped = leb c.threshold (c.errors + 1) })
        record {
          before_end = w.before_end;
          messages_fit = w.messages_fit;
          errors_fit = omega (arith, w.errors_fit);
        }
        refl
    ∙ ap (leb c.threshold) {x = c.errors + 1 + count_errors calls}
        {y = c.errors + suc (count_errors calls)} (omega arith)

-- A breaker with a threshold above 0 that is not tripped and has no errors counted, as a new one
-- and one after a window without errors, is tripped after any calls that end before its window
-- does if and only if the errors among them reach the threshold, as long as the counters do not
-- wrap.
pub is_tripped-open_window :
    (calls : List Call) (c : Breaker)
    → 0 < c.threshold
    → is_tripped c ≡ false
    → c.errors ≡ 0
    → Within c calls
    → is_tripped (run_calls c calls) ≡ leb c.threshold (count_errors calls)
is_tripped-open_window calls c some_errors shut none_yet w =
    tripped_before calls c w (shut ∙ sym (ap (leb c.threshold) none_yet ∙ above_0 some_errors))
    ∙ ap (leb c.threshold) {x = c.errors + count_errors calls} {y = count_errors calls}
        (omega (arith, none_yet))
  where
    above_0 : 0 < c.threshold → leb c.threshold 0 ≡ false
    above_0 h = ground arith

run_calls-append :
    (xs ys : List Call) (c : Breaker) → run_calls c (xs ++ ys) ≡ run_calls (run_calls c xs) ys
unfolding run_calls
run_calls-append [] ys c = refl
run_calls-append (Call.message ∷ xs) ys c = run_calls-append xs ys (record_message c)
run_calls-append (Call.error ∷ xs) ys c = run_calls-append xs ys (record_error c)

-- `n` messages without an error
abbrev pub quiet : ℕ → List Call
quiet n = replicate n Call.message

-- Messages up to the end of a window end it.
to_end :
    (n : ℕ) (c : Breaker)
    → c.msgs % c.window_messages + suc n ≡ c.window_messages
    → c.msgs + suc n < 2 ^ 64
    → run_calls c (quiet (suc n)) ≡ end_window (record c { msgs = c.msgs + suc n })
unfolding run_calls
to_end zero c h fits = message_ends c (omega arith) (omega arith)
to_end (suc n) c h fits =
    ap (λ d. run_calls d (quiet (suc n))) (message_within c (omega arith) (omega arith))
    ∙ to_end n (record c { msgs = c.msgs + 1 })
        (omega (arith, mod_next c.msgs c.window_messages (omega arith))) (omega arith)
    ∙ ap (λ m. end_window (record c { msgs = m })) {x = c.msgs + 1 + suc n}
        {y = c.msgs + suc (suc n)} (omega arith)

-- the messages that the window lacks
abbrev pub rest_of_window : Breaker → ℕ
rest_of_window c = c.window_messages - c.msgs % c.window_messages

rest_ends :
    (c : Breaker)
    → 0 < c.window_messages
    → c.msgs + c.window_messages < 2 ^ 64
    → run_calls c (quiet (rest_of_window c))
      ≡ end_window (record c { msgs = c.msgs + rest_of_window c })
rest_ends c h fits =
    go (rest_of_window c) (omega (arith, mod-lt c.msgs h)) (omega (arith, mod-lt c.msgs h))
  where
    go :
        (n : ℕ)
        → c.msgs % c.window_messages + n ≡ c.window_messages
        → 0 < n
        → run_calls c (quiet n) ≡ end_window (record c { msgs = c.msgs + n })
    go zero e pos = absurd (omega arith)
    go (suc n) e pos = to_end n c e (omega arith)

mod_rest : (m w : ℕ) → 0 < w → (m + (w - m % w)) % w ≡ 0
mod_rest m w h =
    sym (mod-add-mod m w (w - m % w))
    ∙ ap (λ n. n % w) {x = m % w + (w - m % w)} {y = w} (omega (arith, mod-lt m h))
    ∙ mod_self w

-- What a window's end leaves: no errors, and the other counters.
end_window_lem : (c : Breaker) → (t : Bool) × (end_window c ≡ record c { errors = 0; tripped = t })
end_window_lem c =
    if-elim (λ d. (t : Bool) × (d ≡ record c { errors = 0; tripped = t })) (c.errors == 0)
      (false, refl) (c.tripped, refl)

clean_end : (c : Breaker) → c.errors ≡ 0 → is_tripped (end_window c) ≡ false
clean_end c e = ap is_tripped (if-true _ _ _ (eq→== c.errors 0 e))

-- For a window of positive length, and a message counter that does not reach 2^64: a tripped
-- breaker with an error in its window is still tripped when the rest of its window has passed
-- without a further one.
pub is_tripped-dirty_window :
    (c : Breaker)
    → 0 < c.window_messages
    → c.msgs + c.window_messages < 2 ^ 64
    → 0 < c.errors
    → is_tripped c ≡ true
    → is_tripped (run_calls c (quiet (rest_of_window c))) ≡ true
is_tripped-dirty_window c h fits some_error t =
    ap is_tripped (rest_ends c h fits)
    ∙ ap is_tripped (if-false _ _ _ (ne→== c.errors 0 (omega arith)))
    ∙ t

-- For a window of positive length, and a message counter that does not reach 2^64: whatever its
-- state, a breaker is not tripped when the rest of its window and one more window have passed
-- without an error.
pub is_tripped-quiet_windows :
    (c : Breaker)
    → 0 < c.window_messages
    → c.msgs + 2 * c.window_messages < 2 ^ 64
    → is_tripped (run_calls c (quiet (rest_of_window c) ++ quiet c.window_messages)) ≡ false
is_tripped-quiet_windows c h fits =
    let ended = end_window_lem (record c { msgs = c.msgs + rest_of_window c }) in
    ap is_tripped (run_calls-append (quiet (rest_of_window c)) (quiet c.window_messages) c)
    ∙ ap (λ d. is_tripped (run_calls d (quiet c.window_messages)))
        (rest_ends c h (omega arith) ∙ ended.1)
    ∙ second ended.0
  where
    second :
        (t : Bool)
        → is_tripped (
            run_calls
              (record c { msgs = c.msgs + rest_of_window c; errors = 0; tripped = t })
              (quiet c.window_messages))
          ≡ false
    second t =
        let d : Breaker = record c { msgs = c.msgs + rest_of_window c; errors = 0; tripped = t } in
        ap (λ m. is_tripped (run_calls d (quiet m))) {x = c.window_messages} {y = rest_of_window d}
          (omega (arith, mod_rest c.msgs c.window_messages h))
        ∙ ap is_tripped (rest_ends d h (omega (arith, mod-lt c.msgs h)))
        ∙ clean_end (record d { msgs = d.msgs + rest_of_window d }) refl
