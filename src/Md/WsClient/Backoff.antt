-- ===== src/Md/WsClient/Backoff.antt =====
-- coinbase_ws_client.cpp, the waits between attempts to connect: their lengths, and their slices.
use trading_bot_v.Prelude.{
  ℕ, zero, suc, ◌+◌, ◌*◌, ◌^◌, ◌≤◌, ◌<◌, ℤ, pos, pos_part, ◌+ℤ◌, ◌-ℤ◌, ◌*ℤ◌, ◌≤ℤ◌, ltb_ℤ, min_ℤ,
  ◌≡◌, ◌∙◌, ◌⊎◌, inl, inr, refl, ap, subst, ltb, Bool, true, false, ◌&&◌, if-cases, Option, some,
  List, [], ◌∷◌, String, get_elem?, if◌then◌else◌, replicate, length, arith, int_laws,
}
use trading_bot_v.Core.Double.{Double}
use trading_bot_v.Md.Messages.{CoinbasePriceLevel}
use trading_bot_v.Md.Parser.{Reader}
use trading_bot_v.Md.WsClient.{
  Attempt, Client, Sleep, WsConfig, attempts, back_off, try_connection, run_client, sleep,
}

abbrev pub capped : ℕ → ℕ → ℕ
capped limit n = if ltb limit n then limit else n

double_capped : (m x : ℕ) → min_ℤ (pos (capped m x) *ℤ pos 2) (pos m) ≡ pos (capped m (x * 2))
unfolding ◌*ℤ◌
double_capped m x = ground arith

back_off-capped :
    (cfg : WsConfig) (m x : ℕ) (b : Bool)
    → cfg.backoff_max ≡ pos m
    → back_off cfg (record { backoff = pos (capped m x); has_connected_once = b })
      ≡ record { backoff = pos (capped m (x * 2)); has_connected_once = b }
unfolding back_off
back_off-capped cfg m x b e =
    ap (λ (z : ℤ). keep (min_ℤ (pos (capped m x) *ℤ pos 2) z)) e ∙ ap keep (double_capped m x)
  where
    keep : ℤ → Client
    keep z = record { backoff = z; has_connected_once = b }

pow_step : (x i : ℕ) → x * 2 * 2 ^ i ≡ x * 2 ^ suc i
pow_step x i = grind arith

module _ {D V : Type 0} ⦃d : Double D⦄ (r : Reader V) (strtod : String → Option D)
    (junk : ℤ → (ℕ → CoinbasePriceLevel D) × (ℕ → CoinbasePriceLevel D)) (cfg : WsConfig) where
  attempts-refused :
      (m k i x : ℕ) (b : Bool)
      → cfg.backoff_max ≡ pos m
      → i < k
      → get_elem?
          (attempts r strtod junk cfg
            (replicate k Attempt.refused)
            (record { backoff = pos (capped m x); has_connected_once = b })).waits
          i
        ≡ some (pos (capped m (x * 2 ^ i)))
  unfolding attempts try_connection back_off
  attempts-refused m zero i x b e h = elim h [ ]
  attempts-refused m (suc k) zero x b e h =
      ap (λ n. some (pos (capped m n))) {x = x} {y = x * 2 ^ 0} (omega arith)
  attempts-refused m (suc k) (suc i) x b e h =
      ap
        (λ (c : Client).
          get_elem? (attempts r strtod junk cfg (replicate k Attempt.refused) c).waits i)
        (back_off-capped cfg m x b e)
      ∙ attempts-refused m k i (x * 2) b e (omega arith)
      ∙ ap (λ n. some (pos (capped m n))) {x = x * 2 * 2 ^ i} {y = x * 2 ^ suc i} (pow_step x i)

  -- If the initial backoff is a, at most the maximum m, and both are not negative, then of
  -- attempts that all fail the one of number i, from 0, is followed by a wait of the lesser of a
  -- 2^i and m.
  pub run_client-refused :
      (a m k i : ℕ)
      → cfg.backoff_initial ≡ pos a
      → cfg.backoff_max ≡ pos m
      → a ≤ m
      → i < k
      → get_elem? (run_client r strtod junk cfg (replicate k Attempt.refused)).waits i
        ≡ some (pos (capped m (a * 2 ^ i)))
  unfolding run_client
  run_client-refused a m k i e f le h =
      ap
        (λ (b : ℤ).
          get_elem?
            (attempts r strtod junk cfg (replicate k Attempt.refused)
              (record { backoff = b; has_connected_once = false })).waits
            i)
        (e ∙ ap pos {x = a} {y = capped m a} (ground arith))
      ∙ attempts-refused m k i a false f h

abbrev pub sum : List ℤ → ℤ
sum [] = pos 0
sum (x ∷ xs) = x +ℤ sum xs

abbrev pub AreSlices : List ℤ → Type 0
AreSlices [] = Unit {0}
AreSlices (x ∷ xs) = (pos 1 ≤ℤ x) × (x ≤ℤ pos 100) × AreSlices xs

-- how the sleep ends: the wait is over or the client is stopped, and no slice is longer than 100 ms
pub record IsSlept (running : ℕ → Bool) (i : ℕ) (wait : ℤ) (s : Sleep) : Type 0 where
  pub total : sum s.slices +ℤ s.remaining ≡ wait
  pub least : pos 0 ≤ℤ wait → pos 0 ≤ℤ s.remaining
  pub ended : (s.remaining ≤ℤ pos 0) ⊎ (running (i + length s.slices) ≡ false)
  pub short : AreSlices s.slices

least_slice : (wait : ℤ) → pos 1 ≤ℤ wait → pos 1 ≤ℤ min_ℤ wait (pos 100)
least_slice wait h = ground arith

most_slice : (wait : ℤ) → min_ℤ wait (pos 100) ≤ℤ pos 100
most_slice wait = ground arith

slice_in_wait : (wait : ℤ) → min_ℤ wait (pos 100) ≤ℤ wait
slice_in_wait wait = ground arith

fuel_left :
    (fuel : ℕ) (wait : ℤ)
    → pos 1 ≤ℤ wait
    → pos_part wait ≤ suc fuel
    → pos_part (wait -ℤ min_ℤ wait (pos 100)) ≤ fuel
unfolding ◌-ℤ◌
fuel_left fuel wait h k = ground arith

add_assoc : (a b c : ℤ) → (a +ℤ b) +ℤ c ≡ a +ℤ (b +ℤ c)
add_assoc a b c = omega int_laws

add_rest : (a b : ℤ) → a +ℤ (b -ℤ a) ≡ b
add_rest a b = omega int_laws

-- One slice more at the front.
IsSlept-more :
    (running : ℕ → Bool) (i : ℕ) (wait slice : ℤ) (s : Sleep)
    → pos 1 ≤ℤ slice
    → slice ≤ℤ pos 100
    → slice ≤ℤ wait
    → IsSlept running (suc i) (wait -ℤ slice) s
    → IsSlept running i wait (record { slices = slice ∷ s.slices; remaining = s.remaining })
IsSlept-more running i wait slice s some_time at_most in_wait rest = record {
  total =
      add_assoc slice (sum s.slices) s.remaining
      ∙ ap (λ (z : ℤ). slice +ℤ z) rest.total
      ∙ add_rest slice wait;
  least = λ le. rest.least (omega int_laws);
  ended = elim rest.ended [
    | inl over ↦ inl over
    | inr halt ↦ inr (
        subst (λ n. running n ≡ false) {x = suc i + length s.slices} {y = i + suc (length s.slices)}
          (omega arith) halt)
  ];
  short = (some_time, at_most, rest.short);
}

halted :
    (running : ℕ → Bool) (i : ℕ) (wait : ℤ) (b : Bool)
    → running i ≡ b
    → (ltb_ℤ (pos 0) wait && b) ≡ false
    → (wait ≤ℤ pos 0) ⊎ (running (i + 0) ≡ false)
halted running i wait true e h = inl (ground arith)
halted running i wait false e h =
    inr (subst (λ n. running n ≡ false) {x = i} {y = i + 0} (omega arith) e)

going : (wait : ℤ) (b : Bool) → (ltb_ℤ (pos 0) wait && b) ≡ true → pos 1 ≤ℤ wait
going wait true h = ground arith
going wait false h = ground arith

-- With one unit of fuel for each millisecond of the wait, the sleep ends with nothing remaining or
-- with the running flag found false; the slices and what remains add up to the wait, what remains
-- of a wait that is not negative is not negative, and each slice is between 1 and 100 ms.
pub sleep-IsSlept :
    (fuel : ℕ) (running : ℕ → Bool) (i : ℕ) (wait : ℤ)
    → pos_part wait ≤ fuel
    → IsSlept running i wait (sleep fuel running i wait)
unfolding sleep
sleep-IsSlept zero running i wait h = record {
  total = omega int_laws;
  least = λ le. le;
  ended = inl (omega arith);
  short = tt;
}
sleep-IsSlept (suc fuel) running i wait h =
    if-cases (λ (s : Sleep). IsSlept running i wait s) (ltb_ℤ (pos 0) wait && running i)
      (λ go.
        let first = going wait (running i) go in
        IsSlept-more running i wait (min_ℤ wait (pos 100))
          (sleep fuel running (suc i) (wait -ℤ min_ℤ wait (pos 100))) (least_slice wait first)
          (most_slice wait) (slice_in_wait wait)
          (sleep-IsSlept fuel running (suc i) (wait -ℤ min_ℤ wait (pos 100))
            (fuel_left fuel wait first h)))
      (λ halt. record {
        total = omega int_laws;
        least = λ le. le;
        ended = halted running i wait (running i) refl halt;
        short = tt;
      })
