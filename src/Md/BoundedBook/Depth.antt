-- ===== src/Md/BoundedBook/Depth.antt =====
-- `depth`: the best `n` live levels of a side, best first.
use trading_bot_v.Prelude.{
  ℕ, zero, suc, ◌+◌, ◌-◌, ◌≤◌, ◌<◌, ◌≡◌, refl, sym, ◌∙◌, ap, Bool, false, pos, negsuc, pos_part,
  arith, inl, inr, Bool-cases, List, [], ◌∷◌, map, take, if◌then◌else◌, if-true,
}
use mathlib.Core.List.{head?}
use trading_bot_v.Core.Double.{Double}
use trading_bot_v.Core.Types.{PriceLevel, Side, bid, ask}
use trading_bot_v.Md.Bitmap.Scan.{IsHighest, IsLowest}
use trading_bot_v.Md.BoundedBook.{Book, level_at, depth_down, depth_up, depth, top_of_book}
use trading_bot_v.Md.BoundedBook.Invariant.{IsBook, live}
use trading_bot_v.Md.BoundedBook.Recenter.{
  top_of_book-bid_at, top_of_book-bid_none, top_of_book-ask_at, top_of_book-ask_none,
}

-- the slots below `n`, from the top; the `n` slots from `i` on
abbrev pub slots_down : ℕ → List ℕ
slots_down zero = []
slots_down (suc n) = n ∷ slots_down n

abbrev pub slots_up : ℕ → ℕ → List ℕ
slots_up zero i = []
slots_up (suc n) i = i ∷ slots_up n (suc i)

abbrev pub keep : (ℕ → Bool) → List ℕ → List ℕ
keep f [] = []
keep f (i ∷ is) = if f i then i ∷ keep f is else keep f is

take-nil {ℓ} : (A : Type ℓ) (n : ℕ) → take {A = A} n [] ≡ []
take-nil A zero = refl
take-nil A (suc n) = refl

-- Dead slots at either end can be left out.
keep-down_dead :
    (f : ℕ → Bool) (s k n : ℕ)
    → s + k ≡ n
    → ((i : ℕ) → s ≤ i → i < n → f i ≡ false)
    → keep f (slots_down n) ≡ keep f (slots_down s)
keep-down_dead f s zero n e dead = let same : n ≡ s = omega arith in rw same
keep-down_dead f s (suc k) zero e dead = absurd (omega arith)
keep-down_dead f s (suc k) (suc n) e dead =
    rw (dead n (omega arith) (omega arith))
      (keep-down_dead f s k n (omega arith) (λ i h h'. dead i h (omega arith)))

keep-up_dead :
    (f : ℕ → Bool) (k i n left j : ℕ)
    → k + left ≡ n
    → i + k ≡ j
    → ((m : ℕ) → i ≤ m → m < j → f m ≡ false)
    → keep f (slots_up n i) ≡ keep f (slots_up left j)
keep-up_dead f zero i n left j e e' dead =
    let same : n ≡ left = omega arith in let at : i ≡ j = omega arith in rw (same, at)
keep-up_dead f (suc k) i zero left j e e' dead = absurd (omega arith)
keep-up_dead f (suc k) i (suc n) left j e e' dead = rw (dead i (omega arith) (omega arith)) (
    keep-up_dead f k (suc i) n left j (omega arith) (omega arith)
      (λ m h h'. dead m (omega arith) h'))

module _ {D : Type 0} ⦃d : Double D⦄ (cap : ℕ) where
  -- all the live levels of a side, best first
  abbrev pub best_first : Book D → Side → List (PriceLevel D)
  best_first b bid = map (level_at cap b b.bids) (keep (live b.bids) (slots_down cap))
  best_first b ask = map (level_at cap b b.asks) (keep (live b.asks) (slots_up cap 0))

  depth_down-take :
      (b : Book D) (i n : ℕ)
      → depth_down cap b i n
        ≡ take n (map (level_at cap b b.bids) (keep (live b.bids) (slots_down i)))
  unfolding depth_down
  depth_down-take b zero n = sym (take-nil _ n)
  depth_down-take b (suc i) zero = refl
  depth_down-take b (suc i) (suc n) = elim (Bool-cases (live b.bids i)) [
    | inl e ↦ rw e (ap (◌∷◌ (level_at cap b b.bids i)) (depth_down-take b i n))
    | inr e ↦ rw e (depth_down-take b i (suc n))
  ]

  depth_up-take :
      (b : Book D) (left i n : ℕ)
      → depth_up cap b left i n
        ≡ take n (map (level_at cap b b.asks) (keep (live b.asks) (slots_up left i)))
  unfolding depth_up
  depth_up-take b zero i n = sym (take-nil _ n)
  depth_up-take b (suc left) i zero = refl
  depth_up-take b (suc left) i (suc n) = elim (Bool-cases (live b.asks i)) [
    | inl e ↦ rw e (ap (◌∷◌ (level_at cap b b.asks i)) (depth_up-take b left (suc i) n))
    | inr e ↦ rw e (depth_up-take b left (suc i) (suc n))
  ]

  depth-bid :
      (b : Book D) (n : ℕ)
      → IsHighest cap (live b.bids) b.best_bid
      → depth cap b bid n ≡ take n (best_first b bid)
  unfolding depth
  depth-bid b n (IsHighest.none_live e all) =
      ap (λ z. elim z [ pos i ↦ depth_down cap b (suc i) n | negsuc _ ↦ [] ]) e
      ∙ depth_down-take b 0 n
      ∙ ap (λ is. take n (map (level_at cap b b.bids) is))
          (sym (keep-down_dead (live b.bids) 0 cap cap (omega arith) (λ i _ h. all i h)))
  depth-bid b n (IsHighest.live_at s e h _ above) =
      ap (λ z. elim z [ pos i ↦ depth_down cap b (suc i) n | negsuc _ ↦ [] ]) e
      ∙ depth_down-take b (suc s) n
      ∙ ap (λ is. take n (map (level_at cap b b.bids) is))
          (sym (
            keep-down_dead (live b.bids) (suc s) (cap - suc s) cap (omega arith)
              (λ i hi h'. above i hi h')))

  depth-ask :
      (b : Book D) (n : ℕ)
      → IsLowest cap (live b.asks) b.best_ask
      → depth cap b ask n ≡ take n (best_first b ask)
  unfolding depth
  depth-ask b n (IsLowest.none_live e all) =
      ap (λ z. depth_up cap b (cap - pos_part z) (pos_part z) n) e
      ∙ depth_up-take b (cap - cap) cap n
      ∙ ap (λ is. take n (map (level_at cap b b.asks) is))
          (sym (
            keep-up_dead (live b.asks) cap 0 cap (cap - cap) cap (omega arith) (omega arith)
              (λ m _ h. all m h)))
  depth-ask b n (IsLowest.live_at s e h _ below) =
      ap (λ z. depth_up cap b (cap - pos_part z) (pos_part z) n) e
      ∙ depth_up-take b (cap - s) s n
      ∙ ap (λ is. take n (map (level_at cap b b.asks) is))
          (sym (
            keep-up_dead (live b.asks) s 0 cap (cap - s) s (omega arith) (omega arith)
              (λ m _ h. below m h)))

  best_first-bid :
      (b : Book D)
      → IsHighest cap (live b.bids) b.best_bid
      → head? (best_first b bid) ≡ top_of_book cap b bid
  best_first-bid b (IsHighest.none_live e all) =
      ap (λ is. head? (map (level_at cap b b.bids) is))
        (keep-down_dead (live b.bids) 0 cap cap (omega arith) (λ i _ h. all i h))
      ∙ sym (top_of_book-bid_none cap b e)
  best_first-bid b (IsHighest.live_at s e h at above) =
      ap (λ is. head? (map (level_at cap b b.bids) is))
        (keep-down_dead (live b.bids) (suc s) (cap - suc s) cap (omega arith)
            (λ i hi h'. above i hi h')
          ∙ if-true (live b.bids s) _ _ at)
      ∙ sym (top_of_book-bid_at cap b s e)

  best_first-ask :
      (b : Book D)
      → IsLowest cap (live b.asks) b.best_ask
      → head? (best_first b ask) ≡ top_of_book cap b ask
  best_first-ask b (IsLowest.none_live e all) =
      ap (λ is. head? (map (level_at cap b b.asks) is))
        (keep-up_dead (live b.asks) cap 0 cap 0 cap (omega arith) (omega arith) (λ m _ h. all m h))
      ∙ sym (top_of_book-ask_none cap b e)
  best_first-ask b (IsLowest.live_at s e h at below) =
      ap (λ is. head? (map (level_at cap b b.asks) is))
        (keep-up_dead (live b.asks) s 0 cap (suc (cap - suc s)) s (omega arith) (omega arith)
            (λ m _ h. below m h)
          ∙ if-true (live b.asks s) _ _ at)
      ∙ sym (top_of_book-ask_at cap b s h e)

  -- On a book in good order `topOfBook` is the first of all the live levels of the side, ordered
  -- from the best price to the worst, and is absent just if there are none.
  pub top_of_book-best :
      {b : Book D} (side : Side) → IsBook cap b → top_of_book cap b side ≡ head? (best_first b side)
  top_of_book-best {b} bid v = sym (best_first-bid b v.bid_best)
  top_of_book-best {b} ask v = sym (best_first-ask b v.ask_best)

  -- On a book in good order `depth` returns the first `n` of all the live levels of the side,
  -- ordered from the best price to the worst.
  pub depth-eq-take :
      {b : Book D} (side : Side) (n : ℕ)
      → IsBook cap b
      → depth cap b side n ≡ take n (best_first b side)
  depth-eq-take {b} bid n v = depth-bid b n v.bid_best
  depth-eq-take {b} ask n v = depth-ask b n v.ask_best
