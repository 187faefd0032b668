-- ===== src/Exec/ExecutionEngine/Fill.antt =====
-- What `simulate` fills: the levels of the opposing side, best first, as far as the limit reaches and
-- until the order is filled.
use trading_bot_v.Prelude.{
  ℕ, zero, suc, ℤ, pos, negsuc, ◌≡◌, refl, sym, ap, ◌∙◌, subst, Bool, true, false, List, [], ◌∷◌,
  ◌++◌, if◌then◌else◌, if-cases, true-ne-false,
}
use trading_bot_v.Core.Double.{Double, IsDouble, IsDifference, IsFinite, ◌≼◌, ◌≺◌}
use trading_bot_v.Core.Types.{PriceLevel, Side, bid, ask, to_double}
use trading_bot_v.Md.BoundedBook.{Book, depth, depth_down, depth_up}
use trading_bot_v.Exec.OrderTypes.{NewOrder}
use trading_bot_v.Exec.ExecutionEngine.{Walk, fill_walk, reaches, simulate, take_level, walk_start}

module _ {D : Type 0} ⦃d : Double D⦄ where
  -- every level has a quantity above 0
  abbrev pub AllLive : List (PriceLevel D) → Type 0
  AllLive [] = Unit
  AllLive (level ∷ levels) = (d.nought ≺ level.qty.value) × AllLive levels

  -- no quantity is infinite
  abbrev pub AllFiniteQty : List (PriceLevel D) → Type 0
  AllFiniteQty [] = Unit
  AllFiniteQty (level ∷ levels) = IsFinite level.qty.value × AllFiniteQty levels

  module _ (cap : ℕ) (b : Book D) where
    depth_down-AllLive : (i n : ℕ) → AllLive (depth_down cap b i n)
    unfolding depth_down
    depth_down-AllLive zero n = tt
    depth_down-AllLive (suc i) zero = tt
    depth_down-AllLive (suc i) (suc n) =
        if-cases AllLive (d.lt d.nought (b.bids i)) (λ live. (live, depth_down-AllLive i _))
          (λ dead. depth_down-AllLive i _)

    depth_up-AllLive : (left i n : ℕ) → AllLive (depth_up cap b left i n)
    unfolding depth_up
    depth_up-AllLive zero i n = tt
    depth_up-AllLive (suc left) i zero = tt
    depth_up-AllLive (suc left) i (suc n) =
        if-cases AllLive (d.lt d.nought (b.asks i)) (λ live. (live, depth_up-AllLive left _ _))
          (λ dead. depth_up-AllLive left _ _)

    pub depth-AllLive : (side : Side) (n : ℕ) → AllLive (depth cap b side n)
    unfolding depth
    depth-AllLive bid n = below b.best_bid
      where
        below : (z : ℤ) → AllLive (elim z [ pos i ↦ depth_down cap b (suc i) n | negsuc _ ↦ [] ])
        below (pos i) = depth_down-AllLive (suc i) n
        below (negsuc i) = tt
    depth-AllLive ask n = depth_up-AllLive _ _ n

  -- what an order trades against: the 32 best offers for a purchase, the 32 best bids for a sale
  abbrev pub against : ℕ → Book D → Side → List (PriceLevel D)
  against cap book bid = depth cap book ask 32
  against cap book ask = depth cap book bid 32

  -- A purchase pays its limit or less, and a sale is paid its limit or more.
  abbrev pub within_limit : Side → D → D → Bool
  within_limit bid limit px = d.le px limit
  within_limit ask limit px = d.le limit px

  -- the levels before the first that is not within the limit
  abbrev pub reached : Side → D → D → List (PriceLevel D) → List (PriceLevel D)
  reached side tick limit [] = []
  reached side tick limit (level ∷ levels) =
      let rest = reached side tick limit levels in
      if within_limit side limit (to_double level.price tick) then level ∷ rest else []

  -- `x` and the quantities of some levels, added one after the other
  abbrev pub sum_from : D → List (PriceLevel D) → D
  sum_from x [] = x
  sum_from x (level ∷ levels) = sum_from (d.add x level.qty.value) levels

  -- `x` less the quantities of some levels, taken off one after the other
  abbrev pub left_from : D → List (PriceLevel D) → D
  left_from x [] = x
  left_from x (level ∷ levels) = left_from (d.sub x level.qty.value) levels

  -- After each of the levels more than 1e-12 is left.
  abbrev pub Short : D → List (PriceLevel D) → Type 0
  Short x [] = Unit
  Short x (level ∷ levels) =
      (d.le (d.sub x level.qty.value) d.tiny ≡ false) × Short (d.sub x level.qty.value) levels

  -- How an order for `x` against the levels `reach` adds to `f`, which was filled before: all levels
  -- are taken whole and more is left; or the levels `taken` are, and the next has more than is left,
  -- all of which is filled; or the next is taken whole too, and leaves at most 1e-12.
  pub data IsExecution (reach : List (PriceLevel D)) (x f filled : D) : Type 0 where
    all_taken : Short x reach → filled ≡ sum_from f reach → IsExecution reach x f filled
    last_part :
        (taken : List (PriceLevel D)) (level : PriceLevel D) (more : List (PriceLevel D))
        → reach ≡ taken ++ (level ∷ more)
        → Short x taken
        → left_from x taken ≺ level.qty.value
        → filled ≡ d.add (sum_from f taken) (left_from x taken)
        → IsExecution reach x f filled
    last_whole :
        (taken : List (PriceLevel D)) (level : PriceLevel D) (more : List (PriceLevel D))
        → reach ≡ taken ++ (level ∷ more)
        → Short x taken
        → level.qty.value ≼ left_from x taken
        → d.sub (left_from x taken) level.qty.value ≼ d.tiny
        → filled ≡ sum_from f (taken ++ (level ∷ []))
        → IsExecution reach x f filled

  -- A level that leaves more is taken before what follows.
  then_IsExecution :
      (level : PriceLevel D) (reach : List (PriceLevel D)) (x f filled : D)
      → d.le (d.sub x level.qty.value) d.tiny ≡ false
      → IsExecution reach (d.sub x level.qty.value) (d.add f level.qty.value) filled
      → IsExecution (level ∷ reach) x f filled
  then_IsExecution level reach x f filled h (IsExecution.all_taken short e) =
      IsExecution.all_taken (h, short) e
  then_IsExecution level reach x f filled h (IsExecution.last_part taken l more s short less e) =
      IsExecution.last_part (level ∷ taken) l more (ap (λ z. level ∷ z) s) (h, short) less e
  then_IsExecution level reach x f filled h
        (IsExecution.last_whole taken l more s short whole little e) =
      IsExecution.last_whole (level ∷ taken) l more (ap (λ z. level ∷ z) s) (h, short) whole little
        e

  reached_step :
      (side : Side) (tick limit : D) (level : PriceLevel D) (levels : List (PriceLevel D))
      → (if reaches side limit (to_double level.price tick)
          then level ∷ reached side tick limit levels
          else [])
        ≡ reached side tick limit (level ∷ levels)
  reached_step bid tick limit level levels = refl
  reached_step ask tick limit level levels = refl

  module _ (laws : IsDouble D) (difference : IsDifference D) where
    fill_walk-IsExecution :
        (side : Side) (tick limit : D) (levels : List (PriceLevel D)) (w : Walk D)
        → AllLive levels
        → AllFiniteQty levels
        → IsFinite w.remaining
        → d.nought ≼ w.remaining
        → IsExecution
            (reached side tick limit levels)
            w.remaining
            w.filled
            (fill_walk side tick limit levels w).filled
    unfolding fill_walk
    fill_walk-IsExecution side tick limit [] w live finite fw nw = IsExecution.all_taken tt refl
    fill_walk-IsExecution side tick limit (level ∷ levels) w live finite fw nw =
        subst
          (λ all.
            IsExecution all w.remaining w.filled
              (fill_walk side tick limit (level ∷ levels) w).filled)
          (reached_step side tick limit level levels)
          (at_level (reaches side limit (to_double level.price tick))
            (fill_walk-IsExecution side tick limit levels (taken_by false) live.1 finite.1))
      where
        q : D
        q = level.qty.value

        reach : List (PriceLevel D)
        reach = reached side tick limit levels

        taken : Walk D
        taken = take_level tick level w

        -- by whether less is left than the level has
        taken_by : Bool → Walk D
        taken_by less =
            let fill = if less then w.remaining else q in
            record {
              remaining = d.sub w.remaining fill;
              filled = d.add w.filled fill;
              cost = d.add w.cost (d.mul fill (to_double level.price tick));
            }

        Rest : Type 0
        Rest =
            IsFinite (d.sub w.remaining q)
            → d.nought ≼ d.sub w.remaining q
            → IsExecution reach (d.sub w.remaining q) (d.add w.filled q)
                (fill_walk side tick limit levels (taken_by false)).filled

        go :
            (less done : Bool)
            → Rest
            → d.lt w.remaining q ≡ less
            → d.le (taken_by less).remaining d.tiny ≡ done
            → IsExecution
                (level ∷ reach)
                w.remaining
                w.filled
                (if done
                  then taken_by less
                  else fill_walk side tick limit levels (taken_by less)).filled
        go true true rest l e = IsExecution.last_part [] level reach refl tt l refl
        go true false rest l e = absurd (
            true-ne-false (
              sym (
                subst (λ z. z ≼ d.tiny) (sym (difference.sub_self w.remaining fw))
                  difference.nought-tiny)
              ∙ e))
        go false true rest l e =
            IsExecution.last_whole [] level reach refl tt
              (laws.le_of_not_lt w.remaining q fw finite.0 l) e refl
        go false false rest l e =
            let whole = laws.le_of_not_lt w.remaining q fw finite.0 l in
            then_IsExecution level reach w.remaining w.filled _ e (
              rest
                (difference.finite_sub w.remaining q fw finite.0 (laws.le_of_lt _ _ live.0) whole)
                (difference.sub-nought w.remaining q fw finite.0 whole))

        at_level :
            (hit : Bool)
            → Rest
            → IsExecution
                (if hit then level ∷ reach else [])
                w.remaining
                w.filled
                (if hit
                  then if d.le taken.remaining d.tiny
                    then taken
                    else fill_walk side tick limit levels taken
                  else w).filled
        at_level true rest = go (d.lt w.remaining q) (d.le taken.remaining d.tiny) rest refl refl
        at_level false rest = IsExecution.all_taken tt refl

    against-AllLive : (cap : ℕ) (book : Book D) (side : Side) → AllLive (against cap book side)
    against-AllLive cap book bid = depth-AllLive cap book ask 32
    against-AllLive cap book ask = depth-AllLive cap book bid 32

    -- With the laws of `IsDouble` and `IsDifference`, for an order whose quantity is finite and
    -- not negative, and finite quantities of the levels: of the 32 best offers for a purchase, or
    -- bids for a sale, `simulate` looks at those before the first whose price is not within the
    -- limit. It fills the quantities of all of them, if more than 1e-12 is left after each; or
    -- those of the first ones, after each of which more than 1e-12 is left, and of the next one
    -- all that is left, if it has more, or else its whole quantity, which leaves at most 1e-12.
    -- Sums and remainders are those of the successive additions and subtractions, rounding
    -- included.
    pub simulate-IsExecution :
        (cap : ℕ) (book : Book D) (tick : D) (now : ℤ) (o : NewOrder D)
        → IsFinite o.qty.value
        → d.nought ≼ o.qty.value
        → AllFiniteQty (against cap book o.side)
        → IsExecution
            (reached o.side tick (to_double o.price tick) (against cap book o.side))
            o.qty.value
            d.nought
            (simulate cap o book tick now).exec_qty.value
    unfolding simulate
    simulate-IsExecution cap book tick now o fq nq finite = go o.side finite
      where
        go :
            (side : Side)
            → AllFiniteQty (against cap book side)
            → IsExecution
                (reached side tick (to_double o.price tick) (against cap book side))
                o.qty.value
                d.nought
                (simulate cap (record o { side = side }) book tick now).exec_qty.value
        go bid finite =
            fill_walk-IsExecution bid tick _ (against cap book bid) (walk_start o.qty)
              (against-AllLive cap book bid) finite fq nq
        go ask finite =
            fill_walk-IsExecution ask tick _ (against cap book ask) (walk_start o.qty)
              (against-AllLive cap book ask) finite fq nq
