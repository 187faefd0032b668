-- ===== src/Exec/RiskManager/Limits.antt =====
-- An approved order, filled in whole or in part, keeps the position within its limits.
use trading_bot_v.Prelude.{
  ℕ, ◌≡◌, ◌<◌, refl, sym, ap, ◌∙◌, subst, Bool, true, false, not, ◌&&◌, ◌||◌, leb, if◌then◌else◌,
  if-cases, if-false, if-elim, ==→eq, ◌==◌, ◌↔◌, leb-false, update, arith,
}
use trading_bot_v.Core.Double.{Double, IsDouble, IsFinite, ◌≼◌}
use trading_bot_v.Core.Types.{Qty, Side, bid, ask, max_symbols, to_double}
use trading_bot_v.Exec.OrderTypes.{NewOrder, ExecutionReport}
use trading_bot_v.Exec.RiskManager.{
  Risk, approve, exceeds_cash, exceeds_position, on_fill, projected, signed_qty, is_bid,
}

or-false : (a b : Bool) → (a || b) ≡ false → (a ≡ false) × (b ≡ false)
or-false true b h = cc
or-false false b h = (refl, h)

neither : (a b : Bool) → a ≡ false → b ≡ false → (a || b) ≡ false
neither a b h k = ap (λ z. z || b) h ∙ k

unless :
    (on : Bool) (side : Side) (over : Bool)
    → (on ≡ true → side ≡ bid → over ≡ false)
    → ((on && is_bid side) && over) ≡ false
unless false side over h = refl
unless true bid over h = h refl refl
unless true ask over h = refl

lt→leb : (n i : ℕ) → i < n → leb n i ≡ false
lt→leb n i h = ground arith

module _ {D : Type 0} ⦃d : Double D⦄ where
  -- What `approve` has checked when it answers `true`.
  pub record Approved (r : Risk D) (o : NewOrder D) : Type 0 where
    pub in_range : leb max_symbols o.symbol_id ≡ false
    pub not_above : d.lt (r.max_positions o.symbol_id) (projected r o) ≡ false
    pub not_below : d.lt (projected r o) (d.neg (r.max_positions o.symbol_id)) ≡ false
    pub affordable : exceeds_cash r o ≡ false

  pub approve-Approved : (r : Risk D) (o : NewOrder D) → approve r o ≡ true → Approved r o
  unfolding approve
  approve-Approved r o h = ranged (leb max_symbols o.symbol_id) refl h
    where
      last :
          leb max_symbols o.symbol_id ≡ false
          → exceeds_position r o ≡ false
          → (c : Bool) → exceeds_cash r o ≡ c
          → (if c then false else true) ≡ true
          → Approved r o
      last range inside true e h = cc
      last range inside false e h =
          let both = or-false _ _ inside in
          record { in_range = range; not_above = both.0; not_below = both.1; affordable = e }

      placed :
          leb max_symbols o.symbol_id ≡ false
          → (c : Bool) → exceeds_position r o ≡ c
          → (if c then false else if exceeds_cash r o then false else true) ≡ true
          → Approved r o
      placed range true e h = cc
      placed range false e h = last range e (exceeds_cash r o) refl h

      ranged :
          (c : Bool)
          → leb max_symbols o.symbol_id ≡ c
          → (if c
              then false
              else if exceeds_position r o
              then false
              else if exceeds_cash r o
              then false
              else true)
            ≡ true
          → Approved r o
      ranged true e h = cc
      ranged false e h = placed e (exceeds_position r o) refl h

  -- A symbol's position lies between its limits.
  abbrev pub IsLimited : Risk D → ℕ → Type 0
  IsLimited r id =
      (d.neg (r.max_positions id) ≼ r.positions id) × (r.positions id ≼ r.max_positions id)

  -- a report on the order `o` that fills no more than its quantity
  pub record Fills (o : NewOrder D) (e : ExecutionReport D) : Type 0 where
    pub same_symbol : e.symbol_id ≡ o.symbol_id
    pub same_side : e.side ≡ o.side
    pub from_nought : d.nought ≼ e.exec_qty.value
    pub at_most : e.exec_qty.value ≼ o.qty.value

  -- the values that the comparisons see are numbers, neither infinite nor NaN
  pub record AllFinite (r : Risk D) (o : NewOrder D) (e : ExecutionReport D) : Type 0 where
    pub position_finite : IsFinite (r.positions o.symbol_id)
    pub limit_finite : IsFinite (r.max_positions o.symbol_id)
    pub order_finite : IsFinite o.qty.value
    pub fill_finite : IsFinite e.exec_qty.value
    pub projected_finite : IsFinite (projected r o)

  module _ (laws : IsDouble D) where
    buy_within :
        (p m q x : D)
        → IsFinite p
        → IsFinite m
        → IsFinite q
        → IsFinite x
        → IsFinite (d.add p (d.mul q d.one))
        → d.nought ≼ x
        → x ≼ q
        → d.neg m ≼ p
        → d.lt m (d.add p (d.mul q d.one)) ≡ false
        → (d.neg m ≼ d.add p (d.mul x d.one)) × (d.add p (d.mul x d.one) ≼ m)
    buy_within p m q x fp fm fq fx fs x0 xq low ok = (
      laws.le_trans _ _ _ low
          (subst (λ z. p ≼ d.add p z) (sym (laws.mul_one x fx)) (laws.add-nought_le p x fp fx x0)),
      laws.le_trans _ _ _
          (subst (λ z. d.add p z ≼ d.add p (d.mul q d.one)) (sym (laws.mul_one x fx))
            (subst (λ z. d.add p x ≼ d.add p z) (sym (laws.mul_one q fq))
              (laws.add_mono p x q fp fx fq xq)))
          (laws.le_of_not_lt _ _ fm fs ok),
    )

    sell_within :
        (p m q x : D)
        → IsFinite p
        → IsFinite m
        → IsFinite q
        → IsFinite x
        → IsFinite (d.add p (d.mul q (d.neg d.one)))
        → d.nought ≼ x
        → x ≼ q
        → p ≼ m
        → d.lt (d.add p (d.mul q (d.neg d.one))) (d.neg m) ≡ false
        → (d.neg m ≼ d.add p (d.mul x (d.neg d.one))) × (d.add p (d.mul x (d.neg d.one)) ≼ m)
    sell_within p m q x fp fm fq fx fs x0 xq high ok = (
      laws.le_trans _ _ _ (laws.le_of_not_lt _ _ fs (laws.finite_neg m fm) ok) (
          subst (λ z. d.add p (d.mul q (d.neg d.one)) ≼ d.add p z) (sym (laws.mul-neg_one x fx))
            (subst (λ z. d.add p z ≼ d.add p (d.neg x)) (sym (laws.mul-neg_one q fq))
              (laws.add_mono p (d.neg q) (d.neg x) fp (laws.finite_neg q fq) (laws.finite_neg x fx)
                (laws.neg_anti x q xq)))),
      laws.le_trans _ _ _
          (subst (λ z. d.add p z ≼ p) (sym (laws.mul-neg_one x fx))
            (laws.add-nought_ge p (d.neg x) fp (laws.finite_neg x fx) (laws.neg-nought_le x x0)))
          high,
    )

    moved_within :
        (r : Risk D) (o : NewOrder D) (e : ExecutionReport D) (side : Side)
        → o.side ≡ side
        → Approved r o
        → AllFinite r o e
        → Fills o e
        → IsLimited r o.symbol_id
        → let p : D = d.add (r.positions o.symbol_id) (signed_qty side e.exec_qty) in
          (d.neg (r.max_positions o.symbol_id) ≼ p) × (p ≼ r.max_positions o.symbol_id)
    moved_within r o e bid s ok f part limited =
        buy_within _ _ o.qty.value e.exec_qty.value f.position_finite f.limit_finite f.order_finite
          f.fill_finite
          (subst (λ z. IsFinite (d.add (r.positions o.symbol_id) (signed_qty z o.qty))) s
            f.projected_finite)
          part.from_nought part.at_most limited.0
          (subst
            (λ z.
              d.lt (r.max_positions o.symbol_id)
                (d.add (r.positions o.symbol_id) (signed_qty z o.qty))
              ≡ false)
            s ok.not_above)
    moved_within r o e ask s ok f part limited =
        sell_within _ _ o.qty.value e.exec_qty.value f.position_finite f.limit_finite f.order_finite
          f.fill_finite
          (subst (λ z. IsFinite (d.add (r.positions o.symbol_id) (signed_qty z o.qty))) s
            f.projected_finite)
          part.from_nought part.at_most limited.1
          (subst
            (λ z.
              d.lt (d.add (r.positions o.symbol_id) (signed_qty z o.qty))
                (d.neg (r.max_positions o.symbol_id))
              ≡ false)
            s ok.not_below)

    -- If every symbol's position is between minus and plus its maximum, the order is approved, the
    -- report is on its symbol and side and fills between nothing and its quantity, the values
    -- compared are finite and the arithmetic has the laws of `IsDouble`, then after `onFill` every
    -- symbol's position is between minus and plus its maximum.
    pub on_fill-IsLimited :
        (r : Risk D) (o : NewOrder D) (e : ExecutionReport D)
        → approve r o ≡ true
        → Fills o e
        → AllFinite r o e
        → ((id : ℕ) → IsLimited r id)
        → (id : ℕ) → IsLimited (on_fill e r) id
    unfolding on_fill
    on_fill-IsLimited r o e accepted part f limited id =
        if-elim (λ s. IsLimited s id) (not e.is_fill || leb max_symbols e.symbol_id) (limited id)
          (if-elim (λ s. IsLimited s id) r.cash_enabled moved moved)
      where
        at_symbol :
            (d.neg (r.max_positions e.symbol_id)
              ≼ d.add (r.positions e.symbol_id) (signed_qty e.side e.exec_qty))
            × (d.add (r.positions e.symbol_id) (signed_qty e.side e.exec_qty)
                ≼ r.max_positions e.symbol_id)
        at_symbol =
            subst
              (λ i.
                (d.neg (r.max_positions i) ≼ d.add (r.positions i) (signed_qty e.side e.exec_qty))
                × (d.add (r.positions i) (signed_qty e.side e.exec_qty) ≼ r.max_positions i))
              (sym part.same_symbol)
              (moved_within r o e e.side (sym part.same_side) (approve-Approved r o accepted) f part
                (limited o.symbol_id))

        moved :
            let p : D =
              update r.positions e.symbol_id
                (d.add (r.positions e.symbol_id) (signed_qty e.side e.exec_qty))
                id in
            (d.neg (r.max_positions id) ≼ p) × (p ≼ r.max_positions id)
        moved =
            if-cases (λ p. (d.neg (r.max_positions id) ≼ p) × (p ≼ r.max_positions id))
              (e.symbol_id == id)
              (λ same.
                subst
                  (λ i.
                    (d.neg (r.max_positions i)
                      ≼ d.add (r.positions e.symbol_id) (signed_qty e.side e.exec_qty))
                    × (d.add (r.positions e.symbol_id) (signed_qty e.side e.exec_qty)
                        ≼ r.max_positions i))
                  (==→eq _ _ same) at_symbol)
              (λ apart. limited id)

  abbrev pub order_value : Risk D → NewOrder D → D
  order_value r o = d.mul o.qty.value (to_double o.price r.tick)

  -- the position after a purchase or a sale of a quantity
  abbrev pub held_after : Side → D → D → D
  held_after bid p q = d.add p q
  held_after ask p q = d.add p (d.neg q)

  -- the symbol is in range, the position after the whole order is within both limits, and a purchase
  -- with the cash check on is paid for
  pub record IsAcceptable (r : Risk D) (o : NewOrder D) : Type 0 where
    pub in_range : o.symbol_id < 64
    pub not_above :
        d.lt (r.max_positions o.symbol_id) (held_after o.side (r.positions o.symbol_id) o.qty.value)
        ≡ false
    pub not_below :
        d.lt
          (held_after o.side (r.positions o.symbol_id) o.qty.value)
          (d.neg (r.max_positions o.symbol_id))
        ≡ false
    pub paid_for :
        r.cash_enabled ≡ true
        → o.side ≡ bid
        → d.lt (r.cash o.symbol_id) (d.mul o.qty.value (to_double o.price r.tick)) ≡ false

  module _ (laws : IsDouble D) where
    signed_qty_lem :
        (side : Side) (p : D) (qty : Qty D)
        → IsFinite qty.value
        → d.add p (signed_qty side qty) ≡ held_after side p qty.value
    signed_qty_lem bid p qty f = ap (d.add p) (laws.mul_one qty.value f)
    signed_qty_lem ask p qty f = ap (d.add p) (laws.mul-neg_one qty.value f)

    -- With the laws of `IsDouble`, for an order with a finite quantity, `approve` answers true
    -- exactly when the symbol is below 64, the position plus the quantity of a purchase, or plus
    -- the negative quantity of a sale, is neither above the symbol's maximum nor below minus it,
    -- and, for a purchase with the cash check on, the quantity times the limit price does not
    -- exceed the symbol's cash.
    pub approve_iff :
        (r : Risk D) (o : NewOrder D)
        → IsFinite o.qty.value
        → (approve r o ≡ true) ↔ IsAcceptable r o
    unfolding approve
    approve_iff r o finite = (checked, passes)
      where
        after : projected r o ≡ held_after o.side (r.positions o.symbol_id) o.qty.value
        after = signed_qty_lem o.side (r.positions o.symbol_id) o.qty finite

        over : D → Bool
        over = d.lt (r.max_positions o.symbol_id)

        under : D → Bool
        under x = d.lt x (d.neg (r.max_positions o.symbol_id))

        dear : Bool
        dear = d.lt (r.cash o.symbol_id) (d.mul o.qty.value (to_double o.price r.tick))

        checked : approve r o ≡ true → IsAcceptable r o
        checked h =
            let ok = approve-Approved r o h in
            record {
              in_range = leb-false 64 o.symbol_id ok.in_range;
              not_above = ap over (sym after) ∙ ok.not_above;
              not_below = ap under (sym after) ∙ ok.not_below;
              paid_for = λ on buying.
                  sym
                    (ap (λ z. (z && is_bid o.side) && dear) on ∙ ap (λ z. is_bid z && dear) buying)
                  ∙ ok.affordable;
            }

        passes : IsAcceptable r o → approve r o ≡ true
        passes ok =
            if-false _ _ _ (lt→leb 64 o.symbol_id ok.in_range)
            ∙ if-false _ _ _
                (neither _ _ (ap over after ∙ ok.not_above) (ap under after ∙ ok.not_below))
            ∙ if-false _ _ _ (unless r.cash_enabled o.side _ ok.paid_for)
