-- ===== src/Runtime/Safety.antt =====
-- The position limits over the calls of the two threads, however they alternate, and the fills that
-- can break them.
use trading_bot_v.Prelude.{ℕ, ◌≡◌, Bool, true, false, ◌&&◌, List, [], ◌∷◌, ◌++◌}
use trading_bot_v.Core.Double.{Double}
use trading_bot_v.Exec.OrderTypes.{ExecutionReport, NewOrder}
use trading_bot_v.Exec.RiskManager.{Risk, approve, on_fill, projected}
use trading_bot_v.Exec.RiskManager.Limits.{IsLimited}
use trading_bot_v.Runtime.State.{Runtime}
use trading_bot_v.Runtime.Steps.{Execution, Step, report_of, run_steps}

module _ {D : Type 0} ⦃d : Double D⦄ where
  -- every position is within its limits
  abbrev pub IsSafe : Runtime D → Type 0
  IsSafe rt = (id : ℕ) → IsLimited rt.risk id

  -- A report fills no more than its order, and the values that the limits see are finite.
  abbrev pub fits : Risk D → NewOrder D → ExecutionReport D → Bool
  fits r o e =
      d.le e.exec_qty.value o.qty.value
      && (d.finite (r.positions o.symbol_id)
          && (d.finite (r.max_positions o.symbol_id)
              && (d.finite o.qty.value && (d.finite e.exec_qty.value && d.finite (projected r o)))))

  -- From `rt` to `rt'` an approved order was booked with a report that does not fit it.
  pub record Misfit (rt rt' : Runtime D) : Type 0 where
    pub of : Execution D
    pub approved : approve rt.risk of.order ≡ true
    pub booked : rt'.risk ≡ on_fill (report_of rt of) rt.risk
    pub misfit : fits rt.risk of.order (report_of rt of) ≡ false

  -- One of the steps, with every position within its limits before it, booked such a report.
  pub record Overfilled (rt : Runtime D) (steps : List (Step D)) : Type 0 where
    pub before : List (Step D)
    pub step : Step D
    pub after : List (Step D)
    pub whole : steps ≡ before ++ (step ∷ after)
    pub safe_before : IsSafe (run_steps rt before)
    pub misfit : Misfit (run_steps rt before) (run_steps rt (before ++ (step ∷ [])))
