-- ===== src/Exec/RiskManager/Tests.antt =====
-- Each property of the risk manager at a concrete one, in thousandths.
use trading_bot_v.Prelude.{◌≡◌, ◌↔◌, ◌+ℤ◌, ◌*ℤ◌, refl, true, pos}
use trading_bot_v.Core.Double.{Milli, milli_double, Milli-IsDouble}
use trading_bot_v.Core.Types.{bid}
use trading_bot_v.Exec.OrderTypes.{NewOrder, ExecutionReport}
use trading_bot_v.Exec.RiskManager.{Risk, approve, on_fill}
use trading_bot_v.Exec.RiskManager.Limits.{approve_iff, on_fill-IsLimited, IsLimited, IsAcceptable}

-- at most 5 of each symbol, with 100 in cash, at a tick of 0.01
abbrev risk : Risk Milli
risk = record {
  positions = λ _. pos 2000;
  max_positions = λ _. pos 5000;
  cash = λ _. pos 100_000;
  tick = pos 10;
  cash_enabled = true;
}

-- 3 at 20.00
abbrev order : NewOrder Milli
order = record {
  id = 1;
  symbol_id = 7;
  side = bid;
  price = record { ticks = pos 2000 };
  qty = record { value = pos 3000 };
  created_ns = pos 0;
}

-- 2 of them, at 19.50
abbrev fill : ExecutionReport Milli
fill = record {
  id = 1;
  symbol_id = 7;
  side = bid;
  is_fill = true;
  exec_price = record { ticks = pos 1950 };
  exec_qty = record { value = pos 2000 };
  completed_ns = pos 9;
}

on_fill-IsLimited_example : IsLimited (on_fill fill risk) 7
unfolding approve ◌+ℤ◌ ◌*ℤ◌
on_fill-IsLimited_example =
    on_fill-IsLimited Milli-IsDouble risk order fill refl
      record { same_symbol = refl; same_side = refl; from_nought = refl; at_most = refl }
      record {
        position_finite = refl;
        limit_finite = refl;
        order_finite = refl;
        fill_finite = refl;
        projected_finite = refl;
      }
      (λ id. (refl, refl)) 7

approve_iff_example : (approve risk order ≡ true) ↔ IsAcceptable risk order
approve_iff_example = approve_iff Milli-IsDouble risk order refl
