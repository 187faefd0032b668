-- ===== src/Exec/RiskManager.antt =====
-- exec/risk_manager.hpp, `class RiskManager`: the position and cash limits of each symbol.
pub mod Limits
mod Tests
use trading_bot_v.Prelude.{ℕ, Bool, true, false, ◌&&◌, ◌||◌, not, leb, if◌then◌else◌, update}
use trading_bot_v.Core.Double.{Double}
use trading_bot_v.Core.Types.{Price, Qty, Side, bid, ask, max_symbols, to_double}
use trading_bot_v.Exec.OrderTypes.{NewOrder, ExecutionReport}

pub record Risk (D : Type 0) : Type 0 where
  pub positions : ℕ → D
  pub max_positions : ℕ → D
  pub cash : ℕ → D
  pub tick : D
  pub cash_enabled : Bool

abbrev pub is_bid : Side → Bool
is_bid bid = true
is_bid ask = false

module _ {D : Type 0} ⦃d : Double D⦄ where
  -- the members' initial values
  abbrev pub risk_manager : Risk D
  risk_manager = record {
    positions = λ _. d.nought;
    max_positions = λ _. d.nought;
    cash = λ _. d.nought;
    tick = d.nought;
    cash_enabled = false;
  }

  -- `initialCash >= 0.0` turns the cash check on, for every symbol.
  unfoldable pub configure : ℕ → D → D → D → Risk D → Risk D
  configure id max_position initial_cash tick_size r =
      if leb max_symbols id
      then r
      else let limited : Risk D = record r {
        max_positions = update r.max_positions id max_position;
      } in
        if d.le d.nought initial_cash
        then record limited {
          cash = update r.cash id initial_cash;
          cash_enabled = true;
          tick = tick_size;
        }
        else limited

  -- `qty * (side == Side::Bid ? 1.0 : -1.0)`
  abbrev pub signed_qty : Side → Qty D → D
  signed_qty side qty = d.mul qty.value (if is_bid side then d.one else d.neg d.one)

  abbrev pub projected : Risk D → NewOrder D → D
  projected r o = d.add (r.positions o.symbol_id) (signed_qty o.side o.qty)

  abbrev pub exceeds_position : Risk D → NewOrder D → Bool
  exceeds_position r o =
      d.lt (r.max_positions o.symbol_id) (projected r o)
      || d.lt (projected r o) (d.neg (r.max_positions o.symbol_id))

  abbrev pub exceeds_cash : Risk D → NewOrder D → Bool
  exceeds_cash r o =
      (r.cash_enabled && is_bid o.side)
      && d.lt (r.cash o.symbol_id) (d.mul o.qty.value (to_double o.price r.tick))

  unfoldable pub approve : Risk D → NewOrder D → Bool
  approve r o =
      if leb max_symbols o.symbol_id
      then false
      else if exceeds_position r o
      then false
      else if exceeds_cash r o
      then false
      else true

  unfoldable pub on_fill : ExecutionReport D → Risk D → Risk D
  on_fill e r =
      if not e.is_fill || leb max_symbols e.symbol_id
      then r
      else let signed : D = signed_qty e.side e.exec_qty in
        let moved : Risk D = record r {
          positions = update r.positions e.symbol_id (d.add (r.positions e.symbol_id) signed);
        } in
        if r.cash_enabled
        then record moved {
          cash =
              update r.cash e.symbol_id
                (d.sub (r.cash e.symbol_id) (d.mul signed (to_double e.exec_price r.tick)));
        }
        else moved

  unfoldable pub position : Risk D → ℕ → D
  position r id = if leb max_symbols id then d.nought else r.positions id

  unfoldable pub cash_of : Risk D → ℕ → D
  cash_of r id = if leb max_symbols id then d.nought else r.cash id
