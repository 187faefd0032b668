-- ===== src/Strategy/PnlTracker.antt =====
-- strategy/pnl_tracker.hpp, `class PnlTracker`: cash, position, entry price and realized profit of
-- each symbol.
pub mod Flat
mod Tests
use trading_bot_v.Prelude.{ℕ, Bool, true, false, not, ◌&&◌, ◌||◌, leb, if◌then◌else◌, update}
use trading_bot_v.Core.Double.{Double, min_double}
use trading_bot_v.Core.Types.{Price, max_symbols, to_double}
use trading_bot_v.Exec.OrderTypes.{ExecutionReport}
use trading_bot_v.Exec.RiskManager.{signed_qty}

pub record PnlState (D : Type 0) : Type 0 where
  pub cash : D
  pub position : D
  pub avg_entry : D
  pub realized : D

-- `a == b` and `a != b` on truth values
abbrev pub same_truth : Bool → Bool → Bool
same_truth true b = b
same_truth false b = not b

module _ {D : Type 0} ⦃d : Double D⦄ where
  -- the members' initial values
  abbrev pub empty_state : PnlState D
  empty_state = record {
    cash = d.nought;
    position = d.nought;
    avg_entry = d.nought;
    realized = d.nought;
  }

  unfoldable pub seed_cash : ℕ → D → (ℕ → PnlState D) → ℕ → PnlState D
  seed_cash id cash states =
      if leb max_symbols id then states else update states id (record (states id) { cash = cash })

  -- `std::abs(x) <= 1e-12`
  abbrev pub is_tiny : D → Bool
  is_tiny x = d.le (d.abs x) d.tiny

  abbrev pub same_direction : D → D → Bool
  same_direction pos signed =
      d.eq pos d.nought || same_truth (d.lt d.nought pos) (d.lt d.nought signed)

  abbrev pub flipped : D → D → Bool
  flipped pos new_pos =
      not (d.eq new_pos d.nought) && not (same_truth (d.lt d.nought new_pos) (d.lt d.nought pos))

  -- A fill that opens or adds to a position averages its entry price.
  unfoldable pub open_position : D → D → D → PnlState D → PnlState D
  open_position px signed new_pos s =
      let total_cost = d.add (d.mul s.avg_entry (d.abs s.position)) (d.mul px (d.abs signed)) in
      record s {
        avg_entry =
            if d.lt d.tiny (d.abs new_pos) then d.div total_cost (d.abs new_pos) else d.nought;
      }

  -- One that reduces, closes or turns it realizes the profit on what it closes.
  unfoldable pub close_position : D → D → D → PnlState D → PnlState D
  close_position px signed new_pos s =
      let close_qty = min_double (d.abs signed) (d.abs s.position) in
      let direction = if d.lt d.nought s.position then d.one else d.neg d.one in
      record s {
        realized = d.add s.realized (d.mul (d.mul direction (d.sub px s.avg_entry)) close_qty);
        avg_entry =
            if flipped s.position new_pos
            then px
            else if is_tiny new_pos
            then d.nought
            else s.avg_entry;
      }

  unfoldable pub fill_state : D → D → PnlState D → PnlState D
  unfolding open_position close_position
  fill_state px signed s =
      let new_pos = d.add s.position signed in
      let paid : PnlState D = record s { cash = d.sub s.cash (d.mul signed px) } in
      let entered : PnlState D =
        if same_direction s.position signed
        then open_position px signed new_pos paid
        else close_position px signed new_pos paid in
      record entered { position = if is_tiny new_pos then d.nought else new_pos }

  unfoldable pub on_fill : ExecutionReport D → D → (ℕ → PnlState D) → ℕ → PnlState D
  unfolding fill_state
  on_fill r tick_size states =
      if not r.is_fill || leb max_symbols r.symbol_id
      then states
      else update states r.symbol_id (
          fill_state (to_double r.exec_price tick_size) (signed_qty r.side r.exec_qty)
            (states r.symbol_id))

  unfoldable pub unrealized : ℕ → Price → D → (ℕ → PnlState D) → D
  unrealized id mark tick_size states =
      let s = states id in
      if d.eq s.position d.nought
      then d.nought
      else d.mul s.position (d.sub (to_double mark tick_size) s.avg_entry)
