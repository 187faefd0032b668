-- ===== src/Strategy/ImbalanceStrategy.antt =====
-- strategy/imbalance_strategy.hpp and src/strategy/imbalance_strategy.cpp, `class
-- ImbalanceStrategy`: signals from the imbalance of the sizes on the two sides of the book.
pub mod Window
pub mod Recent
pub mod Entry
mod Tests
use trading_bot_v.Prelude.{
  ℕ, ◌+◌, ◌%◌, ℤ, ◌-ℤ◌, pos, Bool, true, false, not, ◌&&◌, ◌||◌, Option, none, some, List, [], ◌∷◌,
  leb, ltb, ◌==◌, if◌then◌else◌, update, for_range,
}
use trading_bot_v.Core.Double.{Double}
use trading_bot_v.Core.Types.{PriceLevel, Side, bid, ask, invalid_symbol_id, max_symbols, to_double}
use trading_bot_v.Md.BoundedBook.{Book, depth}
use trading_bot_v.Exec.OrderTypes.{ExecutionReport}
use trading_bot_v.Strategy.Signals.{Signal, StrategyParams, is_actionable, no_signal}
use trading_bot_v.Strategy.PnlTracker
use trading_bot_v.Strategy.PnlTracker.{PnlState, empty_state, seed_cash}
use trading_bot_v.Strategy.OrderSizer.{compute_order}

abbrev pub max_depth : ℕ
max_depth = 32

abbrev pub max_rolling : ℕ
max_rolling = 32

pub record Strategy (D : Type 0) : Type 0 where
  pub params : StrategyParams D
  pub symbol : ℕ
  pub tick_size : D
  pub rolling : ℕ → D
  pub rolling_count : ℕ
  pub rolling_head : ℕ
  pub pnl : ℕ → PnlState D
  pub last_trade_ns : ℤ
  pub skip_next_signal : Bool

-- `if (n == 0) n = 1; if (n > limit) n = limit;`
abbrev pub clamp : ℕ → ℕ → ℕ
clamp limit n = let m = if n == 0 then 1 else n in if ltb limit m then limit else m

-- what the strategy reads off the book
pub record Quote (D : Type 0) : Type 0 where
  pub best_bid : D
  pub best_ask : D
  pub mid : D
  pub spread_bps : D
  pub imbalance : D

module _ {D : Type 0} ⦃d : Double D⦄ where
  -- the constructor, with the members' initial values
  unfoldable pub imbalance_strategy : StrategyParams D → Strategy D
  imbalance_strategy params = record {
    params = record params {
      smoothing_window = clamp max_rolling params.smoothing_window;
      depth_levels = clamp max_depth params.depth_levels;
    };
    symbol = invalid_symbol_id;
    tick_size = d.nought;
    rolling = λ _. d.nought;
    rolling_count = 0;
    rolling_head = 0;
    pnl = λ _. empty_state;
    last_trade_ns = pos 0;
    skip_next_signal = false;
  }

  unfoldable pub set_symbol : ℕ → D → Strategy D → Strategy D
  set_symbol id tick_size s = record s { symbol = id; tick_size = tick_size }

  unfoldable pub set_initial_cash : D → Strategy D → Strategy D
  set_initial_cash cash s =
      if ltb s.symbol max_symbols then record s { pnl = seed_cash s.symbol cash s.pnl } else s

  unfoldable pub strategy_fill : ExecutionReport D → Strategy D → Strategy D
  strategy_fill r s = record s { pnl = PnlTracker.on_fill r s.tick_size s.pnl }

  unfoldable pub on_reconnect : Strategy D → Strategy D
  on_reconnect s = record s { rolling_count = 0; rolling_head = 0; skip_next_signal = true }

  abbrev pub state : Strategy D → PnlState D
  state s = if ltb s.symbol max_symbols then s.pnl s.symbol else empty_state

  unfoldable pub emit : Signal D → ℤ → Strategy D → Signal D × Strategy D
  emit sig now s =
      if is_actionable sig
      then (record sig { ts = now }, record s { last_trade_ns = now })
      else (no_signal, s)

  abbrev pub sum_sizes : D → List (PriceLevel D) → D
  sum_sizes x [] = x
  sum_sizes x (level ∷ levels) = sum_sizes (d.add x level.qty.value) levels

  -- Nothing is read off a book with an empty side, a crossed or locked one, or one without size.
  unfoldable pub read_quote : D → List (PriceLevel D) → List (PriceLevel D) → Option (Quote D)
  read_quote tick_size [] asks = none
  read_quote tick_size (b ∷ bids) [] = none
  read_quote tick_size (b ∷ bids) (a ∷ asks) =
      let best_bid = to_double b.price tick_size in
      let best_ask = to_double a.price tick_size in
      let mid = d.mul (d.add best_bid best_ask) d.half in
      let bid_sz = sum_sizes d.nought (b ∷ bids) in
      let ask_sz = sum_sizes d.nought (a ∷ asks) in
      let denom = d.add bid_sz ask_sz in
      if d.le best_ask best_bid || d.le denom d.nought
      then none
      else some (record {
        best_bid = best_bid;
        best_ask = best_ask;
        mid = mid;
        spread_bps = d.mul (d.div (d.sub best_ask best_bid) mid) d.ten_thousand;
        imbalance = d.div (d.sub bid_sz ask_sz) denom;
      })

  unfoldable pub roll : D → Strategy D → Strategy D
  roll imbalance s = record s {
    rolling = update s.rolling s.rolling_head imbalance;
    rolling_head = (s.rolling_head + 1) % s.params.smoothing_window;
    rolling_count =
        if ltb s.rolling_count s.params.smoothing_window
        then s.rolling_count + 1
        else s.rolling_count;
  }

  unfoldable pub smoothed : Strategy D → D
  smoothed s =
      d.div (for_range s.rolling_count 0 (λ i acc. d.add acc (s.rolling i)) d.nought)
        (d.of_int (pos s.rolling_count))

  -- take-profit and stop-loss
  abbrev pub leaves : Strategy D → D → Bool
  leaves s move_bps =
      d.le s.params.take_profit_bps move_bps || d.le move_bps (d.neg s.params.stop_loss_bps)

  abbrev pub seconds_since_trade : ℤ → Strategy D → D
  seconds_since_trade now s = d.div (d.of_int (now -ℤ s.last_trade_ns)) d.billion

  unfoldable pub open_signal : ℕ → Book D → Quote D → D → ℤ → Strategy D → Signal D × Strategy D
  unfolding emit
  open_signal cap book q smooth now s =
      let target = d.div (d.mul s.params.trade_fraction (state s).cash) q.mid in
      if d.lt (seconds_since_trade now s) s.params.cooldown_s
      then (no_signal, s)
      else if d.lt s.params.max_spread_bps q.spread_bps
      then (no_signal, s)
      else if d.le (state s).cash d.nought
      then (no_signal, s)
      else if d.lt s.params.entry_imbalance smooth
      then emit (compute_order cap book s.tick_size bid target) now s
      else if s.params.allow_short && d.lt smooth (d.neg s.params.entry_imbalance)
      then emit (compute_order cap book s.tick_size ask target) now s
      else (no_signal, s)

  unfoldable pub decide : ℕ → Book D → Quote D → D → ℤ → Strategy D → Signal D × Strategy D
  unfolding open_signal emit
  decide cap book q smooth now s =
      let p = state s in
      let gain = d.mul (d.div (d.sub q.best_bid p.avg_entry) p.avg_entry) d.ten_thousand in
      let short_gain = d.mul (d.div (d.sub p.avg_entry q.best_ask) p.avg_entry) d.ten_thousand in
      if d.lt d.nought p.position
      then if leaves s gain
        then emit (compute_order cap book s.tick_size ask p.position) now s
        else (no_signal, s)
      else if d.lt p.position d.nought
      then if leaves s short_gain
        then emit (compute_order cap book s.tick_size bid (d.neg p.position)) now s
        else (no_signal, s)
      else open_signal cap book q smooth now s

  unfoldable pub on_quote : ℕ → Book D → ℤ → Option (Quote D) → Strategy D → Signal D × Strategy D
  unfolding roll smoothed decide
  on_quote cap book now none s = (no_signal, s)
  on_quote cap book now (some q) s =
      let rolled = roll q.imbalance s in
      if rolled.skip_next_signal
      then (no_signal, record rolled { skip_next_signal = false })
      else decide cap book q (smoothed rolled) now rolled

  unfoldable pub on_market_update : ℕ → Book D → ℤ → Strategy D → Signal D × Strategy D
  unfolding read_quote on_quote
  on_market_update cap book now s =
      on_quote cap book now
        (read_quote s.tick_size (depth cap book bid s.params.depth_levels)
          (depth cap book ask s.params.depth_levels))
        s
