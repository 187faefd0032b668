-- ===== src/Strategy/ImbalanceStrategy/Window.antt =====
-- The rolling window of imbalances: its indexes stay in range, and it holds the latest imbalances.
use native.Mathlib.Nat.{mod-lt}
use trading_bot_v.Prelude.{
  ℕ, ◌+◌, ◌≤◌, ◌<◌, ℤ, Bool, false, ◌&&◌, Option, none, some, List, [], ◌∷◌, arith, if-elim,
}
use trading_bot_v.Core.Double.{Double}
use trading_bot_v.Md.BoundedBook.{Book}
use trading_bot_v.Exec.OrderTypes.{ExecutionReport}
use trading_bot_v.Strategy.Signals.{no_signal, Signal, StrategyParams, is_actionable}
use trading_bot_v.Core.Types.{Side, bid, ask}
use trading_bot_v.Strategy.OrderSizer.{compute_order}
use trading_bot_v.Strategy.PnlTracker.{PnlState}
use trading_bot_v.Strategy.ImbalanceStrategy.{
  Quote, Strategy, smoothed, state, leaves, seconds_since_trade, clamp, decide, emit,
  imbalance_strategy, on_market_update, on_quote, on_reconnect, open_signal, roll, strategy_fill,
}

-- the events that the runtime passes on
pub data StrategyEvent (D : Type 0) : Type 0 where
  market : Book D → ℤ → StrategyEvent D
  fill : ExecutionReport D → StrategyEvent D
  reconnect : StrategyEvent D

clamp_bounds : (limit n : ℕ) → 0 < limit → (0 < clamp limit n) × (clamp limit n ≤ limit)
clamp_bounds limit n h = (ground arith, ground arith)

module _ {D : Type 0} ⦃d : Double D⦄ (cap : ℕ) where
  unfoldable pub run_events : Strategy D → List (StrategyEvent D) → Strategy D
  run_events s [] = s
  run_events s (StrategyEvent.market book now ∷ events) =
      run_events (on_market_update cap book now s).1 events
  run_events s (StrategyEvent.fill r ∷ events) = run_events (strategy_fill r s) events
  run_events s (StrategyEvent.reconnect ∷ events) = run_events (on_reconnect s) events

  -- Every index that the strategy uses is within its array, and no remainder is by 0.
  pub record IsStrategy (s : Strategy D) : Type 0 where
    pub window_pos : 0 < s.params.smoothing_window
    pub window_le : s.params.smoothing_window ≤ 32
    pub depth_pos : 0 < s.params.depth_levels
    pub depth_le : s.params.depth_levels ≤ 32
    pub head_lt : s.rolling_head < s.params.smoothing_window
    pub count_le : s.rolling_count ≤ s.params.smoothing_window

  pub imbalance_strategy-IsStrategy : (p : StrategyParams D) → IsStrategy (imbalance_strategy p)
  unfolding imbalance_strategy
  imbalance_strategy-IsStrategy p =
      let w = clamp_bounds 32 p.smoothing_window (omega arith) in
      let n = clamp_bounds 32 p.depth_levels (omega arith) in
      record {
        window_pos = w.0;
        window_le = w.1;
        depth_pos = n.0;
        depth_le = n.1;
        head_lt = w.0;
        count_le = omega arith;
      }

  pub roll-IsStrategy : (x : D) {s : Strategy D} → IsStrategy s → IsStrategy (roll x s)
  unfolding roll
  roll-IsStrategy x {s} v = record {
    window_pos = v.window_pos;
    window_le = v.window_le;
    depth_pos = v.depth_pos;
    depth_le = v.depth_le;
    head_lt = mod-lt (s.rolling_head + 1) v.window_pos;
    count_le = ground (arith, v.count_le);
  }

  -- the time of the last trade and the flag do not matter to the invariant
  with_trade :
      (now : ℤ) (b : Bool) {s : Strategy D}
      → IsStrategy s
      → IsStrategy (record s { last_trade_ns = now; skip_next_signal = b })
  with_trade now b v = record {
    window_pos = v.window_pos;
    window_le = v.window_le;
    depth_pos = v.depth_pos;
    depth_le = v.depth_le;
    head_lt = v.head_lt;
    count_le = v.count_le;
  }

  -- What holds of no signal and of each order that is emitted holds of every decision.
  module _ {κ} (Holds : Signal D × Strategy D → Type κ) (book : Book D) (now : ℤ)
      (s : Strategy D) where
    abbrev ForOrders : Type κ
    ForOrders =
        (side : Side) (target : D)
        → Holds (emit (compute_order cap book s.tick_size side target) now s)

    open_signal_rule :
        (q : Quote D) (x : D)
        → Holds (no_signal, s)
        → ForOrders
        → Holds (open_signal cap book q x now s)
    unfolding open_signal
    open_signal_rule q x idle order =
        if-elim Holds (d.lt (seconds_since_trade now s) s.params.cooldown_s) idle (
          if-elim Holds (d.lt s.params.max_spread_bps q.spread_bps) idle (
            if-elim Holds (d.le (state s).cash d.nought) idle (
              if-elim Holds (d.lt s.params.entry_imbalance x) (order bid target) (
                if-elim Holds (s.params.allow_short && d.lt x (d.neg s.params.entry_imbalance))
                  (order ask target) idle))))
      where
        target : D
        target = d.div (d.mul s.params.trade_fraction (state s).cash) q.mid

    pub decide_rule :
        (q : Quote D) (x : D) → Holds (no_signal, s) → ForOrders → Holds (decide cap book q x now s)
    unfolding decide
    decide_rule q x idle order =
        if-elim Holds (d.lt d.nought p.position)
          (if-elim Holds (leaves s gain) (order ask p.position) idle)
          (if-elim Holds (d.lt p.position d.nought)
            (if-elim Holds (leaves s short_gain) (order bid (d.neg p.position)) idle)
            (open_signal_rule q x idle order))
      where
        p : PnlState D
        p = state s

        gain : D
        gain = d.mul (d.div (d.sub q.best_bid p.avg_entry) p.avg_entry) d.ten_thousand

        short_gain : D
        short_gain = d.mul (d.div (d.sub p.avg_entry q.best_ask) p.avg_entry) d.ten_thousand

  -- a result whose strategy is one
  record Good (r : Signal D × Strategy D) : Type 0 where
    good : IsStrategy r.1

  keep : (sig : Signal D) {s : Strategy D} → IsStrategy s → Good (sig, s)
  keep sig v = record { good = v }

  emit-Good : (sig : Signal D) (now : ℤ) {s : Strategy D} → IsStrategy s → Good (emit sig now s)
  unfolding emit
  emit-Good sig now {s} v =
      if-elim Good (is_actionable sig)
        (keep (record sig { ts = now }) (with_trade now s.skip_next_signal v)) (keep no_signal v)

  on_quote-Good :
      (book : Book D) (now : ℤ) (o : Option (Quote D)) {s : Strategy D}
      → IsStrategy s
      → Good (on_quote cap book now o s)
  unfolding on_quote
  on_quote-Good book now none v = keep no_signal v
  on_quote-Good book now (some q) {s} v =
      let rolled = roll-IsStrategy q.imbalance v in
      if-elim Good s.skip_next_signal (keep no_signal (with_trade s.last_trade_ns false rolled)) (
        decide_rule Good book now (roll q.imbalance s) q (smoothed (roll q.imbalance s))
          (keep no_signal rolled)
          (λ side target. emit-Good (compute_order cap book s.tick_size side target) now rolled))

  pub reconnect-IsStrategy : {s : Strategy D} → IsStrategy s → IsStrategy (on_reconnect s)
  unfolding on_reconnect
  reconnect-IsStrategy v = record {
    window_pos = v.window_pos;
    window_le = v.window_le;
    depth_pos = v.depth_pos;
    depth_le = v.depth_le;
    head_lt = v.window_pos;
    count_le = omega arith;
  }

  fill-IsStrategy :
      (r : ExecutionReport D) {s : Strategy D} → IsStrategy s → IsStrategy (strategy_fill r s)
  unfolding strategy_fill
  fill-IsStrategy r v = record {
    window_pos = v.window_pos;
    window_le = v.window_le;
    depth_pos = v.depth_pos;
    depth_le = v.depth_le;
    head_lt = v.head_lt;
    count_le = v.count_le;
  }

  events-IsStrategy :
      (events : List (StrategyEvent D)) {s : Strategy D}
      → IsStrategy s
      → IsStrategy (run_events s events)
  unfolding run_events on_market_update
  events-IsStrategy [] v = v
  events-IsStrategy (StrategyEvent.market book now ∷ events) v =
      events-IsStrategy events (on_quote-Good book now _ v).good
  events-IsStrategy (StrategyEvent.fill r ∷ events) v =
      events-IsStrategy events (fill-IsStrategy r v)
  events-IsStrategy (StrategyEvent.reconnect ∷ events) v =
      events-IsStrategy events (reconnect-IsStrategy v)

  -- From the constructor, whatever the parameters and the events, the window's length and the
  -- depth are between 1 and 32, the next index is below the window's length and the count is at
  -- most that length.
  pub run_events-IsStrategy :
      (p : StrategyParams D) (events : List (StrategyEvent D))
      → IsStrategy (run_events (imbalance_strategy p) events)
  run_events-IsStrategy p events = events-IsStrategy events (imbalance_strategy-IsStrategy p)
