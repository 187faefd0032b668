-- ===== src/Runtime/Orders.antt =====
-- src/core/runtime.cpp: the constructor of `class Runtime`, `dispatchOrder` and `publishPnl`.
use trading_bot_v.Prelude.{[], ◌∷◌, ℕ, ℤ, pos, ◌-ℤ◌, Bool, false, if◌then◌else◌}
use trading_bot_v.Core.Double.{Double}
use trading_bot_v.Core.Types.{Side, bid, ask}
use trading_bot_v.Md.BoundedBook.{initial}
use trading_bot_v.Util.HdrHistogram.{record_ns, empty_histogram}
use trading_bot_v.Exec.OrderTypes.{ExecutionReport, NewOrder}
use trading_bot_v.Exec.RiskManager
use trading_bot_v.Exec.RiskManager.{approve, configure, risk_manager}
use trading_bot_v.Exec.CircuitBreaker.{circuit_breaker, is_tripped, record_error}
use trading_bot_v.Exec.ExecutionEngine.{simulate}
use trading_bot_v.Strategy.Signals.{Signal, SignalAction}
use trading_bot_v.Strategy.ImbalanceStrategy.{
  imbalance_strategy, set_initial_cash, set_symbol, state, strategy_fill,
}
use trading_bot_v.Runtime.State.{MarketEvent, Metrics, Runtime, RuntimeConfig, bump}

abbrev pub book_capacity : ℕ
book_capacity = 4096

-- the readings of the clock within one event, in the order in which they are taken
pub record Times : Type 0 where
  pub book_start : ℤ
  pub book_done : ℤ
  pub signal_done : ℤ
  pub order_done : ℤ
  pub simulated : ℤ
  pub fill_done : ℤ

abbrev pub signal_side : SignalAction → Side
signal_side SignalAction.buy = bid
signal_side _ = ask

abbrev pub count_if : Bool → ℕ → ℕ
count_if b n = if b then bump n else n

abbrev pub no_metrics : Metrics
no_metrics = record {
  wire_to_parse = empty_histogram;
  parse_to_book = empty_histogram;
  book_to_signal = empty_histogram;
  signal_to_order = empty_histogram;
  order_to_fill = empty_histogram;
  tick_to_signal = empty_histogram;
  queue_depth = empty_histogram;
  msgs_received = 0;
  parse_errors = 0;
  reconnects = 0;
  heartbeats_recv = 0;
  signals_generated = 0;
  orders_sent = 0;
  orders_approved = 0;
  orders_rejected = 0;
  fills = 0;
  partial_fills = 0;
  circuit_blocked = 0;
  queue_full_drops = 0;
  pre_snapshot_drops = 0;
}

module _ {D : Type 0} ⦃d : Double D⦄ where
  unfoldable pub publish_pnl : Runtime D → Runtime D
  publish_pnl rt = record rt {
    pnl = record {
      cash = (state rt.strategy).cash;
      position = (state rt.strategy).position;
      avg_entry = (state rt.strategy).avg_entry;
      realized = (state rt.strategy).realized;
    };
  }

  -- The constructor: a queue's slots begin with the default event.
  unfoldable pub runtime : RuntimeConfig D → Runtime D
  unfolding publish_pnl
  runtime cfg = publish_pnl (record {
    cfg = record cfg {
      ws = record (cfg.ws) { product_ids = cfg.product_id ∷ []; core_id = cfg.network_core_id };
    };
    metrics = no_metrics;
    book = initial book_capacity;
    strategy =
        set_initial_cash cfg.initial_cash
          (set_symbol cfg.symbol_id cfg.tick_size (imbalance_strategy cfg.strategy));
    risk = configure cfg.symbol_id cfg.max_position cfg.initial_cash cfg.tick_size risk_manager;
    breaker = circuit_breaker cfg.circuit_error_threshold cfg.circuit_window_msgs;
    queue = record { head = 0; tail = 0; slots = λ _. MarketEvent.heartbeat (pos 0) };
    book_invalidate = false;
    book_ready = false;
    mark_bid = d.nought;
    mark_ask = d.nought;
    pnl = record {
      cash = d.nought;
      position = d.nought;
      avg_entry = d.nought;
      realized = d.nought;
    };
    next_order_id = 1;
  })

  abbrev pub order_of : Signal D → ℤ → Runtime D → NewOrder D
  order_of sig now rt = record {
    id = rt.next_order_id;
    symbol_id = rt.cfg.symbol_id;
    side = signal_side sig.action;
    price = sig.price;
    qty = sig.qty;
    created_ns = now;
  }

  -- `++ordersSent`, and the next order's id
  abbrev pub count_order : Runtime D → Runtime D
  count_order rt = record rt {
    next_order_id = bump rt.next_order_id;
    metrics = record (rt.metrics) { orders_sent = bump rt.metrics.orders_sent };
  }

  -- a fill goes to the risk manager and to the strategy, and its results are published
  unfoldable pub book_fill : NewOrder D → ExecutionReport D → Runtime D → Runtime D
  unfolding publish_pnl
  book_fill o rpt rt =
      if rpt.is_fill
      then publish_pnl (record rt {
        metrics = record (rt.metrics) {
          fills = bump rt.metrics.fills;
          partial_fills =
              count_if (d.lt rpt.exec_qty.value (d.sub o.qty.value d.tiny))
                rt.metrics.partial_fills;
        };
        risk = RiskManager.on_fill rpt rt.risk;
        strategy = strategy_fill rpt rt.strategy;
      })
      else rt

  unfoldable pub execute : NewOrder D → Times → Runtime D → Runtime D
  unfolding book_fill
  execute o t rt =
      let rpt = simulate book_capacity o rt.book rt.cfg.tick_size t.simulated in
      book_fill o rpt (record rt {
        metrics = record (rt.metrics) {
          orders_approved = bump rt.metrics.orders_approved;
          signal_to_order = record_ns (t.order_done -ℤ t.signal_done) rt.metrics.signal_to_order;
          order_to_fill = record_ns (t.fill_done -ℤ t.order_done) rt.metrics.order_to_fill;
        };
      })

  unfoldable pub dispatch_order : Signal D → Times → Runtime D → Runtime D
  unfolding execute
  dispatch_order sig t rt =
      let o = order_of sig t.signal_done rt in
      let sent = count_order rt in
      if is_tripped sent.breaker
      then record sent {
        metrics = record (sent.metrics) { circuit_blocked = bump sent.metrics.circuit_blocked };
      }
      else if approve sent.risk o
      then execute o t sent
      else record sent {
        metrics = record (sent.metrics) { orders_rejected = bump sent.metrics.orders_rejected };
        breaker = record_error sent.breaker;
      }
