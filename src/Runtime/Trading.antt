-- ===== src/Runtime/Trading.antt =====
-- src/core/runtime.cpp, on the strategy thread: `processEvent` and `strategyLoop`.
use trading_bot_v.Prelude.{
  min_ℤ, max_ℤ, ◌-◌, ◌^◌, ℤ, pos, negsuc, ◌+ℤ◌, ◌-ℤ◌, eqb_ℤ, true, false, ◌||◌, none, some, List,
  [], ◌∷◌, if◌then◌else◌,
}
use trading_bot_v.Core.Double.{Double}
use trading_bot_v.Core.Types.{PriceLevel, Side, bid, ask, from_double, to_double}
use trading_bot_v.Md.BoundedBook
use trading_bot_v.Md.BoundedBook.{halve, Book, seed_reference, top_of_book, update_book, initial}
use trading_bot_v.Md.Messages.{CoinbaseChange}
use trading_bot_v.Util.HdrHistogram.{record_ns}
use trading_bot_v.Util.SpscQueue.{try_pop}
use trading_bot_v.Exec.CircuitBreaker.{record_message}
use trading_bot_v.Strategy.Signals.{Signal, is_actionable}
use trading_bot_v.Strategy.ImbalanceStrategy.{Strategy, on_market_update, on_reconnect}
use trading_bot_v.Runtime.State.{MarketEvent, Runtime, bump}
use trading_bot_v.Runtime.Network.{queue_capacity}
use trading_bot_v.Runtime.Orders.{Times, book_capacity, count_if, dispatch_order}

abbrev pub int64_min : ℤ
int64_min = negsuc (2 ^ 63 - 1)

abbrev pub int64_max : ℤ
int64_max = pos (2 ^ 63 - 1)

module _ {D : Type 0} ⦃d : Double D⦄ where
  -- the best prices of a snapshot, among the levels with a quantity above 0
  abbrev pub highest_bid : ℤ → List (PriceLevel D) → ℤ
  highest_bid best [] = best
  highest_bid best (l ∷ ls) =
      highest_bid (if d.lt d.nought l.qty.value then max_ℤ best l.price.ticks else best) ls

  abbrev pub lowest_ask : ℤ → List (PriceLevel D) → ℤ
  lowest_ask best [] = best
  lowest_ask best (l ∷ ls) =
      lowest_ask (if d.lt d.nought l.qty.value then min_ℤ best l.price.ticks else best) ls

  abbrev pub update_all : Side → List (PriceLevel D) → Book D → Book D
  update_all side [] b = b
  update_all side (l ∷ ls) b = update_all side ls (update_book book_capacity b side l.price l.qty)

  abbrev pub anchor_on_mid : List (PriceLevel D) → List (PriceLevel D) → Book D → Book D
  anchor_on_mid bids asks b =
      let best_bid = highest_bid int64_min bids in
      let best_ask = lowest_ask int64_max asks in
      if eqb_ℤ best_bid int64_min || eqb_ℤ best_ask int64_max
      then b
      else seed_reference book_capacity b
          (record { ticks = best_bid +ℤ halve (best_ask -ℤ best_bid) })

  unfoldable pub apply_snapshot : List (PriceLevel D) → List (PriceLevel D) → Book D → Book D
  apply_snapshot bids asks b =
      update_all ask asks
        (update_all bid bids (anchor_on_mid bids asks (BoundedBook.clear book_capacity b)))

  unfoldable pub apply_changes : D → List (CoinbaseChange D) → Book D → Book D
  apply_changes tick_size [] b = b
  apply_changes tick_size (c ∷ cs) b = apply_changes tick_size cs (
      update_book book_capacity b c.side (from_double c.price tick_size) (record { value = c.qty }))

  -- the mark of a side that has a best level
  abbrev pub mark_of : Side → D → Runtime D → D
  mark_of side old rt = elim (top_of_book book_capacity rt.book side) [
    | none ↦ old
    | some level ↦ to_double level.price rt.cfg.tick_size
  ]

  -- the marks, the strategy's answer and the times, before an order is sent
  abbrev pub note_signal : ℤ → Times → Signal D × Strategy D → Runtime D → Runtime D
  note_signal recv_ns t r rt = record rt {
    mark_bid = mark_of bid rt.mark_bid rt;
    mark_ask = mark_of ask rt.mark_ask rt;
    strategy = r.1;
    metrics = record (rt.metrics) {
      parse_to_book = record_ns (t.book_done -ℤ t.book_start) rt.metrics.parse_to_book;
      book_to_signal = record_ns (t.signal_done -ℤ t.book_done) rt.metrics.book_to_signal;
      tick_to_signal = record_ns (t.signal_done -ℤ recv_ns) rt.metrics.tick_to_signal;
      signals_generated = count_if (is_actionable r.0) rt.metrics.signals_generated;
    };
  }

  -- `processEvent` after the book has been brought up to date
  unfoldable pub after_book : ℤ → Times → Runtime D → Runtime D
  unfolding dispatch_order
  after_book recv_ns t rt =
      let r = on_market_update book_capacity rt.book t.book_done rt.strategy in
      let noted = note_signal recv_ns t r rt in
      if is_actionable r.0 then dispatch_order r.0 t noted else noted

  -- the switch of `processEvent`
  unfoldable pub on_event : MarketEvent D → Times → Runtime D → Runtime D
  unfolding after_book apply_snapshot apply_changes
  on_event (MarketEvent.snapshot recv_ns bids asks) t rt =
      after_book recv_ns t
        (record rt { book = apply_snapshot bids asks rt.book; book_ready = true })
  on_event (MarketEvent.l2_update recv_ns changes) t rt =
      if rt.book_ready
      then after_book recv_ns t
          (record rt { book = apply_changes rt.cfg.tick_size changes rt.book })
      else record rt {
        metrics = record (rt.metrics) { pre_snapshot_drops = bump rt.metrics.pre_snapshot_drops };
      }
  on_event (MarketEvent.heartbeat recv_ns) t rt = rt

  unfoldable pub process_event : MarketEvent D → Times → Runtime D → Runtime D
  unfolding on_event
  process_event ev t rt = on_event ev t (record rt { breaker = record_message rt.breaker })

  -- the reset at the head of a round of `strategyLoop`
  unfoldable pub check_invalidate : Runtime D → Runtime D
  check_invalidate rt =
      if rt.book_invalidate
      then record rt {
        book_invalidate = false;
        book_ready = false;
        strategy = on_reconnect rt.strategy;
      }
      else rt

  abbrev pub pop_from : Times → Runtime D → Runtime D
  pop_from t rt =
      let r = try_pop queue_capacity rt.queue in
      elim r.0 [ none ↦ rt | some ev ↦ process_event ev t (record rt { queue = r.1 }) ]

  -- one round of `strategyLoop` while the runtime is running
  unfoldable pub loop_round : Times → Runtime D → Runtime D
  unfolding process_event check_invalidate
  loop_round t rt = pop_from t (check_invalidate rt)

  -- `pnlUnrealized`, for the main thread
  unfoldable pub pnl_unrealized : Runtime D → D
  pnl_unrealized rt =
      let mark = if d.lt d.nought rt.pnl.position then rt.mark_bid else rt.mark_ask in
      if d.eq rt.pnl.position d.nought
      then d.nought
      else if d.le mark d.nought
      then d.nought
      else d.mul rt.pnl.position (d.sub mark rt.pnl.avg_entry)
