-- ===== src/Runtime/Steps.antt =====
-- The calls of the two threads in any order, and what each does to the risk manager: nothing, or an
-- approved order is simulated and its report passed on.
use trading_bot_v.Prelude.{
  ℕ, ◌≡◌, refl, sym, ap, ◌∙◌, true, Option, none, some, List, [], ◌∷◌, ℤ, if-elim, if-cases,
}
use trading_bot_v.Core.Double.{Double}
use trading_bot_v.Md.BoundedBook.{Book}
use trading_bot_v.Md.Messages.{CoinbaseMessage}
use trading_bot_v.Util.SpscQueue.{Queue, try_pop}
use trading_bot_v.Exec.OrderTypes.{ExecutionReport, NewOrder}
use trading_bot_v.Exec.RiskManager.{approve, on_fill}
use trading_bot_v.Exec.CircuitBreaker.{is_tripped, record_message}
use trading_bot_v.Exec.ExecutionEngine.{simulate}
use trading_bot_v.Strategy.Signals.{Signal, is_actionable}
use trading_bot_v.Strategy.ImbalanceStrategy.{Strategy, on_market_update}
use trading_bot_v.Runtime.State.{MarketEvent, Runtime}
use trading_bot_v.Runtime.Network.{
  on_coinbase_message, on_parse_error, on_reconnected, queue_capacity,
}
use trading_bot_v.Runtime.Orders.{
  Times, book_capacity, book_fill, count_order, dispatch_order, execute, order_of,
}
use trading_bot_v.Runtime.Trading.{
  after_book, apply_changes, apply_snapshot, check_invalidate, loop_round, note_signal, on_event,
  process_event,
}

-- a call of one of the two threads
pub data Step (D : Type 0) : Type 0 where
  round : Times → Step D
  message : (ℕ → Queue (MarketEvent D) → Queue (MarketEvent D)) → CoinbaseMessage D → ℤ → ℤ → Step D
  parse_error : Step D
  reconnected : Step D
  -- the strategy thread processes an event that it took off the queue while a snapshot was pushed
  -- again, or when the runtime stops
  taken : MarketEvent D → Times → Step D

-- an order that is executed, the book that it meets and the time
pub record Execution (D : Type 0) : Type 0 where
  pub order : NewOrder D
  pub book : Book D
  pub now : ℤ

module _ {D : Type 0} ⦃d : Double D⦄ where
  unfoldable pub run_steps : Runtime D → List (Step D) → Runtime D
  unfolding loop_round on_coinbase_message process_event
  run_steps rt [] = rt
  run_steps rt (Step.round t ∷ steps) = run_steps (loop_round t rt) steps
  run_steps rt (Step.message pops msg recv done ∷ steps) =
      run_steps (on_coinbase_message pops msg recv done rt) steps
  run_steps rt (Step.taken ev t ∷ steps) = run_steps (process_event ev t rt) steps
  run_steps rt (Step.parse_error ∷ steps) = run_steps (on_parse_error rt) steps
  run_steps rt (Step.reconnected ∷ steps) = run_steps (on_reconnected rt) steps

  abbrev pub report_of : Runtime D → Execution D → ExecutionReport D
  report_of rt x = simulate book_capacity x.order x.book rt.cfg.tick_size x.now

  -- From `rt` to `rt'` the risk manager is as it was, or one order was approved and the report of its
  -- simulation passed to `onFill`.
  pub data Trades (rt rt' : Runtime D) : Type 0 where
    keeps : rt'.risk ≡ rt.risk → Trades rt rt'
    fills :
        (x : Execution D)
        → approve rt.risk x.order ≡ true
        → rt'.risk ≡ on_fill (report_of rt x) rt.risk
        → Trades rt rt'

  execute-Trades :
      (o : NewOrder D) (t : Times) (rt : Runtime D)
      → approve rt.risk o ≡ true
      → Trades rt (execute o t rt)
  unfolding execute book_fill
  execute-Trades o t rt accepted =
      if-elim (Trades rt) (simulate book_capacity o rt.book rt.cfg.tick_size t.simulated).is_fill
        (Trades.fills (record { order = o; book = rt.book; now = t.simulated }) accepted refl)
        (Trades.keeps refl)

  dispatch_order-Trades :
      (sig : Signal D) (t : Times) (rt : Runtime D) → Trades rt (dispatch_order sig t rt)
  unfolding dispatch_order
  dispatch_order-Trades sig t rt = if-elim (Trades rt) (is_tripped rt.breaker) (Trades.keeps refl) (
      if-cases (Trades rt) (approve rt.risk (order_of sig t.signal_done rt))
        (λ accepted.
          from_sent (execute-Trades (order_of sig t.signal_done rt) t (count_order rt) accepted))
        (λ refused. Trades.keeps refl))
    where
      from_sent : {after : Runtime D} → Trades (count_order rt) after → Trades rt after
      from_sent (Trades.keeps e) = Trades.keeps e
      from_sent (Trades.fills x accepted e) = Trades.fills x accepted e

  -- what counts is the risk manager and the tick size before
  from_same :
      (x y z : Runtime D)
      → y.risk ≡ x.risk
      → y.cfg.tick_size ≡ x.cfg.tick_size
      → Trades y z
      → Trades x z
  from_same x y z same tick (Trades.keeps e) = Trades.keeps (e ∙ same)
  from_same x y z same tick (Trades.fills of accepted e) =
      Trades.fills of (ap (λ r. approve r of.order) (sym same) ∙ accepted) (
        e
        ∙ ap (on_fill (report_of y of)) same
        ∙ ap (λ u. on_fill (simulate book_capacity of.order of.book u of.now) x.risk) tick)

  after_book-Trades :
      (recv_ns : ℤ) (t : Times) (rt : Runtime D) → Trades rt (after_book recv_ns t rt)
  unfolding after_book
  after_book-Trades recv_ns t rt =
      if-elim (Trades rt) (is_actionable r.0) {x = dispatch_order r.0 t noted} {y = noted}
        (from_same rt noted (dispatch_order r.0 t noted) refl refl
          (dispatch_order-Trades r.0 t noted))
        (Trades.keeps refl)
    where
      r : Signal D × Strategy D
      r = on_market_update book_capacity rt.book t.book_done rt.strategy

      noted : Runtime D
      noted = note_signal recv_ns t r rt

  on_event-Trades : (ev : MarketEvent D) (t : Times) (rt : Runtime D) → Trades rt (on_event ev t rt)
  unfolding on_event
  on_event-Trades (MarketEvent.snapshot recv_ns bids asks) t rt =
      from_same rt (record rt { book = apply_snapshot bids asks rt.book; book_ready = true }) _ refl
        refl (after_book-Trades recv_ns t _)
  on_event-Trades (MarketEvent.l2_update recv_ns changes) t rt =
      if-elim (Trades rt) rt.book_ready
        (from_same rt (record rt { book = apply_changes rt.cfg.tick_size changes rt.book }) _ refl
          refl (after_book-Trades recv_ns t _))
        (Trades.keeps refl)
  on_event-Trades (MarketEvent.heartbeat recv_ns) t rt = Trades.keeps refl

  process_event-Trades :
      (ev : MarketEvent D) (t : Times) (rt : Runtime D) → Trades rt (process_event ev t rt)
  unfolding process_event
  process_event-Trades ev t rt =
      from_same rt (record rt { breaker = record_message rt.breaker }) _ refl refl
        (on_event-Trades ev t _)

  loop_round-Trades : (t : Times) (rt : Runtime D) → Trades rt (loop_round t rt)
  unfolding loop_round check_invalidate
  loop_round-Trades t rt =
      from_same rt (check_invalidate rt) _
        (if-elim (λ (x : Runtime D). x.risk ≡ rt.risk) rt.book_invalidate refl refl)
        (if-elim (λ (x : Runtime D). x.cfg.tick_size ≡ rt.cfg.tick_size) rt.book_invalidate refl
          refl)
        (popped (check_invalidate rt) (try_pop queue_capacity (check_invalidate rt).queue))
    where
      popped :
          (r : Runtime D) (p : Option (MarketEvent D) × Queue (MarketEvent D))
          → Trades r
              (elim p.0 [ none ↦ r | some ev ↦ process_event ev t (record r { queue = p.1 }) ])
      popped r (none, q) = Trades.keeps refl
      popped r (some ev, q) =
          from_same r (record r { queue = q }) _ refl refl (process_event-Trades ev t _)

  pub step-Trades : (step : Step D) (rt : Runtime D) → Trades rt (run_steps rt (step ∷ []))
  unfolding run_steps on_coinbase_message
  step-Trades (Step.round t) rt = loop_round-Trades t rt
  step-Trades (Step.message pops msg recv done) rt = Trades.keeps refl
  step-Trades (Step.taken ev t) rt = process_event-Trades ev t rt
  step-Trades Step.parse_error rt = Trades.keeps refl
  step-Trades Step.reconnected rt = Trades.keeps refl

  pub run_steps-cons :
      (step : Step D) (steps : List (Step D)) (rt : Runtime D)
      → run_steps (run_steps rt (step ∷ [])) steps ≡ run_steps rt (step ∷ steps)
  unfolding run_steps
  run_steps-cons (Step.round t) steps rt = refl
  run_steps-cons (Step.message pops msg recv done) steps rt = refl
  run_steps-cons (Step.taken ev t) steps rt = refl
  run_steps-cons Step.parse_error steps rt = refl
  run_steps-cons Step.reconnected steps rt = refl
