-- ===== src/Runtime/Counters.antt =====
-- What the runtime counts, and how it divides a large update.
use mathlib.Core.List.{append_assoc}
use trading_bot_v.Prelude.{
  ℕ, zero, suc, ◌+◌, ◌%◌, ◌^◌, ◌≤◌, ◌≡◌, ℤ, refl, sym, ap, ◌∙◌, subst, true, false, List, [], ◌∷◌,
  ◌++◌, if-elim, if-cases, if-false, leb, leb→le, leb-false, length, take, drop, length-take,
  length-drop, take-append-drop, arith, leb-false,
}
use trading_bot_v.Core.Double.{Double}
use trading_bot_v.Exec.OrderTypes.{NewOrder}
use trading_bot_v.Exec.RiskManager.{approve}
use trading_bot_v.Exec.CircuitBreaker.{is_tripped, record_message}
use trading_bot_v.Exec.ExecutionEngine.{simulate}
use trading_bot_v.Strategy.Signals.{Signal, is_actionable}
use trading_bot_v.Strategy.ImbalanceStrategy.{Strategy, on_market_update}
use trading_bot_v.Runtime.State.{bump, MarketEvent, Runtime, RuntimeConfig}
use trading_bot_v.Runtime.Network.{split_chunks}
use trading_bot_v.Runtime.Orders.{
  Times, book_capacity, book_fill, dispatch_order, execute, order_of, runtime,
}
use trading_bot_v.Runtime.Trading.{
  after_book, apply_changes, apply_snapshot, on_event, process_event, note_signal,
}

module _ {ℓ} {A : Type ℓ} where
  abbrev pub join : List (List A) → List A
  join [] = []
  join (xs ∷ xss) = xs ++ join xss

  abbrev pub AllFull : List (List A) → Type 0
  AllFull [] = Unit
  AllFull (xs ∷ xss) = (length xs ≡ 128) × AllFull xss

  -- The chunks of a list are the list, in order, with nothing lost.
  pub record IsChunked (xs : List A) (parts : List (List A) × List A) : Type ℓ where
    pub whole : join parts.0 ++ parts.1 ≡ xs
    pub full : AllFull parts.0
    pub fits : length parts.1 ≤ 128

  chunked : (fuel : ℕ) (xs : List A) → length xs ≤ fuel → IsChunked xs (split_chunks fuel xs)
  unfolding split_chunks
  chunked zero xs h = record { whole = refl; full = tt; fits = omega arith }
  chunked (suc fuel) xs h =
      let rest = chunked fuel (drop 128 xs) in
      if-cases (IsChunked xs) (leb (length xs) 128)
        (λ short. record {
          whole = take_all 128 xs (leb→le _ _ short);
          full = tt;
          fits = omega (arith, length-take 128 xs);
        })
        (λ long.
          let more = rest (omega (arith, length-drop 128 xs, h, leb-false _ _ long)) in
          record {
            whole =
                append_assoc (take 128 xs) _ _
                ∙ ap (λ ys. take 128 xs ++ ys) more.whole
                ∙ take-append-drop 128 xs;
            full = (omega (arith, length-take 128 xs, leb-false _ _ long), more.full);
            fits = more.fits;
          })
    where
      take_all : (n : ℕ) (ys : List A) → length ys ≤ n → take n ys ≡ ys
      take_all zero [] e = refl
      take_all zero (y ∷ ys) e = absurd (omega arith)
      take_all (suc n) [] e = refl
      take_all (suc n) (y ∷ ys) e = ap (◌∷◌ y) (take_all n ys (omega arith))

  -- The chunks of an update are its changes in order with none lost, each chunk but the last has
  -- 128 of them, and the last at most 128.
  pub split_chunks-IsChunked : (xs : List A) → IsChunked xs (split_chunks (length xs) xs)
  split_chunks-IsChunked xs = chunked (length xs) xs (omega arith)

module _ {D : Type 0} ⦃d : Double D⦄ where
  -- Each order sent has been blocked, rejected or approved.
  pub record IsCounted (rt : Runtime D) : Type 0 where
    pub balance :
        rt.metrics.orders_sent
        ≡ (rt.metrics.circuit_blocked + rt.metrics.orders_rejected + rt.metrics.orders_approved)
          % 2 ^ 64

  dispatch_order-IsCounted :
      (sig : Signal D) (t : Times) (rt : Runtime D)
      → IsCounted rt
      → IsCounted (dispatch_order sig t rt)
  unfolding dispatch_order execute book_fill
  dispatch_order-IsCounted sig t rt v =
      if-elim IsCounted (is_tripped rt.breaker) (record { balance = omega (arith, v.balance) })
        (if-elim IsCounted (approve rt.risk o)
          (if-elim IsCounted (simulate book_capacity o rt.book rt.cfg.tick_size t.simulated).is_fill
            (record { balance = omega (arith, v.balance) })
            (record { balance = omega (arith, v.balance) }))
          (record { balance = omega (arith, v.balance) }))
    where
      o : NewOrder D
      o = order_of sig t.signal_done rt

  after_book-IsCounted :
      (recv_ns : ℤ) (t : Times) (rt : Runtime D)
      → IsCounted rt
      → IsCounted (after_book recv_ns t rt)
  unfolding after_book
  after_book-IsCounted recv_ns t rt v =
      if-elim IsCounted
        (is_actionable (on_market_update book_capacity rt.book t.book_done rt.strategy).0)
        (dispatch_order-IsCounted r.0 t noted (record { balance = v.balance }))
        (record { balance = v.balance })
    where
      r : Signal D × Strategy D
      r = on_market_update book_capacity rt.book t.book_done rt.strategy

      noted : Runtime D
      noted = note_signal recv_ns t r rt

  on_event-IsCounted :
      (ev : MarketEvent D) (t : Times) (rt : Runtime D)
      → IsCounted rt
      → IsCounted (on_event ev t rt)
  unfolding on_event
  on_event-IsCounted (MarketEvent.snapshot recv_ns bids asks) t rt v =
      after_book-IsCounted recv_ns t
        (record rt { book = apply_snapshot bids asks rt.book; book_ready = true })
        (record { balance = v.balance })
  on_event-IsCounted (MarketEvent.l2_update recv_ns changes) t rt v =
      if-elim IsCounted rt.book_ready
        (after_book-IsCounted recv_ns t
          (record rt { book = apply_changes rt.cfg.tick_size changes rt.book })
          (record { balance = v.balance }))
        (record { balance = v.balance })
  on_event-IsCounted (MarketEvent.heartbeat recv_ns) t rt v = v

  unfoldable pub process_all : Runtime D → List (MarketEvent D × Times) → Runtime D
  unfolding process_event
  process_all rt [] = rt
  process_all rt ((ev, t) ∷ events) = process_all (process_event ev t rt) events

  events-IsCounted :
      (events : List (MarketEvent D × Times)) (rt : Runtime D)
      → IsCounted rt
      → IsCounted (process_all rt events)
  unfolding process_all process_event
  events-IsCounted [] rt v = v
  events-IsCounted ((ev, t) ∷ events) rt v = events-IsCounted events (process_event ev t rt) (
      on_event-IsCounted ev t (record rt { breaker = record_message rt.breaker })
        (record { balance = v.balance }))

  -- From the constructor, after any events, the number of orders sent is, modulo 2^64, the number
  -- blocked by the circuit breaker plus those rejected and those approved by the risk manager.
  pub process_all-IsCounted :
      (cfg : RuntimeConfig D) (events : List (MarketEvent D × Times))
      → IsCounted (process_all (runtime cfg) events)
  unfolding runtime
  process_all-IsCounted cfg events =
      events-IsCounted events (runtime cfg) (record { balance = refl })

  -- An update that comes before a snapshot is only counted.
  abbrev drop_update : Runtime D → Runtime D
  drop_update rt = record rt {
    metrics = record (rt.metrics) { pre_snapshot_drops = bump rt.metrics.pre_snapshot_drops };
  }

  -- `a` trades as `b` does, and has no snapshot yet.
  pub record SameTrading (a b : Runtime D) : Type 0 where
    pub same_book : a.book ≡ b.book
    pub same_strategy : a.strategy ≡ b.strategy
    pub same_risk : a.risk ≡ b.risk
    pub same_orders : a.metrics.orders_sent ≡ b.metrics.orders_sent
    pub still_waiting : a.book_ready ≡ false

  abbrev pub NoSnapshot : List (MarketEvent D × Times) → Type 0
  NoSnapshot [] = Unit
  NoSnapshot ((MarketEvent.snapshot _ _ _, t) ∷ events) = ⊥
  NoSnapshot ((_, t) ∷ events) = NoSnapshot events

  -- From a runtime that waits for a snapshot, events other than snapshots change neither the book
  -- nor the strategy nor the risk manager, send no order, and leave the runtime waiting.
  pub process_all-SameTrading :
      (events : List (MarketEvent D × Times)) (rt : Runtime D)
      → NoSnapshot events
      → rt.book_ready ≡ false
      → SameTrading (process_all rt events) rt
  unfolding process_all process_event on_event
  process_all-SameTrading [] rt no_snapshot waiting = record {
    same_book = refl;
    same_strategy = refl;
    same_risk = refl;
    same_orders = refl;
    still_waiting = waiting;
  }
  process_all-SameTrading ((MarketEvent.snapshot _ _ _, t) ∷ events) rt no_snapshot waiting =
      absurd no_snapshot
  process_all-SameTrading ((MarketEvent.heartbeat recv_ns, t) ∷ events) rt no_snapshot waiting =
      let rest =
        process_all-SameTrading events (record rt { breaker = record_message rt.breaker })
          no_snapshot waiting in
      record {
        same_book = rest.same_book;
        same_strategy = rest.same_strategy;
        same_risk = rest.same_risk;
        same_orders = rest.same_orders;
        still_waiting = rest.still_waiting;
      }
  process_all-SameTrading ((MarketEvent.l2_update recv_ns changes, t) ∷ events) rt no_snapshot
        waiting =
      let counted : Runtime D = record rt { breaker = record_message rt.breaker } in
      let next = process_event (MarketEvent.l2_update recv_ns changes) t rt in
      let same : next ≡ drop_update counted = if-false _ _ _ waiting in
      subst (λ x. SameTrading (process_all x events) rt) (sym same)
        (let rest = process_all-SameTrading events (drop_update counted) no_snapshot waiting in
          record {
            same_book = rest.same_book;
            same_strategy = rest.same_strategy;
            same_risk = rest.same_risk;
            same_orders = rest.same_orders;
            still_waiting = rest.still_waiting;
          })
