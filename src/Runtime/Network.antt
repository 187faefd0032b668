-- ===== src/Runtime/Network.antt =====
-- The network thread's side of `class Runtime`: `onCoinbaseMessage` and the callbacks.
use trading_bot_v.Prelude.{
  ℕ, zero, suc, ℤ, ◌-ℤ◌, pos, Bool, true, false, List, [], ◌∷◌, map, take, drop, length, leb,
  if◌then◌else◌,
}
use trading_bot_v.Core.Double.{Double}
use trading_bot_v.Core.Types.{PriceLevel, from_double}
use trading_bot_v.Md.Messages.{CoinbaseChange, CoinbaseMessage, CoinbaseMsgType, CoinbasePriceLevel}
use trading_bot_v.Util.HdrHistogram.{record_ns}
use trading_bot_v.Util.SpscQueue.{Queue, size, try_push}
use trading_bot_v.Runtime.State.{MarketEvent, Metrics, Runtime, bump}

abbrev pub queue_capacity : ℕ
queue_capacity = 4096

-- The changes of a message in chunks of 128: those before the last one, and the last one.
unfoldable pub split_chunks {ℓ} : {A : Type ℓ} → ℕ → List A → List (List A) × List A
split_chunks zero xs = ([], xs)
split_chunks (suc fuel) xs =
    let rest = split_chunks fuel (drop 128 xs) in
    if leb (length xs) 128 then ([], take 128 xs) else (take 128 xs ∷ rest.0, rest.1)

-- the queue and the counters that the handler works on
pub record Outbox (D : Type 0) : Type 0 where
  pub events : Queue (MarketEvent D)
  pub counters : Metrics

module _ {D : Type 0} ⦃d : Double D⦄ where
  abbrev pub count_drop : Outbox D → Outbox D
  count_drop o = record o {
    counters = record (o.counters) { queue_full_drops = bump o.counters.queue_full_drops };
  }

  -- one attempt
  abbrev pub attempt : MarketEvent D → Outbox D → Bool × Outbox D
  attempt ev o = let r = try_push queue_capacity o.events ev in (r.0, record o { events = r.1 })

  abbrev pub push_or_drop : MarketEvent D → Outbox D → Outbox D
  push_or_drop ev o = let r = attempt ev o in if r.0 then r.1 else count_drop r.1

  unfoldable pub push_chunks : ℤ → List (List (CoinbaseChange D)) → Outbox D → Outbox D
  unfolding try_push
  push_chunks recv_ns [] o = o
  push_chunks recv_ns (chunk ∷ chunks) o =
      push_chunks recv_ns chunks (push_or_drop (MarketEvent.l2_update recv_ns chunk) o)

  -- `pops i` is what the strategy thread takes off the queue during the `i`-th sleep of the retry.
  module _ (pops : ℕ → Queue (MarketEvent D) → Queue (MarketEvent D)) where
    unfoldable pub retry_push : ℕ → ℕ → MarketEvent D → Outbox D → Bool × Outbox D
    unfolding try_push
    retry_push zero i ev o = (false, o)
    retry_push (suc tries) i ev o =
        let r = attempt ev (record o { events = pops i o.events }) in
        let rest = retry_push tries (suc i) ev r.1 in if r.0 then r else rest

    -- the end of the handler: the last event, retried only if it is a snapshot
    unfoldable pub push_last : Bool → MarketEvent D → Outbox D → Outbox D
    unfolding try_push retry_push
    push_last is_snapshot ev o =
        let r = attempt ev o in
        let again = if r.0 then r else if is_snapshot then retry_push 200 0 ev r.1 else r in
        if again.0 then again.1 else count_drop again.1

    abbrev pub count_message : Outbox D → Outbox D
    count_message o = record o {
      counters = record (o.counters) { msgs_received = bump o.counters.msgs_received };
    }

    abbrev pub to_level : D → CoinbasePriceLevel D → PriceLevel D
    to_level tick_size l = record {
      price = from_double l.price tick_size;
      qty = record { value = l.qty };
    }

    abbrev pub finish : Bool → MarketEvent D → Outbox D → Outbox D
    finish is_snapshot ev o =
        let sent = push_last is_snapshot ev (count_message o) in
        record sent {
          counters = record (sent.counters) {
            queue_depth =
                record_ns (pos (size queue_capacity sent.events)) sent.counters.queue_depth;
          };
        }

    -- the switch of `onCoinbaseMessage`
    unfoldable pub on_message_of : CoinbaseMsgType → D → CoinbaseMessage D → ℤ → Outbox D → Outbox D
    unfolding push_chunks push_last split_chunks
    on_message_of CoinbaseMsgType.snapshot tick_size msg recv_ts o =
        finish true
          (MarketEvent.snapshot recv_ts (map (to_level tick_size) (take 64 msg.bids))
            (map (to_level tick_size) (take 64 msg.asks)))
          o
    on_message_of CoinbaseMsgType.l2_update tick_size msg recv_ts o =
        let parts = split_chunks (length msg.changes) msg.changes in
        finish false (MarketEvent.l2_update recv_ts parts.1) (push_chunks recv_ts parts.0 o)
    on_message_of CoinbaseMsgType.heartbeat tick_size msg recv_ts o =
        finish false (MarketEvent.heartbeat recv_ts) (record o {
          counters = record (o.counters) { heartbeats_recv = bump o.counters.heartbeats_recv };
        })
    on_message_of _ tick_size msg recv_ts o = count_message o

    unfoldable pub on_coinbase_message : CoinbaseMessage D → ℤ → ℤ → Runtime D → Runtime D
    unfolding on_message_of
    on_coinbase_message msg recv_ts parse_done rt =
        let timed : Metrics = record (rt.metrics) {
          wire_to_parse = record_ns (parse_done -ℤ recv_ts) rt.metrics.wire_to_parse;
        } in
        let o =
          on_message_of msg.type rt.cfg.tick_size msg recv_ts
            (record { events = rt.queue; counters = timed }) in
        record rt { queue = o.events; metrics = o.counters }

-- the callbacks on a message that does not parse and on a reconnect
abbrev pub on_parse_error : {D : Type 0} → Runtime D → Runtime D
on_parse_error rt = record rt {
  metrics = record (rt.metrics) { parse_errors = bump rt.metrics.parse_errors };
}

abbrev pub on_reconnected : {D : Type 0} → Runtime D → Runtime D
on_reconnected rt = record rt {
  metrics = record (rt.metrics) { reconnects = bump rt.metrics.reconnects };
  book_invalidate = true;
}
