-- ===== src/Runtime/Client/Counted.antt =====
-- src/core/runtime.cpp and coinbase_ws_client.cpp: the runtime counts each call of its client once.
use trading_bot_v.Prelude.{
  ℕ, zero, suc, ◌+◌, ◌-◌, ◌%◌, ◌^◌, ◌<◌, ℤ, ◌-ℤ◌, Bool, true, false, ◌≡◌, ◌∙◌, refl, ap, Option,
  List, [], ◌∷◌, length, String, if-elim, arith, if◌then◌else◌,
}
use trading_bot_v.Core.Double.{Double}
use trading_bot_v.Md.Messages.{CoinbaseChange, CoinbaseMessage, CoinbaseMsgType, CoinbasePriceLevel}
use trading_bot_v.Md.Parser.{Reader}
use trading_bot_v.Md.WsClient.{Attempt, Call, run_client}
use trading_bot_v.Md.WsClient.Reconnects.{connections, reconnects, run_client-reconnects}
use trading_bot_v.Util.HdrHistogram.{record_ns}
use trading_bot_v.Util.SpscQueue.{Queue}
use trading_bot_v.Runtime.State.{MarketEvent, Metrics, Runtime, RuntimeConfig, bump}
use trading_bot_v.Runtime.Network.{
  Outbox, attempt, count_drop, count_message, finish, on_coinbase_message, on_message_of,
  on_parse_error, on_reconnected, push_chunks, push_last, push_or_drop, retry_push, split_chunks,
}
use trading_bot_v.Runtime.Orders.{publish_pnl, runtime}
use trading_bot_v.Runtime.Client.{deliver, deliver_all}

-- What the counters of the messages, of the errors and of the reconnects hold.
abbrev pub Holds : ℕ → ℕ → ℕ → Metrics → Type 0
Holds m p q c = (c.msgs_received ≡ m) × (c.parse_errors ≡ p) × (c.reconnects ≡ q)

module _ {D : Type 0} ⦃d : Double D⦄ (m p q : ℕ) where
  push_or_drop-Holds :
      (ev : MarketEvent D) (o : Outbox D)
      → Holds m p q o.counters
      → Holds m p q (push_or_drop ev o).counters
  push_or_drop-Holds ev o h =
      if-elim (λ (z : Outbox D). Holds m p q z.counters) (attempt ev o).0 h h

  push_chunks-Holds :
      (recv : ℤ) (chunks : List (List (CoinbaseChange D))) (o : Outbox D)
      → Holds m p q o.counters
      → Holds m p q (push_chunks recv chunks o).counters
  unfolding push_chunks
  push_chunks-Holds recv [] o h = h
  push_chunks-Holds recv (chunk ∷ chunks) o h =
      push_chunks-Holds recv chunks (push_or_drop (MarketEvent.l2_update recv chunk) o)
        (push_or_drop-Holds (MarketEvent.l2_update recv chunk) o h)

  module _ (pops : ℕ → Queue (MarketEvent D) → Queue (MarketEvent D)) where
    retry_push-Holds :
        (tries i : ℕ) (ev : MarketEvent D) (o : Outbox D)
        → Holds m p q o.counters
        → Holds m p q (retry_push pops tries i ev o).1.counters
    unfolding retry_push
    retry_push-Holds zero i ev o h = h
    retry_push-Holds (suc tries) i ev o h =
        let r = attempt ev (record o { events = pops i o.events }) in
        if-elim (λ (z : Bool × Outbox D). Holds m p q z.1.counters) r.0 {x = r}
          {y = retry_push pops tries (suc i) ev r.1} h (retry_push-Holds tries (suc i) ev r.1 h)

    push_last-Holds :
        (is_snapshot : Bool) (ev : MarketEvent D) (o : Outbox D)
        → Holds m p q o.counters
        → Holds m p q (push_last pops is_snapshot ev o).counters
    unfolding push_last
    push_last-Holds is_snapshot ev o h =
        if-elim (λ (z : Outbox D). Holds m p q z.counters) again.0 {x = again.1}
          {y = count_drop again.1} kept kept
      where
        r : Bool × Outbox D
        r = attempt ev o

        again : Bool × Outbox D
        again = if r.0 then r else if is_snapshot then retry_push pops 200 0 ev r.1 else r

        kept : Holds m p q again.1.counters
        kept =
            if-elim (λ (z : Bool × Outbox D). Holds m p q z.1.counters) r.0 {x = r}
              {y = if is_snapshot then retry_push pops 200 0 ev r.1 else r} h
              (if-elim (λ (z : Bool × Outbox D). Holds m p q z.1.counters) is_snapshot
                {x = retry_push pops 200 0 ev r.1} {y = r} (retry_push-Holds 200 0 ev r.1 h) h)

module _ {D : Type 0} ⦃d : Double D⦄ (m p q : ℕ)
    (pops : ℕ → Queue (MarketEvent D) → Queue (MarketEvent D)) where
  finish-Holds :
      (is_snapshot : Bool) (ev : MarketEvent D) (o : Outbox D)
      → Holds m p q o.counters
      → Holds (bump m) p q (finish pops is_snapshot ev o).counters
  finish-Holds is_snapshot ev o (a, b, c) =
      push_last-Holds (bump m) p q pops is_snapshot ev (count_message pops o) (ap bump a, b, c)

  on_message_of-Holds :
      (t : CoinbaseMsgType) (tick : D) (msg : CoinbaseMessage D) (recv : ℤ) (o : Outbox D)
      → Holds m p q o.counters
      → Holds (bump m) p q (on_message_of pops t tick msg recv o).counters
  unfolding on_message_of
  on_message_of-Holds CoinbaseMsgType.snapshot tick msg recv o h = finish-Holds true _ o h
  on_message_of-Holds CoinbaseMsgType.l2_update tick msg recv o h =
      let parts = split_chunks (length msg.changes) msg.changes in
      finish-Holds false (MarketEvent.l2_update recv parts.1) (push_chunks recv parts.0 o)
        (push_chunks-Holds m p q recv parts.0 o h)
  on_message_of-Holds CoinbaseMsgType.heartbeat tick msg recv o h =
      finish-Holds false (MarketEvent.heartbeat recv)
        (record o {
          counters = record (o.counters) { heartbeats_recv = bump o.counters.heartbeats_recv };
        })
        h
  on_message_of-Holds CoinbaseMsgType.unknown tick msg recv o (a, b, c) = (ap bump a, b, c)
  on_message_of-Holds CoinbaseMsgType.subscriptions tick msg recv o (a, b, c) = (ap bump a, b, c)
  on_message_of-Holds CoinbaseMsgType.error tick msg recv o (a, b, c) = (ap bump a, b, c)

  on_coinbase_message-Holds :
      (msg : CoinbaseMessage D) (recv done : ℤ) (rt : Runtime D)
      → Holds m p q rt.metrics
      → Holds (bump m) p q (on_coinbase_message pops msg recv done rt).metrics
  unfolding on_coinbase_message
  on_coinbase_message-Holds msg recv done rt h =
      on_message_of-Holds msg.type rt.cfg.tick_size msg recv
        (record {
          events = rt.queue;
          counters = record (rt.metrics) {
            wire_to_parse = record_ns (done -ℤ recv) rt.metrics.wire_to_parse;
          };
        })
        h

-- the calls of each kind; those of a reconnect are counted by `reconnects`
abbrev pub messages : {D : Type 0} → List (Call D) → ℕ
messages [] = 0
messages (Call.message msg recv ∷ calls) = suc (messages calls)
messages (_ ∷ calls) = messages calls

abbrev pub errors : {D : Type 0} → List (Call D) → ℕ
errors [] = 0
errors (Call.parse_error ∷ calls) = suc (errors calls)
errors (_ ∷ calls) = errors calls

-- A counter that held `m` holds `n` more.
abbrev more : ℕ → ℕ → ℕ
more m n = (m + n) % 2 ^ 64

more-bump : (m n : ℕ) → more (bump m) n ≡ more m (suc n)
more-bump m n = omega arith

more_none : (m : ℕ) → m < 2 ^ 64 → m ≡ more m 0
more_none m h = omega arith

module _ {D : Type 0} ⦃d : Double D⦄ (pops : ℕ → Queue (MarketEvent D) → Queue (MarketEvent D))
    (done : ℤ → ℤ) where
  deliver_all-Holds :
      (calls : List (Call D)) (m p q : ℕ) (rt : Runtime D)
      → m < 2 ^ 64
      → p < 2 ^ 64
      → q < 2 ^ 64
      → Holds m p q rt.metrics
      → Holds
          (more m (messages calls))
          (more p (errors calls))
          (more q (reconnects calls))
          (deliver_all pops done calls rt).metrics
  unfolding deliver_all deliver
  deliver_all-Holds [] m p q rt a b c (x, y, z) =
      (x ∙ more_none m a, y ∙ more_none p b, z ∙ more_none q c)
  deliver_all-Holds (Call.message msg recv ∷ calls) m p q rt a b c h =
      let rest =
        deliver_all-Holds calls (bump m) p q (on_coinbase_message pops msg recv (done recv) rt)
          (omega arith) b c (on_coinbase_message-Holds m p q pops msg recv (done recv) rt h) in
      (rest.0 ∙ more-bump m (messages calls), rest.1, rest.2)
  deliver_all-Holds (Call.parse_error ∷ calls) m p q rt a b c (x, y, z) =
      let rest =
        deliver_all-Holds calls m (bump p) q (on_parse_error rt) a (omega arith) c
          (x, ap bump y, z) in
      (rest.0, rest.1 ∙ more-bump p (errors calls), rest.2)
  deliver_all-Holds (Call.reconnected ∷ calls) m p q rt a b c (x, y, z) =
      let rest =
        deliver_all-Holds calls m p (bump q) (on_reconnected rt) a b (omega arith)
          (x, y, ap bump z) in
      (rest.0, rest.1, rest.2 ∙ more-bump q (reconnects calls))

fresh : {D : Type 0} ⦃d : Double D⦄ (cfg : RuntimeConfig D) → Holds 0 0 0 (runtime cfg).metrics
unfolding runtime publish_pnl
fresh cfg = (refl, refl, refl)

module _ {D V : Type 0} ⦃d : Double D⦄ (r : Reader V) (strtod : String → Option D)
    (junk : ℤ → (ℕ → CoinbasePriceLevel D) × (ℕ → CoinbasePriceLevel D))
    (pops : ℕ → Queue (MarketEvent D) → Queue (MarketEvent D)) (done : ℤ → ℤ) where
  -- what the client of a runtime calls, with the settings that the constructor gives it
  abbrev pub client_calls : RuntimeConfig D → List Attempt → List (Call D)
  client_calls cfg tries = (run_client r strtod junk (runtime cfg).cfg.ws tries).calls

  -- Whatever attempts to connect fail or succeed, whatever is read, and whatever the strategy
  -- thread takes off the queue while a snapshot is pushed again: after the calls of its client, a
  -- new runtime's counters hold, modulo 2^64, the number of messages delivered, the number of
  -- texts that did not parse, and one reconnect less than the client connected, or none if it did
  -- not connect.
  pub client_calls-Holds :
      (cfg : RuntimeConfig D) (tries : List Attempt)
      → Holds
          (messages (client_calls cfg tries) % 2 ^ 64)
          (errors (client_calls cfg tries) % 2 ^ 64)
          ((connections tries - 1) % 2 ^ 64)
          (deliver_all pops done (client_calls cfg tries) (runtime cfg)).metrics
  client_calls-Holds cfg tries =
      let counts =
        deliver_all-Holds pops done (client_calls cfg tries) 0 0 0 (runtime cfg) (omega arith)
          (omega arith) (omega arith) (fresh cfg) in
      (
        counts.0
            ∙ ap (λ n. n % 2 ^ 64) {x = 0 + messages (client_calls cfg tries)}
                {y = messages (client_calls cfg tries)} (omega arith),
        counts.1
            ∙ ap (λ n. n % 2 ^ 64) {x = 0 + errors (client_calls cfg tries)}
                {y = errors (client_calls cfg tries)} (omega arith),
        counts.2
            ∙ ap (λ n. n % 2 ^ 64) {x = 0 + reconnects (client_calls cfg tries)}
                {y = connections tries - 1}
                (omega (arith, run_client-reconnects r strtod junk (runtime cfg).cfg.ws tries)),
      )
