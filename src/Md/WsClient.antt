-- ===== src/Md/WsClient.antt =====
-- md/coinbase_ws_client.hpp and src/md/coinbase_ws_client.cpp: the client's settings and the loop of
-- its thread. What the network does is an argument: a list of attempts to connect, each with what is
-- read on the connection. A list ends where the client is stopped.
use trading_bot_v.Prelude.{
  ℕ, zero, suc, ◌+◌, ℤ, pos, negsuc, ◌-ℤ◌, ◌*ℤ◌, ltb_ℤ, min_ℤ, Bool, true, false, ◌&&◌, Option,
  List, [], ◌∷◌, ◌++◌, String, if◌then◌else◌,
}
use trading_bot_v.Core.Double.{Double}
use trading_bot_v.Core.Error.{ErrorCode}
use trading_bot_v.Md.Messages.{CoinbaseMessage, CoinbaseMsgType, CoinbasePriceLevel}
use trading_bot_v.Md.Auth.{Auth, has_credentials}
use trading_bot_v.Md.Parser.{Reader, parse}
mod Frames
pub mod Reconnects
mod Backoff
mod Tests

-- `struct CoinbaseWSConfig`: the timeout in seconds, the backoffs in milliseconds
pub record WsConfig : Type 0 where
  pub host : String
  pub port : String
  pub channel : String
  pub product_ids : List String
  pub heartbeat_timeout : ℤ
  pub backoff_initial : ℤ
  pub backoff_max : ℤ
  pub core_id : ℤ

abbrev pub default_ws : WsConfig
default_ws = record {
  host = "ws-feed.exchange.coinbase.com";
  port = "443";
  channel = "level2_batch";
  product_ids = [];
  heartbeat_timeout = pos 30;
  backoff_initial = pos 1000;
  backoff_max = pos 30000;
  core_id = negsuc 0;
}

-- a value of the subscription's JSON
pub data Value : Type 0 where
  one : String → Value
  many : List String → Value
  bytes : List ℕ → Value

-- `buildSubscribeMessage` before its text is made: the fields, with the time in seconds, its digits
-- and the signature of them
abbrev pub subscribe_message : WsConfig → Auth → List ℕ → List ℕ → List (String × Value)
subscribe_message cfg auth timestamp signature =
    ("type", Value.one "subscribe")
    ∷ ("product_ids", Value.many cfg.product_ids)
    ∷ ("channels", Value.many (cfg.channel ∷ "heartbeat" ∷ []))
    ∷ (if has_credentials auth
        then ("signature", Value.bytes signature)
          ∷ ("key", Value.bytes auth.key)
          ∷ ("passphrase", Value.bytes auth.passphrase)
          ∷ ("timestamp", Value.bytes timestamp)
          ∷ []
        else [])

-- a call of one of the callbacks
pub data Call (D : Type 0) : Type 0 where
  message : CoinbaseMessage D → ℤ → Call D
  parse_error : Call D
  reconnected : Call D

-- What a read gives: nothing within its time, an error, or a text, with the time of its receipt and
-- the time after it is parsed.
pub data Read : Type 0 where
  nothing failure : Read
  frame : String → ℤ → ℤ → Read

-- one round of the inner loop: the clock in nanoseconds, and the read
pub record Round : Type 0 where
  pub now : ℤ
  pub read : Read

-- how the inner loop ends
pub data Ending : Type 0 where
  stopped silent broken : Ending

pub record Session (D : Type 0) : Type 0 where
  pub calls : List (Call D)
  pub ending : Ending

pub data Attempt : Type 0 where
  refused : Attempt
  -- with the clock after the connection is made
  connected : ℤ → List Round → Attempt

-- the variable `backoff` and the member `hasConnectedOnce_`
pub record Client : Type 0 where
  pub backoff : ℤ
  pub has_connected_once : Bool

-- the calls that are made, and the times that are waited after an exception
pub record Trace (D : Type 0) : Type 0 where
  pub calls : List (Call D)
  pub waits : List ℤ

-- the sleep in slices: the slices, and what remains of the wait
pub record Sleep : Type 0 where
  pub slices : List ℤ
  pub remaining : ℤ

-- `running i` is what the flag holds before the `i`-th slice.
unfoldable pub sleep : ℕ → (ℕ → Bool) → ℕ → ℤ → Sleep
sleep zero running i remaining = record { slices = []; remaining = remaining }
sleep (suc fuel) running i remaining =
    let slice = min_ℤ remaining (pos 100) in
    let rest = sleep fuel running (suc i) (remaining -ℤ slice) in
    if ltb_ℤ (pos 0) remaining && running i
    then record { slices = slice ∷ rest.slices; remaining = rest.remaining }
    else record { slices = []; remaining = remaining }

-- the handler of an exception: the wait, and the next one
unfoldable pub back_off : WsConfig → Client → Client
back_off cfg c = record c { backoff = min_ℤ (c.backoff *ℤ pos 2) cfg.backoff_max }

abbrev pub call_then : {D : Type 0} → Call D → Session D → Session D
call_then call s = record s { calls = call ∷ s.calls }

-- a message with its initial values
abbrev pub blank : {D : Type 0} → CoinbaseMessage D
blank = record {
  type = CoinbaseMsgType.unknown;
  bids = [];
  asks = [];
  changes = [];
  sequence = 0;
  product_id = "";
  error_message = "";
}

module _ {D V : Type 0} ⦃d : Double D⦄ (r : Reader V) (strtod : String → Option D)
    (junk : ℤ → (ℕ → CoinbasePriceLevel D) × (ℕ → CoinbasePriceLevel D)) (cfg : WsConfig) where
  -- `buffer` is the message that the parser fills, the same one for all texts of a connection.
  unfoldable pub session : ℤ → CoinbaseMessage D → List Round → Session D
  unfolding parse
  session last_seen buffer [] = record { calls = []; ending = Ending.stopped }
  session last_seen buffer (round ∷ rounds) =
      if ltb_ℤ (cfg.heartbeat_timeout *ℤ pos 1_000_000_000) (round.now -ℤ last_seen)
      then record { calls = []; ending = Ending.silent }
      else elim round.read [
        | Read.nothing ↦ session last_seen buffer rounds
        | Read.failure ↦ record { calls = []; ending = Ending.broken }
        | Read.frame text recv seen ↦
            let parsed = parse r strtod (junk recv) text buffer in
            elim parsed.0 [
              | ErrorCode.ok ↦ call_then (Call.message parsed.1 recv) (session seen parsed.1 rounds)
              | _ ↦ call_then Call.parse_error (session last_seen parsed.1 rounds)
            ]
      ]

  -- one round of the outer loop: the calls, the waits, and what the client keeps
  unfoldable pub try_connection : Attempt → Client → Trace D × Client
  unfolding session back_off
  try_connection Attempt.refused c = (record { calls = []; waits = c.backoff ∷ [] }, back_off cfg c)
  try_connection (Attempt.connected seen rounds) c =
      let s = session seen blank rounds in
      let calls = if c.has_connected_once then Call.reconnected ∷ s.calls else s.calls in
      let fresh : Client = record { backoff = cfg.backoff_initial; has_connected_once = true } in
      elim s.ending [
        | Ending.broken ↦ (record { calls = calls; waits = fresh.backoff ∷ [] }, back_off cfg fresh)
        | _ ↦ (record { calls = calls; waits = [] }, fresh)
      ]

  unfoldable pub attempts : List Attempt → Client → Trace D
  unfolding try_connection
  attempts [] c = record { calls = []; waits = [] }
  attempts (try ∷ tries) c =
      let r = try_connection try c in
      let rest = attempts tries r.1 in
      record { calls = r.0.calls ++ rest.calls; waits = r.0.waits ++ rest.waits }

  -- the whole thread
  unfoldable pub run_client : List Attempt → Trace D
  unfolding attempts
  run_client tries =
      attempts tries (record { backoff = cfg.backoff_initial; has_connected_once = false })
