-- ===== src/Runtime/Tests.antt =====
-- Each property of the runtime at a concrete run, in thousandths.
use text.Mathlib.Text.{◌==◌ as str_eq}
use trading_bot_v.Prelude.{
  ℕ, ℤ, String, Option, some, none, List, ◌%◌, ◌^◌, ◌-◌, if◌then◌else◌, refl, true, false, pos,
  negsuc, [], ◌∷◌, replicate, length,
}
use trading_bot_v.Core.Double.{Milli, milli_double}
use trading_bot_v.Core.Types.{PriceLevel, bid}
use trading_bot_v.Md.Messages.{CoinbaseChange, CoinbaseMessage, CoinbaseMsgType, CoinbasePriceLevel}
use trading_bot_v.Md.WsClient.{default_ws}
use trading_bot_v.Md.Parser.{Reader}
use trading_bot_v.Md.WsClient.{Attempt, Read}
use trading_bot_v.Md.WsClient.Reconnects.{connections}
use trading_bot_v.Runtime.Client.{deliver_all}
use trading_bot_v.Runtime.Client.Counted.{Holds, client_calls, client_calls-Holds, errors, messages}
use trading_bot_v.Runtime.State.{MarketEvent, RuntimeConfig}
use trading_bot_v.Runtime.Network.{split_chunks}
use trading_bot_v.Runtime.Orders.{Times, runtime}
use trading_bot_v.Runtime.Steps.{Step}
use trading_bot_v.Runtime.Counters.{
  IsChunked, IsCounted, SameTrading, process_all, process_all-IsCounted, process_all-SameTrading,
  split_chunks-IsChunked,
}

abbrev cfg : RuntimeConfig Milli
cfg = record {
  product_id = "BTC-USD";
  symbol_id = 0;
  tick_size = pos 10;
  max_position = pos 5000;
  initial_cash = pos 10_000_000;
  strategy = record {
    depth_levels = 5;
    smoothing_window = 5;
    entry_imbalance = pos 300;
    take_profit_bps = pos 8000;
    stop_loss_bps = pos 8000;
    max_spread_bps = pos 5000;
    trade_fraction = pos 100;
    cooldown_s = pos 2000;
    allow_short = true;
  };
  network_core_id = negsuc 0;
  strategy_core_id = negsuc 0;
  strategy_busy_spin = false;
  strategy_sleep_us = pos 50;
  circuit_error_threshold = 20;
  circuit_window_msgs = 500;
  ws = default_ws;
}

abbrev times : Times
times = record {
  book_start = pos 100;
  book_done = pos 110;
  signal_done = pos 120;
  order_done = pos 130;
  simulated = pos 140;
  fill_done = pos 150;
}

abbrev change : CoinbaseChange Milli
change = record { side = bid; price = pos 19_900; qty = pos 4000 }

-- a message with more changes than one event holds
abbrev update_message : CoinbaseMessage Milli
update_message = record {
  type = CoinbaseMsgType.l2_update;
  bids = [];
  asks = [];
  changes = replicate 130 change;
  sequence = 1;
  product_id = "BTC-USD";
  error_message = "";
}

abbrev steps : List (Step Milli)
steps =
    Step.message (λ i q. q) update_message (pos 1) (pos 2)
    ∷ Step.reconnected
    ∷ Step.round times
    ∷ []

abbrev level : PriceLevel Milli
level = record { price = record { ticks = pos 1990 }; qty = record { value = pos 4000 } }

process_all-IsCounted_example :
    IsCounted
      (process_all (runtime cfg) ((MarketEvent.snapshot (pos 1) (level ∷ []) [], times) ∷ []))
process_all-IsCounted_example =
    process_all-IsCounted cfg ((MarketEvent.snapshot (pos 1) (level ∷ []) [], times) ∷ [])

process_all-SameTrading_example :
    SameTrading
      (process_all (runtime cfg) (
        (MarketEvent.l2_update (pos 1) (change ∷ []), times)
        ∷ (MarketEvent.heartbeat (pos 2), times)
        ∷ []))
      (runtime cfg)
unfolding runtime
process_all-SameTrading_example =
    process_all-SameTrading
      ((MarketEvent.l2_update (pos 1) (change ∷ []), times)
        ∷ (MarketEvent.heartbeat (pos 2), times)
        ∷ [])
      (runtime cfg) tt refl

split_chunks-IsChunked_example :
    IsChunked update_message.changes
      (split_chunks (length update_message.changes) update_message.changes)
split_chunks-IsChunked_example = split_chunks-IsChunked update_message.changes

-- a reader for which a text is the type of its message
abbrev reader : Reader String
reader = record {
  iterate = λ s. if str_eq s "bad" then none else some s;
  get_object = λ v. some v;
  field = λ v key. v;
  get_string = λ v. some v;
  get_array = λ v. none;
  get_uint64 = λ v. none;
}

abbrev no_number : String → Option Milli
no_number s = none

abbrev junk : ℤ → (ℕ → CoinbasePriceLevel Milli) × (ℕ → CoinbasePriceLevel Milli)
junk recv = ((λ i. record { price = recv; qty = recv }), (λ i. record { price = recv; qty = recv }))

-- two connections, of which the first reads a heartbeat and a text that is no JSON
abbrev tries : List Attempt
tries =
    Attempt.connected (pos 0) (
      record { now = pos 1; read = Read.frame "heartbeat" (pos 2) (pos 3) }
      ∷ record { now = pos 4; read = Read.frame "bad" (pos 5) (pos 6) }
      ∷ record { now = pos 7; read = Read.failure }
      ∷ [])
    ∷ Attempt.connected (pos 8) []
    ∷ []

client_calls-Holds_example :
    Holds
      (messages (client_calls reader no_number junk (λ i q. q) (λ t. t) cfg tries) % 2 ^ 64)
      (errors (client_calls reader no_number junk (λ i q. q) (λ t. t) cfg tries) % 2 ^ 64)
      ((connections tries - 1) % 2 ^ 64)
      (deliver_all
        (λ i q. q)
        (λ t. t)
        (client_calls reader no_number junk (λ i q. q) (λ t. t) cfg tries)
        (runtime cfg)).metrics
client_calls-Holds_example = client_calls-Holds reader no_number junk (λ i q. q) (λ t. t) cfg tries
