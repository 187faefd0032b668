-- ===== src/Runtime/Client.antt =====
-- src/core/runtime.cpp, the callbacks that the constructor gives the client: its calls on a runtime.
use trading_bot_v.Prelude.{
  ℕ, zero, suc, ◌+◌, ◌-◌, ◌%◌, ◌^◌, ◌<◌, ℤ, ◌-ℤ◌, pos, Bool, true, false, ◌≡◌, ◌∙◌, refl, ap,
  Option, List, [], ◌∷◌, map, take, drop, length, leb, String, if-elim, arith, if◌then◌else◌,
}
use trading_bot_v.Core.Double.{Double}
use trading_bot_v.Md.Messages.{CoinbaseChange, CoinbaseMessage, CoinbaseMsgType, CoinbasePriceLevel}
use trading_bot_v.Md.Parser.{Reader}
use trading_bot_v.Md.WsClient.{Attempt, Call, WsConfig, run_client}
use trading_bot_v.Md.WsClient.Reconnects.{connections, reconnects, run_client-reconnects}
use trading_bot_v.Util.HdrHistogram.{record_ns}
use trading_bot_v.Util.SpscQueue.{Queue, try_push}
use trading_bot_v.Runtime.State.{MarketEvent, Metrics, Runtime, RuntimeConfig, bump}
use trading_bot_v.Runtime.Network.{
  Outbox, attempt, count_drop, count_message, finish, on_coinbase_message, on_message_of,
  on_parse_error, on_reconnected, push_chunks, push_last, push_or_drop, queue_capacity, retry_push,
  split_chunks,
}
use trading_bot_v.Runtime.Orders.{publish_pnl, runtime}
pub mod Counted

module _ {D : Type 0} ⦃d : Double D⦄ (pops : ℕ → Queue (MarketEvent D) → Queue (MarketEvent D))
    (done : ℤ → ℤ) where
  -- one call; `done` gives the clock's reading after the parse
  unfoldable pub deliver : Call D → Runtime D → Runtime D
  unfolding on_coinbase_message
  deliver (Call.message msg recv) rt = on_coinbase_message pops msg recv (done recv) rt
  deliver Call.parse_error rt = on_parse_error rt
  deliver Call.reconnected rt = on_reconnected rt

  unfoldable pub deliver_all : List (Call D) → Runtime D → Runtime D
  unfolding deliver
  deliver_all [] rt = rt
  deliver_all (call ∷ calls) rt = deliver_all calls (deliver call rt)
