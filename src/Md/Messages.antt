-- ===== src/Md/Messages.antt =====
-- md/coinbase_messages.hpp: the messages that the parser yields.
use trading_bot_v.Prelude.{ℕ, List, String}
use trading_bot_v.Core.Types.{Side}

pub data CoinbaseMsgType : Type 0 where
  unknown subscriptions snapshot l2_update heartbeat error : CoinbaseMsgType

pub record CoinbasePriceLevel (D : Type 0) : Type 0 where
  pub price : D
  pub qty : D

pub record CoinbaseChange (D : Type 0) : Type 0 where
  pub side : Side
  pub price : D
  pub qty : D

pub record CoinbaseMessage (D : Type 0) : Type 0 where
  pub type : CoinbaseMsgType
  pub bids : List (CoinbasePriceLevel D)
  pub asks : List (CoinbasePriceLevel D)
  pub changes : List (CoinbaseChange D)
  pub sequence : ℕ
  pub product_id : String
  pub error_message : String
