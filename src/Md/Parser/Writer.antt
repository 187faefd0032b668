-- ===== src/Md/Parser/Writer.antt =====
-- The messages as JSON values, which coinbase_parser.cpp is meant to read.
use text.Mathlib.Text.{◌==◌ as str_eq}
use trading_bot_v.Prelude.{
  ℕ, ◌<◌, ◌^◌, ◌≡◌, Option, none, some, List, [], ◌∷◌, map, String, bytes, c_string, if◌then◌else◌,
}
use trading_bot_v.Core.Types.{Side}
use trading_bot_v.Md.Messages.{CoinbaseChange, CoinbaseMessage, CoinbaseMsgType, CoinbasePriceLevel}
use trading_bot_v.Md.Parser.{Reader, cleared}

abbrev pub lookup : {V : Type 0} → String → List (String × V) → Option V
lookup k [] = none
lookup k ((j, v) ∷ fields) = if str_eq j k then some v else lookup k fields

-- the JSON values, as another program builds them
pub record Writer (V : Type 0) : Type 0 where
  pub string : String → V
  pub number : ℕ → V
  pub array : List V → V
  pub object : List (String × V) → V

-- What simdjson documents of its calls on each kind of value.
pub record IsReader {V : Type 0} (r : Reader V) (w : Writer V) : Type 0 where
  pub field_get :
      (fields : List (String × V)) (key : String) (v : V)
      → lookup key fields ≡ some v
      → r.field (w.object fields) key ≡ v
  pub string_get : (s : String) → r.get_string (w.string s) ≡ some s
  pub array_get : (vs : List V) → r.get_array (w.array vs) ≡ some vs
  pub number_get : (n : ℕ) → n < 2 ^ 64 → r.get_uint64 (w.number n) ≡ some n

-- A number whose text fits into the buffer, holds no NUL and is read back exactly.
pub record IsPrinted {D : Type 0} (strtod : String → Option D) (show : D → String) (x : D)
    : Type 0 where
  pub fits : bytes (show x) < 64
  pub no_nul : c_string (show x) ≡ show x
  pub exact : strtod (show x) ≡ some x

abbrev pub side_name : Side → String
side_name Side.bid = "buy"
side_name Side.ask = "sell"

abbrev pub type_name : CoinbaseMsgType → String
type_name CoinbaseMsgType.subscriptions = "subscriptions"
type_name CoinbaseMsgType.snapshot = "snapshot"
type_name CoinbaseMsgType.l2_update = "l2update"
type_name CoinbaseMsgType.heartbeat = "heartbeat"
type_name CoinbaseMsgType.error = "error"
type_name CoinbaseMsgType.unknown = "unknown"

module _ {D V : Type 0} (w : Writer V) (show : D → String) where
  abbrev pub render_level : CoinbasePriceLevel D → V
  render_level l = w.array (w.string (show l.price) ∷ w.string (show l.qty) ∷ [])

  abbrev pub render_change : CoinbaseChange D → V
  render_change c =
      w.array (w.string (side_name c.side) ∷ w.string (show c.price) ∷ w.string (show c.qty) ∷ [])

  -- the fields that a message of each type has
  abbrev pub body_fields : CoinbaseMsgType → CoinbaseMessage D → List (String × V)
  body_fields CoinbaseMsgType.snapshot msg =
      ("bids", w.array (map render_level msg.bids))
      ∷ ("asks", w.array (map render_level msg.asks))
      ∷ []
  body_fields CoinbaseMsgType.l2_update msg =
      ("changes", w.array (map render_change msg.changes)) ∷ []
  body_fields CoinbaseMsgType.heartbeat msg = ("sequence", w.number msg.sequence) ∷ []
  body_fields CoinbaseMsgType.error msg = ("message", w.string msg.error_message) ∷ []
  body_fields _ msg = []

  abbrev pub fields_of : CoinbaseMsgType → CoinbaseMessage D → List (String × V)
  fields_of t msg =
      ("type", w.string (type_name t)) ∷ ("product_id", w.string msg.product_id) ∷ body_fields t msg

  abbrev pub render : CoinbaseMessage D → V
  render msg = w.object (fields_of msg.type msg)

module _ {D : Type 0} where
  -- a message without what one of its type does not carry
  abbrev pub carried : CoinbaseMsgType → CoinbaseMessage D → CoinbaseMessage D
  carried CoinbaseMsgType.snapshot msg = record (cleared msg) {
    type = CoinbaseMsgType.snapshot;
    product_id = msg.product_id;
    bids = msg.bids;
    asks = msg.asks;
  }
  carried CoinbaseMsgType.l2_update msg = record (cleared msg) {
    type = CoinbaseMsgType.l2_update;
    product_id = msg.product_id;
    changes = msg.changes;
  }
  carried CoinbaseMsgType.heartbeat msg = record (cleared msg) {
    type = CoinbaseMsgType.heartbeat;
    product_id = msg.product_id;
    sequence = msg.sequence;
  }
  carried CoinbaseMsgType.error msg = record (cleared msg) {
    type = CoinbaseMsgType.error;
    product_id = msg.product_id;
    error_message = msg.error_message;
  }
  carried t msg = record (cleared msg) { type = t; product_id = msg.product_id }

module _ {D : Type 0} (strtod : String → Option D) (show : D → String) where
  abbrev pub ArePrintedLevels : List (CoinbasePriceLevel D) → Type 0
  ArePrintedLevels [] = Unit {0}
  ArePrintedLevels (l ∷ ls) =
      IsPrinted strtod show l.price × IsPrinted strtod show l.qty × ArePrintedLevels ls

  abbrev pub ArePrintedChanges : List (CoinbaseChange D) → Type 0
  ArePrintedChanges [] = Unit {0}
  ArePrintedChanges (c ∷ cs) =
      IsPrinted strtod show c.price × IsPrinted strtod show c.qty × ArePrintedChanges cs

  -- Its numbers are printed so, and its sequence number has 64 bits.
  pub record IsPlain (msg : CoinbaseMessage D) : Type 0 where
    pub bids_printed : ArePrintedLevels msg.bids
    pub asks_printed : ArePrintedLevels msg.asks
    pub changes_printed : ArePrintedChanges msg.changes
    pub sequence_bound : msg.sequence < 2 ^ 64
