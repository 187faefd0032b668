-- ===== src/Md/Parser.antt =====
-- src/md/coinbase_parser.cpp, `class CoinbaseParser`. What simdjson does with a text is a parameter,
-- and so is what `std::strtod` reads at the beginning of a text.
use text.Mathlib.Text.{◌==◌ as str_eq}
use trading_bot_v.Prelude.{
  ℕ, ◌+◌, suc, Option, none, some, List, [], ◌∷◌, String, bytes, c_string, leb, ◌==◌, if◌then◌else◌,
}
use trading_bot_v.Core.Double.{Double}
use trading_bot_v.Core.Types.{bid, ask}
use trading_bot_v.Core.Error.{ErrorCode}
use trading_bot_v.Md.Messages.{CoinbaseChange, CoinbaseMessage, CoinbaseMsgType, CoinbasePriceLevel}
mod Items
mod Changes
mod Writer
mod Rendered
mod Render
mod Tests

-- simdjson's calls on its values. `none` is an error code. An error met while an object or an array
-- is read is a value on which every call fails, and none of the calls throws.
pub record Reader (V : Type 0) : Type 0 where
  -- `parser::iterate`, and `get_object` of the document
  pub iterate : String → Option V
  pub get_object : V → Option V
  -- `root["key"]`
  pub field : V → String → V
  pub get_string : V → Option String
  pub get_array : V → Option (List V)
  pub get_uint64 : V → Option ℕ

-- the object that a text holds
abbrev pub root_of : {V : Type 0} → Reader V → String → Option V
root_of r text = elim (r.iterate text) [ none ↦ none | some doc ↦ r.get_object doc ]

abbrev pub type_from_string : String → CoinbaseMsgType
type_from_string s =
    if str_eq s "subscriptions"
    then CoinbaseMsgType.subscriptions
    else if str_eq s "snapshot"
    then CoinbaseMsgType.snapshot
    else if str_eq s "l2update"
    then CoinbaseMsgType.l2_update
    else if str_eq s "heartbeat"
    then CoinbaseMsgType.heartbeat
    else if str_eq s "error"
    then CoinbaseMsgType.error
    else CoinbaseMsgType.unknown

-- `parseDouble`; the buffer has 64 bytes, the last of them for the NUL
abbrev pub parse_double : {D : Type 0} → (String → Option D) → String → Option D
parse_double strtod s = if leb 64 (bytes s) then none else strtod (c_string s)

-- the variables `entry` or `cg`, and `slot`, of the loop over the items of an array
pub record Slots (E : Type 0) : Type 0 where
  pub entry : E
  pub slot : ℕ

-- the clearing of `out`
abbrev pub cleared : {D : Type 0} → CoinbaseMessage D → CoinbaseMessage D
cleared out = record out {
  type = CoinbaseMsgType.unknown;
  bids = [];
  asks = [];
  changes = [];
  sequence = 0;
  product_id = "";
  error_message = "";
}

module _ {D : Type 0} where
  -- the assignment of a number to a price level
  abbrev pub put_number : D → Slots (CoinbasePriceLevel D) → Slots (CoinbasePriceLevel D)
  put_number v s = record {
    entry =
        if s.slot == 0
        then record (s.entry) { price = v }
        else if s.slot == 1
        then record (s.entry) { qty = v }
        else s.entry;
    slot = s.slot + 1;
  }

  -- the assignment of a text to a change: the side, and then two numbers
  abbrev pub put_change : D → Slots (CoinbaseChange D) → Slots (CoinbaseChange D)
  put_change v s = record {
    entry =
        if s.slot == 1
        then record (s.entry) { price = v }
        else if s.slot == 2
        then record (s.entry) { qty = v }
        else s.entry;
    slot = s.slot + 1;
  }

  abbrev pub put_side : String → Slots (CoinbaseChange D) → Slots (CoinbaseChange D)
  put_side sv s = record {
    entry = record (s.entry) { side = if str_eq sv "buy" then bid else ask };
    slot = s.slot + 1;
  }

module _ {D V : Type 0} ⦃d : Double D⦄ (r : Reader V) (strtod : String → Option D) where
  -- one round of the loop over the items of a level
  abbrev pub level_item : V → Slots (CoinbasePriceLevel D) → Slots (CoinbasePriceLevel D)
  level_item item s = elim (r.get_string item) [
    | none ↦ s
    | some sv ↦ elim (parse_double strtod sv) [ none ↦ s | some v ↦ put_number v s ]
  ]

  unfoldable pub level_items : List V → Slots (CoinbasePriceLevel D) → Slots (CoinbasePriceLevel D)
  level_items [] s = s
  level_items (item ∷ items) s = level_items items (level_item item s)

  -- `entry` is not initialised: it holds what was at its place.
  abbrev pub finish_level : CoinbasePriceLevel D → List V → Option (CoinbasePriceLevel D)
  finish_level junk items =
      let s = level_items items (record { entry = junk; slot = 0 }) in
      if leb 2 s.slot then some s.entry else none

  -- one round of the loop over the levels: what it pushes back
  unfoldable pub read_level : CoinbasePriceLevel D → V → Option (CoinbasePriceLevel D)
  unfolding level_items
  read_level junk lvl = elim (r.get_array lvl) [
    | none ↦ none
    | some items ↦ finish_level junk items
  ]

  unfoldable pub read_levels : (ℕ → CoinbasePriceLevel D) → ℕ → List V → List (CoinbasePriceLevel D)
  unfolding read_level
  read_levels junk i [] = []
  read_levels junk i (lvl ∷ lvls) =
      let rest = read_levels junk (suc i) lvls in
      elim (read_level (junk i) lvl) [ none ↦ rest | some entry ↦ entry ∷ rest ]

  abbrev pub change_item : V → Slots (CoinbaseChange D) → Slots (CoinbaseChange D)
  change_item item s = elim (r.get_string item) [
    | none ↦ s
    | some sv ↦
        if s.slot == 0
        then put_side sv s
        else elim (parse_double strtod sv) [ none ↦ s | some v ↦ put_change v s ]
  ]

  unfoldable pub change_items : List V → Slots (CoinbaseChange D) → Slots (CoinbaseChange D)
  change_items [] s = s
  change_items (item ∷ items) s = change_items items (change_item item s)

  abbrev pub finish_change : List V → Option (CoinbaseChange D)
  finish_change items =
      let s =
        change_items items
          (record { entry = record { side = bid; price = d.nought; qty = d.nought }; slot = 0 }) in
      if leb 3 s.slot then some s.entry else none

  unfoldable pub read_change : V → Option (CoinbaseChange D)
  unfolding change_items
  read_change ch = elim (r.get_array ch) [ none ↦ none | some items ↦ finish_change items ]

  unfoldable pub read_changes : List V → List (CoinbaseChange D)
  unfolding read_change
  read_changes [] = []
  read_changes (ch ∷ chs) =
      let rest = read_changes chs in elim (read_change ch) [ none ↦ rest | some cg ↦ cg ∷ rest ]

  -- an array of levels that is missing is an empty one
  abbrev pub levels_at : (ℕ → CoinbasePriceLevel D) → V → String → List (CoinbasePriceLevel D)
  levels_at junk root key = elim (r.get_array (r.field root key)) [
    | none ↦ []
    | some lvls ↦ read_levels junk 0 lvls
  ]

  -- the switch on the type; `junk` is what the uninitialised levels hold, those of the bids first
  unfoldable pub read_body :
      (ℕ → CoinbasePriceLevel D) × (ℕ → CoinbasePriceLevel D)
      → CoinbaseMsgType
      → V
      → CoinbaseMessage D
      → CoinbaseMessage D
  unfolding read_levels read_changes
  read_body junk CoinbaseMsgType.snapshot root out = record out {
    bids = levels_at junk.0 root "bids";
    asks = levels_at junk.1 root "asks";
  }
  read_body junk CoinbaseMsgType.l2_update root out = elim (r.get_array (r.field root "changes")) [
    | none ↦ out
    | some chs ↦ record out { changes = read_changes chs }
  ]
  read_body junk CoinbaseMsgType.heartbeat root out =
      elim (r.get_uint64 (r.field root "sequence")) [
        | none ↦ out
        | some seq ↦ record out { sequence = seq }
      ]
  read_body junk CoinbaseMsgType.error root out = elim (r.get_string (r.field root "message")) [
    | none ↦ out
    | some msg ↦ record out { error_message = msg }
  ]
  read_body junk CoinbaseMsgType.subscriptions root out = out
  read_body junk CoinbaseMsgType.unknown root out = out

  abbrev pub read_product : V → CoinbaseMessage D → CoinbaseMessage D
  read_product root out = elim (r.get_string (r.field root "product_id")) [
    | none ↦ out
    | some product ↦ record out { product_id = product }
  ]

  abbrev pub read_root :
      (ℕ → CoinbasePriceLevel D) × (ℕ → CoinbasePriceLevel D)
      → V
      → CoinbaseMessage D
      → ErrorCode × CoinbaseMessage D
  read_root junk root out = elim (r.get_string (r.field root "type")) [
    | none ↦ (ErrorCode.parse_unexpected_shape, out)
    | some text ↦ (
      ErrorCode.ok,
      read_body junk (type_from_string text) root
          (read_product root (record out { type = type_from_string text })),
    )
  ]

  unfoldable pub parse :
      (ℕ → CoinbasePriceLevel D) × (ℕ → CoinbasePriceLevel D)
      → String
      → CoinbaseMessage D
      → ErrorCode × CoinbaseMessage D
  unfolding read_body
  parse junk text out = elim (root_of r text) [
    | none ↦ (ErrorCode.parse_malformed_json, cleared out)
    | some root ↦ read_root junk root (cleared out)
  ]
