-- ===== src/Md/Parser/Tests.antt =====
-- Each property of the parser at a concrete text, with a reader that knows one text, and numbers
-- in thousandths.
use text.Mathlib.Text.{◌==◌ as str_eq}
use trading_bot_v.Prelude.{
  ℕ, ◌≡◌, refl, ap, ◌^◌, Option, none, some, List, [], ◌∷◌, String, if◌then◌else◌, pos, true, false,
  Bool, arith, eqb_ℤ, if-true, lt→ltb, ltb,
}
use trading_bot_v.Core.Double.{Milli, milli_double}
use trading_bot_v.Core.Types.{ask}
use trading_bot_v.Core.Error.{ErrorCode}
use trading_bot_v.Md.Messages.{CoinbaseMessage, CoinbaseMsgType, CoinbasePriceLevel}
use trading_bot_v.Md.Parser.{Reader, parse, read_change, read_level}
use trading_bot_v.Md.Parser.Items.{level_of, numbers, texts}
use trading_bot_v.Md.Parser.Changes.{change_of, read_items_lem}
use trading_bot_v.Md.Parser.Writer.{IsPlain, IsPrinted, IsReader, Writer, carried, lookup, render}
use trading_bot_v.Md.Parser.Render.{parse-render}

mutual
  data Json : Type 0 where
    str : String → Json
    number : ℕ → Json
    array : Items → Json
    object : Fields → Json
    missing : Json

  data Items : Type 0 where
    nothing : Items
    item : Json → Items → Items

  data Fields : Type 0 where
    empty : Fields
    entry : String → Json → Fields → Fields

items : List Json → Items
items [] = nothing
items (v ∷ vs) = item v (items vs)

elements : Items → List Json
elements nothing = []
elements (item v vs) = v ∷ elements vs

elements-items : (vs : List Json) → elements (items vs) ≡ vs
unfolding items elements
elements-items [] = refl
elements-items (v ∷ vs) = ap (λ (ws : List Json). v ∷ ws) (elements-items vs)

entries : List (String × Json) → Fields
entries [] = empty
entries ((k, v) ∷ fs) = entry k v (entries fs)

value_of : Fields → String → Json
value_of empty k = missing
value_of (entry j v fs) k = if str_eq j k then v else value_of fs k

field_case :
    (t : Bool) (w : Json) {u v : Json} {o : Option Json}
    → (o ≡ some v → u ≡ v)
    → (if t then some w else o) ≡ some v
    → (if t then w else u) ≡ v
field_case true w rest e = cc
field_case false w rest e = rest e

value_of-entries :
    (fs : List (String × Json)) (k : String) (v : Json)
    → lookup k fs ≡ some v
    → value_of (entries fs) k ≡ v
unfolding value_of entries
value_of-entries [] k v e = cc
value_of-entries ((j, w) ∷ fs) k v e = field_case (str_eq j k) w (value_of-entries fs k v) e

abbrev price_text : String
price_text = "19.9"

abbrev strtod : String → Option Milli
strtod s =
    if str_eq s "19.9" then some (pos 19_900) else if str_eq s "4" then some (pos 4000) else none

abbrev show : Milli → String
show x = if eqb_ℤ x (pos 4000) then "4" else "19.9"

abbrev message : CoinbaseMessage Milli
message = record {
  type = CoinbaseMsgType.snapshot;
  bids = record { price = pos 19_900; qty = pos 4000 } ∷ [];
  asks = [];
  changes = [];
  sequence = 0;
  product_id = "BTC-USD";
  error_message = "";
}

abbrev writer : Writer Json
writer = record {
  string = str;
  number = number;
  array = λ vs. array (items vs);
  object = λ fs. object (entries fs);
}

abbrev snapshot_text : String
snapshot_text =
    "{\"type\":\"snapshot\",\"product_id\":\"BTC-USD\",\"bids\":[[\"19.9\",\"4\"]],\"asks\":[]}"

abbrev reader : Reader Json
reader = record {
  iterate = λ s. if str_eq s snapshot_text then some (render writer show message) else none;
  get_object = λ v. elim v [ object fs ↦ some (object fs) | _ ↦ none ];
  field = λ v k. elim v [ object fs ↦ value_of fs k | _ ↦ missing ];
  get_string = λ v. elim v [ str s ↦ some s | _ ↦ none ];
  get_array = λ v. elim v [ array vs ↦ some (elements vs) | _ ↦ none ];
  get_uint64 = λ v. elim v [ number n ↦ if ltb n (2 ^ 64) then some n else none | _ ↦ none ];
}

reader-IsReader : IsReader reader writer
reader-IsReader = record {
  field_get = value_of-entries;
  string_get = λ s. refl;
  array_get = λ vs. ap some (elements-items vs);
  number_get = λ n h. if-true (ltb n (2 ^ 64)) _ _ (lt→ltb n (2 ^ 64) h);
}

abbrev no_junk : CoinbasePriceLevel Milli
no_junk = record { price = pos 1; qty = pos 2 }

price-IsPrinted : IsPrinted strtod show (pos 19_900)
price-IsPrinted = record { fits = omega arith; no_nul = refl; exact = refl }

qty-IsPrinted : IsPrinted strtod show (pos 4000)
qty-IsPrinted = record { fits = omega arith; no_nul = refl; exact = refl }

message-IsPlain : IsPlain strtod show message
message-IsPlain = record {
  bids_printed = (price-IsPrinted, qty-IsPrinted, tt);
  asks_printed = tt;
  changes_printed = tt;
  sequence_bound = omega arith;
}

parse-render_example :
    parse reader strtod ((λ i. no_junk), (λ i. no_junk)) snapshot_text message
    ≡ (ErrorCode.ok, carried CoinbaseMsgType.snapshot message)
parse-render_example =
    parse-render reader strtod writer show reader-IsReader ((λ i. no_junk), (λ i. no_junk))
      snapshot_text message message refl message-IsPlain

-- a level with a number that is not a text, a text that is not a number, and a third number
abbrev odd_level : Json
odd_level =
    Json.array
      (items (Json.number 7 ∷ Json.str "x" ∷ Json.str "19.9" ∷ Json.str "4" ∷ Json.str "4" ∷ []))

read_level-odd_level :
    read_level reader strtod no_junk odd_level
    ≡ some (record { price = pos 19_900; qty = pos 4000 })
unfolding read_level items elements
read_level-odd_level = refl

abbrev sell : Json
sell = Json.array (items (Json.str "sell" ∷ Json.str "19.9" ∷ Json.str "4" ∷ []))

read_items_lem_example :
    (read_level reader strtod no_junk sell ≡ elim (reader.get_array sell) [
      | none ↦ none
      | some vs ↦ level_of (numbers strtod (texts reader vs))
    ])
    × (read_change reader strtod sell ≡ elim (reader.get_array sell) [
      | none ↦ none
      | some vs ↦ change_of strtod (texts reader vs)
    ])
read_items_lem_example = read_items_lem reader strtod no_junk sell

read_change-sell :
    read_change reader strtod sell
    ≡ some (record { side = ask; price = pos 19_900; qty = pos 4000 })
unfolding read_change items elements
read_change-sell = refl
