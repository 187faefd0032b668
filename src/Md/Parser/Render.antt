-- ===== src/Md/Parser/Render.antt =====
-- coinbase_parser.cpp on the JSON values of the messages: what is rendered is read again.
use trading_bot_v.Prelude.{ℕ, ◌≡◌, refl, ap, ◌∙◌, Option, none, some, List, [], map, String}
use trading_bot_v.Core.Double.{Double}
use trading_bot_v.Core.Error.{ErrorCode}
use trading_bot_v.Md.Messages.{CoinbaseChange, CoinbaseMessage, CoinbaseMsgType, CoinbasePriceLevel}
use trading_bot_v.Md.Parser.{
  Reader, levels_at, cleared, read_root, read_product, parse, read_body, read_changes, read_levels,
  root_of, type_from_string,
}
use trading_bot_v.Md.Parser.Writer.{
  ArePrintedLevels, IsPlain, IsReader, Writer, carried, fields_of, lookup, render, render_level,
  type_name,
}
use trading_bot_v.Md.Parser.Rendered.{read_changes-render, read_levels-render}

module _ {D V : Type 0} ⦃d : Double D⦄ (r : Reader V) (strtod : String → Option D) where
  -- the stages of the handler, each with the answer of the call before it
  some_root :
      (junk : (ℕ → CoinbasePriceLevel D) × (ℕ → CoinbasePriceLevel D)) (text : String)
      (out : CoinbaseMessage D) (root : V) (type product : String)
      → root_of r text ≡ some root
      → r.get_string (r.field root "type") ≡ some type
      → r.get_string (r.field root "product_id") ≡ some product
      → parse r strtod junk text out ≡ (
        ErrorCode.ok,
        read_body r strtod junk
            (type_from_string type)
            root
            (record (cleared out) { type = type_from_string type; product_id = product }),
      )
  unfolding parse
  some_root junk text out root type product e f g =
      ap
        (λ (o : Option V). elim o [
          | none ↦ (ErrorCode.parse_malformed_json, cleared out)
          | some root' ↦ read_root r strtod junk root' (cleared out)
        ])
        e
      ∙ ap
          (λ (o : Option String). elim o [
            | none ↦ (ErrorCode.parse_unexpected_shape, cleared out)
            | some t ↦ (
              ErrorCode.ok,
              read_body r strtod junk (type_from_string t) root
                  (read_product r strtod root (record (cleared out) { type = type_from_string t })),
            )
          ])
          f
      ∙ ap
          (λ (o : Option String). (
            ErrorCode.ok,
            read_body r strtod junk (type_from_string type) root (elim o [
              | none ↦ record (cleared out) { type = type_from_string type }
              | some t ↦ record (cleared out) { type = type_from_string type; product_id = t }
            ]),
          ))
          g

  module _ (w : Writer V) (show : D → String) (laws : IsReader r w) where
    string_at :
        (fields : List (String × V)) (key s : String)
        → lookup key fields ≡ some (w.string s)
        → r.get_string (r.field (w.object fields) key) ≡ some s
    string_at fields key s e = ap r.get_string (laws.field_get fields key _ e) ∙ laws.string_get s

    levels_at-render :
        (junk : ℕ → CoinbasePriceLevel D) (fields : List (String × V)) (key : String)
        (ls : List (CoinbasePriceLevel D))
        → lookup key fields ≡ some (w.array (map (render_level w show) ls))
        → ArePrintedLevels strtod show ls
        → levels_at r strtod junk (w.object fields) key ≡ ls
    levels_at-render junk fields key ls e h =
        ap
          (λ (o : Option (List V)). elim o [
            | none ↦ []
            | some lvls ↦ read_levels r strtod junk 0 lvls
          ])
          (ap r.get_array (laws.field_get fields key _ e) ∙ laws.array_get _)
        ∙ read_levels-render r strtod w show laws junk 0 ls h

    type_from_string-name : (t : CoinbaseMsgType) → type_from_string (type_name t) ≡ t
    type_from_string-name CoinbaseMsgType.subscriptions = refl
    type_from_string-name CoinbaseMsgType.snapshot = refl
    type_from_string-name CoinbaseMsgType.l2_update = refl
    type_from_string-name CoinbaseMsgType.heartbeat = refl
    type_from_string-name CoinbaseMsgType.error = refl
    type_from_string-name CoinbaseMsgType.unknown = refl

    read_body-render :
        (t : CoinbaseMsgType) (msg : CoinbaseMessage D)
        (junk : (ℕ → CoinbasePriceLevel D) × (ℕ → CoinbasePriceLevel D))
        → IsPlain strtod show msg
        → read_body r strtod junk t
            (w.object (fields_of w show t msg))
            (record (cleared msg) { type = t; product_id = msg.product_id })
          ≡ carried t msg
    unfolding read_body
    read_body-render CoinbaseMsgType.subscriptions msg junk plain = refl
    read_body-render CoinbaseMsgType.unknown msg junk plain = refl
    read_body-render CoinbaseMsgType.snapshot msg junk plain = cc (
      levels_at-render junk.0 (fields_of w show CoinbaseMsgType.snapshot msg) "bids" msg.bids refl
          plain.bids_printed,
      levels_at-render junk.1 (fields_of w show CoinbaseMsgType.snapshot msg) "asks" msg.asks refl
          plain.asks_printed,
    )
    read_body-render CoinbaseMsgType.l2_update msg junk plain =
        ap
          (λ (o : Option (List V)). elim o [
            | none ↦ record (cleared msg) {
              type = CoinbaseMsgType.l2_update;
              product_id = msg.product_id;
            }
            | some chs ↦ record (cleared msg) {
              type = CoinbaseMsgType.l2_update;
              product_id = msg.product_id;
              changes = read_changes r strtod chs;
            }
          ])
          (ap r.get_array
              (laws.field_get (fields_of w show CoinbaseMsgType.l2_update msg) "changes" _ refl)
            ∙ laws.array_get _)
        ∙ ap
            (λ (cs : List (CoinbaseChange D)). record (cleared msg) {
              type = CoinbaseMsgType.l2_update;
              product_id = msg.product_id;
              changes = cs;
            })
            (read_changes-render r strtod w show laws msg.changes plain.changes_printed)
    read_body-render CoinbaseMsgType.heartbeat msg junk plain =
        ap
          (λ (o : Option ℕ). elim o [
            | none ↦ record (cleared msg) {
              type = CoinbaseMsgType.heartbeat;
              product_id = msg.product_id;
            }
            | some seq ↦ record (cleared msg) {
              type = CoinbaseMsgType.heartbeat;
              product_id = msg.product_id;
              sequence = seq;
            }
          ])
          (ap r.get_uint64
              (laws.field_get (fields_of w show CoinbaseMsgType.heartbeat msg) "sequence" _ refl)
            ∙ laws.number_get msg.sequence plain.sequence_bound)
    read_body-render CoinbaseMsgType.error msg junk plain =
        ap
          (λ (o : Option String). elim o [
            | none ↦ record (cleared msg) {
              type = CoinbaseMsgType.error;
              product_id = msg.product_id;
            }
            | some text ↦ record (cleared msg) {
              type = CoinbaseMsgType.error;
              product_id = msg.product_id;
              error_message = text;
            }
          ])
          (string_at (fields_of w show CoinbaseMsgType.error msg) "message" msg.error_message refl)

    -- With simdjson's documented behaviour `IsReader`: if a text is read as the JSON object that
    -- `render` makes of a message, each price and quantity of the message is printed in less than
    -- 64 bytes without NUL and read back exactly by `strtod`, and the sequence number is below
    -- 2^64, then `parse` returns Ok and leaves the message without the fields that its type does
    -- not carry, whatever was in the message passed in and in uninitialised memory.
    pub parse-render :
        (junk : (ℕ → CoinbasePriceLevel D) × (ℕ → CoinbasePriceLevel D)) (text : String)
        (msg out : CoinbaseMessage D)
        → root_of r text ≡ some (render w show msg)
        → IsPlain strtod show msg
        → parse r strtod junk text out ≡ (ErrorCode.ok, carried msg.type msg)
    parse-render junk text msg out reads plain =
        some_root junk text out (w.object fields) (type_name msg.type) msg.product_id reads
          (string_at fields "type" (type_name msg.type) refl)
          (string_at fields "product_id" msg.product_id refl)
        ∙ ap
            (λ (t : CoinbaseMsgType). (
              ErrorCode.ok,
              read_body r strtod junk t (w.object fields)
                  (record (cleared out) { type = t; product_id = msg.product_id }),
            ))
            (type_from_string-name msg.type)
        ∙ ap (λ (m : CoinbaseMessage D). (ErrorCode.ok, m))
            (read_body-render msg.type msg junk plain)
      where
        fields : List (String × V)
        fields = fields_of w show msg.type msg
