-- ===== src/Md/Parser/Changes.antt =====
-- coinbase_parser.cpp, the loop over the items of a change, against a description without slots: the
-- first text of the array, and the first two numbers among the texts after it.
use text.Mathlib.Text.{◌==◌ as str_eq}
use trading_bot_v.Prelude.{
  ◌≡◌, ◌∙◌, refl, ap, sym, ◌==◌, if-true, if-false, eq→==, ne→==, subst, Option, ◌≤◌, none, some,
  List, [], ◌∷◌, String, if◌then◌else◌, arith,
}
use trading_bot_v.Core.Double.{Double}
use trading_bot_v.Core.Types.{bid, ask}
use trading_bot_v.Md.Messages.{CoinbaseChange, CoinbasePriceLevel}
use trading_bot_v.Md.Parser.{
  Reader, Slots, change_items, finish_change, parse_double, put_change, put_side, read_change,
  read_level,
}
use trading_bot_v.Md.Parser.Items.{
  IsFull, kept_entry, kept_of, level_of, numbers, read_level_lem, put_all, put_all_kept,
  put_all_step, texts,
}

module _ {D : Type 0} where
  abbrev pub with_side : String → CoinbasePriceLevel D → CoinbaseChange D
  with_side sv l = record {
    side = if str_eq sv "buy" then bid else ask;
    price = l.price;
    qty = l.qty;
  }

  put_change-IsFull :
      (e : CoinbaseChange D) (v : D) (s : Slots (CoinbaseChange D))
      → IsFull 3 e s
      → IsFull 3 e (put_change v s)
  put_change-IsFull e v s full = ground arith

  first_three :
      (sv : String) (vs : List D) (e : CoinbaseChange D) {s : Slots (CoinbaseChange D)}
      → s ≡ put_all put_change vs (put_side sv (record { entry = e; slot = 0 }))
      → kept_of 3 s ≡ elim (level_of vs) [ none ↦ none | some l ↦ some (with_side sv l) ]
  unfolding put_all
  first_three sv [] e eq = ap (kept_of 3) eq
  first_three sv (price ∷ []) e eq = ap (kept_of 3) eq
  first_three sv (price ∷ qty ∷ vs) e {s = s} eq = kept_entry 3 full_change s (
      subst (IsFull 3 full_change) (sym eq) (
        put_all_kept put_change (IsFull 3 full_change) (put_change-IsFull full_change) vs
          (record { entry = full_change; slot = 3 }) (refl, omega arith)))
    where
      full_change : CoinbaseChange D
      full_change = with_side sv (record { price = price; qty = qty })

module _ {D : Type 0} (strtod : String → Option D) where
  abbrev pub change_of : List String → Option (CoinbaseChange D)
  change_of [] = none
  change_of (sv ∷ svs) = elim (level_of (numbers strtod svs)) [
    | none ↦ none
    | some l ↦ some (with_side sv l)
  ]

module _ {D V : Type 0} ⦃d : Double D⦄ (r : Reader V) (strtod : String → Option D) where
  abbrev put_text : Option String → Slots (CoinbaseChange D) → Slots (CoinbaseChange D)
  put_text o s = elim o [
    | none ↦ s
    | some sv ↦
        if s.slot == 0
        then put_side sv s
        else elim (parse_double strtod sv) [ none ↦ s | some v ↦ put_change v s ]
  ]

  -- after the side
  change_step :
      (o : Option String) (svs : List String)
      (f : Slots (CoinbaseChange D) → Slots (CoinbaseChange D)) (s : Slots (CoinbaseChange D))
      → ((s' : Slots (CoinbaseChange D))
          → 1 ≤ s'.slot
          → f s' ≡ put_all put_change (numbers strtod svs) s')
      → 1 ≤ s.slot
      → f (put_text o s)
        ≡ put_all put_change (numbers strtod (elim o [ none ↦ svs | some sv ↦ sv ∷ svs ])) s
  unfolding numbers
  change_step none svs f s rest h = rest s h
  change_step (some sv) svs f s rest h =
      ap f (if-false (s.slot == 0) _ _ (ne→== s.slot 0 (λ e. omega arith)))
      ∙ put_all_step put_change (λ (z : Slots (CoinbaseChange D)). 1 ≤ z.slot)
          (λ v z p. omega arith) (parse_double strtod sv) (numbers strtod svs) f s rest h

  change_items-put_all :
      (items : List V) (s : Slots (CoinbaseChange D))
      → 1 ≤ s.slot
      → change_items r strtod items s ≡ put_all put_change (numbers strtod (texts r items)) s
  unfolding change_items put_all numbers texts
  change_items-put_all [] s h = refl
  change_items-put_all (item ∷ items) s h =
      change_step (r.get_string item) (texts r items) (change_items r strtod items) s
        (change_items-put_all items) h

  -- The first text is the side.
  from_side : List String → Slots (CoinbaseChange D) → Slots (CoinbaseChange D)
  from_side [] s = s
  from_side (sv ∷ svs) s = put_all put_change (numbers strtod svs) (put_side sv s)

  side_step :
      (o : Option String) (items : List V) (s : Slots (CoinbaseChange D))
      → change_items r strtod items s ≡ from_side (texts r items) s
      → s.slot ≡ 0
      → change_items r strtod items (put_text o s)
        ≡ from_side (elim o [ none ↦ texts r items | some sv ↦ sv ∷ texts r items ]) s
  unfolding from_side
  side_step none items s rest h = rest
  side_step (some sv) items s rest h =
      ap (change_items r strtod items) (if-true (s.slot == 0) _ _ (eq→== s.slot 0 h))
      ∙ change_items-put_all items (put_side sv s) (omega arith)

  change_items-from_side :
      (items : List V) (s : Slots (CoinbaseChange D))
      → s.slot ≡ 0
      → change_items r strtod items s ≡ from_side (texts r items) s
  unfolding change_items from_side texts
  change_items-from_side [] s h = refl
  change_items-from_side (item ∷ items) s h =
      side_step (r.get_string item) items s (change_items-from_side items s h) h

  finish_change_lem :
      (svs : List String) (e : CoinbaseChange D) {s : Slots (CoinbaseChange D)}
      → s ≡ from_side svs (record { entry = e; slot = 0 })
      → kept_of 3 s ≡ change_of strtod svs
  unfolding from_side
  finish_change_lem [] e eq = ap (kept_of 3) eq
  finish_change_lem (sv ∷ svs) e eq = first_three sv (numbers strtod svs) e eq

  array_change :
      (o : Option (List V))
      → elim o [ none ↦ none | some items ↦ finish_change r strtod items ]
        ≡ elim o [ none ↦ none | some items ↦ change_of strtod (texts r items) ]
  array_change none = refl
  array_change (some items) =
      finish_change_lem (texts r items) (record { side = bid; price = d.nought; qty = d.nought })
        (change_items-from_side items _ refl)

  read_change_lem :
      (ch : V)
      → read_change r strtod ch
        ≡ elim (r.get_array ch) [ none ↦ none | some items ↦ change_of strtod (texts r items) ]
  unfolding read_change
  read_change_lem ch = array_change (r.get_array ch)

  -- For every JSON value and whatever uninitialised memory holds: a level is pushed exactly if the
  -- value is an array with at least two numbers among its texts, and is the first two of them; a
  -- change is pushed exactly if it is an array whose texts are a first one, the side, and at least
  -- two numbers after it, and is that side and the first two of them.
  pub read_items_lem :
      (junk : CoinbasePriceLevel D) (v : V)
      → (read_level r strtod junk v ≡ elim (r.get_array v) [
        | none ↦ none
        | some items ↦ level_of (numbers strtod (texts r items))
      ])
        × (read_change r strtod v
            ≡ elim (r.get_array v) [ none ↦ none | some items ↦ change_of strtod (texts r items) ])
  read_items_lem junk v = (read_level_lem r strtod junk v, read_change_lem v)
