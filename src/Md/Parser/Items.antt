-- ===== src/Md/Parser/Items.antt =====
-- coinbase_parser.cpp, the loop over the items of a level, against a description without slots: the
-- first two numbers among the texts of the array.
use trading_bot_v.Prelude.{
  ℕ, ◌≡◌, refl, ap, sym, subst, Option, ◌≤◌, none, some, List, [], ◌∷◌, String, leb, if◌then◌else◌,
  arith,
}
use trading_bot_v.Core.Double.{Double}
use trading_bot_v.Md.Messages.{CoinbasePriceLevel}
use trading_bot_v.Md.Parser.{
  Reader, Slots, finish_level, level_items, parse_double, put_number, read_level,
}

module _ {V : Type 0} (r : Reader V) where
  unfoldable pub texts : List V → List String
  texts [] = []
  texts (item ∷ items) =
      let rest = texts items in elim (r.get_string item) [ none ↦ rest | some sv ↦ sv ∷ rest ]

module _ {D : Type 0} (strtod : String → Option D) where
  unfoldable pub numbers : List String → List D
  numbers [] = []
  numbers (sv ∷ svs) =
      let rest = numbers svs in elim (parse_double strtod sv) [ none ↦ rest | some v ↦ v ∷ rest ]

module _ {D : Type 0} where
  -- the first two numbers
  abbrev pub level_of : List D → Option (CoinbasePriceLevel D)
  level_of [] = none
  level_of (price ∷ []) = none
  level_of (price ∷ qty ∷ vs) = some (record { price = price; qty = qty })

module _ {D S : Type 0} (put : D → S → S) where
  unfoldable pub put_all : List D → S → S
  put_all [] s = s
  put_all (v ∷ vs) s = put_all vs (put v s)

  -- a round of a loop that takes the numbers of a list in order, and keeps `P`
  module _ (P : S → Type 0) (kept : (v : D) (s : S) → P s → P (put v s)) where
    pub put_all_step :
        (o : Option D) (vs : List D) (f : S → S) (s : S)
        → ((s' : S) → P s' → f s' ≡ put_all vs s')
        → P s
        → f (elim o [ none ↦ s | some v ↦ put v s ])
          ≡ put_all (elim o [ none ↦ vs | some v ↦ v ∷ vs ]) s
    unfolding put_all
    put_all_step none vs f s rest p = rest s p
    put_all_step (some v) vs f s rest p = rest (put v s) (kept v s p)

    pub put_all_kept : (vs : List D) (s : S) → P s → P (put_all vs s)
    unfolding put_all
    put_all_kept [] s p = p
    put_all_kept (v ∷ vs) s p = put_all_kept vs (put v s) (kept v s p)

-- what the round pushes back
abbrev pub kept_of : {E : Type 0} → ℕ → Slots E → Option E
kept_of n s = if leb n s.slot then some s.entry else none

-- From this slot on nothing is assigned any more.
abbrev pub IsFull : {E : Type 0} → ℕ → E → Slots E → Type 0
IsFull n e s = (s.entry ≡ e) × (n ≤ s.slot)

pub kept_entry : {E : Type 0} (n : ℕ) (e : E) (s : Slots E) → IsFull n e s → kept_of n s ≡ some e
kept_entry n e s full = ground arith

module _ {D : Type 0} where
  put_number-IsFull :
      (e : CoinbasePriceLevel D) (v : D) (s : Slots (CoinbasePriceLevel D))
      → IsFull 2 e s
      → IsFull 2 e (put_number v s)
  put_number-IsFull e v s full = ground arith

  first_two :
      (vs : List D) (junk : CoinbasePriceLevel D) {s : Slots (CoinbasePriceLevel D)}
      → s ≡ put_all put_number vs (record { entry = junk; slot = 0 })
      → kept_of 2 s ≡ level_of vs
  unfolding put_all
  first_two [] junk e = ap (kept_of 2) e
  first_two (price ∷ []) junk e = ap (kept_of 2) e
  first_two (price ∷ qty ∷ vs) junk {s = s} e = kept_entry 2 full_level s (
      subst (IsFull 2 full_level) (sym e) (
        put_all_kept put_number (IsFull 2 full_level) (put_number-IsFull full_level) vs
          (record { entry = full_level; slot = 2 }) (refl, omega arith)))
    where
      full_level : CoinbasePriceLevel D
      full_level = record { price = price; qty = qty }

module _ {D V : Type 0} ⦃d : Double D⦄ (r : Reader V) (strtod : String → Option D) where
  text_step :
      (o : Option String) (svs : List String)
      (f : Slots (CoinbasePriceLevel D) → Slots (CoinbasePriceLevel D))
      (s : Slots (CoinbasePriceLevel D))
      → ((s' : Slots (CoinbasePriceLevel D)) → f s' ≡ put_all put_number (numbers strtod svs) s')
      → f (elim o [
        | none ↦ s
        | some sv ↦ elim (parse_double strtod sv) [ none ↦ s | some v ↦ put_number v s ]
      ])
        ≡ put_all put_number (numbers strtod (elim o [ none ↦ svs | some sv ↦ sv ∷ svs ])) s
  unfolding numbers
  text_step none svs f s rest = rest s
  text_step (some sv) svs f s rest =
      put_all_step put_number (λ _. Unit {0}) (λ v s' p. p) (parse_double strtod sv)
        (numbers strtod svs) f s (λ s' p. rest s') tt

  level_items-put_all :
      (items : List V) (s : Slots (CoinbasePriceLevel D))
      → level_items r strtod items s ≡ put_all put_number (numbers strtod (texts r items)) s
  unfolding level_items put_all numbers texts
  level_items-put_all [] s = refl
  level_items-put_all (item ∷ items) s =
      text_step (r.get_string item) (texts r items) (level_items r strtod items) s
        (level_items-put_all items)

  array_level :
      (o : Option (List V)) (junk : CoinbasePriceLevel D)
      → elim o [ none ↦ none | some items ↦ finish_level r strtod junk items ]
        ≡ elim o [ none ↦ none | some items ↦ level_of (numbers strtod (texts r items)) ]
  array_level none junk = refl
  array_level (some items) junk =
      first_two (numbers strtod (texts r items)) junk
        (level_items-put_all items (record { entry = junk; slot = 0 }))

  pub read_level_lem :
      (junk : CoinbasePriceLevel D) (lvl : V)
      → read_level r strtod junk lvl ≡ elim (r.get_array lvl) [
        | none ↦ none
        | some items ↦ level_of (numbers strtod (texts r items))
      ]
  unfolding read_level
  read_level_lem junk lvl = array_level (r.get_array lvl) junk
