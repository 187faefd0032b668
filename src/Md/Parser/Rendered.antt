-- ===== src/Md/Parser/Rendered.antt =====
-- coinbase_parser.cpp on the JSON values of levels and changes: what is rendered is read again.
use text.Mathlib.Text.{◌==◌ as str_eq}
use trading_bot_v.Prelude.{
  ℕ, ◌≡◌, refl, ap, ◌∙◌, Option, none, some, List, [], ◌∷◌, map, String, bytes, leb, if◌then◌else◌,
  if-false, suc, lt→leb-false,
}
use trading_bot_v.Core.Double.{Double}
use trading_bot_v.Core.Types.{Side, bid, ask}
use trading_bot_v.Md.Messages.{CoinbaseChange, CoinbasePriceLevel}
use trading_bot_v.Md.Parser.{
  Reader, parse_double, read_change, read_changes, read_level, read_levels,
}
use trading_bot_v.Md.Parser.Items.{level_of, numbers, read_level_lem, texts}
use trading_bot_v.Md.Parser.Changes.{change_of, with_side, read_items_lem}
use trading_bot_v.Md.Parser.Writer.{
  ArePrintedChanges, ArePrintedLevels, IsPrinted, IsReader, Writer, render_change, render_level,
  side_name,
}

module _ {D V : Type 0} ⦃d : Double D⦄ (r : Reader V) (strtod : String → Option D) where
  module _ (w : Writer V) (show : D → String) (laws : IsReader r w) where
    parse_double-show : (x : D) → IsPrinted strtod show x → parse_double strtod (show x) ≡ some x
    parse_double-show x h =
        if-false (leb 64 (bytes (show x))) _ _ (lt→leb-false _ _ (h.fits))
        ∙ ap strtod (h.no_nul)
        ∙ h.exact

    numbers_cons :
        (sv : String) (v : D) (svs : List String)
        → parse_double strtod sv ≡ some v
        → numbers strtod (sv ∷ svs) ≡ v ∷ numbers strtod svs
    unfolding numbers
    numbers_cons sv v svs e =
        ap
          (λ (o : Option D). elim o [ none ↦ numbers strtod svs | some x ↦ x ∷ numbers strtod svs ])
          e

    numbers-show :
        (a b : D)
        → IsPrinted strtod show a
        → IsPrinted strtod show b
        → numbers strtod (show a ∷ show b ∷ []) ≡ a ∷ b ∷ []
    unfolding numbers
    numbers-show a b h k =
        numbers_cons (show a) a (show b ∷ []) (parse_double-show a h)
        ∙ ap (λ (vs : List D). a ∷ vs) (numbers_cons (show b) b [] (parse_double-show b k))

    texts-string : (ss : List String) → texts r (map w.string ss) ≡ ss
    unfolding texts
    texts-string [] = refl
    texts-string (s ∷ ss) = rw (laws.string_get s, texts-string ss)

    read_level-render :
        (junk l : CoinbasePriceLevel D)
        → IsPrinted strtod show l.price
        → IsPrinted strtod show l.qty
        → read_level r strtod junk (render_level w show l) ≡ some l
    read_level-render junk l h k =
        read_level_lem r strtod junk (render_level w show l)
        ∙ ap
            (λ (o : Option (List V)). elim o [
              | none ↦ none
              | some items ↦ level_of (numbers strtod (texts r items))
            ])
            (laws.array_get _)
        ∙ ap (λ (ss : List String). level_of (numbers strtod ss))
            (texts-string (show l.price ∷ show l.qty ∷ []))
        ∙ ap level_of (numbers-show l.price l.qty h k)

    pub read_levels-render :
        (junk : ℕ → CoinbasePriceLevel D) (i : ℕ) (ls : List (CoinbasePriceLevel D))
        → ArePrintedLevels strtod show ls
        → read_levels r strtod junk i (map (render_level w show) ls) ≡ ls
    unfolding read_levels
    read_levels-render junk i [] h = refl
    read_levels-render junk i (l ∷ ls) h =
        ap
          (λ (o : Option (CoinbasePriceLevel D)). elim o [
            | none ↦ rest
            | some entry ↦ entry ∷ rest
          ])
          (read_level-render (junk i) l h.0 h.1)
        ∙ ap (λ (xs : List (CoinbasePriceLevel D)). l ∷ xs) (read_levels-render junk (suc i) ls h.2)
      where
        rest : List (CoinbasePriceLevel D)
        rest = read_levels r strtod junk (suc i) (map (render_level w show) ls)

    side_name-eq : (s : Side) → (if str_eq (side_name s) "buy" then bid else ask) ≡ s
    side_name-eq Side.bid = refl
    side_name-eq Side.ask = refl

    read_change-render :
        (c : CoinbaseChange D)
        → IsPrinted strtod show c.price
        → IsPrinted strtod show c.qty
        → read_change r strtod (render_change w show c) ≡ some c
    read_change-render c h k =
        (read_items_lem r strtod (record { price = c.price; qty = c.qty })
          (render_change w show c)).1
        ∙ ap
            (λ (o : Option (List V)). elim o [
              | none ↦ none
              | some items ↦ change_of strtod (texts r items)
            ])
            (laws.array_get _)
        ∙ ap (change_of strtod) (texts-string (side_name c.side ∷ show c.price ∷ show c.qty ∷ []))
        ∙ ap
            (λ (vs : List D). elim (level_of vs) [
              | none ↦ none
              | some l ↦ some (with_side (side_name c.side) l)
            ])
            (numbers-show c.price c.qty h k)
        ∙ ap (λ (s : Side). some (record { side = s; price = c.price; qty = c.qty }))
            (side_name-eq c.side)

    pub read_changes-render :
        (cs : List (CoinbaseChange D))
        → ArePrintedChanges strtod show cs
        → read_changes r strtod (map (render_change w show) cs) ≡ cs
    unfolding read_changes
    read_changes-render [] h = refl
    read_changes-render (c ∷ cs) h =
        ap (λ (o : Option (CoinbaseChange D)). elim o [ none ↦ rest | some cg ↦ cg ∷ rest ])
          (read_change-render c h.0 h.1)
        ∙ ap (λ (xs : List (CoinbaseChange D)). c ∷ xs) (read_changes-render cs h.2)
      where
        rest : List (CoinbaseChange D)
        rest = read_changes r strtod (map (render_change w show) cs)
