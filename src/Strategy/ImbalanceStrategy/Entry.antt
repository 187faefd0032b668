-- ===== src/Strategy/ImbalanceStrategy/Entry.antt =====
-- Why the strategy gives a signal, and which.
use trading_bot_v.Prelude.{ℕ, ℤ, ◌-ℤ◌, ◌≡◌, ◌⊎◌, true, false, List, [], ◌∷◌}
use trading_bot_v.Core.Double.{Double, ◌≺◌, ◌≼◌}
use trading_bot_v.Core.Types.{PriceLevel, bid, ask, to_double}
use trading_bot_v.Md.BoundedBook.{Book}
use trading_bot_v.Strategy.PnlTracker.{PnlState}
use trading_bot_v.Strategy.OrderSizer.{compute_order}
use trading_bot_v.Strategy.Signals.{Signal, is_actionable}
use trading_bot_v.Strategy.ImbalanceStrategy.{Quote, Strategy, smoothed}

module _ {D : Type 0} ⦃d : Double D⦄ where
  -- the sizes of some levels, added one after the other to `x`
  abbrev pub total : D → List (PriceLevel D) → D
  total x [] = x
  total x (level ∷ levels) = total (d.add x level.qty.value) levels

  -- What a quote says of the levels of the two sides: the prices of the first ones, the spread
  -- against their middle in basis points, and the imbalance, which is positive when the bids have
  -- the larger size.
  pub record IsQuote (tick : D) (b a : PriceLevel D) (bids asks : List (PriceLevel D)) (q : Quote D)
      : Type 0 where
    pub bid_price : q.best_bid ≡ to_double b.price tick
    pub ask_price : q.best_ask ≡ to_double a.price tick
    pub middle : q.mid ≡ d.mul (d.add q.best_bid q.best_ask) d.half
    pub apart : d.le q.best_ask q.best_bid ≡ false
    pub spread : q.spread_bps ≡ d.mul (d.div (d.sub q.best_ask q.best_bid) q.mid) d.ten_thousand
    pub heavy :
        let of_bids = total d.nought (b ∷ bids) in
        let of_asks = total d.nought (a ∷ asks) in
        q.imbalance ≡ d.div (d.sub of_bids of_asks) (d.add of_bids of_asks)

  abbrev pub Quotes : D → List (PriceLevel D) → List (PriceLevel D) → Quote D → Type 0
  Quotes tick bids asks q =
      (b : PriceLevel D) × (bs : List (PriceLevel D)) × (a : PriceLevel D) × (as_ : List
        (PriceLevel D))
      × (bids ≡ b ∷ bs)
      × (asks ≡ a ∷ as_)
      × IsQuote tick b a bs as_ q

  -- A position that gained `gain` basis points is closed for its profit or for its loss.
  abbrev pub Closes : Strategy D → D → Type 0
  Closes s gain = (s.params.take_profit_bps ≼ gain) ⊎ (gain ≼ d.neg s.params.stop_loss_bps)

  -- what a position is opened on, whichever its side
  pub record MayOpen (s : Strategy D) (p : PnlState D) (q : Quote D) (now : ℤ) : Type 0 where
    pub not_long : d.lt d.nought p.position ≡ false
    pub not_short : d.lt p.position d.nought ≡ false
    pub cooled :
        d.lt (d.div (d.of_int (now -ℤ s.last_trade_ns)) d.billion) s.params.cooldown_s ≡ false
    pub tight : d.lt s.params.max_spread_bps q.spread_bps ≡ false
    pub funded : d.le p.cash d.nought ≡ false

  -- The reasons for a signal, each with the order that is then asked for: to sell a long position,
  -- to buy back a short one, to buy on an imbalance of the bids, and to sell on one of the asks.
  pub data Reason (cap : ℕ) (book : Book D) (s : Strategy D) (p : PnlState D) (q : Quote D)
      (now : ℤ) (sig : Signal D) : Type 0 where
    leave_long :
        d.nought ≺ p.position
        → Closes s (d.mul (d.div (d.sub q.best_bid p.avg_entry) p.avg_entry) d.ten_thousand)
        → sig ≡ record (compute_order cap book s.tick_size ask p.position) { ts = now }
        → Reason cap book s p q now sig
    leave_short :
        p.position ≺ d.nought
        → Closes s (d.mul (d.div (d.sub p.avg_entry q.best_ask) p.avg_entry) d.ten_thousand)
        → sig ≡ record (compute_order cap book s.tick_size bid (d.neg p.position)) { ts = now }
        → Reason cap book s p q now sig
    enter_long :
        MayOpen s p q now
        → s.params.entry_imbalance ≺ smoothed s
        → sig
          ≡ record (compute_order cap book s.tick_size bid
              (d.div (d.mul s.params.trade_fraction p.cash) q.mid)) { ts = now }
        → Reason cap book s p q now sig
    enter_short :
        MayOpen s p q now
        → s.params.allow_short ≡ true
        → smoothed s ≺ d.neg s.params.entry_imbalance
        → sig
          ≡ record (compute_order cap book s.tick_size ask
              (d.div (d.mul s.params.trade_fraction p.cash) q.mid)) { ts = now }
        → Reason cap book s p q now sig

  abbrev Acts : Signal D × Strategy D → Type 0
  Acts r = is_actionable r.0 ≡ true
