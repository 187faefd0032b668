-- ===== src/Md/WsClient/Frames.antt =====
-- coinbase_ws_client.cpp, the calls of the callbacks: each text that is read is delivered once, in
-- order, as its own parse, and a reconnect is announced at each connection but the first.
use trading_bot_v.Prelude.{
  ℕ, ℤ, ◌-ℤ◌, ◌*ℤ◌, ◌≤ℤ◌, ◌<ℤ◌, pos, ltb_ℤ, ◌≡◌, ◌≢◌, refl, sym, ap, subst, true, false, Option,
  List, [], ◌∷◌, ◌++◌, map, String, if-cases, arith,
}
use trading_bot_v.Core.Double.{Double}
use trading_bot_v.Core.Error.{ErrorCode}
use trading_bot_v.Md.Messages.{CoinbaseMessage, CoinbasePriceLevel}
use trading_bot_v.Md.Parser.{Reader, parse}
use trading_bot_v.Md.WsClient.{
  Call, Ending, Read, Round, Session, WsConfig, blank, call_then, session,
}

ltb_ℤ→lt : (a b : ℤ) → ltb_ℤ a b ≡ true → a <ℤ b
ltb_ℤ→lt a b h = ground arith

not-ltb_ℤ : (a b : ℤ) → ltb_ℤ a b ≡ false → b ≤ℤ a
not-ltb_ℤ a b h = ground arith

-- the texts among the reads, with the times of their receipt
abbrev pub frames : List Round → List (String × ℤ)
frames [] = []
frames (round ∷ rounds) = elim round.read [
  | Read.frame text recv seen ↦ (text, recv) ∷ frames rounds
  | _ ↦ frames rounds
]

module _ {D V : Type 0} ⦃d : Double D⦄ (r : Reader V) (strtod : String → Option D)
    (junk : ℤ → (ℕ → CoinbasePriceLevel D) × (ℕ → CoinbasePriceLevel D)) where
  abbrev pub call_from : ErrorCode × CoinbaseMessage D → ℤ → Call D
  call_from parsed recv = elim parsed.0 [
    | ErrorCode.ok ↦ Call.message parsed.1 recv
    | _ ↦ Call.parse_error
  ]

  -- what a text is on its own
  abbrev pub call_of : String × ℤ → Call D
  call_of f = call_from (parse r strtod (junk f.1) f.0 blank) f.1

  -- when the server was last heard of, after a round and after some of them: at the last text that
  -- parses
  abbrev pub heard_from : ErrorCode × CoinbaseMessage D → ℤ → ℤ → ℤ
  heard_from parsed seen last = elim parsed.0 [ ErrorCode.ok ↦ seen | _ ↦ last ]

  abbrev pub heard_at : ℤ → Round → ℤ
  heard_at last round = elim round.read [
    | Read.frame text recv seen ↦ heard_from (parse r strtod (junk recv) text blank) seen last
    | _ ↦ last
  ]

  abbrev pub heard : ℤ → List Round → ℤ
  heard last [] = last
  heard last (round ∷ rounds) = heard (heard_at last round) rounds

  module _ (cfg : WsConfig) where
    abbrev pub timeout : ℤ
    timeout = cfg.heartbeat_timeout *ℤ pos 1_000_000_000

    -- How a connection ends when `rest` is left of its rounds and the server was heard of at `last`:
    -- the client is stopped with none left, the next round's read fails within the timeout, or the
    -- timeout is over at the next round.
    pub data Ends (last : ℤ) (rest : List Round) (ending : Ending) : Type 0 where
      stopped : rest ≡ [] → ending ≡ Ending.stopped → Ends last rest ending
      broken :
          (round : Round) (more : List Round)
          → rest ≡ round ∷ more
          → round.now -ℤ last ≤ℤ timeout
          → round.read ≡ Read.failure
          → ending ≡ Ending.broken
          → Ends last rest ending
      silent :
          (round : Round) (more : List Round)
          → rest ≡ round ∷ more
          → timeout <ℤ round.now -ℤ last
          → ending ≡ Ending.silent
          → Ends last rest ending

    -- Each of the rounds reads within the timeout of the text before it, and no read fails.
    abbrev pub Undisturbed : ℤ → List Round → Type 0
    Undisturbed last rounds =
        (before : List Round) (round : Round) (more : List Round)
        → rounds ≡ before ++ (round ∷ more)
        → (round.now -ℤ heard last before ≤ℤ timeout) × (round.read ≢ Read.failure)

    -- The rounds up to the end of the connection are undisturbed, and their texts are delivered.
    pub record IsDelivered (last : ℤ) (rounds : List Round) (s : Session D) : Type 0 where
      pub delivered : List Round
      pub rest : List Round
      pub whole : rounds ≡ delivered ++ rest
      pub calls : s.calls ≡ map call_of (frames delivered)
      pub undisturbed : Undisturbed last delivered
      pub ends : Ends (heard last delivered) rest s.ending

  -- The parser clears the message that it fills.
  parse-blank :
      (text : String) (recv : ℤ) (buffer : CoinbaseMessage D)
      → parse r strtod (junk recv) text buffer ≡ parse r strtod (junk recv) text blank
  unfolding parse
  parse-blank text recv buffer = refl

  module _ (cfg : WsConfig) where
    nothing_before : (last : ℤ) → Undisturbed cfg last []
    nothing_before last [] round more e = cc
    nothing_before last (x ∷ before) round more e = cc

    Undisturbed-cons :
        (last : ℤ) (round : Round) (rounds : List Round)
        → round.now -ℤ last ≤ℤ timeout cfg
        → round.read ≢ Read.failure
        → Undisturbed cfg (heard_at last round) rounds
        → Undisturbed cfg last (round ∷ rounds)
    Undisturbed-cons last round rounds on_time sound rest [] x more e =
        let same : round ≡ x = cc in
        subst (λ (z : Round). (z.now -ℤ last ≤ℤ timeout cfg) × (z.read ≢ Read.failure)) same
          (on_time, sound)
    Undisturbed-cons last round rounds on_time sound rest (z ∷ before) x more e =
        let same : round ≡ z = cc in
        let tail : rounds ≡ before ++ (x ∷ more) = cc in
        subst
          (λ (y : Round).
            (x.now -ℤ heard (heard_at last y) before ≤ℤ timeout cfg) × (x.read ≢ Read.failure))
          same (rest before x more tail)

    nothing-IsDelivered :
        (last now : ℤ) (rounds : List Round) (s : Session D)
        → now -ℤ last ≤ℤ timeout cfg
        → IsDelivered cfg last rounds s
        → IsDelivered cfg last (record { now = now; read = Read.nothing } ∷ rounds) s
    nothing-IsDelivered last now rounds s on_time rest =
        let round : Round = record { now = now; read = Read.nothing } in
        record {
          delivered = round ∷ rest.delivered;
          rest = rest.rest;
          whole = ap (λ z. round ∷ z) rest.whole;
          calls = rest.calls;
          undisturbed =
              Undisturbed-cons last round rest.delivered on_time (λ e. cc) rest.undisturbed;
          ends = rest.ends;
        }

    frame-IsDelivered :
        (last now recv seen : ℤ) (text : String) (rounds : List Round) (s : Session D)
        (call : Call D)
        → let round : Round = record { now = now; read = Read.frame text recv seen } in
          now -ℤ last ≤ℤ timeout cfg
          → call ≡ call_of (text, recv)
          → IsDelivered cfg (heard_at last round) rounds s
          → IsDelivered cfg last (round ∷ rounds) (call_then call s)
    frame-IsDelivered last now recv seen text rounds s call on_time e rest =
        let round : Round = record { now = now; read = Read.frame text recv seen } in
        record {
          delivered = round ∷ rest.delivered;
          rest = rest.rest;
          whole = ap (λ z. round ∷ z) rest.whole;
          calls = cc (e, rest.calls);
          undisturbed =
              Undisturbed-cons last round rest.delivered on_time (λ z. cc) rest.undisturbed;
          ends = rest.ends;
        }

    none-IsDelivered :
        (last : ℤ) (rounds : List Round) (ending : Ending)
        → Ends cfg last rounds ending
        → IsDelivered cfg last rounds (record { calls = []; ending = ending })
    none-IsDelivered last rounds ending ends = record {
      delivered = [];
      rest = rounds;
      whole = refl;
      calls = refl;
      undisturbed = nothing_before last;
      ends = ends;
    }

    parsed-IsDelivered :
        (p : ErrorCode × CoinbaseMessage D) (now recv seen last_seen : ℤ) (text : String)
        (rounds : List Round)
        → now -ℤ last_seen ≤ℤ timeout cfg
        → parse r strtod (junk recv) text blank ≡ p
        → ((z : ℤ) (buffer : CoinbaseMessage D)
            → IsDelivered cfg z rounds (session r strtod junk cfg z buffer rounds))
        → IsDelivered cfg last_seen
            (record { now = now; read = Read.frame text recv seen } ∷ rounds)
            (elim p.0 [
              | ErrorCode.ok ↦
                  call_then (Call.message p.1 recv) (session r strtod junk cfg seen p.1 rounds)
              | _ ↦ call_then Call.parse_error (session r strtod junk cfg last_seen p.1 rounds)
            ])
    parsed-IsDelivered (ErrorCode.ok, m) now recv seen last_seen text rounds on_time e rest =
        frame-IsDelivered last_seen now recv seen text rounds
          (session r strtod junk cfg seen m rounds) (Call.message m recv) on_time
          (ap (λ (p : ErrorCode × CoinbaseMessage D). call_from p recv) (sym e))
          (subst (λ z. IsDelivered cfg z rounds (session r strtod junk cfg seen m rounds))
            (ap (λ (p : ErrorCode × CoinbaseMessage D). heard_from p seen last_seen) (sym e))
            (rest seen m))
    parsed-IsDelivered (_, m) now recv seen last_seen text rounds on_time e rest =
        frame-IsDelivered last_seen now recv seen text rounds
          (session r strtod junk cfg last_seen m rounds) Call.parse_error on_time
          (ap (λ (p : ErrorCode × CoinbaseMessage D). call_from p recv) (sym e))
          (subst (λ z. IsDelivered cfg z rounds (session r strtod junk cfg last_seen m rounds))
            (ap (λ (p : ErrorCode × CoinbaseMessage D). heard_from p seen last_seen) (sym e))
            (rest last_seen m))

    read-IsDelivered :
        (read : Read) (now last_seen : ℤ) (buffer : CoinbaseMessage D) (rounds : List Round)
        → now -ℤ last_seen ≤ℤ timeout cfg
        → ((z : ℤ) (b : CoinbaseMessage D)
            → IsDelivered cfg z rounds (session r strtod junk cfg z b rounds))
        → IsDelivered cfg last_seen (record { now = now; read = read } ∷ rounds) (elim read [
          | Read.nothing ↦ session r strtod junk cfg last_seen buffer rounds
          | Read.failure ↦ record { calls = []; ending = Ending.broken }
          | Read.frame text recv seen ↦
              let parsed = parse r strtod (junk recv) text buffer in
              elim parsed.0 [
                | ErrorCode.ok ↦
                    call_then
                      (Call.message parsed.1 recv)
                      (session r strtod junk cfg seen parsed.1 rounds)
                | _ ↦
                    call_then Call.parse_error (session r strtod junk cfg last_seen parsed.1 rounds)
              ]
        ])
    read-IsDelivered Read.nothing now last_seen buffer rounds on_time rest =
        nothing-IsDelivered last_seen now rounds _ on_time (rest last_seen buffer)
    read-IsDelivered Read.failure now last_seen buffer rounds on_time rest =
        none-IsDelivered last_seen _ Ending.broken (Ends.broken _ rounds refl on_time refl refl)
    read-IsDelivered (Read.frame text recv seen) now last_seen buffer rounds on_time rest =
        parsed-IsDelivered (parse r strtod (junk recv) text buffer) now recv seen last_seen text
          rounds on_time (sym (parse-blank text recv buffer)) rest

    -- Whatever is read on a connection, and whatever its message held before: the rounds are some
    -- first ones and the rest. Each of the first ones comes within the timeout of the last text
    -- before it that parses, and its read does not fail; the calls of the callbacks are, in order
    -- and once each, those of the texts of these rounds, each parsed on its own: the message
    -- callback if it parses and the parse error callback if not. The connection ends as stopped
    -- with no round left, as broken at a round within the timeout whose read fails, or as silent
    -- at a round after the timeout.
    pub session-IsDelivered :
        (seen : ℤ) (buffer : CoinbaseMessage D) (rounds : List Round)
        → IsDelivered cfg seen rounds (session r strtod junk cfg seen buffer rounds)
    unfolding session
    session-IsDelivered seen buffer [] =
        none-IsDelivered seen [] Ending.stopped (Ends.stopped refl refl)
    session-IsDelivered seen buffer (round ∷ rounds) =
        if-cases (IsDelivered cfg seen (round ∷ rounds)) (ltb_ℤ (timeout cfg) (round.now -ℤ seen))
          (λ late.
            none-IsDelivered seen (round ∷ rounds) Ending.silent (
              Ends.silent round rounds refl (ltb_ℤ→lt (timeout cfg) (round.now -ℤ seen) late) refl))
          (λ on_time.
            read-IsDelivered round.read round.now seen buffer rounds
              (not-ltb_ℤ (timeout cfg) (round.now -ℤ seen) on_time)
              (λ z b. session-IsDelivered z b rounds))
