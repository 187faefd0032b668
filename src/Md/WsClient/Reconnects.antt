-- ===== src/Md/WsClient/Reconnects.antt =====
-- coinbase_ws_client.cpp: a reconnect is announced at each connection but the first.
use trading_bot_v.Prelude.{
  ℕ, suc, ◌+◌, ◌-◌, ℤ, ◌≡◌, ◌∙◌, refl, ap, Bool, true, false, Option, List, [], ◌∷◌, ◌++◌, map,
  String, if◌then◌else◌, arith,
}
use trading_bot_v.Core.Double.{Double}
use trading_bot_v.Core.Error.{ErrorCode}
use trading_bot_v.Md.Messages.{CoinbaseMessage, CoinbasePriceLevel}
use trading_bot_v.Md.Parser.{Reader, parse}
use trading_bot_v.Md.WsClient.{
  Attempt, Call, Client, Ending, Round, Session, Trace, WsConfig, try_connection, attempts,
  back_off, blank, run_client, session,
}
use trading_bot_v.Md.WsClient.Frames.{call_from, call_of, frames, session-IsDelivered}

abbrev pub reconnects : {D : Type 0} → List (Call D) → ℕ
reconnects [] = 0
reconnects (Call.reconnected ∷ calls) = suc (reconnects calls)
reconnects (_ ∷ calls) = reconnects calls

abbrev pub connections : List Attempt → ℕ
connections [] = 0
connections (Attempt.refused ∷ tries) = connections tries
connections (Attempt.connected seen rounds ∷ tries) = suc (connections tries)

-- those that are announced, by whether the client was connected before
abbrev pub announced : Bool → List Attempt → ℕ
announced b tries = if b then connections tries else connections tries - 1

reconnects-append :
    {D : Type 0} (xs ys : List (Call D)) → reconnects (xs ++ ys) ≡ reconnects xs + reconnects ys
reconnects-append [] ys = omega arith
reconnects-append (Call.reconnected ∷ xs) ys = omega (arith, reconnects-append xs ys)
reconnects-append (Call.parse_error ∷ xs) ys = reconnects-append xs ys
reconnects-append (Call.message m t ∷ xs) ys = reconnects-append xs ys

module _ {D V : Type 0} ⦃d : Double D⦄ (r : Reader V) (strtod : String → Option D)
    (junk : ℤ → (ℕ → CoinbasePriceLevel D) × (ℕ → CoinbasePriceLevel D)) where
  call_from-reconnects :
      (p : ErrorCode × CoinbaseMessage D) (recv : ℤ) (calls : List (Call D))
      → reconnects (call_from r strtod junk p recv ∷ calls) ≡ reconnects calls
  call_from-reconnects (ErrorCode.ok, m) recv calls = refl
  call_from-reconnects (_, m) recv calls = refl

  map-call_of-reconnects :
      (fs : List (String × ℤ)) → reconnects (map (call_of r strtod junk) fs) ≡ 0
  map-call_of-reconnects [] = refl
  map-call_of-reconnects (f ∷ fs) =
      call_from-reconnects (parse r strtod (junk f.1) f.0 blank) f.1
        (map (call_of r strtod junk) fs)
      ∙ map-call_of-reconnects fs

  module _ (cfg : WsConfig) where
    session-reconnects :
        (seen : ℤ) (buffer : CoinbaseMessage D) (rounds : List Round)
        → reconnects (session r strtod junk cfg seen buffer rounds).calls ≡ 0
    session-reconnects seen buffer rounds =
        let done = session-IsDelivered r strtod junk cfg seen buffer rounds in
        ap reconnects done.calls ∙ map-call_of-reconnects (frames done.delivered)

    connection-reconnects :
        (b : Bool) (s : Session D)
        → reconnects s.calls ≡ 0
        → reconnects (if b then Call.reconnected ∷ s.calls else s.calls) ≡ (if b then 1 else 0)
    connection-reconnects true s e = ap suc e
    connection-reconnects false s e = e

    -- the result of a connection, whichever way it ends
    abbrev ended : Ending → List (Call D) → Client → Trace D × Client
    ended ending calls fresh = elim ending [
      | Ending.broken ↦ (record { calls = calls; waits = fresh.backoff ∷ [] }, back_off cfg fresh)
      | _ ↦ (record { calls = calls; waits = [] }, fresh)
    ]

    ended-calls :
        (ending : Ending) (calls : List (Call D)) (fresh : Client)
        → ((ended ending calls fresh).0.calls ≡ calls)
          × ((ended ending calls fresh).1.has_connected_once ≡ fresh.has_connected_once)
    unfolding back_off
    ended-calls Ending.broken calls fresh = (refl, refl)
    ended-calls _ calls fresh = (refl, refl)

    connected-reconnects :
        (seen : ℤ) (rounds : List Round) (c : Client)
        → (reconnects (try_connection r strtod junk cfg (Attempt.connected seen rounds) c).0.calls
            ≡ (if c.has_connected_once then 1 else 0))
          × ((try_connection r strtod junk cfg
                (Attempt.connected seen rounds)
                c).1.has_connected_once
              ≡ true)
    unfolding try_connection
    connected-reconnects seen rounds c = (
      ap reconnects same.0
          ∙ connection-reconnects c.has_connected_once s (session-reconnects seen blank rounds),
      same.1,
    )
      where
        s : Session D
        s = session r strtod junk cfg seen blank rounds

        made : List (Call D)
        made = if c.has_connected_once then Call.reconnected ∷ s.calls else s.calls

        fresh : Client
        fresh = record { backoff = cfg.backoff_initial; has_connected_once = true }

        same :
            ((ended s.ending made fresh).0.calls ≡ made)
            × ((ended s.ending made fresh).1.has_connected_once ≡ true)
        same = ended-calls s.ending made fresh

    announced_none : (b : Bool) → 0 ≡ announced b []
    announced_none true = refl
    announced_none false = refl

    announced_more :
        (b : Bool) (tries : List Attempt) (seen : ℤ) (rounds : List Round)
        → (if b then 1 else 0) + connections tries
          ≡ announced b (Attempt.connected seen rounds ∷ tries)
    announced_more true tries seen rounds = omega arith
    announced_more false tries seen rounds = omega arith

    -- one connection, and the attempts after it
    then_attempts :
        (t : Trace D × Client) (b : Bool) (tries : List Attempt) (seen : ℤ) (rounds : List Round)
        → reconnects t.0.calls ≡ (if b then 1 else 0)
        → t.1.has_connected_once ≡ true
        → reconnects (attempts r strtod junk cfg tries t.1).calls
          ≡ announced t.1.has_connected_once tries
        → reconnects (t.0.calls ++ (attempts r strtod junk cfg tries t.1).calls)
          ≡ announced b (Attempt.connected seen rounds ∷ tries)
    then_attempts t b tries seen rounds e f rest =
        reconnects-append t.0.calls (attempts r strtod junk cfg tries t.1).calls
        ∙ ap (λ n. n + reconnects (attempts r strtod junk cfg tries t.1).calls) e
        ∙ ap (λ n. (if b then 1 else 0) + n) (rest ∙ ap (λ z. announced z tries) f)
        ∙ announced_more b tries seen rounds

    attempts-reconnects :
        (tries : List Attempt) (c : Client)
        → reconnects (attempts r strtod junk cfg tries c).calls
          ≡ announced c.has_connected_once tries
    unfolding attempts try_connection back_off
    attempts-reconnects [] c = announced_none c.has_connected_once
    attempts-reconnects (Attempt.refused ∷ tries) c = attempts-reconnects tries (back_off cfg c)
    attempts-reconnects (Attempt.connected seen rounds ∷ tries) c =
        let one = connected-reconnects seen rounds c in
        then_attempts (try_connection r strtod junk cfg (Attempt.connected seen rounds) c)
          c.has_connected_once tries seen rounds one.0 one.1
          (attempts-reconnects tries
            (try_connection r strtod junk cfg (Attempt.connected seen rounds) c).1)

    -- Whatever attempts to connect fail or succeed, and however the connections end, the client
    -- announces a reconnect one time less than it connects, and never if it does not connect.
    pub run_client-reconnects :
        (tries : List Attempt)
        → reconnects (run_client r strtod junk cfg tries).calls ≡ connections tries - 1
    unfolding run_client
    run_client-reconnects tries =
        attempts-reconnects tries
          (record { backoff = cfg.backoff_initial; has_connected_once = false })
