-- ===== src/Md/WsClient/Tests.antt =====
-- Each property of the client at a concrete run, with a reader for which a text is the type of its
-- message.
use text.Mathlib.Text.{◌==◌ as str_eq}
use trading_bot_v.Prelude.{
  ℕ, ℤ, ◌-ℤ◌, ◌*ℤ◌, pos, ◌≡◌, refl, ltb, Option, none, some, List, [], ◌∷◌, String, get_elem?,
  replicate, arith, ◌*◌, ◌^◌, if◌then◌else◌,
}
use trading_bot_v.Core.Double.{Milli, milli_double}
use trading_bot_v.Md.Messages.{CoinbasePriceLevel}
use trading_bot_v.Md.Parser.{Reader, parse, read_body}
use trading_bot_v.Md.WsClient.{
  Attempt, Read, Round, attempts, back_off, try_connection, blank, default_ws, run_client, session,
  sleep,
}
use trading_bot_v.Md.WsClient.Backoff.{IsSlept, capped, run_client-refused, sleep-IsSlept}
use trading_bot_v.Md.WsClient.Frames.{IsDelivered, session-IsDelivered}
use trading_bot_v.Md.WsClient.Reconnects.{reconnects}

abbrev reader : Reader String
reader = record {
  iterate = λ s. if str_eq s "bad" then none else some s;
  get_object = λ v. some v;
  field = λ v key. v;
  get_string = λ v. some v;
  get_array = λ v. none;
  get_uint64 = λ v. none;
}

abbrev junk : ℤ → (ℕ → CoinbasePriceLevel Milli) × (ℕ → CoinbasePriceLevel Milli)
junk recv = ((λ i. record { price = recv; qty = recv }), (λ i. record { price = recv; qty = recv }))

abbrev strtod : String → Option Milli
strtod s = none

-- two texts, one of them no JSON, a read that gives nothing, and a connection that breaks
abbrev rounds : List Round
rounds =
    record { now = pos 1; read = Read.frame "heartbeat" (pos 2) (pos 3) }
    ∷ record { now = pos 4; read = Read.nothing }
    ∷ record { now = pos 5; read = Read.frame "bad" (pos 6) (pos 7) }
    ∷ record { now = pos 8; read = Read.failure }
    ∷ []

session-IsDelivered_example :
    IsDelivered reader strtod junk default_ws
      (pos 0)
      rounds
      (session reader strtod junk default_ws (pos 0) blank rounds)
session-IsDelivered_example = session-IsDelivered reader strtod junk default_ws (pos 0) blank rounds

abbrev tries : List Attempt
tries =
    Attempt.refused
    ∷ Attempt.connected (pos 0) rounds
    ∷ Attempt.refused
    ∷ Attempt.connected (pos 0) rounds
    ∷ []

run_client-tries : reconnects (run_client reader strtod junk default_ws tries).calls ≡ 1
unfolding run_client attempts try_connection session back_off parse read_body ◌-ℤ◌ ◌*ℤ◌
run_client-tries = refl

run_client-refused_example :
    get_elem? (run_client reader strtod junk default_ws (replicate 7 Attempt.refused)).waits 6
    ≡ some (pos (capped 30000 (1000 * 2 ^ 6)))
run_client-refused_example =
    run_client-refused reader strtod junk default_ws 1000 30000 7 6 refl refl (omega arith)
      (omega arith)

sleep-IsSlept_example : IsSlept (λ i. ltb i 3) 0 (pos 1000) (sleep 1000 (λ i. ltb i 3) 0 (pos 1000))
sleep-IsSlept_example = sleep-IsSlept 1000 (λ i. ltb i 3) 0 (pos 1000) (omega arith)
