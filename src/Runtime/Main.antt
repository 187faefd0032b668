-- ===== src/Runtime/Main.antt =====
-- src/main.cpp, `main`: the start, and the loop that reports until a signal stops it.
use trading_bot_v.Prelude.{
  ℕ, suc, ◌+◌, ◌*◌, sym, subst, ℤ, pos, ◌+ℤ◌, ◌-ℤ◌, ◌≤ℤ◌, leb_ℤ, ◌≡◌, refl, Bool, true, false, List,
  [], ◌∷◌, ◌++◌, String, if◌then◌else◌, arith, int_laws,
}
use trading_bot_v.Core.Error.{error, value, to_string}
use trading_bot_v.Runtime.State.{RuntimeConfig}
use trading_bot_v.Runtime.Settings.{Outcome, returned, thrown}

-- how the start of the program goes on
pub data Start (D : Type 0) : Type 0 where
  -- the message on the error stream, with the exit code 1
  failed : String → Start D
  -- the program ends by an exception
  aborted : Start D
  started : RuntimeConfig D → Start D

-- `argv[1]`, if it is there
abbrev pub config_path : List String → String
config_path (program ∷ path ∷ rest) = path
config_path _ = "config.json"

abbrev pub begin_main : {D : Type 0} → Outcome (RuntimeConfig D) → Start D
begin_main (returned (value cfg)) = Start.started cfg
begin_main (returned (error e)) = Start.failed (to_string e)
begin_main thrown = Start.aborted

pub data Report : Type 0 where
  heartbeat metrics : Report

-- `lastReport` and `lastHeartbeat`, in nanoseconds
pub record Timer : Type 0 where
  pub last_report : ℤ
  pub last_heartbeat : ℤ

abbrev pub heartbeat_every : ℤ
heartbeat_every = pos 2_000_000_000

abbrev pub report_every : ℤ
report_every = pos 30_000_000_000

-- one round of the loop after its sleep
unfoldable pub main_round : ℤ → Timer → List Report × Timer
main_round now t =
    let beat = leb_ℤ heartbeat_every (now -ℤ t.last_heartbeat) in
    let report = leb_ℤ report_every (now -ℤ t.last_report) in
    (
      (if beat then Report.heartbeat ∷ [] else []) ++ (if report then Report.metrics ∷ [] else []),
      record {
        last_report = if report then now else t.last_report;
        last_heartbeat = if beat then now else t.last_heartbeat;
      },
    )

-- the loop, with the clock in each round
unfoldable pub main_loop : List ℤ → Timer → List Report × Timer
unfolding main_round
main_loop [] t = ([], t)
main_loop (now ∷ nows) t =
    let r = main_round now t in let rest = main_loop nows r.1 in (r.0 ++ rest.0, rest.1)

-- Between two heartbeats there are at least two seconds: so many of them end at least so much later.
abbrev beats : List Report → ℕ
beats [] = 0
beats (Report.heartbeat ∷ reports) = suc (beats reports)
beats (Report.metrics ∷ reports) = beats reports

beats-append : (xs ys : List Report) → beats (xs ++ ys) ≡ beats xs + beats ys
beats-append [] ys = omega arith
beats-append (Report.heartbeat ∷ xs) ys = omega (arith, beats-append xs ys)
beats-append (Report.metrics ∷ xs) ys = beats-append xs ys

-- `n` heartbeats after the time `from` end at `to` at the earliest.
abbrev Apart : ℕ → ℤ → ℤ → Type 0
Apart n from to = from +ℤ pos (n * 2_000_000_000) ≤ℤ to

round-Apart :
    (beat report : Bool) (now from : ℤ)
    → leb_ℤ heartbeat_every (now -ℤ from) ≡ beat
    → Apart
        (beats (
          (if beat then Report.heartbeat ∷ [] else [])
          ++ (if report then Report.metrics ∷ [] else [])))
        from
        (if beat then now else from)
unfolding ◌+ℤ◌ ◌-ℤ◌
round-Apart true true now from e = ground arith
round-Apart true false now from e = ground arith
round-Apart false true now from e = ground arith
round-Apart false false now from e = ground arith

join-Apart : (m n : ℕ) (from mid to : ℤ) → Apart m from mid → Apart n mid to → Apart (m + n) from to
unfolding ◌+ℤ◌
join-Apart m n from mid to a b = ground arith

main_loop-Apart :
    (nows : List ℤ) (t : Timer)
    → Apart (beats (main_loop nows t).0) t.last_heartbeat (main_loop nows t).1.last_heartbeat
unfolding main_loop main_round
main_loop-Apart [] t = omega int_laws
main_loop-Apart (now ∷ nows) t =
    let r = main_round now t in
    let rest = main_loop nows r.1 in
    subst (λ n. Apart n t.last_heartbeat rest.1.last_heartbeat) (sym (beats-append r.0 rest.0))
      (join-Apart (beats r.0) (beats rest.0) t.last_heartbeat r.1.last_heartbeat
        rest.1.last_heartbeat
        (round-Apart (leb_ℤ heartbeat_every (now -ℤ t.last_heartbeat))
          (leb_ℤ report_every (now -ℤ t.last_report)) now t.last_heartbeat refl)
        (main_loop-Apart nows r.1))
