-- ===== src/Examples/Sessions.antt =====
-- A session over two trading days, with a re-arm and another writer.
use pretrade_risk_controls.Common.{
  ◌↔◌, String, Bool, Option, none, keep, map, ◌≡◌, refl, ◌+ℤ◌, arith, true, List, [], ◌∷◌, pos,
  negsuc, some,
}
use pretrade_risk_controls.Float.Whole.{Whole, whole_float, Whole-IsBinary64, Whole-IsRoundTrip}
use pretrade_risk_controls.Engine.Sequence.Total.{PathFails}
use pretrade_risk_controls.Python.Plain.{plain_python}
use pretrade_risk_controls.Store.Memory.{Memory, memory_store, Memory-IsStore}
use pretrade_risk_controls.Engine.Session.{
  Call, order_sent, realized_pnl, order_rejected, executed, rearmed, loaded_at, evaluated,
  store_written, call, run,
}
use pretrade_risk_controls.Engine.Session.Consistency.{evaluate-run}
use pretrade_risk_controls.Engine.Session.Watermark.{HasPeaks, run-HasPeaks}
use pretrade_risk_controls.Engine.Session.Tally.{tally_of, tally_calls, run-tally}
use pretrade_risk_controls.Engine.Sequence.{
  raised, evaluate, running_controls, running, control_status,
}
use pretrade_risk_controls.Engine.Sequence.Settled.{first_objection, says}
use pretrade_risk_controls.Engine.Sequence.Listing.{running_controls-decide}
use pretrade_risk_controls.Float.{max}
use pretrade_risk_controls.Float.Whole.Decimal
use pretrade_risk_controls.Clock.{session_date}
use pretrade_risk_controls.Engine.State.{today, roll_trading_day}
use pretrade_risk_controls.Engine.Counters.{add_pnl, count_pnl}
use pretrade_risk_controls.Engine.Lifecycle
use pretrade_risk_controls.Engine.Lifecycle.Restart.{IsStorable, SameCounters}
use pretrade_risk_controls.Engine.Session.Durability.{load-call}
use pretrade_risk_controls.Examples.Data.{limits, order, engine, present, empty_store}
use pretrade_risk_controls.Examples.Fresh.{fresh, fresh-init}

abbrev calls : List (Call Whole Memory)
calls =
    loaded_at (pos 9500)
    ∷ evaluated present order (pos 10000)
    ∷ order_sent order (pos 10001)
    ∷ realized_pnl (some (pos 40)) true (pos 10500)
    ∷ realized_pnl (some (negsuc 99)) true (pos 11000)
    ∷ store_written empty_store
    ∷ loaded_at (pos 12000)
    ∷ order_rejected (pos 86500000)
    ∷ []

-- A path that cannot be looked up.
abbrev unreachable : String → Option Bool
unreachable path = none

evaluate-run_example :
    ((evaluate unreachable (run calls fresh empty_store).0 order (pos 86600000)).1 ≡ raised)
    ↔ PathFails unreachable limits
evaluate-run_example =
    evaluate-run Whole-IsBinary64 limits true (pos 9000) fresh calls empty_store unreachable order
      (pos 86600000) fresh-init

run-HasPeaks_example : HasPeaks (run calls fresh empty_store).0
run-HasPeaks_example =
    run-HasPeaks Whole-IsBinary64 limits true (pos 9000) fresh calls empty_store fresh-init

-- An execution and two rejections, a new trading day, a re-arm, and one more execution.
abbrev executions : List (Call Whole Memory)
executions =
    executed (pos 10000)
    ∷ order_rejected (pos 10001)
    ∷ order_rejected (pos 10002)
    ∷ executed (pos 86500000)
    ∷ rearmed (pos 86500001)
    ∷ executed (pos 86500002)
    ∷ []

run-tally_example :
    tally_of (run executions engine empty_store).0 ≡ tally_calls limits executions (tally_of engine)
run-tally_example = run-tally executions engine empty_store (tt, (tt, (tt, (tt, (tt, (tt, tt))))))

-- The day's profit grows by five.
abbrev profit : Call Whole Memory
profit = realized_pnl (some (pos 5)) true (pos 10000)

profit-IsStorable : IsStorable (call profit engine empty_store).0
unfolding call Lifecycle.record_realized_pnl count_pnl add_pnl max roll_trading_day today
    session_date ◌+ℤ◌ Decimal.show_int
profit-IsStorable = record {
  live_pnl-is_finite = refl;
  simulated_pnl-is_finite = refl;
  live_peak-is_finite = refl;
  simulated_peak-is_finite = refl;
  daily_notional-is_finite = refl;
  rejects-IsCount = (omega arith, (omega arith, omega arith));
  executions-IsCount = (omega arith, (omega arith, omega arith));
  live-IsRatchet = (refl, refl);
  simulated-IsRatchet = (refl, refl);
}

one_day : today engine.limits (pos 11000) ≡ today engine.limits (pos 10000)
unfolding today session_date ◌+ℤ◌ Decimal.show_int
one_day = refl

load-call_example :
    SameCounters
      (Lifecycle.load fresh (call profit engine empty_store).1 (pos 11000)).0
      (call profit engine empty_store).0
load-call_example =
    load-call Whole-IsBinary64 Whole-IsRoundTrip Memory-IsStore profit engine fresh empty_store
      (pos 10000) (pos 11000) refl profit-IsStorable refl one_day

running_controls-decide_example :
    (map (λ s. s.id) (keep running (control_status engine)) ≡ running_controls engine)
    × ((evaluate present engine order (pos 10000)).1
        ≡ first_objection
            (running_controls (roll_trading_day engine (pos 10000)))
            (says present (roll_trading_day engine (pos 10000)) order (pos 10000)))
running_controls-decide_example = running_controls-decide present engine order (pos 10000)
