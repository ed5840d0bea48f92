-- ===== src/Examples/Restart.antt =====
-- A restart, and a restart after the operator's reset.
use pretrade_risk_controls.Common.{
  ◌≡◌, refl, true, false, some, pos, negsuc, ◌≢◌, ◌+ℤ◌, arith, str_eq_iff,
}
use pretrade_risk_controls.Float.Whole.{Whole, whole_float, Whole-IsBinary64, Whole-IsRoundTrip}
use pretrade_risk_controls.Python.Plain.{plain_python}
use pretrade_risk_controls.Clock.{session_date}
use pretrade_risk_controls.Store.Memory.{memory_store, Memory-IsStore}
use pretrade_risk_controls.Engine.State.{Engine, today}
use pretrade_risk_controls.Engine.Derived.{breached}
use pretrade_risk_controls.Engine.Lifecycle.{load, persist}
use pretrade_risk_controls.Engine.Lifecycle.Restart.{SameCounters, load-persist}
use pretrade_risk_controls.Keys
use pretrade_risk_controls.Float.Whole.Decimal
use pretrade_risk_controls.Engine.Lifecycle.Restart.Snapshot.{IsSnapshot}
use pretrade_risk_controls.Engine.Lifecycle.NextDay.{IsUntouched, load-next_day}
use pretrade_risk_controls.Examples.Data.{engine, limits, empty_store}
use pretrade_risk_controls.Engine.Lifecycle.Reset.{reset_daily_loss_limit-load}
use pretrade_risk_controls.Operator.{reset_daily_loss_limit}
use pretrade_risk_controls.Examples.Fresh.{fresh, fresh-init, engine-IsStorable, engine-today}

load-persist_example : SameCounters (load fresh (persist engine empty_store) (pos 11000)).0 engine
load-persist_example =
    load-persist Whole-IsBinary64 Whole-IsRoundTrip Memory-IsStore engine fresh empty_store
      (pos 11000) engine-IsStorable engine-today

tomorrow : engine.trading_day ≢ today fresh.limits (pos 90000000)
unfolding today session_date ◌+ℤ◌ Decimal.show_int
tomorrow h = let same : false ≡ true = (str_eq_iff "0" "1").1 h in cc same

load-next_day_example :
    let after = load fresh (persist engine empty_store) (pos 90000000) in
    IsUntouched after.0
    × (after.0.trading_day ≡ today fresh.limits (pos 90000000))
    × (after.0.executions_since_rearm ≡ pos 2)
    × IsSnapshot (memory_store.get_many after.1 Keys.counter_keys) after.0
load-next_day_example =
    load-next_day Whole-IsBinary64 Whole-IsRoundTrip Memory-IsStore engine fresh empty_store limits
      true (pos 9000) (pos 90000000) fresh-init (omega arith, (omega arith, omega arith)) tomorrow

-- An engine far below its floor.
abbrev losing : Engine Whole
losing = record engine { live_pnl = some (negsuc 899) }

reset_daily_loss_limit-load_example :
    breached
      (load fresh (reset_daily_loss_limit Whole (persist losing empty_store)) (pos 12000)).0
      (pos 12000)
    ≡ false
reset_daily_loss_limit-load_example =
    reset_daily_loss_limit-load Whole-IsBinary64 Whole-IsRoundTrip Memory-IsStore limits true
      (pos 9000) fresh (persist losing empty_store) (pos 12000) (pos 12000) (some (pos 500))
      fresh-init refl refl
