-- ===== src/Examples/Fresh.antt =====
-- A newly constructed engine, and what the engine of the examples can store.
use pretrade_risk_controls.Common.{arith, ℤ, ◌≡◌, refl, true, false, none, some, [], pos, ◌+ℤ◌}
use pretrade_risk_controls.Float.Whole.{Whole, whole_float}
use pretrade_risk_controls.Float.Whole.Decimal
use pretrade_risk_controls.Python.{ok}
use pretrade_risk_controls.Python.Plain.{plain_python}
use pretrade_risk_controls.Clock.{session_date}
use pretrade_risk_controls.Windows.Rate
use pretrade_risk_controls.Windows.Duplicate
use pretrade_risk_controls.Engine.State.{Engine, init, init_duplicates, today}
use pretrade_risk_controls.Engine.Lifecycle.Restart.{IsStorable, IsCount}
use pretrade_risk_controls.Examples.Data.{limits, engine}

-- The engine as the constructor makes it.
abbrev pub fresh : Engine Whole
fresh = record {
  limits = limits;
  is_live = true;
  trading_day = "0";
  live_pnl = some (pos 0);
  simulated_pnl = some (pos 0);
  live_peak = some (pos 0);
  simulated_peak = some (pos 0);
  daily_notional = some (pos 0);
  consecutive_rejects = pos 0;
  executions_since_rearm = pos 0;
  rate_window = record { window_millis = pos 1000; events = [] };
  duplicate_window = some (record { window_millis = pos 2000; seen = [] });
  bypass_loss_limit = false;
  bypass_expires_at = none;
  runtime_max_order_notional = none;
  runtime_max_order_quantity = none;
}

pub fresh-init : init limits true (pos 9000) ≡ ok fresh
unfolding init init_duplicates Rate.init Duplicate.init today session_date ◌+ℤ◌ Decimal.show_int
fresh-init = refl

pub executed-IsStorable :
    (n : ℤ) → IsCount n → IsStorable (record engine { executions_since_rearm = n })
executed-IsStorable n count = record {
  live_pnl-is_finite = refl;
  simulated_pnl-is_finite = refl;
  live_peak-is_finite = refl;
  simulated_peak-is_finite = refl;
  daily_notional-is_finite = refl;
  rejects-IsCount = (omega arith, (omega arith, omega arith));
  executions-IsCount = count;
  live-IsRatchet = (refl, refl);
  simulated-IsRatchet = (refl, refl);
}

pub engine-IsStorable : IsStorable engine
engine-IsStorable = executed-IsStorable (pos 2) (omega arith, (omega arith, omega arith))

pub engine-today : engine.trading_day ≡ today fresh.limits (pos 11000)
unfolding today session_date ◌+ℤ◌ Decimal.show_int
engine-today = refl
