-- ===== src/Examples/Readings.antt =====
-- The readings of the loss limit.
use pretrade_risk_controls.Common.{◌≡◌, refl, true, not, ◌&&◌, none, some, pos, ◌+ℤ◌, ◌-ℤ◌}
use pretrade_risk_controls.Float.{nought}
use pretrade_risk_controls.Float.Whole.{whole_float, Whole-IsBinary64}
use pretrade_risk_controls.Float.Whole.Decimal
use pretrade_risk_controls.Python.Plain.{plain_python}
use pretrade_risk_controls.Clock.{session_date}
use pretrade_risk_controls.Engine.State.{today, roll_trading_day}
use pretrade_risk_controls.Engine.Derived.{leg_pnl, leg_peak}
use pretrade_risk_controls.Engine.Readings
use pretrade_risk_controls.Engine.Readings.Headroom.{loss_limit-readings}
use pretrade_risk_controls.Examples.Data.{engine}

finite : whole_float.is_finite (Readings.loss_limit_pnl engine (pos 10000)).1 ≡ true
unfolding Readings.loss_limit_pnl leg_pnl roll_trading_day today session_date ◌+ℤ◌ Decimal.show_int
finite = refl

finite_floor :
    whole_float.is_finite
      (whole_float.sub (Readings.loss_limit_peak engine (pos 10000)).1 (some (pos 500)))
    ≡ true
unfolding Readings.loss_limit_peak leg_peak roll_trading_day today session_date ◌+ℤ◌ ◌-ℤ◌
    Decimal.show_int
finite_floor = refl

loss_limit-readings_example :
    let level = whole_float.sub (Readings.loss_limit_peak engine (pos 10000)).1 (some (pos 500)) in
    let room = whole_float.sub (Readings.loss_limit_pnl engine (pos 10000)).1 level in
    ((Readings.loss_limit_floor engine (pos 10000)).1 ≡ some level)
    × ((Readings.loss_limit_headroom engine (pos 10000)).1 ≡ some room)
    × ((Readings.loss_limit_breached engine (pos 10000) none).1 ≡ (
        not (Readings.loss_limit_bypass_active engine (pos 10000) none)
        && whole_float.le room nought))
loss_limit-readings_example =
    loss_limit-readings Whole-IsBinary64 engine (pos 10000) (some (pos 500)) refl finite
      finite_floor
