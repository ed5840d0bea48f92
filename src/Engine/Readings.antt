-- ===== src/Engine/Readings.antt =====
-- The public readings of the engine. Most roll the trading day before they read. Where the source
-- takes an instant or reads the clock, `clock` is the clock's reading.
pub mod Headroom
pub mod Undisturbed
use pretrade_risk_controls.Common.{String, Bool, Option, none, some, ℤ}
use pretrade_risk_controls.Float.{Float}
use pretrade_risk_controls.Python.{Python}
use pretrade_risk_controls.Engine.State.{Engine, roll_trading_day}
use pretrade_risk_controls.Engine.Derived.{leg_pnl, leg_peak, floor, bypass_active, breached}

-- `self._clock.now_millis() if now_millis is None else now_millis`
abbrev pub instant : ℤ → Option ℤ → ℤ
instant clock none = clock
instant clock (some now) = now

module _ {F : Type 0} ⦃fl : Float F⦄ ⦃py : Python⦄ where
  unfoldable pub trading_day : Engine F → ℤ → Engine F × String
  trading_day e now = let e' = roll_trading_day e now in (e', e'.trading_day)

  unfoldable pub live_pnl : Engine F → ℤ → Engine F × F
  live_pnl e now = let e' = roll_trading_day e now in (e', e'.live_pnl)

  unfoldable pub simulated_pnl : Engine F → ℤ → Engine F × F
  simulated_pnl e now = let e' = roll_trading_day e now in (e', e'.simulated_pnl)

  unfoldable pub daily_realized_pnl : Engine F → ℤ → Engine F × F
  daily_realized_pnl e now =
      let e' = roll_trading_day e now in (e', fl.add e'.live_pnl e'.simulated_pnl)

  unfoldable pub daily_notional : Engine F → ℤ → Engine F × F
  daily_notional e now = let e' = roll_trading_day e now in (e', e'.daily_notional)

  unfoldable pub consecutive_rejects : Engine F → ℤ → Engine F × ℤ
  consecutive_rejects e now = let e' = roll_trading_day e now in (e', e'.consecutive_rejects)

  unfoldable pub loss_limit_pnl : Engine F → ℤ → Engine F × F
  loss_limit_pnl e now = let e' = roll_trading_day e now in (e', leg_pnl e')

  unfoldable pub loss_limit_peak : Engine F → ℤ → Engine F × F
  loss_limit_peak e now = let e' = roll_trading_day e now in (e', leg_peak e')

  unfoldable pub loss_limit_floor : Engine F → ℤ → Engine F × Option F
  loss_limit_floor e now = let e' = roll_trading_day e now in (e', floor e')

  abbrev pub headroom : F → Option F → Option F
  headroom pnl none = none
  headroom pnl (some level) = some (fl.sub pnl level)

  unfoldable pub loss_limit_headroom : Engine F → ℤ → Engine F × Option F
  loss_limit_headroom e now =
      let e' = roll_trading_day e now in (e', headroom (leg_pnl e') (floor e'))

  unfoldable pub loss_limit_breached : Engine F → ℤ → Option ℤ → Engine F × Bool
  loss_limit_breached e clock now_millis =
      let now = instant clock now_millis in let e' = roll_trading_day e now in (e', breached e' now)

module _ {F : Type 0} where
  -- This reading does not roll: the count belongs to no day.
  unfoldable pub executions_since_rearm : Engine F → ℤ
  executions_since_rearm e = e.executions_since_rearm

  unfoldable pub loss_limit_bypass_expires_at : Engine F → Option F
  loss_limit_bypass_expires_at e = e.bypass_expires_at

module _ {F : Type 0} ⦃fl : Float F⦄ where
  unfoldable pub loss_limit_bypass_active : Engine F → ℤ → Option ℤ → Bool
  loss_limit_bypass_active e clock now_millis = bypass_active e (instant clock now_millis)
