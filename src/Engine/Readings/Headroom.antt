-- ===== src/Engine/Readings/Headroom.antt =====
-- The readings of the loss limit against each other.
use pretrade_risk_controls.Common.{◌≡◌, true, not, ◌&&◌, none, some, ℤ, arith}
use pretrade_risk_controls.Float.{Float, nought, IsBinary64}
use pretrade_risk_controls.Python.{Python}
use pretrade_risk_controls.Engine.State.{Engine, roll_trading_day, start_day}
use pretrade_risk_controls.Engine.Derived.{leg_pnl, leg_peak, floor, bypass_active, breached}
use pretrade_risk_controls.Engine.Readings.{
  loss_limit_pnl, loss_limit_peak, loss_limit_headroom, loss_limit_floor, loss_limit_breached,
  loss_limit_bypass_active,
}

module _ {F : Type 0} ⦃fl : Float F⦄ ⦃py : Python⦄ (laws : IsBinary64 F) where
  roll-bypass :
      (e : Engine F) (now t : ℤ) → bypass_active (roll_trading_day e now) t ≡ bypass_active e t
  unfolding roll_trading_day start_day bypass_active
  roll-bypass e now t = ground arith

  roll-limit :
      (e : Engine F) (now : ℤ)
      → (roll_trading_day e now).limits.daily_loss_limit_usd ≡ e.limits.daily_loss_limit_usd
  unfolding roll_trading_day start_day
  roll-limit e now = ground arith

  -- What a console shows at one instant fits together: with a loss limit set, the floor is the peak
  -- less the limit, the headroom is the profit less the floor, and the limit is breached exactly if
  -- no bypass is active and the headroom is zero or less. The profit and the floor must be finite.
  pub loss_limit-readings :
      (e : Engine F) (now : ℤ) (limit : F)
      → e.limits.daily_loss_limit_usd ≡ some limit
      → fl.is_finite (loss_limit_pnl e now).1 ≡ true
      → fl.is_finite (fl.sub (loss_limit_peak e now).1 limit) ≡ true
      → let level = fl.sub (loss_limit_peak e now).1 limit in
        let room = fl.sub (loss_limit_pnl e now).1 level in
        ((loss_limit_floor e now).1 ≡ some level)
        × ((loss_limit_headroom e now).1 ≡ some room)
        × ((loss_limit_breached e now none).1
            ≡ (not (loss_limit_bypass_active e now none) && fl.le room nought))
  unfolding loss_limit_pnl loss_limit_peak loss_limit_floor loss_limit_headroom loss_limit_breached
      loss_limit_bypass_active breached floor
  loss_limit-readings e now limit set finite finite_floor =
      let e' = roll_trading_day e now in
      let set' = roll-limit e now in
      let bypass = roll-bypass e now now in
      let sign = laws.sub_le_nought (leg_pnl e') (fl.sub (leg_peak e') limit) finite finite_floor in
      (ground arith, ground arith, ground arith)
