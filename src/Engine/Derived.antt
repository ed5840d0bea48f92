-- ===== src/Engine/Derived.antt =====
-- Derived state: the legs, the loss limit, the bypass, the effective caps.
use pretrade_risk_controls.Common.{String, Bool, false, ◌&&◌, Option, none, some, ℤ, if◌then◌else◌}
use pretrade_risk_controls.Float.{Float}
use pretrade_risk_controls.Engine.State.{Engine}

module _ {F : Type 0} where
  unfoldable pub leg_pnl : Engine F → F
  leg_pnl e = if e.is_live then e.live_pnl else e.simulated_pnl

  unfoldable pub leg_peak : Engine F → F
  leg_peak e = if e.is_live then e.live_peak else e.simulated_peak

  unfoldable pub effective_max_order_notional : Engine F → Option F
  effective_max_order_notional e = elim e.runtime_max_order_notional [
    | some cap ↦ some cap
    | none ↦ e.limits.max_order_notional_usd
  ]

  unfoldable pub effective_max_order_quantity : Engine F → Option F
  effective_max_order_quantity e = elim e.runtime_max_order_quantity [
    | some cap ↦ some cap
    | none ↦ e.limits.max_order_quantity
  ]

  -- `kill_switch_engaged`, with the file system as `Path.exists`: `none` is the `OSError` of a
  -- path that it cannot look up
  unfoldable pub kill_switch_engaged : (String → Option Bool) → Engine F → Option Bool
  kill_switch_engaged exists e = elim e.limits.kill_switch_path [
    | none ↦ some false
    | some path ↦ exists path
  ]

module _ {F : Type 0} ⦃fl : Float F⦄ where
  -- `_floor`
  unfoldable pub floor : Engine F → Option F
  unfolding leg_peak
  floor e = elim e.limits.daily_loss_limit_usd [
    | none ↦ none
    | some limit ↦ some (fl.sub (leg_peak e) limit)
  ]

  -- `_bypass_active`
  unfoldable pub bypass_active : Engine F → ℤ → Bool
  bypass_active e now = elim e.bypass_expires_at [
    | none ↦ false
    | some expires_at ↦ e.bypass_loss_limit && fl.int_lt now expires_at
  ]

  -- `_breached`
  unfoldable pub breached : Engine F → ℤ → Bool
  unfolding floor bypass_active leg_pnl
  breached e now = elim (floor e) [
    | none ↦ false
    | some level ↦ if bypass_active e now then false else fl.le (leg_pnl e) level
  ]
