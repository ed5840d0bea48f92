-- ===== src/Engine/Checks/Stops.antt =====
-- The absolute stops: the kill switch and the loss limit.
use pretrade_risk_controls.Common.{String, Bool, true, false, Option, none, some, ℤ, if◌then◌else◌}
use pretrade_risk_controls.Float.{Float}
use pretrade_risk_controls.Decision.{RejectCode, reject}
use pretrade_risk_controls.Engine.State.{Engine}
use pretrade_risk_controls.Engine.Derived.{kill_switch_engaged, breached, floor, leg_pnl, leg_peak}
use pretrade_risk_controls.Engine.Messages.{kill_switch_message, loss_limit_message}
use pretrade_risk_controls.Engine.Checks.Outcome.{Outcome, satisfied, refused, raises}

module _ {F : Type 0} where
  unfoldable pub check_kill_switch : (String → Option Bool) → Engine F → Outcome F
  unfolding kill_switch_engaged
  check_kill_switch exists e = elim e.limits.kill_switch_path [
    | none ↦ satisfied
    | some path ↦ elim (exists path) [
      | none ↦ raises
      | some false ↦ satisfied
      | some true ↦
          refused (
            reject RejectCode.kill_switch_engaged "kill switch" (kill_switch_message path) none
              none)
    ]
  ]

module _ {F : Type 0} ⦃fl : Float F⦄ where
  -- The rejection of a breached limit; an unset one could not be formatted.
  unfoldable pub refuse_loss : Engine F → Option F → Option F → Outcome F
  refuse_loss e none limit = raises
  refuse_loss e (some level) none = raises
  refuse_loss e (some level) (some limit) = refused (
      reject RejectCode.loss_limit_breached "daily loss limit"
        (loss_limit_message e.is_live (leg_pnl e) level (leg_peak e) limit) (some level)
        (some (leg_pnl e)))

  unfoldable pub check_loss_limit : Engine F → ℤ → Outcome F
  unfolding refuse_loss
  check_loss_limit e now =
      if breached e now then refuse_loss e (floor e) e.limits.daily_loss_limit_usd else satisfied
