-- ===== src/Engine/Checks/Exposure.antt =====
-- Position and exposure.
use pretrade_risk_controls.Common.{Bool, not, ◌&&◌, Option, none, some, ltb_ℤ, if◌then◌else◌}
use pretrade_risk_controls.Float.{Float, nought}
use pretrade_risk_controls.Python.{Python}
use pretrade_risk_controls.Decision.{RejectCode, reject}
use pretrade_risk_controls.Order.{OrderRequest, notional_usd, projected_position}
use pretrade_risk_controls.Engine.State.{Engine}
use pretrade_risk_controls.Engine.Messages.{
  working_message, positions_message, position_message, self_match_message, exposure_message,
  daily_notional_message,
}
use pretrade_risk_controls.Engine.Checks.Outcome.{Outcome, satisfied, refused, raises, unpriced}

module _ {F : Type 0} ⦃fl : Float F⦄ where
  -- `reduces and not flips_sign`
  abbrev pub reduces_only : F → F → Bool
  reduces_only current projected =
      fl.lt (fl.abs projected) (fl.abs current) && not (fl.lt (fl.mul current projected) nought)

  unfoldable pub check_position_limit : Engine F → OrderRequest F → Outcome F
  check_position_limit e r = elim e.limits.max_position_quantity [
    | none ↦ raises
    | some most ↦
        let projected = projected_position r in
        if fl.le (fl.abs projected) most
        then satisfied
        else if reduces_only r.position_quantity projected
        then satisfied
        else refused (
            reject RejectCode.max_position_exceeded "position limit"
              (position_message r.symbol r.position_quantity projected most) (some most)
              (some (fl.abs projected)))
  ]

  unfoldable pub check_self_match : OrderRequest F → Outcome F
  check_self_match r =
      if fl.le r.opposing_resting_quantity nought
      then satisfied
      else refused (
          reject RejectCode.self_match_prevented "self-match prevention"
            (self_match_message r.symbol r.opposing_resting_quantity) none
            (some r.opposing_resting_quantity))

  unfoldable pub exposure_at : OrderRequest F → F → Option F → Outcome F
  exposure_at r notional none = raises
  exposure_at r notional (some most) =
      let projected = fl.add r.gross_exposure_usd (fl.abs notional) in
      if fl.le projected most
      then satisfied
      else refused (
          reject RejectCode.gross_exposure_limit_exceeded "gross exposure"
            (exposure_message projected r.gross_exposure_usd notional most) (some most)
            (some projected))

  unfoldable pub check_gross_exposure : Engine F → OrderRequest F → Outcome F
  unfolding exposure_at unpriced
  check_gross_exposure e r = elim (notional_usd r) [
    | none ↦ unpriced r "gross exposure"
    | some notional ↦ exposure_at r notional e.limits.max_gross_exposure_usd
  ]

  unfoldable pub daily_notional_at : Engine F → F → Option F → Outcome F
  daily_notional_at e notional none = raises
  daily_notional_at e notional (some most) =
      let projected = fl.add e.daily_notional (fl.abs notional) in
      if fl.le projected most
      then satisfied
      else refused (
          reject RejectCode.daily_notional_limit_exceeded "daily notional limit"
            (daily_notional_message projected e.daily_notional notional most) (some most)
            (some projected))

  unfoldable pub check_daily_notional : Engine F → OrderRequest F → Outcome F
  unfolding daily_notional_at unpriced
  check_daily_notional e r = elim (notional_usd r) [
    | none ↦ unpriced r "daily notional limit"
    | some notional ↦ daily_notional_at e notional e.limits.daily_notional_limit_usd
  ]

module _ {F : Type 0} ⦃fl : Float F⦄ ⦃py : Python⦄ where
  unfoldable pub check_working_orders : Engine F → OrderRequest F → Outcome F
  check_working_orders e r = elim e.limits.max_working_orders [
    | none ↦ raises
    | some most ↦
        if ltb_ℤ r.working_orders most
        then satisfied
        else refused (
            reject RejectCode.max_working_orders_exceeded "working orders"
              (working_message r.working_orders most) (some (fl.of_int most))
              (some (fl.of_int r.working_orders)))
  ]

  unfoldable pub check_open_positions : Engine F → OrderRequest F → Outcome F
  check_open_positions e r = elim e.limits.max_open_positions [
    | none ↦ raises
    | some most ↦
        if ltb_ℤ r.open_positions most
        then satisfied
        else refused (
            reject RejectCode.max_open_positions_exceeded "open positions"
              (positions_message r.open_positions most) (some (fl.of_int most))
              (some (fl.of_int r.open_positions)))
  ]
