-- ===== src/Engine/Sequence/Rejection.antt =====
-- What a rejection carries: the name of the control that objected, and a code of its family.
use pretrade_risk_controls.Common.{String, ◌≡◌, Bool, false, Option, none, some, ℤ, arith, ◌⊎◌}
use pretrade_risk_controls.Float.{Float}
use pretrade_risk_controls.Python.{Python}
use pretrade_risk_controls.Decision.{ControlId, RiskDecision, RejectCode}
use pretrade_risk_controls.Order.{OrderRequest}
use pretrade_risk_controls.Engine.State.{Engine}
use pretrade_risk_controls.Engine.Checks.Outcome.{Outcome, satisfied, refused, raises}
use pretrade_risk_controls.Engine.Checks.Stops.{check_kill_switch, check_loss_limit}
use pretrade_risk_controls.Engine.Checks.Eligibility.{
  check_instrument_permitted, check_instrument_restricted, check_session_state,
  check_short_sale_locate,
}
use pretrade_risk_controls.Engine.Checks.Validation.{
  check_quantity_sign, check_price_sign, check_notional_sign, check_max_quantity,
  check_max_notional,
}
use pretrade_risk_controls.Engine.Checks.Prices.{
  check_quote_age, check_price_band, check_execution_slippage,
}
use pretrade_risk_controls.Engine.Checks.Conduct.{
  check_duplicate, check_order_rate, check_consecutive_rejects, check_repeated_execution,
}
use pretrade_risk_controls.Engine.Checks.Exposure.{
  check_working_orders, check_open_positions, check_position_limit, check_self_match,
  check_gross_exposure, check_daily_notional,
}
use pretrade_risk_controls.Engine.Sequence.{name, check}

-- The codes by which a control rejects.
abbrev pub CodeOf : ControlId → RejectCode → Type 0
CodeOf ControlId.kill_switch code = code ≡ RejectCode.kill_switch_engaged
CodeOf ControlId.daily_loss_limit code = code ≡ RejectCode.loss_limit_breached
CodeOf ControlId.instrument_universe code = code ≡ RejectCode.instrument_not_permitted
CodeOf ControlId.restricted_list code = code ≡ RejectCode.instrument_restricted
CodeOf ControlId.session_state code = code ≡ RejectCode.market_session_not_open
CodeOf ControlId.short_sale_locate code = code ≡ RejectCode.short_sale_locate_missing
CodeOf ControlId.order_quantity code = code ≡ RejectCode.order_quantity_not_positive
CodeOf ControlId.order_price code = code ≡ RejectCode.order_price_not_positive
CodeOf ControlId.order_notional code = code ≡ RejectCode.order_notional_not_positive
CodeOf ControlId.max_order_quantity code = code ≡ RejectCode.max_order_quantity_exceeded
CodeOf ControlId.max_order_notional code =
    (code ≡ RejectCode.market_data_unavailable) ⊎ (code ≡ RejectCode.max_order_notional_exceeded)
CodeOf ControlId.quote_age code =
    (code ≡ RejectCode.market_data_unavailable) ⊎ (code ≡ RejectCode.market_data_stale)
CodeOf ControlId.price_band code =
    (code ≡ RejectCode.market_data_unavailable) ⊎ (code ≡ RejectCode.price_band_exceeded)
CodeOf ControlId.execution_slippage code =
    (code ≡ RejectCode.market_data_unavailable) ⊎ (code ≡ RejectCode.execution_slippage_exceeded)
CodeOf ControlId.duplicate_order code = code ≡ RejectCode.duplicate_order
CodeOf ControlId.order_rate code = code ≡ RejectCode.order_rate_exceeded
CodeOf ControlId.consecutive_rejects code = code ≡ RejectCode.consecutive_reject_limit_exceeded
CodeOf ControlId.repeated_execution code = code ≡ RejectCode.repeated_execution_throttle
CodeOf ControlId.working_orders code = code ≡ RejectCode.max_working_orders_exceeded
CodeOf ControlId.open_positions code = code ≡ RejectCode.max_open_positions_exceeded
CodeOf ControlId.position_limit code = code ≡ RejectCode.max_position_exceeded
CodeOf ControlId.self_match_prevention code = code ≡ RejectCode.self_match_prevented
CodeOf ControlId.gross_exposure code =
    (code ≡ RejectCode.market_data_unavailable) ⊎ (code ≡ RejectCode.gross_exposure_limit_exceeded)
CodeOf ControlId.daily_notional_limit code =
    (code ≡ RejectCode.market_data_unavailable) ⊎ (code ≡ RejectCode.daily_notional_limit_exceeded)

abbrev pub HasCode : ControlId → Option RejectCode → Type 0
HasCode c none = ⊥
HasCode c (some code) = CodeOf c code

-- A rejection by the control `c`.
abbrev pub IsRejectionBy : {F : Type 0} → ControlId → RiskDecision F → Type 0
IsRejectionBy c d = (d.accepted ≡ false) × (d.control ≡ name c) × HasCode c d.code

abbrev pub Blames : {F : Type 0} → ControlId → Outcome F → Type 0
Blames c satisfied = Unit
Blames c raises = Unit
Blames c (refused d) = IsRejectionBy c d

module _ {F : Type 0} ⦃fl : Float F⦄ ⦃py : Python⦄ (exists : String → Option Bool) (e : Engine F)
    (r : OrderRequest F) (now : ℤ) where
  pub check-Blames : (c : ControlId) → Blames c (check exists c e r now).1
  unfolding check name check_kill_switch check_loss_limit check_instrument_permitted
      check_instrument_restricted check_session_state check_short_sale_locate check_quantity_sign
      check_price_sign check_notional_sign check_max_quantity check_max_notional check_price_band
      check_quote_age check_execution_slippage check_duplicate check_order_rate
      check_consecutive_rejects check_repeated_execution check_working_orders check_open_positions
      check_position_limit check_self_match check_gross_exposure check_daily_notional
  check-Blames ControlId.kill_switch = ground arith
  check-Blames _ = ground arith
