-- ===== src/Engine/Sequence/Accepts.antt =====
-- Acceptance, described apart from the loop and the checks: every control that runs permits the order.
use pretrade_risk_controls.Common.{Option, String, ◌≡◌, Bool, true, ℤ, arith}
use pretrade_risk_controls.Float.{Float, IsBinary64}
use pretrade_risk_controls.Python.{Python}
use pretrade_risk_controls.Decision.{ControlId}
use pretrade_risk_controls.Order.{OrderRequest}
use pretrade_risk_controls.Engine.State.{Engine}
use pretrade_risk_controls.Engine.Derived.{breached, floor}
use pretrade_risk_controls.Engine.Checks.Outcome.{satisfied}
use pretrade_risk_controls.Engine.Checks.Stops.{check_kill_switch, check_loss_limit}
use pretrade_risk_controls.Engine.Checks.Eligibility.{
  check_instrument_permitted, check_instrument_restricted, check_session_state,
  check_short_sale_locate,
}
use pretrade_risk_controls.Engine.Checks.Validation.{
  check_quantity_sign, check_price_sign, check_notional_sign, check_max_quantity,
  check_max_notional,
}
use pretrade_risk_controls.Engine.Checks.Prices.{
  check_quote_age, check_price_band, check_execution_slippage,
}
use pretrade_risk_controls.Engine.Checks.Conduct.{
  check_duplicate, check_order_rate, check_consecutive_rejects, check_repeated_execution,
}
use pretrade_risk_controls.Engine.Checks.Exposure.{
  check_working_orders, check_open_positions, check_position_limit, check_self_match,
  check_gross_exposure, check_daily_notional,
}
use pretrade_risk_controls.Engine.Sequence.{is_armed, check}
use pretrade_risk_controls.Engine.Sequence.Total.{IsConsistent}
use pretrade_risk_controls.Engine.Sequence.Permits.{Permits}

module _ {F : Type 0} ⦃fl : Float F⦄ ⦃py : Python⦄ (laws : IsBinary64 F)
    (exists : String → Option Bool) (e : Engine F) (r : OrderRequest F) (now : ℤ) where
  abbrev pub Satisfies : ControlId → Type 0
  Satisfies c = (check exists c e r now).1 ≡ satisfied

  price_band-Permits : Satisfies ControlId.price_band → Permits exists ControlId.price_band e r now
  unfolding check check_price_band
  price_band-Permits h = ground arith

  Permits-price_band : Permits exists ControlId.price_band e r now → Satisfies ControlId.price_band
  unfolding check check_price_band
  Permits-price_band h = grind (arith, laws.eq-le)

  duplicate-Permits :
      IsConsistent e
      → Satisfies ControlId.duplicate_order
      → Permits exists ControlId.duplicate_order e r now
  unfolding check check_duplicate
  duplicate-Permits k h = ground arith

  -- An armed control is satisfied only by an order that it permits.
  pub check-Permits :
      (c : ControlId)
      → IsConsistent e
      → is_armed c e ≡ true
      → Satisfies c
      → Permits exists c e r now
  unfolding check is_armed check_kill_switch check_loss_limit breached floor
      check_instrument_permitted check_instrument_restricted check_session_state
      check_short_sale_locate check_quantity_sign check_price_sign check_notional_sign
      check_max_quantity check_max_notional check_quote_age check_execution_slippage
      check_order_rate check_consecutive_rejects check_repeated_execution check_working_orders
      check_open_positions check_position_limit check_self_match check_gross_exposure
      check_daily_notional
  check-Permits ControlId.duplicate_order k armed h = duplicate-Permits k h
  check-Permits ControlId.price_band k armed h = price_band-Permits h
  check-Permits _ k armed h = ground arith

  pub Permits-check :
      (c : ControlId)
      → IsConsistent e
      → is_armed c e ≡ true
      → Permits exists c e r now
      → Satisfies c
  unfolding check is_armed check_kill_switch check_loss_limit breached floor
      check_instrument_permitted check_instrument_restricted check_session_state
      check_short_sale_locate check_quantity_sign check_price_sign check_notional_sign
      check_max_quantity check_max_notional check_quote_age check_execution_slippage
      check_order_rate check_consecutive_rejects check_repeated_execution check_working_orders
      check_open_positions check_position_limit check_self_match check_gross_exposure
      check_daily_notional check_duplicate
  Permits-check ControlId.price_band k armed h = Permits-price_band h
  Permits-check _ k armed h = ground arith
