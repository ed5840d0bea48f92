-- ===== src/Engine/Checks/Validation.antt =====
-- The order's own well-formedness, and the caps on its size.
use pretrade_risk_controls.Common.{Option, none, some, if◌then◌else◌}
use pretrade_risk_controls.Float.{Float, nought}
use pretrade_risk_controls.Decision.{RejectCode, reject}
use pretrade_risk_controls.Order.{OrderRequest, notional_usd}
use pretrade_risk_controls.Engine.State.{Engine}
use pretrade_risk_controls.Engine.Derived.{
  effective_max_order_notional, effective_max_order_quantity,
}
use pretrade_risk_controls.Engine.Messages.{
  quantity_message, price_message, notional_message, quantity_cap_message, notional_cap_message,
}
use pretrade_risk_controls.Engine.Checks.Outcome.{Outcome, satisfied, refused, raises, unpriced}

module _ {F : Type 0} ⦃fl : Float F⦄ where
  unfoldable pub check_quantity_sign : OrderRequest F → Outcome F
  check_quantity_sign r =
      if fl.lt nought r.quantity
      then satisfied
      else refused (
          reject RejectCode.order_quantity_not_positive "order quantity"
            (quantity_message r.quantity) none (some r.quantity))

  unfoldable pub check_price_sign : OrderRequest F → Outcome F
  check_price_sign r = elim r.limit_price [
    | none ↦ satisfied
    | some price ↦
        if fl.lt nought price
        then satisfied
        else refused (
            reject RejectCode.order_price_not_positive "order price" (price_message price) none
              (some price))
  ]

  unfoldable pub check_notional_sign : OrderRequest F → Outcome F
  check_notional_sign r = elim (notional_usd r) [
    | none ↦ satisfied
    | some notional ↦
        if fl.lt nought notional
        then satisfied
        else refused (
            reject RejectCode.order_notional_not_positive "order notional"
              (notional_message notional) none (some notional))
  ]

  unfoldable pub check_max_quantity : Engine F → OrderRequest F → Outcome F
  check_max_quantity e r = elim (effective_max_order_quantity e) [
    | none ↦ raises
    | some most ↦
        if fl.le r.quantity most
        then satisfied
        else refused (
            reject RejectCode.max_order_quantity_exceeded "maximum order quantity"
              (quantity_cap_message r.quantity most) (some most) (some r.quantity))
  ]

  -- `notional <= cap`, where an unset cap raises
  unfoldable pub cap_notional : F → Option F → Outcome F
  cap_notional notional none = raises
  cap_notional notional (some most) =
      if fl.le notional most
      then satisfied
      else refused (
          reject RejectCode.max_order_notional_exceeded "maximum order notional"
            (notional_cap_message notional most) (some most) (some notional))

  unfoldable pub check_max_notional : Engine F → OrderRequest F → Outcome F
  unfolding cap_notional unpriced
  check_max_notional e r = elim (notional_usd r) [
    | none ↦ unpriced r "maximum order notional"
    | some notional ↦ cap_notional notional (effective_max_order_notional e)
  ]
