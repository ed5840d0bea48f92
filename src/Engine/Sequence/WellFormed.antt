-- ===== src/Engine/Sequence/WellFormed.antt =====
-- The three controls on the form of an order, and accepted orders.
use pretrade_risk_controls.Common.{Option, String, ◌≡◌, refl, Bool, true, ℤ}
use pretrade_risk_controls.Float.{Float, IsBinary64}
use pretrade_risk_controls.Python.{Python}
use pretrade_risk_controls.Decision.{ControlId, accepted_decision, has_control}
use pretrade_risk_controls.Order.{OrderRequest, notional_usd}
use pretrade_risk_controls.Limits.{is_disabled}
use pretrade_risk_controls.Engine.State.{Engine, roll_trading_day}
use pretrade_risk_controls.Engine.Sequence.{runs, is_armed, evaluate, decided}
use pretrade_risk_controls.Engine.Sequence.Permits.{Given, IsPositive}
use pretrade_risk_controls.Engine.Sequence.Total.{IsConsistent}
use pretrade_risk_controls.Engine.Sequence.Decisions.{evaluate-accepts_iff}

module _ {F : Type 0} where
  -- The three well-formedness controls run on every engine.
  always_runs :
      (e : Engine F)
      → (runs e ControlId.order_quantity ≡ true)
        × (runs e ControlId.order_price ≡ true)
        × (runs e ControlId.order_notional ≡ true)
  unfolding runs is_disabled has_control is_armed
  always_runs e = (refl, refl, refl)

module _ {F : Type 0} ⦃fl : Float F⦄ ⦃py : Python⦄ where
  -- An accepted order has a quantity above zero, a limit price above zero if it has one, and a
  -- notional above zero if it has one, whatever controls the limit set disables. The engine's
  -- duplicate window must match its limits.
  pub evaluate-accepts-IsPositive :
      (laws : IsBinary64 F) (exists : String → Option Bool) (e : Engine F) (r : OrderRequest F)
      (now : ℤ)
      → IsConsistent e
      → (evaluate exists e r now).1 ≡ decided accepted_decision
      → IsPositive r.quantity × Given r.limit_price IsPositive × Given (notional_usd r) IsPositive
  evaluate-accepts-IsPositive laws exists e r now consistent h =
      let e' = roll_trading_day e now in
      let (_, (_, (_, (_, (_, (_, (quantity, (price, (notional, _))))))))) =
        (evaluate-accepts_iff laws exists e r now consistent).0 h in
      let (quantity_runs, price_runs, notional_runs) = always_runs e' in
      (quantity quantity_runs, price price_runs, notional notional_runs)
