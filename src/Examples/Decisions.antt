-- ===== src/Examples/Decisions.antt =====
-- Decisions on one order.
use pretrade_risk_controls.Common.{
  ◌≡◌, ◌↔◌, refl, true, none, some, List, ◌∷◌, ◌++◌, pos, All, ◌+ℤ◌, ◌-ℤ◌, false, negsuc,
}
use pretrade_risk_controls.Float.Whole.{Whole, whole_float, Whole-IsBinary64}
use pretrade_risk_controls.Python.Plain.{plain_python}
use pretrade_risk_controls.Decision.{
  ControlId, RiskDecision, accepted_decision, has_control, RejectCode, reject,
}
use pretrade_risk_controls.Engine.State.{roll_trading_day, today, Engine}
use pretrade_risk_controls.Common.Dict.{lookup}
use pretrade_risk_controls.Encoding.{encode_float}
use pretrade_risk_controls.Float.Whole.Decimal
use pretrade_risk_controls.Clock.{session_date}
use pretrade_risk_controls.Limits.{is_disabled}
use pretrade_risk_controls.Order.{
  OrderRequest, notional_usd, fingerprint, side_text, projected_position,
}
use pretrade_risk_controls.Windows.Rate
use pretrade_risk_controls.Windows.Duplicate
use pretrade_risk_controls.Engine.Messages.{quantity_message}
use pretrade_risk_controls.Engine.Derived.{
  breached, bypass_active, floor, leg_pnl, leg_peak, effective_max_order_quantity,
  effective_max_order_notional,
}
use pretrade_risk_controls.Engine.Checks.Stops.{check_kill_switch, check_loss_limit}
use pretrade_risk_controls.Engine.Checks.Eligibility.{
  check_instrument_permitted, check_instrument_restricted, check_session_state,
  check_short_sale_locate, has_state,
}
use pretrade_risk_controls.Engine.Checks.Validation.{
  check_quantity_sign, check_price_sign, check_notional_sign, check_max_quantity,
  check_max_notional,
}
use pretrade_risk_controls.Engine.Checks.Prices.{check_quote_age}
use pretrade_risk_controls.Engine.Checks.Conduct.{
  check_duplicate, check_order_rate, check_consecutive_rejects, check_repeated_execution,
}
use pretrade_risk_controls.Engine.Checks.Exposure.{
  check_position_limit, check_self_match, check_gross_exposure, check_daily_notional,
}
use pretrade_risk_controls.Engine.Sequence.{
  is_armed, look, check, control_sequence, runs, evaluate, decided,
}
use pretrade_risk_controls.Engine.Sequence.Permits.{Permits, Given, IsPositive}
use pretrade_risk_controls.Engine.Sequence.Rejection.{IsRejectionBy}
use pretrade_risk_controls.Engine.Sequence.Settled.{
  first_objection, says, evaluate-eq-first_objection,
}
use pretrade_risk_controls.Engine.Sequence.Decisions.{
  Allows, evaluate-accepts_iff, evaluate-rejection,
}
use pretrade_risk_controls.Engine.Sequence.Legs.{with_live_leg, evaluate-live_leg}
use pretrade_risk_controls.Engine.Sequence.WellFormed.{evaluate-accepts-IsPositive}
use pretrade_risk_controls.Examples.Data.{engine, order, present}

evaluate-eq-first_objection_example :
    (evaluate present engine order (pos 10000)).1
    ≡ first_objection control_sequence
        (says present (roll_trading_day engine (pos 10000)) order (pos 10000))
evaluate-eq-first_objection_example = evaluate-eq-first_objection present engine order (pos 10000)

evaluate-accepts_iff_example :
    ((evaluate present engine order (pos 10000)).1 ≡ decided accepted_decision)
    ↔ All (Allows present (roll_trading_day engine (pos 10000)) order (pos 10000)) control_sequence
evaluate-accepts_iff_example =
    evaluate-accepts_iff Whole-IsBinary64 present engine order (pos 10000) refl

-- The order with a quantity of zero.
abbrev empty_order : OrderRequest Whole
empty_order = record order { quantity = some (pos 0) }

abbrev zero_quantity : RiskDecision Whole
zero_quantity =
    reject RejectCode.order_quantity_not_positive "order quantity" (quantity_message (some (pos 0)))
      none (some (some (pos 0)))

evaluate-empty_order : (evaluate present engine empty_order (pos 10000)).1 ≡ decided zero_quantity
unfolding evaluate look runs is_disabled has_control is_armed check roll_trading_day today
    session_date ◌+ℤ◌ Decimal.show_int check_kill_switch check_loss_limit breached bypass_active
    floor leg_pnl leg_peak ◌-ℤ◌ check_instrument_permitted check_instrument_restricted
    check_session_state has_state check_short_sale_locate check_quantity_sign
evaluate-empty_order = refl

evaluate-accepts : (evaluate present engine order (pos 10000)).1 ≡ decided accepted_decision
unfolding evaluate look runs is_disabled has_control is_armed check roll_trading_day today
    session_date ◌+ℤ◌ Decimal.show_int check_kill_switch check_loss_limit breached bypass_active
    floor leg_pnl leg_peak ◌-ℤ◌ check_instrument_permitted check_instrument_restricted
    check_session_state has_state check_short_sale_locate check_quantity_sign check_price_sign
    check_notional_sign notional_usd check_max_quantity check_max_notional check_quote_age
    check_duplicate check_order_rate check_consecutive_rejects check_repeated_execution
    check_position_limit check_self_match check_gross_exposure check_daily_notional
    effective_max_order_notional effective_max_order_quantity Duplicate.seen_within_window
    Duplicate.prune fingerprint lookup Rate.count Rate.prune Rate.drop_expired Rate.drop_future
    encode_float side_text projected_position
evaluate-accepts = refl

evaluate-rejection_example :
    (before : List ControlId) × (c : ControlId) × (after : List ControlId) × (control_sequence
      ≡ before ++ c ∷ after)
    × All (Allows present (roll_trading_day engine (pos 10000)) empty_order (pos 10000)) before
    × (runs (roll_trading_day engine (pos 10000)) c ≡ true)
    × ¬ Permits present c (roll_trading_day engine (pos 10000)) empty_order (pos 10000)
    × IsRejectionBy c zero_quantity
evaluate-rejection_example =
    evaluate-rejection Whole-IsBinary64 present engine empty_order (pos 10000) refl zero_quantity
      evaluate-empty_order refl

evaluate-accepts-IsPositive_example :
    IsPositive {F = Whole} (some (pos 10))
    × Given (some (some (pos 25))) IsPositive
    × Given (notional_usd order) IsPositive
evaluate-accepts-IsPositive_example =
    evaluate-accepts-IsPositive Whole-IsBinary64 present engine order (pos 10000) refl
      evaluate-accepts

-- The engine in simulation, with a heavy loss on its live leg.
abbrev simulated : Engine Whole
simulated = record engine { is_live = false }

evaluate-live_leg_example :
    (evaluate present
      (with_live_leg simulated (some (negsuc 8999)) (some (pos 0)))
      order
      (pos 10000)).1
    ≡ (evaluate present simulated order (pos 10000)).1
evaluate-live_leg_example =
    evaluate-live_leg present simulated (some (negsuc 8999)) (some (pos 0)) order (pos 10000) refl
