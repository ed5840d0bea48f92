-- ===== src/Engine/Sequence/Permits.antt =====
-- What each control requires of an order, stated apart from the checks.
use pretrade_risk_controls.Common.{
  some, String, ◌≡◌, ◌⊎◌, Bool, true, false, Option, none, some, ℤ, ◌<ℤ◌, ◌≤ℤ◌,
}
use pretrade_risk_controls.Float.{Float, nought}
use pretrade_risk_controls.Decision.{ControlId}
use pretrade_risk_controls.Order.{
  OrderRequest, sell_short, touch, notional_usd, band_reference_price, projected_position,
  fingerprint,
}
use pretrade_risk_controls.Store.{has_text}
use pretrade_risk_controls.Windows.Rate
use pretrade_risk_controls.Windows.Duplicate
use pretrade_risk_controls.Engine.State.{Engine}
use pretrade_risk_controls.Engine.Derived.{
  bypass_active, leg_pnl, leg_peak, effective_max_order_quantity, effective_max_order_notional,
}
use pretrade_risk_controls.Engine.Checks.Eligibility.{has_state}
use pretrade_risk_controls.Engine.Checks.Prices.{drift}

-- The condition on a value that may be unset: `Given` holds without one, `Needs` does not.
abbrev pub Given : {A : Type 0} → Option A → (A → Type 0) → Type 0
Given none P = Unit
Given (some a) P = P a

abbrev pub Needs : {A : Type 0} → Option A → (A → Type 0) → Type 0
Needs none P = ⊥
Needs (some a) P = P a

module _ {F : Type 0} ⦃fl : Float F⦄ where
  -- `x <= y` holds; at NaN it does not.
  abbrev pub AtMost : F → F → Type 0
  AtMost x y = fl.le x y ≡ true

  abbrev pub IsPositive : F → Type 0
  IsPositive x = fl.lt nought x ≡ true

  abbrev pub Permits : (String → Option Bool) → ControlId → Engine F → OrderRequest F → ℤ → Type 0
  Permits exists ControlId.kill_switch e r now =
      Given e.limits.kill_switch_path λ path. exists path ≡ some false
  Permits exists ControlId.daily_loss_limit e r now = Given e.limits.daily_loss_limit_usd λ limit.
      (bypass_active e now ≡ true) ⊎ (fl.le (leg_pnl e) (fl.sub (leg_peak e) limit) ≡ false)
  Permits exists ControlId.instrument_universe e r now =
      Needs e.limits.permitted_instruments λ permitted. has_text r.symbol permitted ≡ true
  Permits exists ControlId.restricted_list e r now =
      has_text r.symbol e.limits.restricted_instruments ≡ false
  Permits exists ControlId.session_state e r now =
      Needs e.limits.tradeable_session_states
        λ tradeable. has_state r.session_state tradeable ≡ true
  Permits exists ControlId.short_sale_locate e r now = r.side ≡ sell_short → r.locate_secured ≡ true
  Permits exists ControlId.order_quantity e r now = IsPositive r.quantity
  Permits exists ControlId.order_price e r now = Given r.limit_price IsPositive
  Permits exists ControlId.order_notional e r now = Given (notional_usd r) IsPositive
  Permits exists ControlId.max_order_quantity e r now =
      Needs (effective_max_order_quantity e) λ most. AtMost r.quantity most
  Permits exists ControlId.max_order_notional e r now =
      Needs (notional_usd r)
        λ notional. Needs (effective_max_order_notional e) λ most. AtMost notional most
  Permits exists ControlId.quote_age e r now =
      Needs r.quote_age_millis λ age. Needs e.limits.max_quote_age_millis λ most. age ≤ℤ most
  Permits exists ControlId.price_band e r now = Given r.limit_price λ price.
      Needs (band_reference_price r) λ reference. Needs e.limits.price_band_fraction λ band.
        (fl.le reference nought ≡ false)
        × AtMost (fl.div (fl.abs (fl.sub price reference)) reference) band
  Permits exists ControlId.execution_slippage e r now = Needs r.decision_price λ decision.
      Needs (touch r) λ market.
        Needs e.limits.max_execution_slippage λ most. AtMost (drift r decision market) most
  Permits exists ControlId.duplicate_order e r now =
      Needs e.duplicate_window λ w. (Duplicate.seen_within_window w (fingerprint r) now).1 ≡ false
  Permits exists ControlId.order_rate e r now =
      Needs e.limits.max_orders_per_window λ most. (Rate.count e.rate_window now).1 <ℤ most
  Permits exists ControlId.consecutive_rejects e r now =
      Needs e.limits.max_consecutive_rejects λ most. e.consecutive_rejects <ℤ most
  Permits exists ControlId.repeated_execution e r now =
      Needs e.limits.max_executions_without_review λ most. e.executions_since_rearm <ℤ most
  Permits exists ControlId.working_orders e r now =
      Needs e.limits.max_working_orders λ most. r.working_orders <ℤ most
  Permits exists ControlId.open_positions e r now =
      Needs e.limits.max_open_positions λ most. r.open_positions <ℤ most
  Permits exists ControlId.position_limit e r now = Needs e.limits.max_position_quantity λ most.
      AtMost (fl.abs (projected_position r)) most
      ⊎ ((fl.lt (fl.abs (projected_position r)) (fl.abs r.position_quantity) ≡ true)
          × (fl.lt (fl.mul r.position_quantity (projected_position r)) nought ≡ false))
  Permits exists ControlId.self_match_prevention e r now = AtMost r.opposing_resting_quantity nought
  Permits exists ControlId.gross_exposure e r now = Needs (notional_usd r) λ notional.
      Needs e.limits.max_gross_exposure_usd
        λ most. AtMost (fl.add r.gross_exposure_usd (fl.abs notional)) most
  Permits exists ControlId.daily_notional_limit e r now = Needs (notional_usd r) λ notional.
      Needs e.limits.daily_notional_limit_usd
        λ most. AtMost (fl.add e.daily_notional (fl.abs notional)) most
