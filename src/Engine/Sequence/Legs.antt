-- ===== src/Engine/Sequence/Legs.antt =====
-- The live leg under a simulated engine.
use pretrade_risk_controls.Common.{
  String, str_eq, ◌≡◌, refl, sym, ◌∙◌, ap, Bool, false, Option, none, some, List, ℤ, Bool-cases,
  inl, inr,
}
use pretrade_risk_controls.Float.{Float, nought}
use pretrade_risk_controls.Python.{Python}
use pretrade_risk_controls.Decision.{ControlId}
use pretrade_risk_controls.Order.{OrderRequest}
use pretrade_risk_controls.Windows.Duplicate.{DuplicateWindow}
use pretrade_risk_controls.Engine.State.{Engine, roll_trading_day, start_day, today}
use pretrade_risk_controls.Engine.Derived.{
  breached, floor, bypass_active, leg_pnl, leg_peak, kill_switch_engaged,
  effective_max_order_quantity, effective_max_order_notional,
}
use pretrade_risk_controls.Engine.Checks.Outcome.{Outcome}
use pretrade_risk_controls.Engine.Checks.Stops.{check_kill_switch, check_loss_limit, refuse_loss}
use pretrade_risk_controls.Engine.Checks.Eligibility.{
  check_instrument_permitted, check_instrument_restricted, check_session_state,
}
use pretrade_risk_controls.Engine.Checks.Validation.{check_max_quantity, check_max_notional}
use pretrade_risk_controls.Engine.Checks.Prices.{
  check_quote_age, check_price_band, check_execution_slippage,
}
use pretrade_risk_controls.Engine.Checks.Conduct.{
  check_duplicate, check_order_rate, check_consecutive_rejects, check_repeated_execution,
}
use pretrade_risk_controls.Engine.Checks.Exposure.{
  check_working_orders, check_open_positions, check_position_limit, check_gross_exposure,
  check_daily_notional,
}
use pretrade_risk_controls.Engine.Sequence.{control_sequence, runs, is_armed, check, look, evaluate}
use pretrade_risk_controls.Engine.Sequence.Settled.{
  first_objection, says, evaluate-eq-first_objection,
}

-- The engine with other figures on its live leg.
abbrev pub with_live_leg : {F : Type 0} → Engine F → F → F → Engine F
with_live_leg e pnl peak = record e { live_pnl = pnl; live_peak = peak }

module _ {F : Type 0} ⦃fl : Float F⦄ ⦃py : Python⦄ (exists : String → Option Bool) where
  runs-live_leg :
      (e : Engine F) (pnl peak : F) (c : ControlId) → runs (with_live_leg e pnl peak) c ≡ runs e c
  unfolding runs is_armed effective_max_order_quantity effective_max_order_notional
  runs-live_leg e pnl peak ControlId.kill_switch = refl
  runs-live_leg e pnl peak ControlId.daily_loss_limit = refl
  runs-live_leg e pnl peak ControlId.instrument_universe = refl
  runs-live_leg e pnl peak ControlId.restricted_list = refl
  runs-live_leg e pnl peak ControlId.session_state = refl
  runs-live_leg e pnl peak ControlId.short_sale_locate = refl
  runs-live_leg e pnl peak ControlId.order_quantity = refl
  runs-live_leg e pnl peak ControlId.order_price = refl
  runs-live_leg e pnl peak ControlId.order_notional = refl
  runs-live_leg e pnl peak ControlId.max_order_quantity = refl
  runs-live_leg e pnl peak ControlId.max_order_notional = refl
  runs-live_leg e pnl peak ControlId.quote_age = refl
  runs-live_leg e pnl peak ControlId.price_band = refl
  runs-live_leg e pnl peak ControlId.execution_slippage = refl
  runs-live_leg e pnl peak ControlId.duplicate_order = refl
  runs-live_leg e pnl peak ControlId.order_rate = refl
  runs-live_leg e pnl peak ControlId.consecutive_rejects = refl
  runs-live_leg e pnl peak ControlId.repeated_execution = refl
  runs-live_leg e pnl peak ControlId.working_orders = refl
  runs-live_leg e pnl peak ControlId.open_positions = refl
  runs-live_leg e pnl peak ControlId.position_limit = refl
  runs-live_leg e pnl peak ControlId.self_match_prevention = refl
  runs-live_leg e pnl peak ControlId.gross_exposure = refl
  runs-live_leg e pnl peak ControlId.daily_notional_limit = refl

  duplicate-live_leg :
      (e : Engine F) (pnl peak : F) (r : OrderRequest F) (now : ℤ) (d : Option DuplicateWindow)
      → e.duplicate_window ≡ d
      → (check_duplicate (with_live_leg e pnl peak) r now).1 ≡ (check_duplicate e r now).1
  unfolding check_duplicate
  duplicate-live_leg e pnl peak r now none h = rw h refl
  duplicate-live_leg e pnl peak r now (some w) h = rw h refl

  check-live_leg :
      (e : Engine F) (pnl peak : F) (r : OrderRequest F) (now : ℤ) (c : ControlId)
      → e.is_live ≡ false
      → (check exists c (with_live_leg e pnl peak) r now).1 ≡ (check exists c e r now).1
  unfolding check kill_switch_engaged breached floor bypass_active leg_pnl leg_peak
      effective_max_order_quantity effective_max_order_notional check_kill_switch check_loss_limit
      refuse_loss check_instrument_permitted check_instrument_restricted check_session_state
      check_max_quantity check_max_notional check_quote_age check_price_band
      check_execution_slippage check_duplicate check_order_rate check_consecutive_rejects
      check_repeated_execution check_working_orders check_open_positions check_position_limit
      check_gross_exposure check_daily_notional
  check-live_leg e pnl peak r now ControlId.kill_switch h = refl
  check-live_leg e pnl peak r now ControlId.daily_loss_limit h = rw h refl
  check-live_leg e pnl peak r now ControlId.instrument_universe h = refl
  check-live_leg e pnl peak r now ControlId.restricted_list h = refl
  check-live_leg e pnl peak r now ControlId.session_state h = refl
  check-live_leg e pnl peak r now ControlId.short_sale_locate h = refl
  check-live_leg e pnl peak r now ControlId.order_quantity h = refl
  check-live_leg e pnl peak r now ControlId.order_price h = refl
  check-live_leg e pnl peak r now ControlId.order_notional h = refl
  check-live_leg e pnl peak r now ControlId.max_order_quantity h = refl
  check-live_leg e pnl peak r now ControlId.max_order_notional h = refl
  check-live_leg e pnl peak r now ControlId.quote_age h = refl
  check-live_leg e pnl peak r now ControlId.price_band h = refl
  check-live_leg e pnl peak r now ControlId.execution_slippage h = refl
  check-live_leg e pnl peak r now ControlId.duplicate_order h =
      duplicate-live_leg e pnl peak r now e.duplicate_window refl
  check-live_leg e pnl peak r now ControlId.order_rate h = refl
  check-live_leg e pnl peak r now ControlId.consecutive_rejects h = refl
  check-live_leg e pnl peak r now ControlId.repeated_execution h = refl
  check-live_leg e pnl peak r now ControlId.working_orders h = refl
  check-live_leg e pnl peak r now ControlId.open_positions h = refl
  check-live_leg e pnl peak r now ControlId.position_limit h = refl
  check-live_leg e pnl peak r now ControlId.self_match_prevention h = refl
  check-live_leg e pnl peak r now ControlId.gross_exposure h = refl
  check-live_leg e pnl peak r now ControlId.daily_notional_limit h = refl

  -- One round, whether the control runs or not.
  says-live_leg :
      (e : Engine F) (pnl peak : F) (r : OrderRequest F) (now : ℤ) (c : ControlId)
      → e.is_live ≡ false
      → says exists (with_live_leg e pnl peak) r now c ≡ says exists e r now c
  unfolding look
  says-live_leg e pnl peak r now c h = elim (Bool-cases (runs e c)) [
    | inl on ↦ rw (says, runs-live_leg e pnl peak c, on) (check-live_leg e pnl peak r now c h)
    | inr off ↦ rw (says, runs-live_leg e pnl peak c, off) refl
  ]

  -- What the controls say alike decides alike.
  first_objection-says :
      (f g : ControlId → Outcome F) (cs : List ControlId)
      → ((c : ControlId) → f c ≡ g c)
      → first_objection cs f ≡ first_objection cs g
  unfolding first_objection
  first_objection-says f g cs h = ap (first_objection cs) (λ i c. h c i)

  -- The roll of the day clears the live leg, or keeps it.
  rolled-live_leg :
      (e : Engine F) (pnl peak : F) (now : ℤ)
      → (pnl' : F) × (peak' : F) × (roll_trading_day (with_live_leg e pnl peak) now
          ≡ with_live_leg (roll_trading_day e now) pnl' peak')
        × ((roll_trading_day e now).is_live ≡ e.is_live)
  unfolding roll_trading_day start_day
  rolled-live_leg e pnl peak now = elim (Bool-cases (str_eq (today e.limits now) e.trading_day)) [
    | inl same ↦ (pnl, peak, rw same refl, rw same refl)
    | inr other ↦ (nought, nought, rw other refl, rw other refl)
  ]

  -- A simulated engine's verdict does not depend on the profit and the peak of the live leg.
  pub evaluate-live_leg :
      (e : Engine F) (pnl peak : F) (r : OrderRequest F) (now : ℤ)
      → e.is_live ≡ false
      → (evaluate exists (with_live_leg e pnl peak) r now).1 ≡ (evaluate exists e r now).1
  evaluate-live_leg e pnl peak r now h =
      let e' = roll_trading_day e now in
      let (pnl', peak', rolled, leg) = rolled-live_leg e pnl peak now in
      evaluate-eq-first_objection exists (with_live_leg e pnl peak) r now
      ∙ ap (λ f. first_objection control_sequence (says exists f r now)) rolled
      ∙ first_objection-says _ _ control_sequence
          (λ c. says-live_leg e' pnl' peak' r now c (leg ∙ h))
      ∙ sym (evaluate-eq-first_objection exists e r now)
