-- ===== src/Engine/Sequence.antt =====
-- `CONTROL_SEQUENCE` and the walk over it. A control is its identifier: its name, its arming test and
-- its check are functions of it, so that the table is read off by cases.
pub mod Settled
pub mod Objections
pub mod Total
pub mod Permits
pub mod Accepts
pub mod Rejection
pub mod Decisions
pub mod WellFormed
pub mod Listing
pub mod Legs
pub mod Invariant
pub mod Repeat
use pretrade_risk_controls.Common.{
  String, Bool, true, false, not, ◌&&◌, Option, none, some, List, [], ◌∷◌, ℤ, is_some, keep, map,
  if◌then◌else◌,
}
use pretrade_risk_controls.Float.{Float}
use pretrade_risk_controls.Python.{Python}
use pretrade_risk_controls.Decision
use pretrade_risk_controls.Decision.{ControlId, RiskDecision, accepted_decision}
use pretrade_risk_controls.Order.{OrderRequest}
use pretrade_risk_controls.Limits.{is_disabled}
use pretrade_risk_controls.Engine.State.{Engine, roll_trading_day}
use pretrade_risk_controls.Engine.Derived.{
  effective_max_order_notional, effective_max_order_quantity,
}
use pretrade_risk_controls.Engine.Checks.Outcome.{Outcome, satisfied, refused, raises}
use pretrade_risk_controls.Engine.Checks.Stops.{check_kill_switch, check_loss_limit}
use pretrade_risk_controls.Engine.Checks.Eligibility.{
  check_instrument_permitted, check_instrument_restricted, check_session_state,
  check_short_sale_locate,
}
use pretrade_risk_controls.Engine.Checks.Validation.{
  check_quantity_sign, check_price_sign, check_notional_sign, check_max_quantity,
  check_max_notional,
}
use pretrade_risk_controls.Engine.Checks.Prices.{
  check_quote_age, check_price_band, check_execution_slippage,
}
use pretrade_risk_controls.Engine.Checks.Conduct.{
  check_duplicate, check_order_rate, check_consecutive_rejects, check_repeated_execution,
}
use pretrade_risk_controls.Engine.Checks.Exposure.{
  check_working_orders, check_open_positions, check_position_limit, check_self_match,
  check_gross_exposure, check_daily_notional,
}

-- The order in which every order walks the controls.
abbrev pub control_sequence : List ControlId
control_sequence =
    ControlId.kill_switch ∷ ControlId.daily_loss_limit ∷ ControlId.instrument_universe
    ∷ ControlId.restricted_list ∷ ControlId.session_state ∷ ControlId.short_sale_locate
    ∷ ControlId.order_quantity ∷ ControlId.order_price ∷ ControlId.order_notional
    ∷ ControlId.max_order_quantity ∷ ControlId.max_order_notional ∷ ControlId.quote_age
    ∷ ControlId.price_band ∷ ControlId.execution_slippage ∷ ControlId.duplicate_order
    ∷ ControlId.order_rate ∷ ControlId.consecutive_rejects ∷ ControlId.repeated_execution
    ∷ ControlId.working_orders ∷ ControlId.open_positions ∷ ControlId.position_limit
    ∷ ControlId.self_match_prevention ∷ ControlId.gross_exposure ∷ ControlId.daily_notional_limit
    ∷ []

-- `bool(collection)`
abbrev pub is_nonempty {ℓ} : {A : Type ℓ} → List A → Bool
is_nonempty [] = false
is_nonempty (x ∷ xs) = true

-- `Control.name`
unfoldable pub name : ControlId → String
name ControlId.kill_switch = "kill switch"
name ControlId.daily_loss_limit = "daily loss limit"
name ControlId.instrument_universe = "instrument universe"
name ControlId.restricted_list = "restricted list"
name ControlId.session_state = "session state"
name ControlId.short_sale_locate = "short sale locate"
name ControlId.order_quantity = "order quantity"
name ControlId.order_price = "order price"
name ControlId.order_notional = "order notional"
name ControlId.max_order_quantity = "maximum order quantity"
name ControlId.max_order_notional = "maximum order notional"
name ControlId.quote_age = "quote age"
name ControlId.price_band = "price band"
name ControlId.execution_slippage = "execution slippage"
name ControlId.duplicate_order = "duplicate order"
name ControlId.order_rate = "order rate"
name ControlId.consecutive_rejects = "consecutive rejections"
name ControlId.repeated_execution = "repeated execution throttle"
name ControlId.working_orders = "working orders"
name ControlId.open_positions = "open positions"
name ControlId.position_limit = "position limit"
name ControlId.self_match_prevention = "self-match prevention"
name ControlId.gross_exposure = "gross exposure"
name ControlId.daily_notional_limit = "daily notional limit"

module _ {F : Type 0} where
  -- `Control.is_armed`
  unfoldable pub is_armed : ControlId → Engine F → Bool
  unfolding effective_max_order_quantity effective_max_order_notional
  is_armed ControlId.kill_switch e = is_some e.limits.kill_switch_path
  is_armed ControlId.daily_loss_limit e = is_some e.limits.daily_loss_limit_usd
  is_armed ControlId.instrument_universe e = is_some e.limits.permitted_instruments
  is_armed ControlId.restricted_list e = is_nonempty e.limits.restricted_instruments
  is_armed ControlId.session_state e = is_some e.limits.tradeable_session_states
  is_armed ControlId.short_sale_locate e = e.limits.require_short_sale_locate
  is_armed ControlId.order_quantity e = true
  is_armed ControlId.order_price e = true
  is_armed ControlId.order_notional e = true
  is_armed ControlId.max_order_quantity e = is_some (effective_max_order_quantity e)
  is_armed ControlId.max_order_notional e = is_some (effective_max_order_notional e)
  is_armed ControlId.quote_age e = is_some e.limits.max_quote_age_millis
  is_armed ControlId.price_band e = is_some e.limits.price_band_fraction
  is_armed ControlId.execution_slippage e = is_some e.limits.max_execution_slippage
  is_armed ControlId.duplicate_order e = is_some e.duplicate_window
  is_armed ControlId.order_rate e = is_some e.limits.max_orders_per_window
  is_armed ControlId.consecutive_rejects e = is_some e.limits.max_consecutive_rejects
  is_armed ControlId.repeated_execution e = is_some e.limits.max_executions_without_review
  is_armed ControlId.working_orders e = is_some e.limits.max_working_orders
  is_armed ControlId.open_positions e = is_some e.limits.max_open_positions
  is_armed ControlId.position_limit e = is_some e.limits.max_position_quantity
  is_armed ControlId.self_match_prevention e = e.limits.prevent_self_match
  is_armed ControlId.gross_exposure e = is_some e.limits.max_gross_exposure_usd
  is_armed ControlId.daily_notional_limit e = is_some e.limits.daily_notional_limit_usd

  -- `_runs`
  unfoldable pub runs : Engine F → ControlId → Bool
  runs e c = not (is_disabled e.limits c) && is_armed c e

  unfoldable pub running_controls : Engine F → List ControlId
  running_controls e = keep (runs e) control_sequence

  unfoldable pub stood_down_controls : Engine F → List ControlId
  stood_down_controls e = keep (λ c. is_disabled e.limits c && is_armed c e) control_sequence

pub record ControlStatus : Type 0 where
  pub id : ControlId
  pub control_name : String
  pub configured : Bool
  pub disabled : Bool

-- `ControlStatus.running`
abbrev pub running : ControlStatus → Bool
running s = s.configured && not s.disabled

module _ {F : Type 0} where
  -- One element of `control_status`.
  unfoldable pub status : Engine F → ControlId → ControlStatus
  status e c = record {
    id = c;
    control_name = name c;
    configured = is_armed c e;
    disabled = is_disabled e.limits c;
  }

  unfoldable pub control_status : Engine F → List ControlStatus
  unfolding status
  control_status e = map (status e) control_sequence

-- How a walk over the controls ends.
pub data Verdict (F : Type 0) : Type 0 where
  decided : RiskDecision F → Verdict F
  raised : Verdict F

module _ {F : Type 0} ⦃fl : Float F⦄ ⦃py : Python⦄ (exists : String → Option Bool) where
  -- `Control.check`: most leave the engine as it is.
  unfoldable pub check : ControlId → Engine F → OrderRequest F → ℤ → Engine F × Outcome F
  check ControlId.kill_switch e r now = (e, check_kill_switch exists e)
  check ControlId.daily_loss_limit e r now = (e, check_loss_limit e now)
  check ControlId.instrument_universe e r now = (e, check_instrument_permitted e r)
  check ControlId.restricted_list e r now = (e, check_instrument_restricted e r)
  check ControlId.session_state e r now = (e, check_session_state e r)
  check ControlId.short_sale_locate e r now = (e, check_short_sale_locate r)
  check ControlId.order_quantity e r now = (e, check_quantity_sign r)
  check ControlId.order_price e r now = (e, check_price_sign r)
  check ControlId.order_notional e r now = (e, check_notional_sign r)
  check ControlId.max_order_quantity e r now = (e, check_max_quantity e r)
  check ControlId.max_order_notional e r now = (e, check_max_notional e r)
  check ControlId.quote_age e r now = (e, check_quote_age e r)
  check ControlId.price_band e r now = (e, check_price_band e r)
  check ControlId.execution_slippage e r now = (e, check_execution_slippage e r)
  check ControlId.duplicate_order e r now = check_duplicate e r now
  check ControlId.order_rate e r now = check_order_rate e now
  check ControlId.consecutive_rejects e r now = (e, check_consecutive_rejects e)
  check ControlId.repeated_execution e r now = (e, check_repeated_execution e)
  check ControlId.working_orders e r now = (e, check_working_orders e r)
  check ControlId.open_positions e r now = (e, check_open_positions e r)
  check ControlId.position_limit e r now = (e, check_position_limit e r)
  check ControlId.self_match_prevention e r now = (e, check_self_match r)
  check ControlId.gross_exposure e r now = (e, check_gross_exposure e r)
  check ControlId.daily_notional_limit e r now = (e, check_daily_notional e r)

  -- One round of the loop of `evaluate`: a control that does not run is passed over.
  unfoldable pub look : ControlId → Engine F → OrderRequest F → ℤ → Engine F × Outcome F
  look c e r now = if runs e c then check c e r now else (e, satisfied)

  -- The loop: the first objection wins.
  unfoldable pub walk : List ControlId → Engine F → OrderRequest F → ℤ → Engine F × Verdict F
  walk [] e r now = (e, decided accepted_decision)
  walk (c ∷ cs) e r now = elim (look c e r now).1 [
    | satisfied ↦ walk cs (look c e r now).0 r now
    | refused d ↦ ((look c e r now).0, decided d)
    | raises ↦ ((look c e r now).0, raised)
  ]

  unfoldable pub evaluate : Engine F → OrderRequest F → ℤ → Engine F × Verdict F
  unfolding walk
  evaluate e r now = walk control_sequence (roll_trading_day e now) r now
