-- ===== src/Decision.antt =====
-- src/pretrade_risk/decision.py: the identifiers and the verdict.
use pretrade_risk_controls.Common.{
  ℕ, ◌==◌, String, Bool, true, false, Option, none, some, List, [], ◌∷◌, ◌||◌,
}

pub data ControlId : Type 0 where
  kill_switch : ControlId
  daily_loss_limit : ControlId
  instrument_universe restricted_list session_state short_sale_locate : ControlId
  order_quantity order_price order_notional : ControlId
  max_order_quantity max_order_notional : ControlId
  quote_age price_band execution_slippage : ControlId
  duplicate_order order_rate consecutive_rejects repeated_execution : ControlId
  working_orders open_positions position_limit self_match_prevention : ControlId
  gross_exposure daily_notional_limit : ControlId

-- The position of a member in the enumeration, by which members are compared.
abbrev pub position : ControlId → ℕ
position kill_switch = 0
position daily_loss_limit = 1
position instrument_universe = 2
position restricted_list = 3
position session_state = 4
position short_sale_locate = 5
position order_quantity = 6
position order_price = 7
position order_notional = 8
position max_order_quantity = 9
position max_order_notional = 10
position quote_age = 11
position price_band = 12
position execution_slippage = 13
position duplicate_order = 14
position order_rate = 15
position consecutive_rejects = 16
position repeated_execution = 17
position working_orders = 18
position open_positions = 19
position position_limit = 20
position self_match_prevention = 21
position gross_exposure = 22
position daily_notional_limit = 23

abbrev pub same_control : ControlId → ControlId → Bool
same_control a b = position a == position b

-- `control in controls`, on a frozenset as the list of its members
unfoldable pub has_control : ControlId → List ControlId → Bool
has_control c [] = false
has_control c (d ∷ ds) = same_control c d || has_control c ds

abbrev pub always_on : List ControlId
always_on = order_quantity ∷ order_price ∷ order_notional ∷ []

pub data RejectCode : Type 0 where
  kill_switch_engaged : RejectCode
  loss_limit_breached daily_notional_limit_exceeded : RejectCode
  instrument_not_permitted instrument_restricted market_session_not_open : RejectCode
  short_sale_locate_missing self_match_prevented : RejectCode
  order_quantity_not_positive order_price_not_positive order_notional_not_positive : RejectCode
  max_order_quantity_exceeded max_order_notional_exceeded : RejectCode
  market_data_unavailable market_data_stale price_band_exceeded : RejectCode
  execution_slippage_exceeded : RejectCode
  duplicate_order order_rate_exceeded consecutive_reject_limit_exceeded : RejectCode
  repeated_execution_throttle : RejectCode
  max_working_orders_exceeded max_open_positions_exceeded max_position_exceeded : RejectCode
  gross_exposure_limit_exceeded : RejectCode

pub record RiskDecision (F : Type 0) : Type 0 where
  pub accepted : Bool
  pub code : Option RejectCode
  pub control : String
  pub message : String
  pub limit : Option F
  pub observed : Option F

module _ {F : Type 0} where
  abbrev pub accepted_decision : RiskDecision F
  accepted_decision = record {
    accepted = true;
    code = none;
    control = "";
    message = "";
    limit = none;
    observed = none;
  }

  -- `RiskDecision.reject`
  abbrev pub reject : RejectCode → String → String → Option F → Option F → RiskDecision F
  reject code control message limit observed = record {
    accepted = false;
    code = some code;
    control = control;
    message = message;
    limit = limit;
    observed = observed;
  }
