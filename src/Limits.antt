-- ===== src/Limits.antt =====
-- src/pretrade_risk/limits.py: the limit set, its off switch and its validation.
pub mod Switch
pub mod Validation
use pretrade_risk_controls.Common.{
  String, Bool, true, false, not, ◌&&◌, ◌||◌, Option, none, some, List, [], ◌∷◌, ◌++◌, ℤ, pos,
  leb_ℤ, keep, if◌then◌else◌,
}
use pretrade_risk_controls.Float.{Float, nought}
use pretrade_risk_controls.Python.{Result, ok, value_error, ◌>>=◌, ◌>>◌, raise_if}
use pretrade_risk_controls.Clock.{is_roll}
use pretrade_risk_controls.Decision.{ControlId, always_on, has_control}
use pretrade_risk_controls.Order.{SessionState}

-- A frozenset is the list of its members.
pub record RiskLimits (F : Type 0) : Type 0 where
  pub kill_switch_path : Option String
  pub daily_loss_limit_usd : Option F
  pub daily_notional_limit_usd : Option F
  pub max_order_quantity : Option F
  pub max_order_notional_usd : Option F
  pub price_band_fraction : Option F
  pub max_execution_slippage : Option F
  pub max_quote_age_millis : Option ℤ
  pub duplicate_window_millis : Option ℤ
  pub max_orders_per_window : Option ℤ
  pub order_rate_window_millis : ℤ
  pub max_consecutive_rejects : Option ℤ
  pub max_executions_without_review : Option ℤ
  pub max_working_orders : Option ℤ
  pub max_open_positions : Option ℤ
  pub max_position_quantity : Option F
  pub max_gross_exposure_usd : Option F
  pub prevent_self_match : Bool
  pub require_short_sale_locate : Bool
  pub permitted_instruments : Option (List String)
  pub restricted_instruments : List String
  pub tradeable_session_states : Option (List SessionState)
  pub session_roll_millis : ℤ
  pub disabled_controls : List ControlId

-- What a caller may put into `disabled_controls`: a member of `ControlId`, or a bare text.
pub data DisableEntry : Type 0 where
  control : ControlId → DisableEntry
  text : String → DisableEntry

-- The members, if all entries are: `unknown` is empty.
unfoldable pub members : List DisableEntry → Result (List ControlId)
members [] = ok []
members (control c ∷ entries) = members entries >>= λ cs. ok (c ∷ cs)
members (text t ∷ entries) = value_error

-- The entries of a set of members.
unfoldable pub as_entries : List ControlId → List DisableEntry
as_entries [] = []
as_entries (c ∷ cs) = control c ∷ as_entries cs

-- `disabled_controls & ALWAYS_ON` is not empty.
unfoldable pub names_locked : List ControlId → Bool
names_locked [] = false
names_locked (c ∷ cs) = has_control c always_on || names_locked cs

-- `value is not None and value <= 0`, for an integer
abbrev pub bad_int : Option ℤ → Bool
bad_int none = false
bad_int (some n) = leb_ℤ n (pos 0)

module _ {F : Type 0} where
  unfoldable pub is_disabled : RiskLimits F → ControlId → Bool
  is_disabled l c = if has_control c always_on then false else has_control c l.disabled_controls

module _ {F : Type 0} ⦃fl : Float F⦄ where
  -- `value is not None and value <= 0`, for a float
  abbrev pub bad_float : Option F → Bool
  bad_float none = false
  bad_float (some x) = fl.le x nought

  -- The numeric part of `__post_init__`: the two loops and the two ranges.
  unfoldable pub check_numbers : RiskLimits F → Result (Unit {0})
  check_numbers l = do
    raise_if (bad_float l.daily_loss_limit_usd)
    raise_if (bad_float l.daily_notional_limit_usd)
    raise_if (bad_float l.max_order_quantity)
    raise_if (bad_float l.max_order_notional_usd)
    raise_if (bad_float l.price_band_fraction)
    raise_if (bad_float l.max_execution_slippage)
    raise_if (bad_float l.max_position_quantity)
    raise_if (bad_float l.max_gross_exposure_usd)
    raise_if (bad_int l.max_quote_age_millis)
    raise_if (bad_int l.duplicate_window_millis)
    raise_if (bad_int l.max_orders_per_window)
    raise_if (bad_int l.max_consecutive_rejects)
    raise_if (bad_int l.max_executions_without_review)
    raise_if (bad_int l.max_working_orders)
    raise_if (bad_int l.max_open_positions)
    raise_if (leb_ℤ l.order_rate_window_millis (pos 0))
    raise_if (not (is_roll l.session_roll_millis))

  -- `__post_init__`, on a limit set whose `disabled_controls` holds `entries`
  unfoldable pub post_init : RiskLimits F → List DisableEntry → Result (RiskLimits F)
  unfolding check_numbers members names_locked
  post_init l entries = do
    check_numbers l
    controls ← members entries
    raise_if (names_locked controls)
    ok (record l { disabled_controls = controls })

  -- `limits.disable(*controls)`: `replace` with `disabled_controls | frozenset(controls)`
  unfoldable pub disable : RiskLimits F → List ControlId → Result (RiskLimits F)
  unfolding post_init as_entries
  disable l controls = post_init l (as_entries (l.disabled_controls ++ controls))

  -- `limits.enable(*controls)`: `replace` with `disabled_controls - frozenset(controls)`
  unfoldable pub enable : RiskLimits F → List ControlId → Result (RiskLimits F)
  unfolding post_init as_entries
  enable l controls =
      post_init l (as_entries (keep (λ c. not (has_control c controls)) l.disabled_controls))
