-- ===== src/Examples/Settings.antt =====
-- A limit set, its off switch, and the trading day.
use pretrade_risk_controls.Common.{◌≡◌, ◌↔◌, refl, not, ◌&&◌, ◌||◌, [], ◌∷◌, pos}
use pretrade_risk_controls.Float.Whole.{Whole, whole_float}
use pretrade_risk_controls.Python.{ok}
use pretrade_risk_controls.Python.Plain.{plain_python, plain_python-IsCalendar}
use pretrade_risk_controls.Clock.{trading_day}
use pretrade_risk_controls.Clock.Roll.{session_day, trading_day-same_iff}
use pretrade_risk_controls.Decision.{ControlId, has_control}
use pretrade_risk_controls.Limits.{
  RiskLimits, DisableEntry, members, names_locked, as_entries, check_numbers, post_init, disable,
  enable, is_disabled,
}
use pretrade_risk_controls.Limits.Validation.{IsValid, post_init-IsValid}
use pretrade_risk_controls.Limits.Switch.{disable-is_disabled, enable-is_disabled}
use pretrade_risk_controls.Examples.Data.{limits}

-- The limits with one control stood down.
abbrev lenient : RiskLimits Whole
lenient = record limits { disabled_controls = ControlId.price_band ∷ [] }

lenient-made : post_init limits (DisableEntry.control ControlId.price_band ∷ []) ≡ ok lenient
unfolding post_init check_numbers members names_locked has_control
lenient-made = refl

lenient-IsValid : IsValid lenient
lenient-IsValid = post_init-IsValid limits _ lenient lenient-made

abbrev quieter : RiskLimits Whole
quieter = record limits { disabled_controls = ControlId.price_band ∷ ControlId.order_rate ∷ [] }

quieter-made : disable lenient (ControlId.order_rate ∷ []) ≡ ok quieter
unfolding disable post_init as_entries check_numbers members names_locked has_control
quieter-made = refl

disable-is_disabled_example : is_disabled quieter ControlId.order_rate ≡ (
    is_disabled lenient ControlId.order_rate
    || has_control ControlId.order_rate (ControlId.order_rate ∷ []))
disable-is_disabled_example =
    disable-is_disabled lenient (ControlId.order_rate ∷ []) quieter quieter-made
      ControlId.order_rate

enable-is_disabled_example :
    (l' : RiskLimits Whole) × (enable lenient (ControlId.price_band ∷ []) ≡ ok l')
    × ((c : ControlId)
        → is_disabled l' c
          ≡ (is_disabled lenient c && not (has_control c (ControlId.price_band ∷ []))))
enable-is_disabled_example = enable-is_disabled lenient (ControlId.price_band ∷ []) lenient-IsValid

-- Two instants around a session that starts at 17:00.
trading_day-same_iff_example :
    (trading_day (pos 61100000) (pos 61200000) ≡ trading_day (pos 61300000) (pos 61200000))
    ↔ (session_day (pos 61100000) (pos 61200000) ≡ session_day (pos 61300000) (pos 61200000))
trading_day-same_iff_example =
    trading_day-same_iff (pos 61100000) (pos 61300000) (pos 61200000) plain_python-IsCalendar refl
