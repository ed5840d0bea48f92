-- ===== src/Keys.antt =====
-- src/pretrade_risk/keys.py: the persisted-state schema.
use pretrade_risk_controls.Common.{String, List, [], ◌∷◌}

abbrev pub trading_day : String
trading_day = "pretrade.trading_day"

abbrev pub live_realized_pnl : String
live_realized_pnl = "pretrade.live_realized_pnl"

abbrev pub simulated_realized_pnl : String
simulated_realized_pnl = "pretrade.simulated_realized_pnl"

abbrev pub live_peak_pnl : String
live_peak_pnl = "pretrade.live_peak_pnl"

abbrev pub simulated_peak_pnl : String
simulated_peak_pnl = "pretrade.simulated_peak_pnl"

abbrev pub daily_notional : String
daily_notional = "pretrade.daily_notional"

abbrev pub consecutive_rejects : String
consecutive_rejects = "pretrade.consecutive_rejects"

abbrev pub executions_since_rearm : String
executions_since_rearm = "pretrade.executions_since_rearm"

abbrev pub loss_limit_bypass : String
loss_limit_bypass = "pretrade.loss_limit_bypass"

abbrev pub loss_limit_bypass_expires_at : String
loss_limit_bypass_expires_at = "pretrade.loss_limit_bypass_expires_at"

abbrev pub loss_limit_bypass_actor : String
loss_limit_bypass_actor = "pretrade.loss_limit_bypass_actor"

abbrev pub loss_limit_bypass_reason : String
loss_limit_bypass_reason = "pretrade.loss_limit_bypass_reason"

abbrev pub loss_limit_bypass_set_at : String
loss_limit_bypass_set_at = "pretrade.loss_limit_bypass_set_at"

abbrev pub runtime_max_order_notional : String
runtime_max_order_notional = "pretrade.runtime_max_order_notional"

abbrev pub runtime_max_order_quantity : String
runtime_max_order_quantity = "pretrade.runtime_max_order_quantity"

abbrev pub counter_keys : List String
counter_keys =
    trading_day ∷ live_realized_pnl ∷ simulated_realized_pnl ∷ live_peak_pnl ∷ simulated_peak_pnl
    ∷ daily_notional ∷ consecutive_rejects ∷ executions_since_rearm ∷ []

abbrev pub override_keys : List String
override_keys =
    loss_limit_bypass ∷ loss_limit_bypass_expires_at ∷ loss_limit_bypass_actor
    ∷ loss_limit_bypass_reason ∷ loss_limit_bypass_set_at ∷ runtime_max_order_notional
    ∷ runtime_max_order_quantity ∷ []
