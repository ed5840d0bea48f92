-- ===== src/Examples/Data.antt =====
-- A limit set, an order and an engine.
use pretrade_risk_controls.Common.{Option, String, Bool, true, false, none, some, [], ◌∷◌, pos}
use pretrade_risk_controls.Float.Whole.{Whole, whole_float}
use pretrade_risk_controls.Python.Plain.{plain_python}
use pretrade_risk_controls.Limits.{RiskLimits}
use pretrade_risk_controls.Order.{OrderRequest, buy, open_trading}
use pretrade_risk_controls.Store.Memory.{Memory}
use pretrade_risk_controls.Engine.State.{Engine}

abbrev pub limits : RiskLimits Whole
limits = record {
  kill_switch_path = some "/run/halt";
  daily_loss_limit_usd = some (some (pos 500));
  daily_notional_limit_usd = some (some (pos 10000));
  max_order_quantity = some (some (pos 100));
  max_order_notional_usd = some (some (pos 5000));
  price_band_fraction = none;
  max_execution_slippage = none;
  max_quote_age_millis = some (pos 250);
  duplicate_window_millis = some (pos 2000);
  max_orders_per_window = some (pos 2);
  order_rate_window_millis = pos 1000;
  max_consecutive_rejects = some (pos 3);
  max_executions_without_review = some (pos 4);
  max_working_orders = none;
  max_open_positions = none;
  max_position_quantity = some (some (pos 150));
  max_gross_exposure_usd = none;
  prevent_self_match = true;
  require_short_sale_locate = true;
  permitted_instruments = some ("ACME" ∷ "EMCA" ∷ []);
  restricted_instruments = "EMCA" ∷ [];
  tradeable_session_states = some (open_trading ∷ []);
  session_roll_millis = pos 0;
  disabled_controls = [];
}

abbrev pub order : OrderRequest Whole
order = record {
  symbol = "ACME";
  side = buy;
  quantity = some (pos 10);
  limit_price = some (some (pos 25));
  decision_price = some (some (pos 25));
  best_bid = some (some (pos 24));
  best_ask = some (some (pos 25));
  reference_price = none;
  quote_age_millis = some (pos 40);
  session_state = open_trading;
  open_positions = pos 1;
  working_orders = pos 0;
  position_quantity = some (pos 30);
  gross_exposure_usd = some (pos 750);
  opposing_resting_quantity = some (pos 0);
  locate_secured = false;
}

abbrev pub engine : Engine Whole
engine = record {
  limits = limits;
  is_live = true;
  trading_day = "0";
  live_pnl = some (pos 20);
  simulated_pnl = some (pos 0);
  live_peak = some (pos 30);
  simulated_peak = some (pos 0);
  daily_notional = some (pos 1200);
  consecutive_rejects = pos 1;
  executions_since_rearm = pos 2;
  rate_window = record { window_millis = pos 1000; events = pos 9100 ∷ [] };
  duplicate_window =
      some (record { window_millis = pos 2000; seen = ("EMCA|BUY|5|MKT", pos 9100) ∷ [] });
  bypass_loss_limit = false;
  bypass_expires_at = none;
  runtime_max_order_notional = none;
  runtime_max_order_quantity = none;
}

abbrev pub present : String → Option Bool
present path = some false

abbrev pub empty_store : Memory
empty_store = record { contents = [] }
