-- ===== src/Engine/State.antt =====
-- `PreTradeRiskEngine`: the attributes, the constructor and the roll of the trading day. The store
-- is passed to the methods that use it, and a reading of the clock is an argument.
use pretrade_risk_controls.Common.{
  String, str_eq, Bool, false, Option, none, some, ℤ, pos, if◌then◌else◌,
}
use pretrade_risk_controls.Float.{Float, nought}
use pretrade_risk_controls.Python.{Python, Result, ok, ◌>>=◌}
use pretrade_risk_controls.Clock.{session_date}
use pretrade_risk_controls.Limits.{RiskLimits}
use pretrade_risk_controls.Windows.Rate
use pretrade_risk_controls.Windows.Rate.{RateWindow}
use pretrade_risk_controls.Windows.Duplicate
use pretrade_risk_controls.Windows.Duplicate.{DuplicateWindow}

pub record Engine (F : Type 0) : Type 0 where
  pub limits : RiskLimits F
  pub is_live : Bool
  pub trading_day : String
  pub live_pnl : F
  pub simulated_pnl : F
  pub live_peak : F
  pub simulated_peak : F
  pub daily_notional : F
  pub consecutive_rejects : ℤ
  pub executions_since_rearm : ℤ
  pub rate_window : RateWindow
  pub duplicate_window : Option DuplicateWindow
  pub bypass_loss_limit : Bool
  pub bypass_expires_at : Option F
  pub runtime_max_order_notional : Option F
  pub runtime_max_order_quantity : Option F

-- `DuplicateWindow(span) if span is not None else None`
unfoldable pub init_duplicates : Option ℤ → Result (Option DuplicateWindow)
init_duplicates none = ok none
init_duplicates (some span) = Duplicate.init span >>= λ w. ok (some w)

module _ {F : Type 0} ⦃fl : Float F⦄ ⦃py : Python⦄ where
  -- `_today`: the limits have passed `__post_init__`, so the guard of `trading_day` holds.
  unfoldable pub today : RiskLimits F → ℤ → String
  today limits now = session_date now limits.session_roll_millis

  unfoldable pub init : RiskLimits F → Bool → ℤ → Result (Engine F)
  unfolding init_duplicates
  init limits is_live now = do
    rate ← Rate.init limits.order_rate_window_millis
    duplicates ← init_duplicates limits.duplicate_window_millis
    ok (record {
      limits = limits;
      is_live = is_live;
      trading_day = today limits now;
      live_pnl = nought;
      simulated_pnl = nought;
      live_peak = nought;
      simulated_peak = nought;
      daily_notional = nought;
      consecutive_rejects = pos 0;
      executions_since_rearm = pos 0;
      rate_window = rate;
      duplicate_window = duplicates;
      bypass_loss_limit = false;
      bypass_expires_at = none;
      runtime_max_order_notional = none;
      runtime_max_order_quantity = none;
    })

  -- The counters of the day at their start; executions since re-arm survive the roll.
  unfoldable pub start_day : Engine F → String → Engine F
  start_day e day = record e {
    trading_day = day;
    live_pnl = nought;
    simulated_pnl = nought;
    live_peak = nought;
    simulated_peak = nought;
    daily_notional = nought;
    consecutive_rejects = pos 0;
  }

  -- `_roll_trading_day`
  unfoldable pub roll_trading_day : Engine F → ℤ → Engine F
  unfolding start_day
  roll_trading_day e now =
      let day = today e.limits now in if str_eq day e.trading_day then e else start_day e day
