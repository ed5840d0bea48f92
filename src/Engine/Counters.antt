-- ===== src/Engine/Counters.antt =====
-- The counters that the caller feeds, in memory; `Lifecycle` adds the write to the store.
use pretrade_risk_controls.Common.{Bool, none, some, ℤ, pos, ◌+ℤ◌, if◌then◌else◌}
use pretrade_risk_controls.Float.{Float, max}
use pretrade_risk_controls.Python.{Python}
use pretrade_risk_controls.Order.{OrderRequest, fingerprint}
use pretrade_risk_controls.Windows.Rate
use pretrade_risk_controls.Windows.Duplicate
use pretrade_risk_controls.Engine.State.{Engine, roll_trading_day}

module _ {F : Type 0} ⦃fl : Float F⦄ where
  -- `_live_pnl += pnl` or `_simulated_pnl += pnl`, and the ratchet
  unfoldable pub add_pnl : Engine F → F → Bool → Engine F
  unfolding max
  add_pnl e pnl is_live =
      let live = fl.add e.live_pnl pnl in
      let simulated = fl.add e.simulated_pnl pnl in
      if is_live
      then record e { live_pnl = live; live_peak = max e.live_peak live }
      else record e { simulated_pnl = simulated; simulated_peak = max e.simulated_peak simulated }

  -- `record_order_sent`: it does not roll the day.
  unfoldable pub record_order_sent : Engine F → OrderRequest F → ℤ → Engine F
  record_order_sent e r now = record e {
    rate_window = Rate.record_event e.rate_window now;
    duplicate_window = elim e.duplicate_window [
      | none ↦ none
      | some w ↦ some (Duplicate.record_order w (fingerprint r) now)
    ];
  }

module _ {F : Type 0} ⦃fl : Float F⦄ ⦃py : Python⦄ where
  unfoldable pub count_pnl : Engine F → F → Bool → ℤ → Engine F
  unfolding add_pnl roll_trading_day
  count_pnl e pnl is_live now = add_pnl (roll_trading_day e now) pnl is_live

  unfoldable pub count_notional : Engine F → F → ℤ → Engine F
  unfolding roll_trading_day
  count_notional e notional now =
      let e' = roll_trading_day e now in
      record e' { daily_notional = fl.add e'.daily_notional notional }

  unfoldable pub count_rejected : Engine F → ℤ → Engine F
  unfolding roll_trading_day
  count_rejected e now =
      let e' = roll_trading_day e now in
      record e' { consecutive_rejects = e'.consecutive_rejects +ℤ pos 1 }

  unfoldable pub count_accepted : Engine F → ℤ → Engine F
  unfolding roll_trading_day
  count_accepted e now = record (roll_trading_day e now) { consecutive_rejects = pos 0 }

  unfoldable pub count_execution : Engine F → ℤ → Engine F
  unfolding roll_trading_day
  count_execution e now =
      let e' = roll_trading_day e now in
      record e' { executions_since_rearm = e'.executions_since_rearm +ℤ pos 1 }

  unfoldable pub clear_throttles : Engine F → ℤ → Engine F
  unfolding roll_trading_day
  clear_throttles e now = record (roll_trading_day e now) {
    consecutive_rejects = pos 0;
    executions_since_rearm = pos 0;
  }
