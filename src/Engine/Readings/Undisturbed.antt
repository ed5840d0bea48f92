-- ===== src/Engine/Readings/Undisturbed.antt =====
-- Decisions behind a reading.
use pretrade_risk_controls.Common.{
  Option, String, str_eq, ◌≡◌, refl, ap, Bool, none, ℤ, Bool-cases, inl, inr,
}
use text.Mathlib.TextPositions.{eq_refl as str_eq_refl}
use pretrade_risk_controls.Float.{Float}
use pretrade_risk_controls.Python.{Python}
use pretrade_risk_controls.Order.{OrderRequest}
use pretrade_risk_controls.Engine.State.{Engine, roll_trading_day, start_day, today}
use pretrade_risk_controls.Engine.Sequence.{evaluate, walk, control_sequence}
use pretrade_risk_controls.Engine.Readings.{
  trading_day, live_pnl, simulated_pnl, daily_realized_pnl, daily_notional, consecutive_rejects,
  loss_limit_pnl, loss_limit_peak, loss_limit_floor, loss_limit_headroom, loss_limit_breached,
}

module _ {F : Type 0} ⦃fl : Float F⦄ ⦃py : Python⦄ where
  -- The day is rolled once for an instant.
  pub roll_idem :
      (e : Engine F) (now : ℤ)
      → roll_trading_day (roll_trading_day e now) now ≡ roll_trading_day e now
  unfolding roll_trading_day start_day
  roll_idem e now = elim (Bool-cases (str_eq (today e.limits now) e.trading_day)) [
    | inl same ↦ rw (same, same) refl
    | inr other ↦ rw (other, str_eq_refl (today e.limits now)) refl
  ]

  evaluate-roll :
      (exists : String → Option Bool) (e : Engine F) (r : OrderRequest F) (now : ℤ)
      → evaluate exists (roll_trading_day e now) r now ≡ evaluate exists e r now
  unfolding evaluate
  evaluate-roll exists e r now = ap (λ e'. walk exists control_sequence e' r now) (roll_idem e now)

  -- Looking at the engine does not change what it decides: after any of its public readings, the
  -- evaluation of an order at the same instant gives the same verdict and leaves the same engine.
  pub evaluate-readings :
      (exists : String → Option Bool) (e : Engine F) (r : OrderRequest F) (now : ℤ)
      → let decide : Engine F → _ = λ e'. evaluate exists e' r now in
        (decide (trading_day e now).0 ≡ decide e)
        × (decide (live_pnl e now).0 ≡ decide e)
        × (decide (simulated_pnl e now).0 ≡ decide e)
        × (decide (daily_realized_pnl e now).0 ≡ decide e)
        × (decide (daily_notional e now).0 ≡ decide e)
        × (decide (consecutive_rejects e now).0 ≡ decide e)
        × (decide (loss_limit_pnl e now).0 ≡ decide e)
        × (decide (loss_limit_peak e now).0 ≡ decide e)
        × (decide (loss_limit_floor e now).0 ≡ decide e)
        × (decide (loss_limit_headroom e now).0 ≡ decide e)
        × (decide (loss_limit_breached e now none).0 ≡ decide e)
  unfolding trading_day live_pnl simulated_pnl daily_realized_pnl daily_notional consecutive_rejects
      loss_limit_pnl loss_limit_peak loss_limit_floor loss_limit_headroom loss_limit_breached
  evaluate-readings exists e r now =
      let same = evaluate-roll exists e r now in
      (same, same, same, same, same, same, same, same, same, same, same)
