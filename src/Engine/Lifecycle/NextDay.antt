-- ===== src/Engine/Lifecycle/NextDay.antt =====
-- A restart on another trading day.
use mathlib.Core.Path.{subst}
use pretrade_risk_controls.Common.{
  String, str_eq, str_eq_iff, ◌≡◌, ◌≢◌, refl, sym, ◌∙◌, ap, Bool, Option, some, ℤ, pos, Bool-cases,
  inl, inr, arith,
}
use pretrade_risk_controls.Common.Dict.{Dict}
use pretrade_risk_controls.Float.{Float, nought, IsBinary64}
use pretrade_risk_controls.Python.{Python, ok}
use pretrade_risk_controls.Encoding.Printf.{IsRoundTrip}
use pretrade_risk_controls.Keys
use pretrade_risk_controls.Limits.{RiskLimits}
use pretrade_risk_controls.Store.{StateStore, IsStore, raw_get}
use pretrade_risk_controls.Engine.State.{Engine, init, init_duplicates, today}
use pretrade_risk_controls.Engine.Lifecycle.{as_count, persist, loaded, load}
use pretrade_risk_controls.Engine.Lifecycle.Restart.{IsCount, as_count-encode}
use pretrade_risk_controls.Engine.Lifecycle.Restart.Snapshot.{IsSnapshot, persist-IsSnapshot}

module _ {F : Type 0} ⦃fl : Float F⦄ where
  -- Every counter of the day stands at its start.
  pub record IsUntouched (e : Engine F) : Type 0 where
    pub no-live_pnl : e.live_pnl ≡ nought
    pub no-simulated_pnl : e.simulated_pnl ≡ nought
    pub no-live_peak : e.live_peak ≡ nought
    pub no-simulated_peak : e.simulated_peak ≡ nought
    pub no-daily_notional : e.daily_notional ≡ nought
    pub no-consecutive_rejects : e.consecutive_rejects ≡ pos 0

  IsUntouched-day :
      (e : Engine F) (n : ℤ) (day : String)
      → IsUntouched e
      → IsUntouched (record e { executions_since_rearm = n; trading_day = day })
  IsUntouched-day e n day h = record {
    no-live_pnl = h.no-live_pnl;
    no-simulated_pnl = h.no-simulated_pnl;
    no-live_peak = h.no-live_peak;
    no-simulated_peak = h.no-simulated_peak;
    no-daily_notional = h.no-daily_notional;
    no-consecutive_rejects = h.no-consecutive_rejects;
  }

module _ {F : Type 0} ⦃fl : Float F⦄ ⦃py : Python⦄ where
  init-IsUntouched :
      (limits : RiskLimits F) (is_live : Bool) (start : ℤ) (f : Engine F)
      → init limits is_live start ≡ ok f
      → IsUntouched f
  unfolding init init_duplicates
  init-IsUntouched limits is_live start f made = record {
    no-live_pnl = ground arith;
    no-simulated_pnl = ground arith;
    no-live_peak = ground arith;
    no-simulated_peak = ground arith;
    no-daily_notional = ground arith;
    no-consecutive_rejects = ground arith;
  }

  -- Of a snapshot of another day `load` takes the executions alone.
  loaded-other_day :
      (f : Engine F) (raw : Dict (Option String)) (now : ℤ) (day : String)
      → raw_get raw Keys.trading_day ≡ some day
      → day ≢ today f.limits now
      → loaded f raw now ≡ record f {
        executions_since_rearm = as_count F (raw_get raw Keys.executions_since_rearm);
        trading_day = today f.limits now;
      }
  unfolding loaded
  loaded-other_day f raw now day stored other =
      elim (Bool-cases (str_eq day (today f.limits now))) [
        | inl same ↦ absurd (other ((str_eq_iff day (today f.limits now)).0 same))
        | inr differs ↦ rw (stored, differs) refl
      ]

module _ {F S : Type 0} ⦃fl : Float F⦄ ⦃py : Python⦄ ⦃st : StateStore S⦄ (laws : IsBinary64 F)
    (codec : IsRoundTrip F) (store : IsStore S) where
  -- A new engine that loads on another trading day what an engine has persisted starts the day with
  -- every counter of the day at zero, whatever the snapshot says of them, and with the count of
  -- executions since re-arm of that engine, which no day clears; and it leaves its own snapshot in
  -- the store. The count must be an integer that binary64 holds exactly.
  pub load-next_day :
      (e f : Engine F) (s : S) (limits : RiskLimits F) (is_live : Bool) (start now : ℤ)
      → init limits is_live start ≡ ok f
      → IsCount e.executions_since_rearm
      → e.trading_day ≢ today f.limits now
      → let after = load f (persist e s) now in
        IsUntouched after.0
        × (after.0.trading_day ≡ today f.limits now)
        × (after.0.executions_since_rearm ≡ e.executions_since_rearm)
        × IsSnapshot (st.get_many after.1 Keys.counter_keys) after.0
  unfolding load
  load-next_day e f s limits is_live start now made count other =
      let raw = st.get_many (persist e s) Keys.counter_keys in
      let texts = persist-IsSnapshot store e s in
      let new = loaded-other_day f raw now e.trading_day texts.day-text other in
      let untouched = init-IsUntouched limits is_live start f made in
      (
        subst IsUntouched (sym new) (IsUntouched-day f _ _ untouched),
        ap (λ (x : Engine F). x.trading_day) new,
        ap (λ (x : Engine F). x.executions_since_rearm) new
            ∙ ap (as_count F) texts.executions-text
            ∙ as_count-encode laws codec e.executions_since_rearm count,
        persist-IsSnapshot store (loaded f raw now) (persist e s),
      )
