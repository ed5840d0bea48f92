-- ===== src/Engine/Session/Tally.antt =====
-- The counts of a session as a machine that sees the calls alone.
use mathlib.Core.Path.{subst}
use pretrade_risk_controls.Common.{
  Option, String, str_eq, ◌≡◌, refl, sym, ◌∙◌, ap, Bool, true, false, List, [], ◌∷◌, All, ℤ, pos,
  ◌+ℤ◌, Bool-cases, inl, inr, if◌then◌else◌,
}
use pretrade_risk_controls.Float.{Float}
use pretrade_risk_controls.Python.{Python}
use pretrade_risk_controls.Limits.{RiskLimits}
use pretrade_risk_controls.Order.{OrderRequest}
use pretrade_risk_controls.Store.{StateStore}
use pretrade_risk_controls.Engine.State.{Engine, roll_trading_day, start_day, today}
use pretrade_risk_controls.Engine.Counters.{
  record_order_sent, add_pnl, count_pnl, count_notional, count_rejected, count_accepted,
  count_execution, clear_throttles,
}
use pretrade_risk_controls.Engine.Lifecycle
use pretrade_risk_controls.Engine.Sequence.{evaluate}
use pretrade_risk_controls.Engine.Sequence.Settled.{evaluate-IsSettled}
use pretrade_risk_controls.Engine.Session
use pretrade_risk_controls.Engine.Session.Throttle.{KeepsCount}

-- The trading day, the rejections in a row, and the executions since the last re-arm.
pub record Tally : Type 0 where
  pub day : String
  pub rejections : ℤ
  pub executions : ℤ

abbrev pub tally_of : {F : Type 0} → Engine F → Tally
tally_of e = record {
  day = e.trading_day;
  rejections = e.consecutive_rejects;
  executions = e.executions_since_rearm;
}

module _ {F : Type 0} ⦃fl : Float F⦄ ⦃py : Python⦄ where
  -- A new day forgets the rejections, and keeps the executions.
  abbrev pub enter_day : RiskLimits F → ℤ → Tally → Tally
  enter_day limits now tally =
      if str_eq (today limits now) tally.day
      then tally
      else record tally { day = today limits now; rejections = pos 0 }

module _ {F S : Type 0} ⦃fl : Float F⦄ ⦃py : Python⦄ where
  abbrev pub tally_call : RiskLimits F → Session.Call F S → Tally → Tally
  tally_call limits (Session.order_rejected now) tally =
      let tally' = enter_day limits now tally in
      record tally' { rejections = tally'.rejections +ℤ pos 1 }
  tally_call limits (Session.order_accepted now) tally = record (enter_day limits now tally) {
    rejections = pos 0;
  }
  tally_call limits (Session.executed now) tally =
      let tally' = enter_day limits now tally in
      record tally' { executions = tally'.executions +ℤ pos 1 }
  tally_call limits (Session.rearmed now) tally = record (enter_day limits now tally) {
    rejections = pos 0;
    executions = pos 0;
  }
  tally_call limits (Session.realized_pnl pnl is_live now) tally = enter_day limits now tally
  tally_call limits (Session.notional_traded notional now) tally = enter_day limits now tally
  tally_call limits (Session.evaluated exists r now) tally = enter_day limits now tally
  tally_call limits (Session.loss_limit_read now) tally = enter_day limits now tally
  tally_call limits c tally = tally

  unfoldable pub tally_calls : RiskLimits F → List (Session.Call F S) → Tally → Tally
  tally_calls limits [] tally = tally
  tally_calls limits (c ∷ cs) tally = tally_calls limits cs (tally_call limits c tally)

module _ {F : Type 0} ⦃fl : Float F⦄ ⦃py : Python⦄ where
  -- An engine over the limits that shows the tally.
  abbrev Shows : RiskLimits F → Tally → Engine F → Type 0
  Shows limits tally e = (e.limits ≡ limits) × (tally_of e ≡ tally)

  roll-tally :
      (e : Engine F) (now : ℤ)
      → Shows e.limits (enter_day e.limits now (tally_of e)) (roll_trading_day e now)
  unfolding roll_trading_day start_day
  roll-tally e now = elim (Bool-cases (str_eq (today e.limits now) e.trading_day)) [
    | inl same ↦ rw same (refl, refl)
    | inr other ↦ rw other (refl, refl)
  ]

  evaluate-tally :
      (exists : String → Option Bool) (e : Engine F) (r : OrderRequest F) (now : ℤ)
      → Shows e.limits (enter_day e.limits now (tally_of e)) (evaluate exists e r now).0
  evaluate-tally exists e r now =
      let (w, d, same, _) = evaluate-IsSettled exists e r now in
      subst (Shows e.limits (enter_day e.limits now (tally_of e))) (sym same) (roll-tally e now)

module _ {F S : Type 0} ⦃fl : Float F⦄ ⦃py : Python⦄ ⦃st : StateStore S⦄ where
  call-tally :
      (c : Session.Call F S) (e : Engine F) (s : S)
      → KeepsCount c
      → Shows e.limits (tally_call e.limits c (tally_of e)) (Session.call c e s).0
  unfolding Session.call Lifecycle.refresh_overrides Lifecycle.record_realized_pnl
      Lifecycle.record_notional Lifecycle.record_order_rejected Lifecycle.record_order_accepted
      Lifecycle.record_execution Lifecycle.rearm add_pnl count_pnl count_notional count_rejected
      count_accepted count_execution clear_throttles record_order_sent
  call-tally (Session.order_sent r now) e s k = (refl, refl)
  call-tally (Session.realized_pnl pnl true now) e s k = roll-tally e now
  call-tally (Session.realized_pnl pnl false now) e s k = roll-tally e now
  call-tally (Session.notional_traded notional now) e s k = roll-tally e now
  call-tally (Session.loss_limit_read now) e s k = roll-tally e now
  call-tally (Session.order_rejected now) e s k =
      let (limits, same) = roll-tally e now in
      (limits, ap (λ (x : Tally). record x { rejections = x.rejections +ℤ pos 1 }) same)
  call-tally (Session.order_accepted now) e s k =
      let (limits, same) = roll-tally e now in
      (limits, ap (λ (x : Tally). record x { rejections = pos 0 }) same)
  call-tally (Session.executed now) e s k =
      let (limits, same) = roll-tally e now in
      (limits, ap (λ (x : Tally). record x { executions = x.executions +ℤ pos 1 }) same)
  call-tally (Session.rearmed now) e s k =
      let (limits, same) = roll-tally e now in
      (limits, ap (λ (x : Tally). record x { rejections = pos 0; executions = pos 0 }) same)
  call-tally (Session.loaded_at now) e s k = elim k [ ]
  call-tally Session.persisted e s k = (refl, refl)
  call-tally Session.overrides_refreshed e s k = (refl, refl)
  call-tally (Session.evaluated exists r now) e s k = evaluate-tally exists e r now
  call-tally (Session.store_written s') e s k = (refl, refl)

  -- Through any calls but `load`, in any order and over any days, the counts of the engine are those
  -- of a machine that sees the calls alone: the rejections since the last acknowledgement, re-arm or
  -- start of a trading day, and the executions since the last re-arm, which no day clears.
  pub run-tally :
      (cs : List (Session.Call F S)) (e : Engine F) (s : S)
      → All KeepsCount cs
      → tally_of (Session.run cs e s).0 ≡ tally_calls e.limits cs (tally_of e)
  unfolding Session.run tally_calls
  run-tally [] e s k = refl
  run-tally (c ∷ cs) e s (k, ks) =
      let after = Session.call c e s in
      let (limits, same) = call-tally c e s k in
      run-tally cs after.0 after.1 ks
      ∙ ap (λ l. tally_calls l cs (tally_of after.0)) limits
      ∙ ap (tally_calls e.limits cs) same
