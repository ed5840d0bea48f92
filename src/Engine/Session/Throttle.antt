-- ===== src/Engine/Session/Throttle.antt =====
-- The count of executions since the last re-arm.
use pretrade_risk_controls.Common.{
  Option, String, ◌≡◌, refl, ◌∙◌, ap, Bool, true, false, List, [], ◌∷◌, All, ℤ, pos, ◌+ℤ◌, arith,
}
use pretrade_risk_controls.Float.{Float}
use pretrade_risk_controls.Python.{Python}
use pretrade_risk_controls.Order.{OrderRequest}
use pretrade_risk_controls.Store.{StateStore}
use pretrade_risk_controls.Engine.State.{Engine, roll_trading_day, start_day}
use pretrade_risk_controls.Engine.Counters.{
  record_order_sent, add_pnl, count_pnl, count_notional, count_rejected, count_accepted,
  count_execution, clear_throttles,
}
use pretrade_risk_controls.Engine.Lifecycle
use pretrade_risk_controls.Engine.Sequence.{evaluate}
use pretrade_risk_controls.Engine.Sequence.Settled.{evaluate-IsSettled}
use pretrade_risk_controls.Engine.Session

module _ {F S : Type 0} where
  -- What a call other than `load` does to a count of executions.
  abbrev pub count_call : Session.Call F S → ℤ → ℤ
  count_call (Session.executed now) n = n +ℤ pos 1
  count_call (Session.rearmed now) n = pos 0
  count_call c n = n

  -- What the calls leave of a count, by their sequence alone.
  unfoldable pub executions_after : List (Session.Call F S) → ℤ → ℤ
  executions_after [] n = n
  executions_after (c ∷ cs) n = executions_after cs (count_call c n)

  -- A call other than `load`, which takes the count of the store.
  abbrev pub KeepsCount : Session.Call F S → Type 0
  KeepsCount (Session.loaded_at now) = ⊥
  KeepsCount c = Unit

module _ {F : Type 0} ⦃fl : Float F⦄ ⦃py : Python⦄ where
  roll-executions :
      (e : Engine F) (now : ℤ)
      → (roll_trading_day e now).executions_since_rearm ≡ e.executions_since_rearm
  unfolding roll_trading_day start_day
  roll-executions e now = ground arith

  evaluate-executions :
      (exists : String → Option Bool) (e : Engine F) (r : OrderRequest F) (now : ℤ)
      → (evaluate exists e r now).0.executions_since_rearm ≡ e.executions_since_rearm
  evaluate-executions exists e r now =
      let (w, d, same, _) = evaluate-IsSettled exists e r now in
      ap (λ e'. e'.executions_since_rearm) same ∙ roll-executions e now

module _ {F S : Type 0} ⦃fl : Float F⦄ ⦃py : Python⦄ ⦃st : StateStore S⦄ where
  -- One call counts as its place in the sequence says.
  call-executions :
      (c : Session.Call F S) (e : Engine F) (s : S)
      → KeepsCount c
      → (Session.call c e s).0.executions_since_rearm ≡ count_call c e.executions_since_rearm
  unfolding Session.call Lifecycle.refresh_overrides Lifecycle.record_realized_pnl
      Lifecycle.record_notional Lifecycle.record_order_rejected Lifecycle.record_order_accepted
      Lifecycle.record_execution Lifecycle.rearm add_pnl count_pnl count_notional count_rejected
      count_accepted count_execution clear_throttles record_order_sent
  call-executions (Session.order_sent r now) e s k = refl
  call-executions (Session.realized_pnl pnl true now) e s k = roll-executions e now
  call-executions (Session.realized_pnl pnl false now) e s k = roll-executions e now
  call-executions (Session.notional_traded notional now) e s k = roll-executions e now
  call-executions (Session.order_rejected now) e s k = roll-executions e now
  call-executions (Session.order_accepted now) e s k = roll-executions e now
  call-executions (Session.executed now) e s k = ap (λ n. n +ℤ pos 1) (roll-executions e now)
  call-executions (Session.rearmed now) e s k = refl
  call-executions (Session.loaded_at now) e s k = elim k [ ]
  call-executions Session.persisted e s k = refl
  call-executions Session.overrides_refreshed e s k = refl
  call-executions (Session.evaluated exists r now) e s k = evaluate-executions exists e r now
  call-executions (Session.loss_limit_read now) e s k = roll-executions e now
  call-executions (Session.store_written s') e s k = refl

  -- In any calls but `load`, the count of executions is the executions since the last re-arm, on top
  -- of the count at the start if there was no re-arm: neither the roll of the trading day nor any
  -- other call clears it.
  pub run-executions :
      (cs : List (Session.Call F S)) (e : Engine F) (s : S)
      → All KeepsCount cs
      → (Session.run cs e s).0.executions_since_rearm ≡ executions_after cs e.executions_since_rearm
  unfolding Session.run executions_after
  run-executions [] e s k = refl
  run-executions (c ∷ cs) e s (k, ks) =
      run-executions cs (Session.call c e s).0 (Session.call c e s).1 ks
      ∙ ap (executions_after cs) (call-executions c e s k)
