-- ===== src/Engine/Session/Consistency.antt =====
-- The duplicate window and its configured width over a session.
use pretrade_risk_controls.Common.{
  ◌↔◌, ap, String, ◌≡◌, refl, sym, ◌∙◌, Bool, true, false, Option, none, some, is_some, List, ℤ,
  arith,
}
use mathlib.Core.Path.{subst}
use pretrade_risk_controls.Float.{Float, IsBinary64}
use pretrade_risk_controls.Python.{Python, ok}
use pretrade_risk_controls.Order.{OrderRequest}
use pretrade_risk_controls.Limits.{RiskLimits}
use pretrade_risk_controls.Store.{StateStore}
use pretrade_risk_controls.Windows.Duplicate
use pretrade_risk_controls.Engine.State.{Engine, init, init_duplicates, roll_trading_day}
use pretrade_risk_controls.Engine.Counters.{
  record_order_sent, add_pnl, count_pnl, count_notional, count_rejected, count_accepted,
  count_execution, clear_throttles,
}
use pretrade_risk_controls.Engine.Lifecycle
use pretrade_risk_controls.Engine.Sequence.{evaluate, raised}
use pretrade_risk_controls.Engine.Sequence.Settled.{settle, evaluate-IsSettled}
use pretrade_risk_controls.Engine.Sequence.Total.{
  IsConsistent, roll-IsConsistent, evaluate-raises_iff, PathFails,
}
use pretrade_risk_controls.Engine.Session

settle-is_some :
    (d d' : Option Duplicate.DuplicateWindow) (now : ℤ)
    → settle d now ≡ settle d' now
    → is_some d ≡ is_some d'
settle-is_some none none now h = refl
settle-is_some none (some w) now h = ground arith
settle-is_some (some w) none now h = ground arith
settle-is_some (some w) (some v) now h = refl

module _ {F : Type 0} ⦃fl : Float F⦄ ⦃py : Python⦄ where
  evaluate-IsConsistent :
      (exists : String → Option Bool) (e : Engine F) (r : OrderRequest F) (now : ℤ)
      → IsConsistent e
      → IsConsistent (evaluate exists e r now).0
  evaluate-IsConsistent exists e r now h =
      let (w, d, same, settled) = evaluate-IsSettled exists e r now in
      subst IsConsistent (sym same)
        (settle-is_some d _ now settled.duplicates ∙ roll-IsConsistent e now h)

  sent-IsConsistent :
      (e : Engine F) (r : OrderRequest F) (now : ℤ)
      → IsConsistent e
      → IsConsistent (record_order_sent e r now)
  unfolding record_order_sent
  sent-IsConsistent e r now h = ground arith

  loaded-IsConsistent :
      (e : Engine F) (raw : _) (now : ℤ)
      → IsConsistent e
      → IsConsistent (Lifecycle.loaded e raw now)
  unfolding Lifecycle.loaded Lifecycle.adopt
  loaded-IsConsistent e raw now h = ground arith

  init-limits :
      (limits : RiskLimits F) (is_live : Bool) (now : ℤ) (e : Engine F)
      → init limits is_live now ≡ ok e
      → e.limits ≡ limits
  unfolding init init_duplicates
  init-limits limits is_live now e h = ground arith

  evaluate-limits :
      (exists : String → Option Bool) (e : Engine F) (r : OrderRequest F) (now : ℤ)
      → (evaluate exists e r now).0.limits ≡ e.limits
  unfolding roll_trading_day
  evaluate-limits exists e r now =
      let (w, d, same, settled) = evaluate-IsSettled exists e r now in
      ap (λ f. f.limits) same ∙ ground arith

  init-IsConsistent :
      (limits : RiskLimits F) (is_live : Bool) (now : ℤ) (e : Engine F)
      → init limits is_live now ≡ ok e
      → IsConsistent e
  unfolding init init_duplicates
  init-IsConsistent limits is_live now e h = ground arith

-- A consistent engine over the limits.
abbrev Holds : {F : Type 0} → RiskLimits F → Engine F → Type 0
Holds limits e = IsConsistent e × (e.limits ≡ limits)

module _ {F S : Type 0} ⦃fl : Float F⦄ ⦃py : Python⦄ ⦃st : StateStore S⦄ where
  call-IsConsistent :
      (c : Session.Call F S) (e : Engine F) (s : S)
      → IsConsistent e
      → IsConsistent (Session.call c e s).0
  unfolding Session.call Lifecycle.load Lifecycle.refresh_overrides Lifecycle.record_realized_pnl
      Lifecycle.record_notional Lifecycle.record_order_rejected Lifecycle.record_order_accepted
      Lifecycle.record_execution Lifecycle.rearm add_pnl count_pnl count_notional count_rejected
      count_accepted count_execution clear_throttles
  call-IsConsistent (Session.order_sent r now) e s h = sent-IsConsistent e r now h
  call-IsConsistent (Session.realized_pnl pnl true now) e s h = roll-IsConsistent e now h
  call-IsConsistent (Session.realized_pnl pnl false now) e s h = roll-IsConsistent e now h
  call-IsConsistent (Session.notional_traded notional now) e s h = roll-IsConsistent e now h
  call-IsConsistent (Session.order_rejected now) e s h = roll-IsConsistent e now h
  call-IsConsistent (Session.order_accepted now) e s h = roll-IsConsistent e now h
  call-IsConsistent (Session.executed now) e s h = roll-IsConsistent e now h
  call-IsConsistent (Session.rearmed now) e s h = roll-IsConsistent e now h
  call-IsConsistent (Session.loaded_at now) e s h = loaded-IsConsistent e _ now h
  call-IsConsistent Session.persisted e s h = h
  call-IsConsistent Session.overrides_refreshed e s h = h
  call-IsConsistent (Session.evaluated exists r now) e s h = evaluate-IsConsistent exists e r now h
  call-IsConsistent (Session.loss_limit_read now) e s h = roll-IsConsistent e now h
  call-IsConsistent (Session.store_written s') e s h = h

  call-limits :
      (c : Session.Call F S) (e : Engine F) (s : S) → (Session.call c e s).0.limits ≡ e.limits
  unfolding Session.call Lifecycle.load Lifecycle.refresh_overrides Lifecycle.record_realized_pnl
      Lifecycle.record_notional Lifecycle.record_order_rejected Lifecycle.record_order_accepted
      Lifecycle.record_execution Lifecycle.rearm Lifecycle.loaded Lifecycle.adopt roll_trading_day
      record_order_sent add_pnl count_pnl count_notional count_rejected count_accepted
      count_execution clear_throttles
  call-limits (Session.evaluated exists r now) e s = evaluate-limits exists e r now
  call-limits _ e s = ground arith

  call-Holds :
      (limits : RiskLimits F) (c : Session.Call F S) (e : Engine F) (s : S)
      → Holds limits e
      → Holds limits (Session.call c e s).0
  call-Holds limits c e s (whole, same) = (call-IsConsistent c e s whole, call-limits c e s ∙ same)

  -- From construction on, after any calls in any order, and whatever other writers do to the store,
  -- `evaluate` raises on an order exactly if the kill switch is not disabled, has a path, and the
  -- test of the path raises: no other control ever raises. The readings of the clock must be ones
  -- that `datetime` can write as a date, as everywhere here.
  pub evaluate-run :
      (laws : IsBinary64 F) (limits : RiskLimits F) (is_live : Bool) (start : ℤ) (e : Engine F)
      (cs : List (Session.Call F S)) (s : S) (exists : String → Option Bool) (r : OrderRequest F)
      (now : ℤ)
      → init limits is_live start ≡ ok e
      → ((evaluate exists (Session.run cs e s).0 r now).1 ≡ raised) ↔ PathFails exists limits
  evaluate-run laws limits is_live start e cs s exists r now made =
      let (whole, same) =
        Session.run-invariant (Holds limits) (call-Holds limits) cs e s (
          init-IsConsistent limits is_live start e made,
          init-limits limits is_live start e made,
        ) in
      subst (λ l. ((evaluate exists (Session.run cs e s).0 r now).1 ≡ raised) ↔ PathFails exists l)
        same (evaluate-raises_iff laws exists _ r now whole)
