-- ===== src/Engine/Session/Cap.antt =====
-- A caller that sends only what the engine would accept at that instant.
pub mod Held
use pretrade_risk_controls.Common.{
  String, str_eq, Bool-cases, inl, inr, ◌≡◌, Bool, Option, none, some, List, [], ◌∷◌, ℤ, pos, ◌≤ℤ◌,
  ◌<ℤ◌, refl, sym, ◌∙◌, ap, true, false, keep, ◌-ℤ◌, length, length-append, is_some, arith,
}
use mathlib.Core.Path.{subst}
use pretrade_risk_controls.Common.Dict.{Dict}
use pretrade_risk_controls.Float.{Float, IsBinary64}
use pretrade_risk_controls.Python.{Python, ok}
use pretrade_risk_controls.Decision.{ControlId, accepted_decision}
use pretrade_risk_controls.Limits.{RiskLimits, is_disabled}
use pretrade_risk_controls.Order.{OrderRequest}
use pretrade_risk_controls.Keys
use pretrade_risk_controls.Store.{StateStore, raw_get}
use pretrade_risk_controls.Windows.Rate
use pretrade_risk_controls.Windows.Rate.{RateWindow}
use pretrade_risk_controls.Windows.Rate.History as RateHistory
use pretrade_risk_controls.Windows.Duplicate.{DuplicateWindow}
use pretrade_risk_controls.Engine.State.{Engine, init, today, roll_trading_day, start_day}
use pretrade_risk_controls.Engine.Counters.{
  record_order_sent, add_pnl, count_pnl, count_notional, count_rejected, count_accepted,
  count_execution, clear_throttles,
}
use pretrade_risk_controls.Engine.Checks.Conduct.{check_duplicate, check_order_rate}
use pretrade_risk_controls.Engine.Lifecycle
use pretrade_risk_controls.Engine.Sequence.{
  check, look, evaluate, runs, is_armed, decided, control_sequence,
}
use pretrade_risk_controls.Engine.Sequence.Invariant.{walk-invariant}
use pretrade_risk_controls.Engine.Session
use pretrade_risk_controls.Engine.Sequence.Decisions.{Allows, evaluate-accepts_iff}
use pretrade_risk_controls.Windows.Rate.Order
use pretrade_risk_controls.Windows.Rate.Gate.{length-prune-le}
use pretrade_risk_controls.Engine.Session.Sends.{
  IsForward, sent_instants, instant, call-Tracks, run-Tracks,
}
use pretrade_risk_controls.Engine.Session.Sends.Windows.{Tracks, later-Tracks, KeepsOrders}
use pretrade_risk_controls.Engine.Session.Sends.Start.{init-Tracks, init-events}
use pretrade_risk_controls.Engine.Sequence.Total.{IsConsistent}
use pretrade_risk_controls.Engine.Session.Cap.Held.{
  IsWithin, KeepsOrders-is_some, sent-IsWithin, accepted-below, roll-IsWithin, loaded-IsWithin,
  evaluate-IsWithin,
}

module _ {F S : Type 0} ⦃fl : Float F⦄ ⦃py : Python⦄ ⦃st : StateStore S⦄ where
  -- An order goes out at an instant at which the engine, asked about it, accepts it.
  abbrev pub IsCleared : Session.Call F S → Engine F → Type 0
  IsCleared (Session.order_sent r now) e =
      (exists : String → Option Bool) × ((evaluate exists e r now).1 ≡ decided accepted_decision)
  IsCleared c e = Unit

  abbrev pub IsDisciplined : List (Session.Call F S) → Engine F → S → Type 0
  IsDisciplined [] e s = Unit
  IsDisciplined (c ∷ cs) e s =
      IsCleared c e × IsDisciplined cs (Session.call c e s).0 (Session.call c e s).1

module _ {F S : Type 0} ⦃fl : Float F⦄ ⦃py : Python⦄ ⦃st : StateStore S⦄ (laws : IsBinary64 F)
    (limits : RiskLimits F) (most : ℤ) (capped : limits.max_orders_per_window ≡ some most)
    (enabled : is_disabled limits ControlId.order_rate ≡ false) where
  call-IsWithin :
      (c : Session.Call F S) (e : Engine F) (s : S)
      → IsCleared c e
      → IsConsistent e
      → e.limits ≡ limits
      → IsWithin most e
      → IsWithin most (Session.call c e s).0
  unfolding Session.call Lifecycle.load Lifecycle.refresh_overrides Lifecycle.record_realized_pnl
      Lifecycle.record_notional Lifecycle.record_order_rejected Lifecycle.record_order_accepted
      Lifecycle.record_execution Lifecycle.rearm add_pnl count_pnl count_notional count_rejected
      count_accepted count_execution clear_throttles
  call-IsWithin (Session.order_sent r now) e s (exists, accepted) consistent same h =
      sent-IsWithin most e r now (
        accepted-below most laws exists e r now consistent
          (ap (λ l. l.max_orders_per_window) same ∙ capped)
          (ap (λ l. is_disabled l ControlId.order_rate) same ∙ enabled) accepted)
  call-IsWithin (Session.realized_pnl pnl true now) e s cleared consistent same h =
      roll-IsWithin most e now h
  call-IsWithin (Session.realized_pnl pnl false now) e s cleared consistent same h =
      roll-IsWithin most e now h
  call-IsWithin (Session.notional_traded notional now) e s cleared consistent same h =
      roll-IsWithin most e now h
  call-IsWithin (Session.order_rejected now) e s cleared consistent same h =
      roll-IsWithin most e now h
  call-IsWithin (Session.order_accepted now) e s cleared consistent same h =
      roll-IsWithin most e now h
  call-IsWithin (Session.executed now) e s cleared consistent same h = roll-IsWithin most e now h
  call-IsWithin (Session.rearmed now) e s cleared consistent same h = roll-IsWithin most e now h
  call-IsWithin (Session.loss_limit_read now) e s cleared consistent same h =
      roll-IsWithin most e now h
  call-IsWithin (Session.loaded_at now) e s cleared consistent same h =
      loaded-IsWithin most e _ now h
  call-IsWithin (Session.evaluated exists r now) e s cleared consistent same h =
      evaluate-IsWithin most exists e r now h
  call-IsWithin Session.persisted e s cleared consistent same h = h
  call-IsWithin Session.overrides_refreshed e s cleared consistent same h = h
  call-IsWithin (Session.store_written s') e s cleared consistent same h = h

  run-IsWithin :
      (cs : List (Session.Call F S)) (e : Engine F) (s : S) (t now : ℤ) (instants : List ℤ)
      (orders : Dict ℤ)
      → Tracks limits e instants orders t
      → IsForward t cs now
      → IsDisciplined cs e s
      → IsWithin most e
      → IsWithin most (Session.run cs e s).0
  unfolding Session.run
  run-IsWithin [] e s t now instants orders tracked f cleared h = h
  run-IsWithin (c ∷ cs) e s t now instants orders tracked (later, f) (cleared, rest) h =
      let after = Session.call c e s in
      let u = instant c t in
      let consistent : IsConsistent e =
        KeepsOrders-is_some _ _ orders t (tracked.1)
        ∙ ap (λ l. is_some l.duplicate_window_millis) (sym (tracked.2)) in
      run-IsWithin cs after.0 after.1 u now _ _
        (call-Tracks limits c e s t instants orders
          (later-Tracks limits e t u instants orders later tracked))
        f rest (call-IsWithin c e s cleared consistent (tracked.2) h)

module _ {F S : Type 0} ⦃fl : Float F⦄ ⦃py : Python⦄ ⦃st : StateStore S⦄ where
  -- A caller that sends an order only at an instant at which the engine accepts it never exceeds the
  -- cap of the order rate control: after any calls in any order, while the clock does not step back,
  -- at most `most` orders were sent inside the trailing window `(now - width, now]`. The control
  -- must be configured, with a cap of zero or more, and not disabled.
  pub sent-within_cap :
      (laws : IsBinary64 F) (limits : RiskLimits F) (is_live : Bool) (start now most : ℤ)
      (e : Engine F) (cs : List (Session.Call F S)) (s : S)
      → init limits is_live start ≡ ok e
      → limits.max_orders_per_window ≡ some most
      → pos 0 ≤ℤ most
      → is_disabled limits ControlId.order_rate ≡ false
      → IsForward start cs now
      → IsDisciplined cs e s
      → let span = limits.order_rate_window_millis in
        pos (length (keep (Order.is_inside (now -ℤ span) now) (sent_instants cs))) ≤ℤ most
  sent-within_cap laws limits is_live start now most e cs s made capped room enabled forward
        cleared =
      let fresh = init-Tracks limits is_live start e made in
      let empty : IsWithin most e = rw (init-events limits is_live start e made) room in
      let within =
        run-IsWithin laws limits most capped enabled cs e s start now [] [] fresh forward cleared
          empty in
      let ((_, (u, h, past)), _, _) = run-Tracks limits cs e s start now [] [] fresh forward in
      subst (λ es. pos (length es) ≤ℤ most) (RateHistory.prune-eq-keep h now past)
        (omega (arith, within, length-prune-le (Session.run cs e s).0.rate_window now))
