-- ===== src/Engine/Session/Durability.antt =====
-- A crash after a recording method, and the restart.
use pretrade_risk_controls.Common.{
  str_eq, str_eq_iff, ◌≡◌, refl, sym, ◌∙◌, ap, true, false, Option, none, some, ℤ, Bool-cases, inl,
  inr,
}
use pretrade_risk_controls.Float.{Float, IsBinary64}
use pretrade_risk_controls.Python.{Python}
use pretrade_risk_controls.Encoding.Printf.{IsRoundTrip}
use pretrade_risk_controls.Store.{StateStore, IsStore}
use mathlib.Core.Path.{subst}
use pretrade_risk_controls.Engine.State.{Engine, roll_trading_day, start_day, today}
use pretrade_risk_controls.Engine.Counters.{
  add_pnl, count_pnl, count_notional, count_rejected, count_accepted, count_execution,
  clear_throttles,
}
use pretrade_risk_controls.Engine.Lifecycle
use pretrade_risk_controls.Engine.Lifecycle.Restart.{IsStorable, SameCounters, load-persist}
use pretrade_risk_controls.Engine.Session

-- The instant of a call that records, with the store written behind it.
abbrev pub recorded_at : {F S : Type 0} → Session.Call F S → Option ℤ
recorded_at (Session.realized_pnl pnl is_live now) = some now
recorded_at (Session.notional_traded notional now) = some now
recorded_at (Session.order_rejected now) = some now
recorded_at (Session.order_accepted now) = some now
recorded_at (Session.executed now) = some now
recorded_at (Session.rearmed now) = some now
recorded_at c = none

some-injective : {A : Type 0} (a b : A) → some a ≡ some b → a ≡ b
some-injective a b h = cc h

module _ {F : Type 0} ⦃fl : Float F⦄ ⦃py : Python⦄ where
  -- After a roll the engine stands on the trading day of its clock, over the same limits.
  abbrev IsCurrent : Engine F → Engine F → ℤ → Type 0
  IsCurrent e' e now = (e'.trading_day ≡ today e.limits now) × (e'.limits ≡ e.limits)

  roll-IsCurrent : (e : Engine F) (now : ℤ) → IsCurrent (roll_trading_day e now) e now
  unfolding roll_trading_day start_day
  roll-IsCurrent e now = elim (Bool-cases (str_eq (today e.limits now) e.trading_day)) [
    | inl same ↦ rw same (sym ((str_eq_iff (today e.limits now) e.trading_day).0 same), refl)
    | inr other ↦ rw other (refl, refl)
  ]

module _ {F S : Type 0} ⦃fl : Float F⦄ ⦃py : Python⦄ ⦃st : StateStore S⦄ where
  -- A recording call leaves a current engine, and its snapshot in the store.
  IsRecorded : Engine F × S → Engine F → S → ℤ → Type 0
  IsRecorded after e s now = IsCurrent after.0 e now × (after.1 ≡ Lifecycle.persist after.0 s)

  at_once :
      (e' e : Engine F) (s : S) (t now : ℤ)
      → some t ≡ some now
      → IsCurrent e' e t
      → IsRecorded (e', Lifecycle.persist e' s) e s now
  unfolding IsRecorded
  at_once e' e s t now h current = (subst (IsCurrent e' e) (some-injective t now h) current, refl)

  call-IsRecorded :
      (c : Session.Call F S) (e : Engine F) (s : S) (now : ℤ)
      → recorded_at c ≡ some now
      → IsRecorded (Session.call c e s) e s now
  unfolding IsRecorded Session.call Lifecycle.record_realized_pnl Lifecycle.record_notional
      Lifecycle.record_order_rejected Lifecycle.record_order_accepted Lifecycle.record_execution
      Lifecycle.rearm add_pnl count_pnl count_notional count_rejected count_accepted count_execution
      clear_throttles
  call-IsRecorded (Session.realized_pnl pnl true t) e s now h =
      at_once _ e s t now h (roll-IsCurrent e t)
  call-IsRecorded (Session.realized_pnl pnl false t) e s now h =
      at_once _ e s t now h (roll-IsCurrent e t)
  call-IsRecorded (Session.notional_traded notional t) e s now h =
      at_once _ e s t now h (roll-IsCurrent e t)
  call-IsRecorded (Session.order_rejected t) e s now h = at_once _ e s t now h (roll-IsCurrent e t)
  call-IsRecorded (Session.order_accepted t) e s now h = at_once _ e s t now h (roll-IsCurrent e t)
  call-IsRecorded (Session.executed t) e s now h = at_once _ e s t now h (roll-IsCurrent e t)
  call-IsRecorded (Session.rearmed t) e s now h = at_once _ e s t now h (roll-IsCurrent e t)
  call-IsRecorded (Session.order_sent r t) e s now h = cc h
  call-IsRecorded (Session.loaded_at t) e s now h = cc h
  call-IsRecorded Session.persisted e s now h = cc h
  call-IsRecorded Session.overrides_refreshed e s now h = cc h
  call-IsRecorded (Session.evaluated exists r t) e s now h = cc h
  call-IsRecorded (Session.loss_limit_read t) e s now h = cc h
  call-IsRecorded (Session.store_written s') e s now h = cc h

  -- Once a recording method has returned, a crash loses none of its counters: another engine over the
  -- same limits that loads on the same trading day has them, the amounts up to the sign of zero, if
  -- the amounts are finite, the counts are integers that binary64 holds exactly, and the peaks are
  -- above the profits.
  pub load-call :
      (laws : IsBinary64 F) (codec : IsRoundTrip F) (store : IsStore S) (c : Session.Call F S)
      (e f : Engine F) (s : S) (now later : ℤ)
      → recorded_at c ≡ some now
      → let after = Session.call c e s in
        IsStorable after.0
        → f.limits ≡ e.limits
        → today e.limits later ≡ today e.limits now
        → SameCounters (Lifecycle.load f after.1 later).0 after.0
  unfolding IsRecorded
  load-call laws codec store c e f s now later records storable limits same_day =
      let after = Session.call c e s in
      let ((current, kept), written) = call-IsRecorded c e s now records in
      let today' : after.0.trading_day ≡ today f.limits later =
        current ∙ sym same_day ∙ ap (λ l. today l later) (sym limits) in
      subst (λ s'. SameCounters (Lifecycle.load f s' later).0 after.0) (sym written)
        (load-persist laws codec store after.0 f s later storable today')
