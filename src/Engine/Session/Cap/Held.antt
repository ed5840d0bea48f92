-- ===== src/Engine/Session/Cap/Held.antt =====
-- The events that the rate window of an engine holds, operation by operation.
use pretrade_risk_controls.Common.{
  String, str_eq, Bool-cases, inl, inr, ◌≡◌, Bool, Option, none, some, [], ◌∷◌, ℤ, pos, ◌≤ℤ◌, ◌<ℤ◌,
  refl, ◌∙◌, ap, false, length, length-append, is_some, arith,
}
use mathlib.Core.Path.{subst}
use pretrade_risk_controls.Common.Dict.{Dict}
use pretrade_risk_controls.Float.{Float, IsBinary64}
use pretrade_risk_controls.Python.{Python}
use pretrade_risk_controls.Decision.{ControlId, accepted_decision}
use pretrade_risk_controls.Order.{OrderRequest}
use pretrade_risk_controls.Keys
use pretrade_risk_controls.Store.{raw_get}
use pretrade_risk_controls.Windows.Rate
use pretrade_risk_controls.Windows.Rate.{RateWindow}
use pretrade_risk_controls.Windows.Duplicate.{DuplicateWindow}
use pretrade_risk_controls.Engine.State.{Engine, today, roll_trading_day, start_day}
use pretrade_risk_controls.Engine.Counters.{record_order_sent}
use pretrade_risk_controls.Engine.Checks.Conduct.{check_duplicate, check_order_rate}
use pretrade_risk_controls.Engine.Lifecycle
use pretrade_risk_controls.Engine.Sequence.{
  check, look, evaluate, runs, is_armed, decided, control_sequence,
}
use pretrade_risk_controls.Engine.Sequence.Invariant.{walk-invariant}
use pretrade_risk_controls.Engine.Sequence.Decisions.{Allows, evaluate-accepts_iff}
use pretrade_risk_controls.Windows.Rate.Gate.{length-prune-le}
use pretrade_risk_controls.Limits.{is_disabled}
use pretrade_risk_controls.Engine.Session.Sends.Windows.{KeepsOrders}
use pretrade_risk_controls.Engine.Sequence.Total.{IsConsistent}

-- No more than `most` events are held.
abbrev pub IsWithin : {F : Type 0} → ℤ → Engine F → Type 0
IsWithin most e = pos (length e.rate_window.events) ≤ℤ most

pub KeepsOrders-is_some :
    (o : Option ℤ) (d : Option DuplicateWindow) (orders : Dict ℤ) (t : ℤ)
    → KeepsOrders o d orders t
    → is_some d ≡ is_some o
KeepsOrders-is_some none none orders t h = refl
KeepsOrders-is_some none (some w) orders t h = elim h [ ]
KeepsOrders-is_some (some span) none orders t h = elim h [ ]
KeepsOrders-is_some (some span) (some w) orders t h = refl

module _ {F : Type 0} ⦃fl : Float F⦄ ⦃py : Python⦄ (most : ℤ) where
  prune-IsWithin :
      (e : Engine F) (now : ℤ)
      → IsWithin most e
      → IsWithin most (record e { rate_window = Rate.prune e.rate_window now })
  prune-IsWithin e now h = omega (arith, length-prune-le e.rate_window now)

  duplicate-IsWithin :
      (e : Engine F) (d : Option DuplicateWindow) (r : OrderRequest F) (now : ℤ)
      → IsWithin most e
      → IsWithin most (check_duplicate (record e { duplicate_window = d }) r now).0
  unfolding check_duplicate
  duplicate-IsWithin e none r now h = h
  duplicate-IsWithin e (some w) r now h = h

  check-IsWithin :
      (exists : String → Option Bool) (r : OrderRequest F) (now : ℤ) (c : ControlId) (e : Engine F)
      → IsWithin most e
      → IsWithin most (check exists c e r now).0
  unfolding check check_order_rate Rate.count
  check-IsWithin exists r now ControlId.duplicate_order e h =
      duplicate-IsWithin e e.duplicate_window r now h
  check-IsWithin exists r now ControlId.order_rate e h = prune-IsWithin e now h
  check-IsWithin exists r now _ e h = h

  look-IsWithin :
      (exists : String → Option Bool) (r : OrderRequest F) (now : ℤ) (c : ControlId) (e : Engine F)
      → IsWithin most e
      → IsWithin most (look exists c e r now).0
  unfolding look
  look-IsWithin exists r now c e h = elim (Bool-cases (runs e c)) [
    | inl on ↦ rw on (check-IsWithin exists r now c e h)
    | inr off ↦ rw off h
  ]

  pub roll-IsWithin :
      (e : Engine F) (now : ℤ) → IsWithin most e → IsWithin most (roll_trading_day e now)
  unfolding roll_trading_day start_day
  roll-IsWithin e now h = elim (Bool-cases (str_eq (today e.limits now) e.trading_day)) [
    | inl same ↦ rw same h
    | inr other ↦ rw other h
  ]

  pub evaluate-IsWithin :
      (exists : String → Option Bool) (e : Engine F) (r : OrderRequest F) (now : ℤ)
      → IsWithin most e
      → IsWithin most (evaluate exists e r now).0
  unfolding evaluate
  evaluate-IsWithin exists e r now h =
      walk-invariant exists (IsWithin most) r now (look-IsWithin exists r now) control_sequence _
        (roll-IsWithin e now h)

  pub loaded-IsWithin :
      (e : Engine F) (raw : Dict (Option String)) (now : ℤ)
      → IsWithin most e
      → IsWithin most (Lifecycle.loaded e raw now)
  unfolding Lifecycle.loaded Lifecycle.adopt
  loaded-IsWithin e raw now h =
      elim (Bool-cases (Lifecycle.same_day (raw_get raw Keys.trading_day) (today e.limits now))) [
        | inl current ↦ rw current h
        | inr stale ↦ rw stale h
      ]

  pub roll-windows :
      (e : Engine F) (now : ℤ)
      → ((roll_trading_day e now).rate_window ≡ e.rate_window)
        × ((roll_trading_day e now).limits ≡ e.limits)
  unfolding roll_trading_day start_day
  roll-windows e now = elim (Bool-cases (str_eq (today e.limits now) e.trading_day)) [
    | inl same ↦ rw same (refl, refl)
    | inr other ↦ rw other (refl, refl)
  ]

  pub allowed-below :
      (exists : String → Option Bool) (e : Engine F) (r : OrderRequest F) (now : ℤ)
      → e.limits.max_orders_per_window ≡ some most
      → is_disabled e.limits ControlId.order_rate ≡ false
      → Allows exists e r now ControlId.order_rate
      → pos (length (Rate.prune e.rate_window now).events) <ℤ most
  unfolding runs is_armed Rate.count
  allowed-below exists e r now capped enabled allows =
      rw capped at (allows (rw (enabled, capped) refl))

  -- An accepted order leaves room for itself.
  pub accepted-below :
      (laws : IsBinary64 F) (exists : String → Option Bool) (e : Engine F) (r : OrderRequest F)
      (now : ℤ)
      → IsConsistent e
      → e.limits.max_orders_per_window ≡ some most
      → is_disabled e.limits ControlId.order_rate ≡ false
      → (evaluate exists e r now).1 ≡ decided accepted_decision
      → pos (length (Rate.prune e.rate_window now).events) <ℤ most
  accepted-below laws exists e r now consistent capped enabled accepted =
      let (_, (_, (_, (_, (_, (_, (_, (_, (_, (_, (_, (_, (_, (_, (_, (rate, _)))))))))))))))) =
        (evaluate-accepts_iff laws exists e r now consistent).0 accepted in
      let (window, limits) = roll-windows e now in
      subst (λ w. pos (length (Rate.prune w now).events) <ℤ most) window
        (allowed-below exists (roll_trading_day e now) r now
          (ap (λ l. l.max_orders_per_window) limits ∙ capped)
          (ap (λ l. is_disabled l ControlId.order_rate) limits ∙ enabled) rate)

  pub sent-IsWithin :
      (e : Engine F) (r : OrderRequest F) (now : ℤ)
      → pos (length (Rate.prune e.rate_window now).events) <ℤ most
      → IsWithin most (record_order_sent e r now)
  unfolding record_order_sent Rate.record_event
  sent-IsWithin e r now below =
      omega (arith, length-append (Rate.prune e.rate_window now).events (now ∷ []))
