-- ===== src/Engine/Session/Watermark.antt =====
-- The high water marks of a session.
use pretrade_risk_controls.Common.{
  String, str_eq, ◌≡◌, refl, sym, Bool, true, false, Option, none, some, List, ℤ, arith, Bool-cases,
  inl, inr, if◌then◌else◌,
}
use mathlib.Core.Path.{subst}
use pretrade_risk_controls.Common.Dict.{Dict}
use pretrade_risk_controls.Float.{Float, nought, max, IsNumber, IsBinary64}
use pretrade_risk_controls.Float.Order.{IsNumber-nought, le-max-left, le-max-right}
use pretrade_risk_controls.Python.{Python, ok}
use pretrade_risk_controls.Encoding.{decode_float}
use pretrade_risk_controls.Limits.{RiskLimits}
use pretrade_risk_controls.Order.{OrderRequest}
use pretrade_risk_controls.Keys
use pretrade_risk_controls.Store.{StateStore, raw_get}
use pretrade_risk_controls.Engine.State.{
  Engine, init, init_duplicates, roll_trading_day, start_day, today,
}
use pretrade_risk_controls.Engine.Counters.{
  record_order_sent, add_pnl, count_pnl, count_notional, count_rejected, count_accepted,
  count_execution, clear_throttles,
}
use pretrade_risk_controls.Engine.Lifecycle
use pretrade_risk_controls.Engine.Lifecycle.{same_day}
use pretrade_risk_controls.Engine.Sequence.{evaluate}
use pretrade_risk_controls.Engine.Sequence.Settled.{evaluate-IsSettled}
use pretrade_risk_controls.Engine.Session

module _ {F : Type 0} ⦃fl : Float F⦄ where
  -- A peak is at least zero, and at least the profit of its leg, unless the profit is NaN.
  abbrev pub IsPeak : F → F → Type 0
  IsPeak pnl peak = (fl.le nought peak ≡ true) × (IsNumber pnl → fl.le pnl peak ≡ true)

  abbrev pub HasPeaks : Engine F → Type 0
  HasPeaks e = IsPeak e.live_pnl e.live_peak × IsPeak e.simulated_pnl e.simulated_peak

module _ {F : Type 0} ⦃fl : Float F⦄ (laws : IsBinary64 F) where
  nought-IsPeak : IsPeak {F = F} nought nought
  nought-IsPeak = (IsNumber-nought laws, λ number. number)

  -- The ratchet keeps a peak a peak.
  max-IsPeak : (pnl pnl' peak : F) → IsPeak pnl peak → IsPeak pnl' (max peak pnl')
  max-IsPeak pnl pnl' peak (above, _) =
      let (_, number) = laws.le_numbers nought peak above in
      (
        laws.le_trans nought peak _ above (le-max-left laws peak pnl' number),
        λ number'. le-max-right laws peak pnl' number number',
      )

  -- What `load` rebuilds is a peak: `max(0.0, pnl, stored)` with a stored number.
  rebuilt-IsPeak :
      (pnl stored : F) → IsNumber pnl → IsNumber stored → IsPeak pnl (max (max nought pnl) stored)
  rebuilt-IsPeak pnl stored number number' =
      let zero = IsNumber-nought laws in
      let inner : IsPeak pnl (max nought pnl) = max-IsPeak nought pnl nought nought-IsPeak in
      let (_, middle) = laws.le_numbers _ _ (inner.0) in
      let outer = le-max-left laws (max nought pnl) stored middle in
      (laws.le_trans nought _ _ (inner.0) outer, λ n. laws.le_trans pnl _ _ (inner.1 n) outer)

  decode_float-IsNumber : (raw : Option String) (x : F) → decode_float raw ≡ some x → IsNumber x
  unfolding decode_float
  decode_float-IsNumber raw x h = grind (arith, laws.is_finite-IsNumber)

  -- Python's `value or 0.0` on an optional number.
  or_zero-IsNumber :
      (read : Option F)
      → ((x : F) → read ≡ some x → IsNumber x)
      → IsNumber {F = F}
          (elim read [ none ↦ nought | some value ↦ if fl.eq value nought then nought else value ])
  or_zero-IsNumber none h = IsNumber-nought laws
  or_zero-IsNumber (some value) h = elim (Bool-cases (fl.eq value nought)) [
    | inl is_zero ↦ rw is_zero (IsNumber-nought laws)
    | inr other ↦ rw other (h value refl)
  ]

  float_or_zero-IsNumber : (raw : Option String) → IsNumber {F = F} (Lifecycle.float_or_zero raw)
  unfolding Lifecycle.float_or_zero
  float_or_zero-IsNumber raw = or_zero-IsNumber (decode_float raw) (decode_float-IsNumber raw)

  add_pnl-HasPeaks :
      (e : Engine F) (pnl : F) (is_live : Bool) → HasPeaks e → HasPeaks (add_pnl e pnl is_live)
  unfolding add_pnl
  add_pnl-HasPeaks e pnl true (live, simulated) =
      (max-IsPeak e.live_pnl _ e.live_peak live, simulated)
  add_pnl-HasPeaks e pnl false (live, simulated) =
      (live, max-IsPeak e.simulated_pnl _ e.simulated_peak simulated)

module _ {F : Type 0} ⦃fl : Float F⦄ ⦃py : Python⦄ (laws : IsBinary64 F) where
  roll-HasPeaks : (e : Engine F) (now : ℤ) → HasPeaks e → HasPeaks (roll_trading_day e now)
  unfolding roll_trading_day start_day
  roll-HasPeaks e now h = elim (Bool-cases (str_eq (today e.limits now) e.trading_day)) [
    | inl same ↦ rw same h
    | inr other ↦ rw other (nought-IsPeak laws, nought-IsPeak laws)
  ]

  loaded-HasPeaks :
      (e : Engine F) (raw : Dict (Option String)) (now : ℤ)
      → HasPeaks e
      → HasPeaks (Lifecycle.loaded e raw now)
  unfolding Lifecycle.loaded Lifecycle.adopt
  loaded-HasPeaks e raw now h =
      let peak : (pnl stored : Option String) → _ = λ pnl stored.
        rebuilt-IsPeak laws _ _ (float_or_zero-IsNumber laws pnl)
          (float_or_zero-IsNumber laws stored) in
      elim (Bool-cases (same_day (raw_get raw Keys.trading_day) (today e.limits now))) [
        | inl current ↦ rw current (
          peak (raw_get raw Keys.live_realized_pnl) (raw_get raw Keys.live_peak_pnl),
          peak (raw_get raw Keys.simulated_realized_pnl) (raw_get raw Keys.simulated_peak_pnl),
        )
        | inr stale ↦ rw stale h
      ]

  init-HasPeaks :
      (limits : RiskLimits F) (is_live : Bool) (now : ℤ) (e : Engine F)
      → init limits is_live now ≡ ok e
      → HasPeaks e
  unfolding init init_duplicates
  init-HasPeaks limits is_live now e h = ground (arith, nought-IsPeak laws)

  evaluate-HasPeaks :
      (exists : String → Option Bool) (e : Engine F) (r : OrderRequest F) (now : ℤ)
      → HasPeaks e
      → HasPeaks (evaluate exists e r now).0
  evaluate-HasPeaks exists e r now h =
      let (w, d, same, _) = evaluate-IsSettled exists e r now in
      subst HasPeaks (sym same) (roll-HasPeaks e now h)

module _ {F S : Type 0} ⦃fl : Float F⦄ ⦃py : Python⦄ ⦃st : StateStore S⦄ (laws : IsBinary64 F) where
  call-HasPeaks :
      (c : Session.Call F S) (e : Engine F) (s : S) → HasPeaks e → HasPeaks (Session.call c e s).0
  unfolding Session.call Lifecycle.load Lifecycle.refresh_overrides Lifecycle.record_realized_pnl
      Lifecycle.record_notional Lifecycle.record_order_rejected Lifecycle.record_order_accepted
      Lifecycle.record_execution Lifecycle.rearm count_pnl count_notional count_rejected
      count_accepted count_execution clear_throttles record_order_sent
  call-HasPeaks (Session.order_sent r now) e s h = h
  call-HasPeaks (Session.realized_pnl pnl is_live now) e s h =
      add_pnl-HasPeaks laws (roll_trading_day e now) pnl is_live (roll-HasPeaks laws e now h)
  call-HasPeaks (Session.notional_traded notional now) e s h = roll-HasPeaks laws e now h
  call-HasPeaks (Session.order_rejected now) e s h = roll-HasPeaks laws e now h
  call-HasPeaks (Session.order_accepted now) e s h = roll-HasPeaks laws e now h
  call-HasPeaks (Session.executed now) e s h = roll-HasPeaks laws e now h
  call-HasPeaks (Session.rearmed now) e s h = roll-HasPeaks laws e now h
  call-HasPeaks (Session.loaded_at now) e s h = loaded-HasPeaks laws e _ now h
  call-HasPeaks Session.persisted e s h = h
  call-HasPeaks Session.overrides_refreshed e s h = h
  call-HasPeaks (Session.evaluated exists r now) e s h = evaluate-HasPeaks laws exists e r now h
  call-HasPeaks (Session.loss_limit_read now) e s h = roll-HasPeaks laws e now h
  call-HasPeaks (Session.store_written s') e s h = h

  -- From construction on, after any calls in any order, and whatever other writers do to the store,
  -- the high water mark of each leg is at least zero, and at least the leg's profit unless that is
  -- NaN.
  pub run-HasPeaks :
      (limits : RiskLimits F) (is_live : Bool) (start : ℤ) (e : Engine F)
      (cs : List (Session.Call F S)) (s : S)
      → init limits is_live start ≡ ok e
      → HasPeaks (Session.run cs e s).0
  run-HasPeaks limits is_live start e cs s made =
      Session.run-invariant HasPeaks call-HasPeaks cs e s
        (init-HasPeaks laws limits is_live start e made)
