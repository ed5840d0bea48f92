-- ===== src/Engine/Session/Counts.antt =====
-- The counts of a session.
use pretrade_risk_controls.Common.{
  String, ◌≤ℤ◌, ◌+ℤ◌, +ℤ_parts, pos, str_eq, ◌≡◌, refl, sym, Bool, true, false, Option, none, some,
  List, ℤ, arith, Bool-cases, inl, inr, if◌then◌else◌,
}
use mathlib.Core.Path.{subst}
use pretrade_risk_controls.Common.Dict.{Dict}
use pretrade_risk_controls.Float.{Float, nought, IsBinary64}
use pretrade_risk_controls.Python.{Python, ok}
use pretrade_risk_controls.Encoding.{decode_float}
use pretrade_risk_controls.Limits.{RiskLimits}
use pretrade_risk_controls.Order.{OrderRequest}
use pretrade_risk_controls.Keys
use pretrade_risk_controls.Store.{StateStore, raw_get}
use pretrade_risk_controls.Engine.State.{
  Engine, init, init_duplicates, roll_trading_day, start_day, today,
}
use pretrade_risk_controls.Engine.Counters.{
  record_order_sent, add_pnl, count_pnl, count_notional, count_rejected, count_accepted,
  count_execution, clear_throttles,
}
use pretrade_risk_controls.Engine.Lifecycle
use pretrade_risk_controls.Engine.Lifecycle.{same_day}
use pretrade_risk_controls.Engine.Sequence.{evaluate}
use pretrade_risk_controls.Engine.Sequence.Settled.{evaluate-IsSettled}
use pretrade_risk_controls.Engine.Session

one_more : (n : ℤ) → pos 0 ≤ℤ n → pos 0 ≤ℤ n +ℤ pos 1
one_more n h = omega (arith, +ℤ_parts n (pos 1))

module _ {F : Type 0} where
  -- Neither count is negative.
  abbrev pub HasCounts : Engine F → Type 0
  HasCounts e = (pos 0 ≤ℤ e.consecutive_rejects) × (pos 0 ≤ℤ e.executions_since_rearm)

module _ {F : Type 0} ⦃fl : Float F⦄ (laws : IsBinary64 F) where
  decode_float-is_finite :
      (raw : Option String) (x : F) → decode_float raw ≡ some x → fl.is_finite x ≡ true
  unfolding decode_float
  decode_float-is_finite raw x h = grind arith

  -- A stored count reads as zero or more, whatever text another writer left.
  as_count-nonnegative : (raw : Option String) → pos 0 ≤ℤ Lifecycle.as_count F raw
  unfolding Lifecycle.as_count
  as_count-nonnegative raw = read (decode_float raw) (decode_float-is_finite raw)
    where
      read :
          (number : Option F)
          → ((x : F) → number ≡ some x → fl.is_finite x ≡ true)
          → pos 0 ≤ℤ elim number as (λ x. ℤ) [
            | none ↦ pos 0
            | some value ↦ if fl.lt value nought then pos 0 else fl.to_int value
          ]
      read none finite = omega arith
      read (some value) finite = elim (Bool-cases (fl.lt value nought)) [
        | inl below ↦ rw below (omega arith)
        | inr above ↦ rw above (laws.to_int-nonnegative value (finite value refl) above)
      ]

module _ {F : Type 0} ⦃fl : Float F⦄ ⦃py : Python⦄ where
  roll-HasCounts : (e : Engine F) (now : ℤ) → HasCounts e → HasCounts (roll_trading_day e now)
  unfolding roll_trading_day start_day
  roll-HasCounts e now h = elim (Bool-cases (str_eq (today e.limits now) e.trading_day)) [
    | inl same ↦ rw same h
    | inr other ↦ rw other (omega arith, h.1)
  ]

  evaluate-HasCounts :
      (exists : String → Option Bool) (e : Engine F) (r : OrderRequest F) (now : ℤ)
      → HasCounts e
      → HasCounts (evaluate exists e r now).0
  evaluate-HasCounts exists e r now h =
      let (w, d, same, _) = evaluate-IsSettled exists e r now in
      subst HasCounts (sym same) (roll-HasCounts e now h)

  init-HasCounts :
      (limits : RiskLimits F) (is_live : Bool) (now : ℤ) (e : Engine F)
      → init limits is_live now ≡ ok e
      → HasCounts e
  unfolding init init_duplicates
  init-HasCounts limits is_live now e h = (ground arith, ground arith)

  loaded-HasCounts :
      (laws : IsBinary64 F) (e : Engine F) (raw : Dict (Option String)) (now : ℤ)
      → HasCounts e
      → HasCounts (Lifecycle.loaded e raw now)
  unfolding Lifecycle.loaded Lifecycle.adopt
  loaded-HasCounts laws e raw now h =
      let executions = as_count-nonnegative laws (raw_get raw Keys.executions_since_rearm) in
      let rejects = as_count-nonnegative laws (raw_get raw Keys.consecutive_rejects) in
      elim (Bool-cases (same_day (raw_get raw Keys.trading_day) (today e.limits now))) [
        | inl current ↦ rw current (rejects, executions)
        | inr stale ↦ rw stale (h.0, executions)
      ]

module _ {F S : Type 0} ⦃fl : Float F⦄ ⦃py : Python⦄ ⦃st : StateStore S⦄ (laws : IsBinary64 F) where
  call-HasCounts :
      (c : Session.Call F S) (e : Engine F) (s : S) → HasCounts e → HasCounts (Session.call c e s).0
  unfolding Session.call Lifecycle.load Lifecycle.refresh_overrides Lifecycle.record_realized_pnl
      Lifecycle.record_notional Lifecycle.record_order_rejected Lifecycle.record_order_accepted
      Lifecycle.record_execution Lifecycle.rearm add_pnl count_pnl count_notional count_rejected
      count_accepted count_execution clear_throttles record_order_sent
  call-HasCounts (Session.order_sent r now) e s h = h
  call-HasCounts (Session.realized_pnl pnl true now) e s h = roll-HasCounts e now h
  call-HasCounts (Session.realized_pnl pnl false now) e s h = roll-HasCounts e now h
  call-HasCounts (Session.notional_traded notional now) e s h = roll-HasCounts e now h
  call-HasCounts (Session.order_rejected now) e s h =
      let (rejects, executions) = roll-HasCounts e now h in (one_more _ rejects, executions)
  call-HasCounts (Session.order_accepted now) e s h = (omega arith, (roll-HasCounts e now h).1)
  call-HasCounts (Session.executed now) e s h =
      let (rejects, executions) = roll-HasCounts e now h in (rejects, one_more _ executions)
  call-HasCounts (Session.rearmed now) e s h = (omega arith, omega arith)
  call-HasCounts (Session.loaded_at now) e s h = loaded-HasCounts laws e _ now h
  call-HasCounts Session.persisted e s h = h
  call-HasCounts Session.overrides_refreshed e s h = h
  call-HasCounts (Session.evaluated exists r now) e s h = evaluate-HasCounts exists e r now h
  call-HasCounts (Session.loss_limit_read now) e s h = roll-HasCounts e now h
  call-HasCounts (Session.store_written s') e s h = h

  -- From construction on, after any calls in any order, and whatever texts other writers leave in
  -- the store, the counts of consecutive rejections and of executions since re-arm are zero or more.
  pub run-HasCounts :
      (limits : RiskLimits F) (is_live : Bool) (start : ℤ) (e : Engine F)
      (cs : List (Session.Call F S)) (s : S)
      → init limits is_live start ≡ ok e
      → HasCounts (Session.run cs e s).0
  run-HasCounts limits is_live start e cs s made =
      Session.run-invariant HasCounts call-HasCounts cs e s
        (init-HasCounts limits is_live start e made)
