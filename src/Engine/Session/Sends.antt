-- ===== src/Engine/Session/Sends.antt =====
-- What the two throttles of a session know of the orders it sent.
pub mod Windows
pub mod Start
use mathlib.Core.List.{append-nil, append_assoc}
use pretrade_risk_controls.Common.{
  String, str_eq, Bool-cases, inl, inr, ◌≡◌, refl, sym, ◌∙◌, ap, Bool, true, false, Option, none,
  some, is_some, List, [], ◌∷◌, ◌++◌, ℤ, pos, ◌-ℤ◌, ◌≤ℤ◌, leb_ℤ, keep, length, arith, if◌then◌else◌,
}
use mathlib.Core.Path.{subst}
use pretrade_risk_controls.Common.Dict.{Dict, lookup, only}
use pretrade_risk_controls.Float.{Float}
use pretrade_risk_controls.Python.{Python, ok}
use pretrade_risk_controls.Decision.{ControlId}
use pretrade_risk_controls.Limits.{RiskLimits}
use pretrade_risk_controls.Order.{OrderRequest, fingerprint}
use pretrade_risk_controls.Keys
use pretrade_risk_controls.Store.{StateStore, raw_get}
use pretrade_risk_controls.Windows.Rate
use pretrade_risk_controls.Windows.Rate.{RateWindow}
use pretrade_risk_controls.Windows.Rate.Order
use pretrade_risk_controls.Windows.Rate.History as RateHistory
use pretrade_risk_controls.Windows.Duplicate
use pretrade_risk_controls.Windows.Duplicate.{DuplicateWindow}
use pretrade_risk_controls.Windows.Duplicate.History as DuplicateHistory
use pretrade_risk_controls.Engine.State.{
  Engine, today, init, init_duplicates, roll_trading_day, start_day,
}
use pretrade_risk_controls.Engine.Counters.{
  record_order_sent, add_pnl, count_pnl, count_notional, count_rejected, count_accepted,
  count_execution, clear_throttles,
}
use pretrade_risk_controls.Engine.Checks.Conduct.{
  check_duplicate, check_order_rate, rate_at, refuse_duplicate,
}
use pretrade_risk_controls.Engine.Checks.Outcome.{Outcome, satisfied, refused, raises}
use pretrade_risk_controls.Engine.Lifecycle
use pretrade_risk_controls.Engine.Sequence.{
  check, look, walk, evaluate, runs, Verdict, control_sequence, decided, raised,
}
use pretrade_risk_controls.Engine.Session
use pretrade_risk_controls.Engine.Session.Sends.Windows.{
  Tracks, KeepsInstants, KeepsOrders, rolled, evaluate-Tracks, roll-Tracks, loaded-Tracks,
  sent-Tracks, later-Tracks, quiet-Tracks,
}
use pretrade_risk_controls.Engine.Session.Sends.Start.{init-Tracks}

-- When a call stands, the one before it standing at `t`: a call that reads no clock stands with it.
abbrev pub instant : {F S : Type 0} → Session.Call F S → ℤ → ℤ
instant (Session.order_sent r now) t = now
instant (Session.realized_pnl pnl is_live now) t = now
instant (Session.notional_traded notional now) t = now
instant (Session.order_rejected now) t = now
instant (Session.order_accepted now) t = now
instant (Session.executed now) t = now
instant (Session.rearmed now) t = now
instant (Session.loaded_at now) t = now
instant (Session.evaluated exists r now) t = now
instant (Session.loss_limit_read now) t = now
instant c t = t

-- The clock does not step back.
abbrev pub IsForward : {F S : Type 0} → ℤ → List (Session.Call F S) → ℤ → Type 0
IsForward t [] now = t ≤ℤ now
IsForward t (c ∷ cs) now = (t ≤ℤ instant c t) × IsForward (instant c t) cs now

module _ {F S : Type 0} ⦃fl : Float F⦄ where
  -- The orders that a session sends: their fingerprints, and the instants.
  abbrev pub sent_by : Session.Call F S → Dict ℤ
  sent_by (Session.order_sent r now) = (fingerprint r, now) ∷ []
  sent_by c = []

  abbrev pub sent_at : Session.Call F S → List ℤ
  sent_at (Session.order_sent r now) = now ∷ []
  sent_at c = []

  unfoldable pub sent_orders : List (Session.Call F S) → Dict ℤ
  sent_orders [] = []
  sent_orders (c ∷ cs) = sent_by c ++ sent_orders cs

  unfoldable pub sent_instants : List (Session.Call F S) → List ℤ
  sent_instants [] = []
  sent_instants (c ∷ cs) = sent_at c ++ sent_instants cs

module _ {F S : Type 0} ⦃fl : Float F⦄ ⦃py : Python⦄ ⦃st : StateStore S⦄
    (limits : RiskLimits F) where
  -- A call at its instant, behind calls that sent `instants` and `orders`.
  pub call-Tracks :
      (c : Session.Call F S) (e : Engine F) (s : S) (t : ℤ) (instants : List ℤ) (orders : Dict ℤ)
      → Tracks limits e instants orders (instant c t)
      → Tracks limits
          (Session.call c e s).0
          (instants ++ sent_at c)
          (orders ++ sent_by c)
          (instant c t)
  unfolding Session.call Lifecycle.load Lifecycle.refresh_overrides Lifecycle.record_realized_pnl
      Lifecycle.record_notional Lifecycle.record_order_rejected Lifecycle.record_order_accepted
      Lifecycle.record_execution Lifecycle.rearm add_pnl count_pnl count_notional count_rejected
      count_accepted count_execution clear_throttles
  call-Tracks (Session.order_sent r now) e s t instants orders h =
      sent-Tracks limits e r now instants orders h
  call-Tracks (Session.realized_pnl pnl true now) e s t instants orders h =
      rolled limits e now instants orders h
  call-Tracks (Session.realized_pnl pnl false now) e s t instants orders h =
      rolled limits e now instants orders h
  call-Tracks (Session.notional_traded notional now) e s t instants orders h =
      rolled limits e now instants orders h
  call-Tracks (Session.order_rejected now) e s t instants orders h =
      rolled limits e now instants orders h
  call-Tracks (Session.order_accepted now) e s t instants orders h =
      rolled limits e now instants orders h
  call-Tracks (Session.executed now) e s t instants orders h = rolled limits e now instants orders h
  call-Tracks (Session.rearmed now) e s t instants orders h = rolled limits e now instants orders h
  call-Tracks (Session.loss_limit_read now) e s t instants orders h =
      rolled limits e now instants orders h
  call-Tracks (Session.loaded_at now) e s t instants orders h =
      let raw = st.get_many s Keys.counter_keys in
      quiet-Tracks limits (Lifecycle.loaded e raw now) now instants orders
        (loaded-Tracks limits e raw now now instants orders h)
  call-Tracks (Session.evaluated exists r now) e s t instants orders h =
      quiet-Tracks limits (evaluate exists e r now).0 now instants orders
        (evaluate-Tracks limits exists e r now instants orders h)
  call-Tracks Session.persisted e s t instants orders h = quiet-Tracks limits e t instants orders h
  call-Tracks Session.overrides_refreshed e s t instants orders h =
      quiet-Tracks limits e t instants orders h
  call-Tracks (Session.store_written s') e s t instants orders h =
      quiet-Tracks limits e t instants orders h

  pub run-Tracks :
      (cs : List (Session.Call F S)) (e : Engine F) (s : S) (t now : ℤ) (instants : List ℤ)
      (orders : Dict ℤ)
      → Tracks limits e instants orders t
      → IsForward t cs now
      → Tracks limits
          (Session.run cs e s).0
          (instants ++ sent_instants cs)
          (orders ++ sent_orders cs)
          now
  unfolding Session.run sent_instants sent_orders
  run-Tracks [] e s t now instants orders h f =
      quiet-Tracks limits e now instants orders (later-Tracks limits e t now instants orders f h)
  run-Tracks (c ∷ cs) e s t now instants orders h (later, f) =
      let after = Session.call c e s in
      let called =
        call-Tracks c e s t instants orders
          (later-Tracks limits e t (instant c t) instants orders later h) in
      rw
        (
          append_assoc instants (sent_at c) (sent_instants cs),
          append_assoc orders (sent_by c) (sent_orders cs),
        )
        at (run-Tracks cs after.0 after.1 (instant c t) now _ _ called f)

module _ {F : Type 0} ⦃fl : Float F⦄ ⦃py : Python⦄ where
  -- What the duplicate control is to say of an order, from the orders that were sent.
  abbrev pub duplicate_answer : OrderRequest F → Dict ℤ → ℤ → Option ℤ → Outcome F
  duplicate_answer r orders now none = raises
  duplicate_answer r orders now (some span) =
      if is_some (
        only (DuplicateHistory.is_inside (now -ℤ span) now)
          (DuplicateHistory.last_sent (fingerprint r) orders))
      then refuse_duplicate r (some span)
      else satisfied

  rate-Tracks :
      (limits : RiskLimits F) (e : Engine F) (instants : List ℤ) (orders : Dict ℤ) (now : ℤ)
      → Tracks limits e instants orders now
      → let span = limits.order_rate_window_millis in
        (check_order_rate e now).1
        ≡ rate_at
            (pos (length (keep (Order.is_inside (now -ℤ span) now) instants)))
            span
            limits.max_orders_per_window
  unfolding check_order_rate Rate.count
  rate-Tracks limits e instants orders now ((wide, (u, h, past)), duplicates, same) =
      rw (same, RateHistory.prune-eq-keep h now past) refl

  duplicate-KeepsOrders :
      (r : OrderRequest F) (e : Engine F) (d : Option DuplicateWindow) (o : Option ℤ)
      (orders : Dict ℤ) (now : ℤ)
      → KeepsOrders o d orders now
      → e.limits.duplicate_window_millis ≡ o
      → (check_duplicate (record e { duplicate_window = d }) r now).1
        ≡ duplicate_answer r orders now o
  unfolding check_duplicate Duplicate.seen_within_window
  duplicate-KeepsOrders r e none none orders now h same = refl
  duplicate-KeepsOrders r e (some w) none orders now h same = elim h [ ]
  duplicate-KeepsOrders r e none (some span) orders now h same = elim h [ ]
  duplicate-KeepsOrders r e (some w) (some span) orders now (wide, (u, h, past)) same =
      rw (same, DuplicateHistory.prune-lookup h now past (fingerprint r)) refl

module _ {F S : Type 0} ⦃fl : Float F⦄ ⦃py : Python⦄ ⦃st : StateStore S⦄ where
  -- From construction on, after any calls in any order and whatever other writers do to the store,
  -- while the clock does not step back: the order rate control answers from the number of orders
  -- sent inside the trailing window `(now - width, now]`, and the duplicate control from the last
  -- sending of the order's fingerprint, refusing it exactly if that lies inside its own window.
  -- Neither the roll of the day, nor evaluations, nor a load or re-arm changes either answer.
  pub throttles-run :
      (limits : RiskLimits F) (is_live : Bool) (start now : ℤ) (e : Engine F)
      (cs : List (Session.Call F S)) (s : S) (r : OrderRequest F)
      → init limits is_live start ≡ ok e
      → IsForward start cs now
      → let e' = (Session.run cs e s).0 in
        let span = limits.order_rate_window_millis in
        let sent = keep (Order.is_inside (now -ℤ span) now) (sent_instants cs) in
        ((check_order_rate e' now).1
          ≡ rate_at (pos (length sent)) span limits.max_orders_per_window)
        × ((check_duplicate e' r now).1
            ≡ duplicate_answer r (sent_orders cs) now limits.duplicate_window_millis)
  throttles-run limits is_live start now e cs s r made forward =
      let tracked =
        run-Tracks limits cs e s start now [] [] (init-Tracks limits is_live start e made)
          forward in
      (
        rate-Tracks limits (Session.run cs e s).0 _ _ now tracked,
        duplicate-KeepsOrders r (Session.run cs e s).0 _ _ _ now tracked.1
            (ap (λ l. l.duplicate_window_millis) tracked.2),
      )
