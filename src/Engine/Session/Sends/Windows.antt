-- ===== src/Engine/Session/Sends/Windows.antt =====
-- The two windows of an engine against the orders that were sent, call by call.
use mathlib.Core.List.{append-nil}
use pretrade_risk_controls.Common.{
  String, str_eq, Bool-cases, inl, inr, ◌≡◌, Bool, Option, none, some, List, [], ◌∷◌, ◌++◌, ℤ, pos,
  ◌≤ℤ◌, arith,
}
use pretrade_risk_controls.Common.Dict.{Dict}
use pretrade_risk_controls.Float.{Float}
use pretrade_risk_controls.Python.{Python}
use pretrade_risk_controls.Decision.{ControlId}
use pretrade_risk_controls.Limits.{RiskLimits}
use pretrade_risk_controls.Order.{OrderRequest, fingerprint}
use pretrade_risk_controls.Keys
use pretrade_risk_controls.Store.{raw_get}
use pretrade_risk_controls.Windows.Rate
use pretrade_risk_controls.Windows.Rate.{RateWindow}
use pretrade_risk_controls.Windows.Rate.History as RateHistory
use pretrade_risk_controls.Windows.Duplicate
use pretrade_risk_controls.Windows.Duplicate.{DuplicateWindow}
use pretrade_risk_controls.Windows.Duplicate.History as DuplicateHistory
use pretrade_risk_controls.Engine.State.{Engine, today, roll_trading_day, start_day}
use pretrade_risk_controls.Engine.Counters.{record_order_sent}
use pretrade_risk_controls.Engine.Checks.Conduct.{check_duplicate, check_order_rate}
use pretrade_risk_controls.Engine.Lifecycle
use pretrade_risk_controls.Engine.Sequence.{check, look, evaluate, runs, control_sequence}
use pretrade_risk_controls.Engine.Sequence.Invariant.{walk-invariant}

-- The duplicate window, if one is configured, holds what was sent.
abbrev pub KeepsOrders : Option ℤ → Option DuplicateWindow → Dict ℤ → ℤ → Type 0
KeepsOrders none none orders t = Unit
KeepsOrders none (some w) orders t = ⊥
KeepsOrders (some span) none orders t = ⊥
KeepsOrders (some span) (some w) orders t =
    (pos 1 ≤ℤ span) × ((u : ℤ) × DuplicateHistory.Holds w span orders u × (u ≤ℤ t))

abbrev pub KeepsInstants : ℤ → RateWindow → List ℤ → ℤ → Type 0
KeepsInstants span w instants t =
    (pos 1 ≤ℤ span) × ((u : ℤ) × RateHistory.Holds w span instants u × (u ≤ℤ t))

KeepsInstants-prune :
    (span : ℤ) (w : RateWindow) (instants : List ℤ) (t : ℤ)
    → KeepsInstants span w instants t
    → KeepsInstants span (Rate.prune w t) instants t
KeepsInstants-prune span w instants t (wide, (u, h, past)) =
    (wide, (t, RateHistory.prune-Holds h t past, omega arith))

KeepsOrders-prune :
    (o : Option ℤ) (w : DuplicateWindow) (orders : Dict ℤ) (t : ℤ)
    → KeepsOrders o (some w) orders t
    → KeepsOrders o (some (Duplicate.prune w t)) orders t
KeepsOrders-prune none w orders t h = elim h [ ]
KeepsOrders-prune (some span) w orders t (wide, (u, h, past)) =
    (wide, (t, DuplicateHistory.prune-Holds h t past, omega arith))

pub KeepsOrders-later :
    (o : Option ℤ) (d : Option DuplicateWindow) (orders : Dict ℤ) (t now : ℤ)
    → t ≤ℤ now
    → KeepsOrders o d orders t
    → KeepsOrders o d orders now
KeepsOrders-later none none orders t now later h = h
KeepsOrders-later none (some w) orders t now later h = elim h [ ]
KeepsOrders-later (some span) none orders t now later h = elim h [ ]
KeepsOrders-later (some span) (some w) orders t now later (wide, (u, h, past)) =
    (wide, (u, h, omega arith))

-- Both windows, against what was sent until `t`.
abbrev pub Tracks : {F : Type 0} → RiskLimits F → Engine F → List ℤ → Dict ℤ → ℤ → Type 0
Tracks limits e instants orders t =
    KeepsInstants limits.order_rate_window_millis e.rate_window instants t
    × KeepsOrders limits.duplicate_window_millis e.duplicate_window orders t
    × (e.limits ≡ limits)

module _ {F : Type 0} ⦃fl : Float F⦄ ⦃py : Python⦄ (exists : String → Option Bool) where
  duplicate-Tracks :
      (limits : RiskLimits F) (instants : List ℤ) (orders : Dict ℤ) (r : OrderRequest F) (now : ℤ)
      (e : Engine F) (d : Option DuplicateWindow)
      → Tracks limits (record e { duplicate_window = d }) instants orders now
      → Tracks limits
          (check_duplicate (record e { duplicate_window = d }) r now).0
          instants
          orders
          now
  unfolding check_duplicate Duplicate.seen_within_window
  duplicate-Tracks limits instants orders r now e none h = h
  duplicate-Tracks limits instants orders r now e (some w) (rate, duplicates, same) =
      (rate, KeepsOrders-prune limits.duplicate_window_millis w orders now duplicates, same)

  check-Tracks :
      (limits : RiskLimits F) (instants : List ℤ) (orders : Dict ℤ) (r : OrderRequest F) (now : ℤ)
      (c : ControlId) (e : Engine F)
      → Tracks limits e instants orders now
      → Tracks limits (check exists c e r now).0 instants orders now
  unfolding check check_order_rate Rate.count
  check-Tracks limits instants orders r now ControlId.duplicate_order e h =
      duplicate-Tracks limits instants orders r now e e.duplicate_window h
  check-Tracks limits instants orders r now ControlId.order_rate e (rate, duplicates, same) =
      (KeepsInstants-prune _ e.rate_window instants now rate, duplicates, same)
  check-Tracks limits instants orders r now _ e h = h

  look-Tracks :
      (limits : RiskLimits F) (instants : List ℤ) (orders : Dict ℤ) (r : OrderRequest F) (now : ℤ)
      (c : ControlId) (e : Engine F)
      → Tracks limits e instants orders now
      → Tracks limits (look exists c e r now).0 instants orders now
  unfolding look
  look-Tracks limits instants orders r now c e h = elim (Bool-cases (runs e c)) [
    | inl on ↦ rw on (check-Tracks limits instants orders r now c e h)
    | inr off ↦ rw off h
  ]

module _ {F : Type 0} ⦃fl : Float F⦄ ⦃py : Python⦄ (limits : RiskLimits F) where
  pub roll-Tracks :
      (e : Engine F) (day now : ℤ) (instants : List ℤ) (orders : Dict ℤ)
      → Tracks limits e instants orders now
      → Tracks limits (roll_trading_day e day) instants orders now
  unfolding roll_trading_day start_day
  roll-Tracks e day now instants orders h =
      elim (Bool-cases (str_eq (today e.limits day) e.trading_day)) [
        | inl same ↦ rw same h
        | inr other ↦ rw other h
      ]

  pub evaluate-Tracks :
      (exists : String → Option Bool) (e : Engine F) (r : OrderRequest F) (now : ℤ)
      (instants : List ℤ) (orders : Dict ℤ)
      → Tracks limits e instants orders now
      → Tracks limits (evaluate exists e r now).0 instants orders now
  unfolding evaluate
  evaluate-Tracks exists e r now instants orders h =
      walk-invariant exists (λ e'. Tracks limits e' instants orders now) r now
        (look-Tracks exists limits instants orders r now) control_sequence _
        (roll-Tracks e now now instants orders h)

  pub loaded-Tracks :
      (e : Engine F) (raw : Dict (Option String)) (day now : ℤ) (instants : List ℤ)
      (orders : Dict ℤ)
      → Tracks limits e instants orders now
      → Tracks limits (Lifecycle.loaded e raw day) instants orders now
  unfolding Lifecycle.loaded Lifecycle.adopt
  loaded-Tracks e raw day now instants orders h =
      elim (Bool-cases (Lifecycle.same_day (raw_get raw Keys.trading_day) (today e.limits day))) [
        | inl current ↦ rw current h
        | inr stale ↦ rw stale h
      ]

  record_order-Tracks :
      (o : Option ℤ) (d : Option DuplicateWindow) (f : String) (now : ℤ) (orders : Dict ℤ)
      → KeepsOrders o d orders now
      → KeepsOrders o
          (elim d [ none ↦ none | some w ↦ some (Duplicate.record_order w f now) ])
          (orders ++ (f, now) ∷ [])
          now
  record_order-Tracks none none f now orders h = tt
  record_order-Tracks none (some w) f now orders h = elim h [ ]
  record_order-Tracks (some span) none f now orders h = elim h [ ]
  record_order-Tracks (some span) (some w) f now orders (wide, (u, h, past)) =
      (wide, (now, DuplicateHistory.record_order-Holds h f now past wide, omega arith))

  pub sent-Tracks :
      (e : Engine F) (r : OrderRequest F) (now : ℤ) (instants : List ℤ) (orders : Dict ℤ)
      → Tracks limits e instants orders now
      → Tracks limits
          (record_order_sent e r now)
          (instants ++ now ∷ [])
          (orders ++ (fingerprint r, now) ∷ [])
          now
  unfolding record_order_sent
  sent-Tracks e r now instants orders ((wide, (u, h, past)), duplicates, same) = (
    (wide, (now, RateHistory.record_event-Holds h now past wide, omega arith)),
    record_order-Tracks limits.duplicate_window_millis e.duplicate_window (fingerprint r) now orders
        duplicates,
    same,
  )

module _ {F : Type 0} (limits : RiskLimits F) where
  pub later-Tracks :
      (e : Engine F) (t now : ℤ) (instants : List ℤ) (orders : Dict ℤ)
      → t ≤ℤ now
      → Tracks limits e instants orders t
      → Tracks limits e instants orders now
  later-Tracks e t now instants orders later ((wide, (u, h, past)), duplicates, same) = (
    (wide, (u, h, omega arith)),
    KeepsOrders-later limits.duplicate_window_millis e.duplicate_window orders t now later
        duplicates,
    same,
  )

  -- A call that sends nothing.
  pub quiet-Tracks :
      (e : Engine F) (t : ℤ) (instants : List ℤ) (orders : Dict ℤ)
      → Tracks limits e instants orders t
      → Tracks limits e (instants ++ []) (orders ++ []) t
  quiet-Tracks e t instants orders h = rw (append-nil instants, append-nil orders) h

module _ {F : Type 0} ⦃fl : Float F⦄ ⦃py : Python⦄ (limits : RiskLimits F) where
  -- A call that rolls the day, and sends nothing.
  pub rolled :
      (e : Engine F) (now : ℤ) (instants : List ℤ) (orders : Dict ℤ)
      → Tracks limits e instants orders now
      → Tracks limits (roll_trading_day e now) (instants ++ []) (orders ++ []) now
  rolled e now instants orders h =
      quiet-Tracks limits (roll_trading_day e now) now instants orders
        (roll-Tracks limits e now now instants orders h)
