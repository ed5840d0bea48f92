-- ===== src/Engine/Session/Sends/Start.antt =====
-- The windows of a new engine.
use pretrade_risk_controls.Common.{◌≡◌, refl, Bool, Option, none, some, [], ℤ, pos, ◌≤ℤ◌, arith}
use pretrade_risk_controls.Common.Dict.{lookup}
use pretrade_risk_controls.Float.{Float}
use pretrade_risk_controls.Python.{Python, ok}
use pretrade_risk_controls.Limits.{RiskLimits}
use pretrade_risk_controls.Windows.Rate
use pretrade_risk_controls.Windows.Rate.{RateWindow}
use pretrade_risk_controls.Windows.Rate.History as RateHistory
use pretrade_risk_controls.Windows.Duplicate
use pretrade_risk_controls.Windows.Duplicate.{DuplicateWindow}
use pretrade_risk_controls.Windows.Duplicate.History as DuplicateHistory
use pretrade_risk_controls.Engine.State.{Engine, init, init_duplicates}
use pretrade_risk_controls.Engine.Session.Sends.Windows.{Tracks, KeepsInstants, KeepsOrders}

init-KeepsInstants :
    (span : ℤ) (w : RateWindow) (start : ℤ) → Rate.init span ≡ ok w → KeepsInstants span w [] start
unfolding Rate.init
init-KeepsInstants span w start made =
    let wide : pos 1 ≤ℤ span = ground arith in
    let same : w.window_millis ≡ span = ground arith in
    let empty : w.events ≡ [] = ground arith in
    let h : RateHistory.Holds w span [] start = record {
      same_span = same;
      sorted = rw empty tt;
      past = tt;
      holds = empty;
    } in
    (wide, (start, h, omega arith))

init_duplicates-KeepsOrders :
    (o : Option ℤ) (d : Option DuplicateWindow) (start : ℤ)
    → init_duplicates o ≡ ok d
    → KeepsOrders o d [] start
unfolding init_duplicates Duplicate.init
init_duplicates-KeepsOrders none none start made = tt
init_duplicates-KeepsOrders none (some w) start made = cc
init_duplicates-KeepsOrders (some span) none start made = ground arith
init_duplicates-KeepsOrders (some span) (some w) start made =
    let wide : pos 1 ≤ℤ span = ground arith in
    let same : w.window_millis ≡ span = ground arith in
    let empty : w.seen ≡ [] = ground arith in
    let h : DuplicateHistory.Holds w span [] start = record {
      same_span = same;
      is_dict = rw empty tt;
      past = tt;
      holds = λ f. unfold lookup DuplicateHistory.last_sent in rw empty refl;
    } in
    (wide, (start, h, omega arith))

module _ {F : Type 0} ⦃fl : Float F⦄ ⦃py : Python⦄ (limits : RiskLimits F) where
  init-parts :
      (is_live : Bool) (start : ℤ) (e : Engine F)
      → init limits is_live start ≡ ok e
      → (Rate.init limits.order_rate_window_millis ≡ ok e.rate_window)
        × (init_duplicates limits.duplicate_window_millis ≡ ok e.duplicate_window)
        × (e.limits ≡ limits)
  unfolding init
  init-parts is_live start e made = (ground arith, ground arith, ground arith)

  pub init-Tracks :
      (is_live : Bool) (start : ℤ) (e : Engine F)
      → init limits is_live start ≡ ok e
      → Tracks limits e [] [] start
  init-Tracks is_live start e made =
      let (rate, duplicates, same) = init-parts is_live start e made in
      (
        init-KeepsInstants limits.order_rate_window_millis e.rate_window start rate,
        init_duplicates-KeepsOrders limits.duplicate_window_millis e.duplicate_window start
            duplicates,
        same,
      )

  -- A new engine has recorded no order.
  pub init-events :
      (is_live : Bool) (start : ℤ) (e : Engine F)
      → init limits is_live start ≡ ok e
      → e.rate_window.events ≡ []
  unfolding Rate.init
  init-events is_live start e made =
      let (rate, _, _) = init-parts is_live start e made in ground arith
