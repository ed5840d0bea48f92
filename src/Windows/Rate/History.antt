-- ===== src/Windows/Rate/History.antt =====
-- The window against the whole history of a session, and the cap that a gate on it enforces.
use pretrade_risk_controls.Common.{
  ◌≡◌, refl, ap, true, List, [], ◌∷◌, ◌++◌, ℤ, pos, ◌-ℤ◌, ◌≤ℤ◌, -ℤ_parts, keep, length, All,
  All-append, arith,
}
use mathlib.Core.List.{append-nil, append_assoc}
use pretrade_risk_controls.Common.Keep.{keep-append, keep-keep, All-map}
use pretrade_risk_controls.Windows.Rate.{RateWindow, prune, count, record_event}
use pretrade_risk_controls.Windows.Rate.Order.{
  IsSorted, is_inside, prune-events, record_event-IsSorted, keep-IsSorted,
}

-- What a session does with the window.
pub data Call : Type 0 where
  ask : ℤ → Call
  send : ℤ → Call

abbrev pub instant : Call → ℤ
instant (ask t) = t
instant (send t) = t

pub step : RateWindow → Call → RateWindow
step w (ask t) = (count w t).0
step w (send t) = record_event w t

unfoldable pub run : RateWindow → List Call → RateWindow
unfolding step
run w [] = w
run w (c ∷ cs) = run (step w c) cs

-- The instants of the sends among the calls.
abbrev pub sends : List Call → List ℤ
sends [] = []
sends (ask t ∷ cs) = sends cs
sends (send t ∷ cs) = t ∷ sends cs

-- The clock does not step back: from `t` on, each call stands at or after the one before it.
abbrev pub IsForward : ℤ → List Call → ℤ → Type 0
IsForward t [] now = t ≤ℤ now
IsForward t (c ∷ cs) now = (t ≤ℤ instant c) × IsForward (instant c) cs now

-- After `history` was sent, the last call standing at `t`, the window holds what is inside it.
pub record Holds (w : RateWindow) (span : ℤ) (history : List ℤ) (t : ℤ) : Type 0 where
  pub same_span : w.window_millis ≡ span
  pub sorted : IsSorted w.events
  pub past : All (λ e. e ≤ℤ t) history
  pub holds : w.events ≡ keep (is_inside (t -ℤ span) t) history

abbrev LaterInside : ℤ → ℤ → ℤ → Type 0
LaterInside span t now =
    (e : ℤ) → e ≤ℤ t → is_inside (now -ℤ span) now e ≡ true → is_inside (t -ℤ span) t e ≡ true

is_inside-LaterInside : (span t now : ℤ) → t ≤ℤ now → LaterInside span t now
is_inside-LaterInside span t now h e p q = ground (arith, -ℤ_parts t span, -ℤ_parts now span)

-- At a later instant the window over the whole history is that over what was still inside.
keep-later :
    (span t now : ℤ) (history : List ℤ)
    → t ≤ℤ now
    → All (λ e. e ≤ℤ t) history
    → keep (is_inside (now -ℤ span) now) (keep (is_inside (t -ℤ span) t) history)
      ≡ keep (is_inside (now -ℤ span) now) history
keep-later span t now history h past =
    keep-keep (is_inside (now -ℤ span) now) (is_inside (t -ℤ span) t) history
      (All-map (is_inside-LaterInside span t now h) history past)

module _ {w : RateWindow} {span : ℤ} {history : List ℤ} {t : ℤ} (h : Holds w span history t) where
  pub prune-eq-keep :
      (now : ℤ) → t ≤ℤ now → (prune w now).events ≡ keep (is_inside (now -ℤ span) now) history
  prune-eq-keep now later =
      rw (prune-events w now h.sorted, h.same_span, h.holds)
        (keep-later span t now history later h.past)

  pub prune-Holds : (now : ℤ) → t ≤ℤ now → Holds (prune w now) span history now
  unfolding prune
  prune-Holds now later = record {
    same_span = h.same_span;
    sorted =
        rw (prune-events w now h.sorted)
          (keep-IsSorted (is_inside (now -ℤ w.window_millis) now) w.events h.sorted);
    past = All-map (λ e p. omega arith) history h.past;
    holds = prune-eq-keep now later;
  }

  pub record_event-Holds :
      (now : ℤ)
      → t ≤ℤ now
      → pos 1 ≤ℤ span
      → Holds (record_event w now) span (history ++ now ∷ []) now
  unfolding record_event
  record_event-Holds now later wide = record {
    same_span = (prune-Holds now later).same_span;
    sorted = record_event-IsSorted w now h.sorted;
    past =
        All-append (λ e. e ≤ℤ now) history (now ∷ []) (All-map (λ e p. omega arith) history h.past)
          (omega arith, tt);
    holds =
        rw (prune-eq-keep now later, keep-append (is_inside (now -ℤ span) now) history (now ∷ []))
          (ground (arith, -ℤ_parts now span));
  }

-- After the calls, the sends among them are appended to the history.
run-Holds :
    (w : RateWindow) (span : ℤ) (history : List ℤ) (t : ℤ) (cs : List Call) (now : ℤ)
    → Holds w span history t
    → pos 1 ≤ℤ span
    → IsForward t cs now
    → (u : ℤ) × Holds (run w cs) span (history ++ sends cs) u × (u ≤ℤ now)
unfolding run count
run-Holds w span history t [] now h wide f = (t, rw (append-nil history) h, f)
run-Holds w span history t (ask u ∷ cs) now h wide f =
    run-Holds (prune w u) span history u cs now (prune-Holds h u f.0) wide f.1
run-Holds w span history t (send u ∷ cs) now h wide f =
    rw (append_assoc history (u ∷ []) (sends cs)) at (
      run-Holds (record_event w u) span (history ++ u ∷ []) u cs now
        (record_event-Holds h u f.0 wide) wide f.1)

-- While the clock does not step back, a window of positive width that saw any calls counts exactly
-- the sends inside `(now - width, now]`, whatever was asked and pruned in between.
pub count-run :
    (span start now : ℤ) (cs : List Call)
    → pos 1 ≤ℤ span
    → IsForward start cs now
    → (count (run (record { window_millis = span; events = [] }) cs) now).1
      ≡ pos (length (keep (is_inside (now -ℤ span) now) (sends cs)))
unfolding count
count-run span start now cs wide f =
    let fresh : Holds (record { window_millis = span; events = [] }) span [] start = record {
      same_span = refl;
      sorted = tt;
      past = tt;
      holds = refl;
    } in
    let (u, h, later) = run-Holds _ span [] start cs now fresh wide f in
    ap (λ es. pos (length es)) (prune-eq-keep h now later)
