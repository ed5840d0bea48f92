-- ===== src/Windows/Rate/Order.antt =====
-- Pruning the two ends of the deque, against filtering.
use pretrade_risk_controls.Common.{
  ◌≡◌, refl, ◌∙◌, ap, Bool, not, ◌&&◌, List, [], ◌∷◌, ◌++◌, ℤ, ◌-ℤ◌, ◌≤ℤ◌, ◌<ℤ◌, leb_ℤ, keep, All,
  All-append, arith,
}
use pretrade_risk_controls.Common.Keep.{keep-and, All-keep}
use pretrade_risk_controls.Windows.Rate.{RateWindow, drop_expired, drop_future, prune, record_event}

-- The events stand in the order of their instants.
abbrev pub IsSorted : List ℤ → Type 0
IsSorted [] = Unit
IsSorted (e ∷ es) = All (λ f. e ≤ℤ f) es × IsSorted es

-- The half-open window `(cutoff, now]`.
abbrev pub is_inside : ℤ → ℤ → ℤ → Bool
is_inside cutoff now e = not (leb_ℤ e cutoff) && leb_ℤ e now

keep_unchanged :
    (cutoff e : ℤ) (es : List ℤ)
    → cutoff <ℤ e
    → All (λ f. e ≤ℤ f) es
    → keep (λ f. not (leb_ℤ f cutoff)) es ≡ es
keep_unchanged cutoff e [] c a = refl
keep_unchanged cutoff e (f ∷ es) c a = ground (arith, keep_unchanged cutoff e es c a.1)

keep_none :
    (now e : ℤ) (es : List ℤ) → now <ℤ e → All (λ f. e ≤ℤ f) es → keep (λ f. leb_ℤ f now) es ≡ []
keep_none now e [] c a = refl
keep_none now e (f ∷ es) c a = ground (arith, keep_none now e es c a.1)

drop_expired-eq-keep :
    (cutoff : ℤ) (es : List ℤ)
    → IsSorted es
    → drop_expired cutoff es ≡ keep (λ f. not (leb_ℤ f cutoff)) es
unfolding drop_expired
drop_expired-eq-keep cutoff [] s = refl
drop_expired-eq-keep cutoff (e ∷ es) s =
    ground (arith, drop_expired-eq-keep cutoff es s.1, keep_unchanged cutoff e es)

drop_future-eq-keep :
    (now : ℤ) (es : List ℤ) → IsSorted es → drop_future now es ≡ keep (λ f. leb_ℤ f now) es
unfolding drop_future
drop_future-eq-keep now [] s = refl
drop_future-eq-keep now (e ∷ es) s =
    ground (arith, drop_future-eq-keep now es s.1, keep_none now e es)

pub keep-IsSorted : (test : ℤ → Bool) (es : List ℤ) → IsSorted es → IsSorted (keep test es)
keep-IsSorted test [] s = s
keep-IsSorted test (e ∷ es) s =
    ground (arith, keep-IsSorted test es s.1, All-keep (λ f. e ≤ℤ f) test es s.0)

pub append-IsSorted :
    (es : List ℤ) (t : ℤ) → IsSorted es → All (λ e. e ≤ℤ t) es → IsSorted (es ++ t ∷ [])
append-IsSorted [] t s a = (tt, tt)
append-IsSorted (e ∷ es) t s a =
    (All-append (λ f. e ≤ℤ f) es (t ∷ []) s.0 (a.0, tt), append-IsSorted es t s.1 a.1)

-- On events in order, pruning from both ends leaves exactly the events inside the window.
pub prune-events :
    (w : RateWindow) (now : ℤ)
    → IsSorted w.events
    → (prune w now).events ≡ keep (is_inside (now -ℤ w.window_millis) now) w.events
unfolding prune
prune-events w now s =
    let cutoff = now -ℤ w.window_millis in
    ap (drop_future now) (drop_expired-eq-keep cutoff w.events s)
    ∙ drop_future-eq-keep now _ (keep-IsSorted (λ f. not (leb_ℤ f cutoff)) w.events s)
    ∙ keep-and (λ f. leb_ℤ f now) (λ f. not (leb_ℤ f cutoff)) w.events

-- Recording keeps the events in order, at whatever instant the clock stands: what lies ahead of
-- the clock has been dropped.
pub record_event-IsSorted :
    (w : RateWindow) (now : ℤ) → IsSorted w.events → IsSorted (record_event w now).events
unfolding record_event
record_event-IsSorted w now s =
    let events = keep (is_inside (now -ℤ w.window_millis) now) w.events in
    rw (prune-events w now s)
      (append-IsSorted events now (keep-IsSorted _ w.events s) (All-inside_le _ now w.events))
  where
    All-inside_le : (cutoff t : ℤ) (es : List ℤ) → All (λ e. e ≤ℤ t) (keep (is_inside cutoff t) es)
    All-inside_le cutoff t [] = tt
    All-inside_le cutoff t (e ∷ es) = ground (arith, All-inside_le cutoff t es)
