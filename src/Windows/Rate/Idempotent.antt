-- ===== src/Windows/Rate/Idempotent.antt =====
-- Pruning twice at one instant, in whatever order the events stand.
use pretrade_risk_controls.Common.{◌≡◌, refl, ◌∙◌, ap, false, List, [], ◌∷◌, ℤ, ◌-ℤ◌, leb_ℤ, arith}
use pretrade_risk_controls.Windows.Rate.{RateWindow, drop_expired, pop_last, drop_future, prune}

-- The first event, if there is one, has not expired.
abbrev IsFresh : ℤ → List ℤ → Type 0
IsFresh cutoff [] = Unit
IsFresh cutoff (e ∷ es) = leb_ℤ e cutoff ≡ false

drop_expired-IsFresh : (cutoff : ℤ) (es : List ℤ) → IsFresh cutoff (drop_expired cutoff es)
unfolding drop_expired
drop_expired-IsFresh cutoff [] = tt
drop_expired-IsFresh cutoff (e ∷ es) = ground (arith, drop_expired-IsFresh cutoff es)

drop_expired-fresh : (cutoff : ℤ) (es : List ℤ) → IsFresh cutoff es → drop_expired cutoff es ≡ es
unfolding drop_expired
drop_expired-fresh cutoff [] h = refl
drop_expired-fresh cutoff (e ∷ es) h = rw h

pop_last-IsFresh :
    (cutoff now e : ℤ) (es : List ℤ) → leb_ℤ e cutoff ≡ false → IsFresh cutoff (pop_last now e es)
pop_last-IsFresh cutoff now e [] h = ground arith
pop_last-IsFresh cutoff now e (f ∷ es) h = h

drop_future-IsFresh :
    (cutoff now : ℤ) (es : List ℤ) → IsFresh cutoff es → IsFresh cutoff (drop_future now es)
unfolding drop_future
drop_future-IsFresh cutoff now [] h = tt
drop_future-IsFresh cutoff now (e ∷ es) h = pop_last-IsFresh cutoff now e (drop_future now es) h

drop_future-pop_last :
    (now e : ℤ) (es : List ℤ)
    → drop_future now es ≡ es
    → drop_future now (pop_last now e es) ≡ pop_last now e es
unfolding drop_future
drop_future-pop_last now e [] h = ground arith
drop_future-pop_last now e (f ∷ es) h = rw h

drop_future_idem :
    (now : ℤ) (es : List ℤ) → drop_future now (drop_future now es) ≡ drop_future now es
unfolding drop_future
drop_future_idem now [] = refl
drop_future_idem now (e ∷ es) =
    drop_future-pop_last now e (drop_future now es) (drop_future_idem now es)

-- Looking at the window twice at one instant shows the same events.
pub prune_idem : (w : RateWindow) (now : ℤ) → prune (prune w now) now ≡ prune w now
unfolding prune
prune_idem w now =
    let cutoff = now -ℤ w.window_millis in
    let fresh = drop_expired cutoff w.events in
    let same : drop_future now (drop_expired cutoff (drop_future now fresh))
        ≡ drop_future now fresh =
      ap (drop_future now) (
        drop_expired-fresh cutoff (drop_future now fresh)
          (drop_future-IsFresh cutoff now fresh (drop_expired-IsFresh cutoff w.events)))
      ∙ drop_future_idem now fresh in
    ap (λ es. record w { events = es }) same
