-- ===== src/Windows/Duplicate/Idempotent.antt =====
-- Pruning twice at one instant.
use pretrade_risk_controls.Common.{◌≡◌, ap, Bool, true, String, List, [], ◌∷◌, ℤ, ◌-ℤ◌, not, All}
use pretrade_risk_controls.Common.Keep.{keep-keep}
use pretrade_risk_controls.Windows.Duplicate.{DuplicateWindow, is_expired, prune}

All-self {ℓ} :
    {A : Type ℓ} (test : A → Bool) (xs : List A) → All (λ x. test x ≡ true → test x ≡ true) xs
All-self test [] = tt
All-self test (x ∷ xs) = (λ h. h, All-self test xs)

-- Looking at the window twice at one instant shows the same fingerprints.
pub prune_idem : (w : DuplicateWindow) (now : ℤ) → prune (prune w now) now ≡ prune w now
unfolding prune
prune_idem w now =
    let kept = λ (e : String × ℤ). not (is_expired (now -ℤ w.window_millis) now e) in
    ap (λ es. record w { seen = es }) (keep-keep kept kept w.seen (All-self kept w.seen))
