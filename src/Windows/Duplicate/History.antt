-- ===== src/Windows/Duplicate/History.antt =====
-- The window against the whole history of a session.
use mathlib.Core.List.{append-nil, append_assoc}
use pretrade_risk_controls.Common.{
  String, str_eq, ◌≡◌, refl, Bool, not, ◌&&◌, ◌||◌, ◌∙◌, ap, Option, none, some, List, [], ◌∷◌,
  ◌++◌, ℤ, pos, ◌-ℤ◌, -ℤ_parts, ◌≤ℤ◌, leb_ℤ, ltb_ℤ, All, All-append, arith, is_some, if◌then◌else◌,
}
use pretrade_risk_controls.Common.Keep.{All-map}
use pretrade_risk_controls.Common.Dict.{
  Dict, lookup, lookup-insert, IsDict, insert-IsDict, keep-IsDict, only, lookup-keep,
}
use pretrade_risk_controls.Windows.Duplicate.{
  DuplicateWindow, prune, seen_within_window, record_order,
}

-- What a session does with the window.
pub data Call : Type 0 where
  ask : String → ℤ → Call
  send : String → ℤ → Call

abbrev pub instant : Call → ℤ
instant (ask f t) = t
instant (send f t) = t

pub step : DuplicateWindow → Call → DuplicateWindow
step w (ask f t) = (seen_within_window w f t).0
step w (send f t) = record_order w f t

unfoldable pub run : DuplicateWindow → List Call → DuplicateWindow
unfolding step
run w [] = w
run w (c ∷ cs) = run (step w c) cs

abbrev pub sends : List Call → Dict ℤ
sends [] = []
sends (ask f t ∷ cs) = sends cs
sends (send f t ∷ cs) = (f, t) ∷ sends cs

-- The clock does not step back.
abbrev pub IsForward : ℤ → List Call → ℤ → Type 0
IsForward t [] now = t ≤ℤ now
IsForward t (c ∷ cs) now = (t ≤ℤ instant c) × IsForward (instant c) cs now

-- When `f` was sent last: the later entries of the history come first.
unfoldable pub last_sent : String → Dict ℤ → Option ℤ
last_sent f [] = none
last_sent f ((g, t) ∷ h) = elim (last_sent f h) [
  | some u ↦ some u
  | none ↦ if str_eq g f then some t else none
]

-- Inside the half-open window `(cutoff, now]`.
abbrev pub is_inside : ℤ → ℤ → ℤ → Bool
is_inside cutoff now t = not (leb_ℤ t cutoff) && leb_ℤ t now

last_sent-append :
    (f g : String) (t : ℤ) (h : Dict ℤ)
    → last_sent f (h ++ (g, t) ∷ []) ≡ (if str_eq g f then some t else last_sent f h)
unfolding last_sent
last_sent-append f g t [] = refl
last_sent-append f g t ((j, u) ∷ h) = ground (arith, last_sent-append f g t h)

pub last_sent-le :
    (f : String) (t : ℤ) (h : Dict ℤ)
    → All (λ e. e.1 ≤ℤ t) h
    → (u : ℤ) → last_sent f h ≡ some u
    → u ≤ℤ t
unfolding last_sent
last_sent-le f t [] a u e = cc
last_sent-le f t ((g, v) ∷ h) a u e = ground (arith, last_sent-le f t h a.1 u)

-- After `history` was sent, the last call standing at `t`, a look-up finds the last sending that is
-- still inside the window.
pub record Holds (w : DuplicateWindow) (span : ℤ) (history : Dict ℤ) (t : ℤ) : Type 0 where
  pub same_span : w.window_millis ≡ span
  pub is_dict : IsDict w.seen
  pub past : All (λ e. e.1 ≤ℤ t) history
  pub holds : (f : String) → lookup f w.seen ≡ only (is_inside (t -ℤ span) t) (last_sent f history)

-- What `_prune` keeps at `now`.
abbrev is_kept : ℤ → ℤ → ℤ → Bool
is_kept cutoff now t = not (leb_ℤ t cutoff || ltb_ℤ now t)

only-is_kept :
    (cutoff now : ℤ) (o : Option ℤ) → only (is_kept cutoff now) o ≡ only (is_inside cutoff now) o
only-is_kept cutoff now none = refl
only-is_kept cutoff now (some t) = ground arith

only-only :
    (span t now : ℤ) (o : Option ℤ)
    → t ≤ℤ now
    → ((u : ℤ) → o ≡ some u → u ≤ℤ t)
    → only (is_inside (now -ℤ span) now) (only (is_inside (t -ℤ span) t) o)
      ≡ only (is_inside (now -ℤ span) now) o
only-only span t now none h p = refl
only-only span t now (some u) h p = ground (arith, p u refl, -ℤ_parts t span, -ℤ_parts now span)

module _ {w : DuplicateWindow} {span : ℤ} {history : Dict ℤ} {t : ℤ}
    (h : Holds w span history t) where
  pub prune-lookup :
      (now : ℤ)
      → t ≤ℤ now
      → (f : String)
      → lookup f (prune w now).seen ≡ only (is_inside (now -ℤ span) now) (last_sent f history)
  unfolding prune
  prune-lookup now later f =
      let cutoff = now -ℤ w.window_millis in
      lookup-keep (is_kept cutoff now) f w.seen h.is_dict
      ∙ only-is_kept cutoff now (lookup f w.seen)
      ∙ rw (h.same_span, h.holds f)
          (only-only span t now (last_sent f history) later (last_sent-le f t history h.past))

  pub prune-Holds : (now : ℤ) → t ≤ℤ now → Holds (prune w now) span history now
  unfolding prune
  prune-Holds now later = record {
    same_span = h.same_span;
    is_dict = keep-IsDict (is_kept (now -ℤ w.window_millis) now) w.seen h.is_dict;
    past = All-map (λ e p. omega arith) history h.past;
    holds = prune-lookup now later;
  }

  pub record_order-Holds :
      (g : String) (now : ℤ)
      → t ≤ℤ now
      → pos 1 ≤ℤ span
      → Holds (record_order w g now) span (history ++ (g, now) ∷ []) now
  unfolding record_order
  record_order-Holds g now later wide = record {
    same_span = (prune-Holds now later).same_span;
    is_dict = insert-IsDict g now (prune w now).seen (prune-Holds now later).is_dict;
    past =
        All-append (λ e. e.1 ≤ℤ now) history ((g, now) ∷ [])
          (All-map (λ e p. omega arith) history h.past) (omega arith, tt);
    holds = λ f.
        rw
          (
            lookup-insert g f now (prune w now).seen,
            prune-lookup now later f,
            last_sent-append f g now history,
          )
          (ground (arith, -ℤ_parts now span));
  }

-- After the calls, the sends among them are appended to the history.
run-Holds :
    (w : DuplicateWindow) (span : ℤ) (history : Dict ℤ) (t : ℤ) (cs : List Call) (now : ℤ)
    → Holds w span history t
    → pos 1 ≤ℤ span
    → IsForward t cs now
    → (u : ℤ) × Holds (run w cs) span (history ++ sends cs) u × (u ≤ℤ now)
unfolding run seen_within_window
run-Holds w span history t [] now h wide f = (t, rw (append-nil history) h, f)
run-Holds w span history t (ask g u ∷ cs) now h wide f =
    run-Holds (prune w u) span history u cs now (prune-Holds h u f.0) wide f.1
run-Holds w span history t (send g u ∷ cs) now h wide f =
    rw (append_assoc history ((g, u) ∷ []) (sends cs)) at (
      run-Holds (record_order w g u) span (history ++ (g, u) ∷ []) u cs now
        (record_order-Holds h g u f.0 wide) wide f.1)

-- While the clock does not step back, a window of positive width that saw any calls reports a
-- fingerprint exactly if its last sending lies inside `(now - width, now]`.
pub seen_within_window-run :
    (span start now : ℤ) (cs : List Call) (f : String)
    → pos 1 ≤ℤ span
    → IsForward start cs now
    → (seen_within_window (run (record { window_millis = span; seen = [] }) cs) f now).1
      ≡ is_some (only (is_inside (now -ℤ span) now) (last_sent f (sends cs)))
unfolding seen_within_window
seen_within_window-run span start now cs f wide forward =
    let w : DuplicateWindow = record { window_millis = span; seen = [] } in
    let fresh : Holds w span [] start = record {
      same_span = refl;
      is_dict = tt;
      past = tt;
      holds = λ g. unfold lookup last_sent in refl;
    } in
    let (u, h, later) = run-Holds w span [] start cs now fresh wide forward in
    ap is_some (prune-lookup h now later f)
