-- ===== src/Windows/Rate/Gate.antt =====
-- The window behind a limit, as the order rate control uses it: an order is sent, and recorded, only
-- while fewer than `limit` sends are counted.
use mathlib.Core.Path.{subst}
use pretrade_risk_controls.Common.{
  ◌≤◌, ◌≡◌, refl, Bool, true, false, List, [], ◌∷◌, ◌++◌, ℤ, pos, ◌-ℤ◌, ◌≤ℤ◌, ltb_ℤ, keep, length,
  length-append, arith,
}
use pretrade_risk_controls.Windows.Rate.{
  RateWindow, drop_expired, drop_future, prune, count, record_event,
}
use pretrade_risk_controls.Windows.Rate.Order.{is_inside}
use pretrade_risk_controls.Windows.Rate.History.{
  Call, ask, send, step, run, sends, IsForward, count-run,
}

length-drop_expired-le : (cutoff : ℤ) (es : List ℤ) → length (drop_expired cutoff es) ≤ length es
unfolding drop_expired
length-drop_expired-le cutoff [] = omega arith
length-drop_expired-le cutoff (e ∷ es) = ground (arith, length-drop_expired-le cutoff es)

length-drop_future-le : (now : ℤ) (es : List ℤ) → length (drop_future now es) ≤ length es
unfolding drop_future
length-drop_future-le now [] = omega arith
length-drop_future-le now (e ∷ es) = grind (arith, length-drop_future-le now es)

pub length-prune-le : (w : RateWindow) (now : ℤ) → length (prune w now).events ≤ length w.events
unfolding prune
length-prune-le w now = omega (
  arith,
  length-drop_future-le now (drop_expired (now -ℤ w.window_millis) w.events),
  length-drop_expired-le (now -ℤ w.window_millis) w.events,
)

-- The calls of one attempt at `t`: the control counts, and the order goes out if it may.
abbrev attempt : Bool → ℤ → List Call
attempt true t = ask t ∷ send t ∷ []
attempt false t = ask t ∷ []

abbrev pub is_below : ℤ → RateWindow → ℤ → Bool
is_below limit w t = ltb_ℤ (count w t).1 limit

-- The calls of a session that attempts an order at each of the instants.
unfoldable pub session : ℤ → RateWindow → List ℤ → List Call
session limit w [] = []
session limit w (t ∷ ts) =
    let calls = attempt (is_below limit w t) t in calls ++ session limit (run w calls) ts

abbrev pub IsForwardFrom : ℤ → List ℤ → ℤ → Type 0
IsForwardFrom start [] now = start ≤ℤ now
IsForwardFrom start (t ∷ ts) now = (start ≤ℤ t) × IsForwardFrom t ts now

IsForward-attempt :
    (b : Bool) (start t : ℤ) (rest : List Call) (now : ℤ)
    → start ≤ℤ t
    → IsForward t rest now
    → IsForward start (attempt b t ++ rest) now
IsForward-attempt true start t rest now h f = (h, (omega arith, f))
IsForward-attempt false start t rest now h f = (h, f)

IsForward-session :
    (limit : ℤ) (w : RateWindow) (start : ℤ) (ts : List ℤ) (now : ℤ)
    → IsForwardFrom start ts now
    → IsForward start (session limit w ts) now
unfolding session
IsForward-session limit w start [] now f = f
IsForward-session limit w start (t ∷ ts) now (h, f) =
    IsForward-attempt (is_below limit w t) start t _ now h
      (IsForward-session limit (run w (attempt (is_below limit w t) t)) t ts now f)

run-append : (w : RateWindow) (cs ds : List Call) → run w (cs ++ ds) ≡ run (run w cs) ds
unfolding run
run-append w [] ds = refl
run-append w (ask t ∷ cs) ds = run-append (step w (ask t)) cs ds
run-append w (send t ∷ cs) ds = run-append (step w (send t)) cs ds

attempt-le :
    (limit : ℤ) (w : RateWindow) (t : ℤ)
    → pos (length w.events) ≤ℤ limit
    → pos (length (run w (attempt (is_below limit w t) t)).events) ≤ℤ limit
unfolding run count record_event
attempt-le limit w t h = ground (
  arith,
  length-prune-le w t,
  length-prune-le (prune w t) t,
  length-append (prune (prune w t) t).events (t ∷ []),
)

session-le :
    (limit : ℤ) (w : RateWindow) (ts : List ℤ)
    → pos (length w.events) ≤ℤ limit
    → pos (length (run w (session limit w ts)).events) ≤ℤ limit
unfolding session run
session-le limit w [] h = h
session-le limit w (t ∷ ts) h =
    rw (run-append w (attempt (is_below limit w t) t))
      (session-le limit (run w (attempt (is_below limit w t) t)) ts (attempt-le limit w t h))

-- While the clock does not step back, however many orders are attempted, at most `limit` are sent in
-- any trailing window: at every later instant the sends inside `(now - width, now]` are `limit` or
-- fewer.
pub session-within_limit :
    (limit span start now : ℤ) (ts : List ℤ)
    → pos 0 ≤ℤ limit
    → pos 1 ≤ℤ span
    → IsForwardFrom start ts now
    → let w : RateWindow = record { window_millis = span; events = [] } in
      pos (length (keep (is_inside (now -ℤ span) now) (sends (session limit w ts)))) ≤ℤ limit
unfolding count
session-within_limit limit span start now ts h wide f =
    let w : RateWindow = record { window_millis = span; events = [] } in
    let counted =
      count-run span start now (session limit w ts) wide
        (IsForward-session limit w start ts now f) in
    let small : pos (length (prune (run w (session limit w ts)) now).events) ≤ℤ limit =
      omega (arith, session-le limit w ts h, length-prune-le (run w (session limit w ts)) now) in
    subst (λ n. n ≤ℤ limit) counted small
