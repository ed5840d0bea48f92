-- ===== src/Windows/Rate.antt =====
-- `RateWindow`: the recorded instants, the oldest first.
pub mod Order
pub mod History
pub mod Gate
pub mod Idempotent
use pretrade_risk_controls.Common.{
  ℕ, Bool, true, false, List, [], ◌∷◌, ◌++◌, ℤ, pos, ◌-ℤ◌, leb_ℤ, ltb_ℤ, length, if◌then◌else◌,
}
use pretrade_risk_controls.Python.{Result, ok, ◌>>=◌, ◌>>◌, raise_if}

pub record RateWindow : Type 0 where
  pub window_millis : ℤ
  pub events : List ℤ

-- `while events and events[0] <= cutoff: events.popleft()`
unfoldable pub drop_expired : ℤ → List ℤ → List ℤ
drop_expired cutoff [] = []
drop_expired cutoff (e ∷ es) = if leb_ℤ e cutoff then drop_expired cutoff es else e ∷ es

-- The loop below at its last round for `e`: nothing is left behind it, or something is.
abbrev pub pop_last : ℤ → ℤ → List ℤ → List ℤ
pop_last now e [] = if ltb_ℤ now e then [] else e ∷ []
pop_last now e (f ∷ fs) = e ∷ f ∷ fs

-- `while events and events[-1] > now: events.pop()`
unfoldable pub drop_future : ℤ → List ℤ → List ℤ
drop_future now [] = []
drop_future now (e ∷ es) = pop_last now e (drop_future now es)

unfoldable pub init : ℤ → Result RateWindow
init span = do raise_if (leb_ℤ span (pos 0)); ok (record { window_millis = span; events = [] })

unfoldable pub prune : RateWindow → ℤ → RateWindow
prune w now = record w { events = drop_future now (drop_expired (now -ℤ w.window_millis) w.events) }

-- `count` prunes too: the new window and the number of events.
unfoldable pub count : RateWindow → ℤ → RateWindow × ℤ
count w now = let w' = prune w now in (w', pos (length w'.events))

-- `RateWindow.record`
unfoldable pub record_event : RateWindow → ℤ → RateWindow
record_event w now = let w' = prune w now in record w' { events = w'.events ++ now ∷ [] }

unfoldable pub reset : RateWindow → RateWindow
reset w = record w { events = [] }
