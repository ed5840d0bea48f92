-- ===== src/Clock.antt =====
-- src/pretrade_risk/clock.py: the manual clock and the trading day.
pub mod Roll
use pretrade_risk_controls.Common.{
  ℕ, ◌-◌, ◌%◌, String, Bool, ◌||◌, ℤ, pos, pos_part, ◌+ℤ◌, ltb_ℤ, leb_ℤ, not, ◌&&◌, leb,
}
use pretrade_risk_controls.Python.{Python, millis_per_day, Result, ok, ◌>>◌, ◌>>=◌, raise_if}

pub record ManualClock : Type 0 where
  pub now : ℤ

pub advance_millis : ManualClock → ℤ → Result ManualClock
advance_millis c delta = do raise_if (ltb_ℤ delta (pos 0)); ok (record c { now = c.now +ℤ delta })

pub set_millis : ManualClock → ℤ → ManualClock
set_millis c t = record c { now = t }

-- `0 <= session_roll_millis < MILLIS_PER_DAY`
abbrev pub is_roll : ℤ → Bool
is_roll roll = leb_ℤ (pos 0) roll && ltb_ℤ roll (pos millis_per_day)

-- `(MILLIS_PER_DAY - roll) % MILLIS_PER_DAY`, for a roll that `is_roll` admits
abbrev pub roll_shift : ℤ → ℕ
roll_shift roll = (millis_per_day - pos_part roll) % millis_per_day

module _ ⦃py : Python⦄ where
  -- The body of `trading_day` behind its guard.
  unfoldable pub session_date : ℤ → ℤ → String
  session_date now roll = py.iso_date (now +ℤ pos (roll_shift roll))

  pub trading_day : ℤ → ℤ → Result String
  unfolding session_date
  trading_day now roll = do raise_if (not (is_roll roll)); ok (session_date now roll)
