-- ===== src/Clock/Roll.antt =====
-- Session days, which start `session_roll_millis` after midnight UTC, and the trading day.
use pretrade_risk_controls.Common.{
  ℕ, ◌-◌, ◌≤◌, zero, suc, inl, inr, ◌≡◌, ap, ◌∙◌, ◌↔◌, ◌⊎◌, true, ℤ, pos, negsuc, ◌+ℤ◌, ◌-ℤ◌, div_ℤ,
  arith,
}
use pretrade_risk_controls.Python.{Python, IsCalendar, millis_per_day, ok}
use pretrade_risk_controls.Clock.{is_roll, roll_shift, session_date, trading_day}

next_day :
    (a : ℤ) → div_ℤ (a +ℤ pos millis_per_day) millis_per_day ≡ div_ℤ a millis_per_day +ℤ pos 1
unfolding ◌+ℤ◌
next_day (pos n) = ground arith
next_day (negsuc n) = ground arith

+ℤ_cancel : (a b : ℤ) → a +ℤ pos 1 ≡ b +ℤ pos 1 → a ≡ b
unfolding ◌+ℤ◌
+ℤ_cancel a b h = ground arith

shifted-zero : (a : ℤ) → a +ℤ pos 0 ≡ a -ℤ pos 0
unfolding ◌+ℤ◌ ◌-ℤ◌
shifted-zero a = ground arith

-- The number of the session day that an instant lies in.
abbrev pub session_day : ℤ → ℤ → ℤ
session_day now roll = div_ℤ (now -ℤ roll) millis_per_day

shifted-later :
    (a : ℤ) (n : ℕ)
    → n ≤ millis_per_day
    → a +ℤ pos (millis_per_day - n) ≡ (a -ℤ pos n) +ℤ pos millis_per_day
unfolding ◌+ℤ◌ ◌-ℤ◌
shifted-later a n h = ground arith

-- The shift is the roll's complement to a day, or nothing at a roll of zero.
shifted :
    (roll : ℤ)
    → is_roll roll ≡ true
    → ((a : ℤ) → a +ℤ pos (roll_shift roll) ≡ a -ℤ roll)
      ⊎ ((a : ℤ) → a +ℤ pos (roll_shift roll) ≡ (a -ℤ roll) +ℤ pos millis_per_day)
shifted (pos zero) h = inl shifted-zero
shifted (pos (suc n)) h =
    let complement : roll_shift (pos (suc n)) ≡ millis_per_day - suc n = ground arith in
    inr (λ a. ap (λ k. a +ℤ pos k) complement ∙ shifted-later a (suc n) (ground arith))
shifted (negsuc n) h = ground arith

-- The shifted instants lie in the same UTC day exactly if the instants lie in the same session day.
same_day_iff :
    (a b roll : ℤ)
    → is_roll roll ≡ true
    → (div_ℤ (a +ℤ pos (roll_shift roll)) millis_per_day
        ≡ div_ℤ (b +ℤ pos (roll_shift roll)) millis_per_day)
      ↔ (session_day a roll ≡ session_day b roll)
same_day_iff a b roll h = elim (shifted roll h) [
  | inl same ↦ rw (same a, same b) (λ e. e, λ e. e)
  | inr later ↦
      rw (later a, later b, next_day (a -ℤ roll), next_day (b -ℤ roll))
        (+ℤ_cancel _ _, λ e. ap (λ d. d +ℤ pos 1) e)
]

module _ ⦃py : Python⦄ where
  -- Two instants have the same trading day exactly if they lie in the same session day, for a roll
  -- that the limits admit. Dates tell the UTC days apart and nothing else.
  pub trading_day-same_iff :
      (a b roll : ℤ)
      → IsCalendar py
      → is_roll roll ≡ true
      → (trading_day a roll ≡ trading_day b roll) ↔ (session_day a roll ≡ session_day b roll)
  unfolding trading_day session_date
  trading_day-same_iff a b roll calendar h =
      let dates = calendar (a +ℤ pos (roll_shift roll)) (b +ℤ pos (roll_shift roll)) in
      let days = same_day_iff a b roll h in
      (λ same. days.0 (dates.0 (ground arith)), λ same. rw h (ap ok (dates.1 (days.1 same))))
