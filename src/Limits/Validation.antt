-- ===== src/Limits/Validation.antt =====
-- `__post_init__` and coherent limit sets.
use pretrade_risk_controls.Common.{
  ◌≡◌, refl, sym, Bool, true, false, not, Option, none, some, List, [], ◌∷◌, ℤ, pos, ◌≤ℤ◌, ◌<ℤ◌,
  arith,
}
use mathlib.Core.Path.{subst}
use pretrade_risk_controls.Float.{Float, nought}
use pretrade_risk_controls.Python.{Result, ok, value_error, ◌>>=◌, ◌>>◌, raise_if, millis_per_day}
use pretrade_risk_controls.Clock.{is_roll}
use pretrade_risk_controls.Decision.{ControlId}
use pretrade_risk_controls.Limits.{
  RiskLimits, DisableEntry, members, as_entries, names_locked, bad_int, bad_float, check_numbers,
  post_init,
}

-- An integer limit is unset or at least one.
abbrev pub IsIntLimit : Option ℤ → Type 0
IsIntLimit none = Unit
IsIntLimit (some n) = pos 1 ≤ℤ n

bad_int-limit : (n : Option ℤ) → bad_int n ≡ false → IsIntLimit n
bad_int-limit none h = tt
bad_int-limit (some n) h = ground arith

limit-bad_int : (n : Option ℤ) → IsIntLimit n → bad_int n ≡ false
limit-bad_int none h = refl
limit-bad_int (some n) h = ground arith

-- A call that went through, in a chain that went through.
pub bind-ok :
    {A B : Type 0} (m : Result A) (f : A → Result B) (b : B)
    → (m >>= f) ≡ ok b
    → (a : A) × (m ≡ ok a) × (f a ≡ ok b)
bind-ok (ok a) f b h = (a, refl, h)
bind-ok value_error f b h = ground arith

-- A guard that was passed, in a chain that went through.
pub guard-ok :
    {A : Type 0} (b : Bool) (m : Result A) (a : A)
    → raise_if b >> m ≡ ok a
    → (b ≡ false) × (m ≡ ok a)
guard-ok true m a h = ground arith
guard-ok false m a h = (refl, h)

raise_if-roll :
    (roll : ℤ)
    → raise_if (not (is_roll roll)) ≡ ok tt
    → (pos 0 ≤ℤ roll) × (roll <ℤ pos millis_per_day)
raise_if-roll roll h = (ground arith, ground arith)

module _ {F : Type 0} ⦃fl : Float F⦄ where
  -- A float limit is unset or does not compare at or below zero. A NaN is one.
  abbrev pub IsFloatLimit : Option F → Type 0
  IsFloatLimit none = Unit
  IsFloatLimit (some x) = fl.le x nought ≡ false

  -- The numbers of a coherent limit set.
  pub record HasBounds (l : RiskLimits F) : Type 0 where
    pub daily_loss_limit-bound : IsFloatLimit l.daily_loss_limit_usd
    pub daily_notional_limit-bound : IsFloatLimit l.daily_notional_limit_usd
    pub order_quantity-bound : IsFloatLimit l.max_order_quantity
    pub order_notional-bound : IsFloatLimit l.max_order_notional_usd
    pub price_band-bound : IsFloatLimit l.price_band_fraction
    pub slippage-bound : IsFloatLimit l.max_execution_slippage
    pub position-bound : IsFloatLimit l.max_position_quantity
    pub exposure-bound : IsFloatLimit l.max_gross_exposure_usd
    pub quote_age-bound : IsIntLimit l.max_quote_age_millis
    pub duplicate_window-bound : IsIntLimit l.duplicate_window_millis
    pub orders-bound : IsIntLimit l.max_orders_per_window
    pub rejects-bound : IsIntLimit l.max_consecutive_rejects
    pub executions-bound : IsIntLimit l.max_executions_without_review
    pub working_orders-bound : IsIntLimit l.max_working_orders
    pub open_positions-bound : IsIntLimit l.max_open_positions
    pub rate_window-bound : pos 1 ≤ℤ l.order_rate_window_millis
    pub roll-bounds :
        (pos 0 ≤ℤ l.session_roll_millis) × (l.session_roll_millis <ℤ pos millis_per_day)

  -- Coherent numbers, and no well-formedness control in the disable list.
  abbrev pub IsValid : RiskLimits F → Type 0
  IsValid l = HasBounds l × (names_locked l.disabled_controls ≡ false)

  bad_float-limit : (x : Option F) → bad_float x ≡ false → IsFloatLimit x
  bad_float-limit none h = tt
  bad_float-limit (some x) h = h

  limit-bad_float : (x : Option F) → IsFloatLimit x → bad_float x ≡ false
  limit-bad_float none h = refl
  limit-bad_float (some x) h = h

pub members-as_entries : (cs : List ControlId) → members (as_entries cs) ≡ ok cs
unfolding members as_entries
members-as_entries [] = refl
members-as_entries (c ∷ cs) = ground (arith, members-as_entries cs)

module _ {F : Type 0} ⦃fl : Float F⦄ where
  check_numbers-HasBounds : (l : RiskLimits F) → check_numbers l ≡ ok tt → HasBounds l
  unfolding check_numbers
  check_numbers-HasBounds l h =
      let (daily_loss_limit, rest) = guard-ok _ _ tt h in
      let (daily_notional_limit, rest) = guard-ok _ _ tt rest in
      let (order_quantity, rest) = guard-ok _ _ tt rest in
      let (order_notional, rest) = guard-ok _ _ tt rest in
      let (price_band, rest) = guard-ok _ _ tt rest in
      let (slippage, rest) = guard-ok _ _ tt rest in
      let (position, rest) = guard-ok _ _ tt rest in
      let (exposure, rest) = guard-ok _ _ tt rest in
      let (quote_age, rest) = guard-ok _ _ tt rest in
      let (duplicate_window, rest) = guard-ok _ _ tt rest in
      let (orders, rest) = guard-ok _ _ tt rest in
      let (rejects, rest) = guard-ok _ _ tt rest in
      let (executions, rest) = guard-ok _ _ tt rest in
      let (working_orders, rest) = guard-ok _ _ tt rest in
      let (open_positions, rest) = guard-ok _ _ tt rest in
      let (rate_window, rest) = guard-ok _ _ tt rest in
      record {
        daily_loss_limit-bound = bad_float-limit l.daily_loss_limit_usd daily_loss_limit;
        daily_notional_limit-bound =
            bad_float-limit l.daily_notional_limit_usd daily_notional_limit;
        order_quantity-bound = bad_float-limit l.max_order_quantity order_quantity;
        order_notional-bound = bad_float-limit l.max_order_notional_usd order_notional;
        price_band-bound = bad_float-limit l.price_band_fraction price_band;
        slippage-bound = bad_float-limit l.max_execution_slippage slippage;
        position-bound = bad_float-limit l.max_position_quantity position;
        exposure-bound = bad_float-limit l.max_gross_exposure_usd exposure;
        quote_age-bound = bad_int-limit l.max_quote_age_millis quote_age;
        duplicate_window-bound = bad_int-limit l.duplicate_window_millis duplicate_window;
        orders-bound = bad_int-limit l.max_orders_per_window orders;
        rejects-bound = bad_int-limit l.max_consecutive_rejects rejects;
        executions-bound = bad_int-limit l.max_executions_without_review executions;
        working_orders-bound = bad_int-limit l.max_working_orders working_orders;
        open_positions-bound = bad_int-limit l.max_open_positions open_positions;
        rate_window-bound = bad_int-limit (some l.order_rate_window_millis) rate_window;
        roll-bounds = raise_if-roll l.session_roll_millis rest;
      }

  pub HasBounds-check_numbers : (l : RiskLimits F) → HasBounds l → check_numbers l ≡ ok tt
  unfolding check_numbers
  HasBounds-check_numbers l b =
      rw
        (
          limit-bad_float _ b.daily_loss_limit-bound,
          limit-bad_float _ b.daily_notional_limit-bound,
          limit-bad_float _ b.order_quantity-bound,
          limit-bad_float _ b.order_notional-bound,
          limit-bad_float _ b.price_band-bound,
          limit-bad_float _ b.slippage-bound,
          limit-bad_float _ b.position-bound,
          limit-bad_float _ b.exposure-bound,
          limit-bad_int _ b.quote_age-bound,
          limit-bad_int _ b.duplicate_window-bound,
          limit-bad_int _ b.orders-bound,
          limit-bad_int _ b.rejects-bound,
          limit-bad_int _ b.executions-bound,
          limit-bad_int _ b.working_orders-bound,
          limit-bad_int _ b.open_positions-bound,
        )
        (ground (arith, b.rate_window-bound, b.roll-bounds))

  pub post_init-passed :
      (l : RiskLimits F) (entries : List DisableEntry) (l' : RiskLimits F)
      → post_init l entries ≡ ok l'
      → (cs : List ControlId) × (check_numbers (record l { disabled_controls = cs }) ≡ ok tt)
        × (names_locked cs ≡ false)
        × (l' ≡ record l { disabled_controls = cs })
  unfolding post_init check_numbers
  post_init-passed l entries l' h =
      let (_, numbers, rest) = bind-ok (check_numbers l) _ l' h in
      let (cs, _, last) = bind-ok (members entries) _ l' rest in
      let (unlocked, made) = guard-ok (names_locked cs) _ l' last in
      (cs, numbers, unlocked, ground arith)

  -- A limit set that was constructed is coherent: it passed the guards on its numbers, of which a NaN
  -- passes those on floats, and no control that decides whether an order is well formed is disabled.
  pub post_init-IsValid :
      (l : RiskLimits F) (entries : List DisableEntry) (l' : RiskLimits F)
      → post_init l entries ≡ ok l'
      → IsValid l'
  post_init-IsValid l entries l' h =
      let (cs, numbers, unlocked, same) = post_init-passed l entries l' h in
      subst IsValid (sym same)
        (check_numbers-HasBounds (record l { disabled_controls = cs }) numbers, unlocked)

  -- A coherent limit set passes its own validation unchanged.
  pub IsValid-post_init :
      (l : RiskLimits F) → IsValid l → post_init l (as_entries l.disabled_controls) ≡ ok l
  unfolding post_init
  IsValid-post_init l (bounds, unlocked) =
      rw (HasBounds-check_numbers l bounds, members-as_entries l.disabled_controls, unlocked)
