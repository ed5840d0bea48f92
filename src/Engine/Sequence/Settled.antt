-- ===== src/Engine/Sequence/Settled.antt =====
-- The loop reads the engine as it was before the loop: what the two window controls prune while they
-- look changes no later look.
use mathlib.Core.Option.{some-injective}
use mathlib.Core.Path.{subst}
use pretrade_risk_controls.Common.{
  String, ◌≡◌, refl, ◌∙◌, sym, ap, Bool, Option, none, some, List, [], ◌∷◌, ℤ, arith, Bool-cases,
  inl, inr, is_some, not, ◌&&◌,
}
use pretrade_risk_controls.Float.{Float}
use pretrade_risk_controls.Python.{Python}
use pretrade_risk_controls.Decision.{ControlId, accepted_decision}
use pretrade_risk_controls.Order.{OrderRequest}
use pretrade_risk_controls.Limits.{is_disabled}
use pretrade_risk_controls.Windows.Rate
use pretrade_risk_controls.Windows.Rate.{RateWindow}
use pretrade_risk_controls.Windows.Rate.Idempotent.{prune_idem as rate_idem}
use pretrade_risk_controls.Windows.Duplicate
use pretrade_risk_controls.Windows.Duplicate.{DuplicateWindow}
use pretrade_risk_controls.Windows.Duplicate.Idempotent.{prune_idem as duplicate_idem}
use pretrade_risk_controls.Engine.State.{Engine, roll_trading_day}
use pretrade_risk_controls.Engine.Checks.Outcome.{Outcome, satisfied, refused, raises}
use pretrade_risk_controls.Engine.Sequence.{
  control_sequence, runs, is_armed, check, look, walk, evaluate, Verdict, decided, raised,
}
use pretrade_risk_controls.Engine.Derived.{
  breached, bypass_active, floor, leg_pnl, leg_peak, effective_max_order_quantity,
  effective_max_order_notional,
}
use pretrade_risk_controls.Engine.Checks.Stops.{check_kill_switch, check_loss_limit}
use pretrade_risk_controls.Engine.Checks.Eligibility.{
  check_instrument_permitted, check_instrument_restricted, check_session_state,
}
use pretrade_risk_controls.Engine.Checks.Validation.{check_max_quantity, check_max_notional}
use pretrade_risk_controls.Engine.Checks.Prices.{
  check_quote_age, check_price_band, check_execution_slippage,
}
use pretrade_risk_controls.Engine.Checks.Conduct.{
  check_duplicate, check_order_rate, check_consecutive_rejects, check_repeated_execution,
}
use pretrade_risk_controls.Engine.Checks.Exposure.{
  check_working_orders, check_open_positions, check_position_limit, check_gross_exposure,
  check_daily_notional,
}

-- The engine with other windows.
abbrev pub with_windows : {F : Type 0} → Engine F → RateWindow → Option DuplicateWindow → Engine F
with_windows e w d = record e { rate_window = w; duplicate_window = d }

abbrev pub settle : Option DuplicateWindow → ℤ → Option DuplicateWindow
settle none now = none
settle (some w) now = some (Duplicate.prune w now)

-- Windows that show at `now` what the engine's show.
pub record IsSettled {F : Type 0} (e : Engine F) (w : RateWindow) (d : Option DuplicateWindow)
    (now : ℤ) : Type 0 where
  pub rate : Rate.prune w now ≡ Rate.prune e.rate_window now
  pub duplicates : settle d now ≡ settle e.duplicate_window now

-- The decision as a function of what each control says: the first objection, else acceptance.
unfoldable pub first_objection : {F : Type 0} → List ControlId → (ControlId → Outcome F) → Verdict F
first_objection [] says = decided accepted_decision
first_objection (c ∷ cs) says = elim (says c) [
  | satisfied ↦ first_objection cs says
  | refused d ↦ decided d
  | raises ↦ raised
]

settle_idem : (d : Option DuplicateWindow) (now : ℤ) → settle (settle d now) now ≡ settle d now
settle_idem none now = refl
settle_idem (some w) now = ap some (duplicate_idem w now)

module _ {F : Type 0} ⦃fl : Float F⦄ ⦃py : Python⦄ (exists : String → Option Bool) (e : Engine F)
    (r : OrderRequest F) (now : ℤ) where
  -- What a control says on an order at `now`, before any other control has looked.
  abbrev pub says : ControlId → Outcome F
  says c = (look exists c e r now).1

  duplicate-windows :
      (w : RateWindow) (d d' : Option DuplicateWindow)
      → settle d now ≡ settle d' now
      → (check_duplicate (with_windows e w d) r now).1
        ≡ (check_duplicate (record e { duplicate_window = d' }) r now).1
  unfolding check_duplicate Duplicate.seen_within_window
  duplicate-windows w none none h = refl
  duplicate-windows w none (some v) h = cc
  duplicate-windows w (some v) none h = cc
  duplicate-windows w (some v) (some u) h = rw (some-injective _ _ h)

  rate-windows :
      (w : RateWindow) (d : Option DuplicateWindow)
      → Rate.prune w now ≡ Rate.prune e.rate_window now
      → (check_order_rate (with_windows e w d) now).1 ≡ (check_order_rate e now).1
  unfolding check_order_rate Rate.count
  rate-windows w d h = rw h

  check-windows :
      (c : ControlId) {w : RateWindow} {d : Option DuplicateWindow}
      → IsSettled e w d now
      → (check exists c (with_windows e w d) r now).1 ≡ (check exists c e r now).1
  unfolding check check_kill_switch check_loss_limit breached bypass_active floor leg_pnl leg_peak
      check_instrument_permitted check_instrument_restricted check_session_state check_max_quantity
      check_max_notional effective_max_order_quantity effective_max_order_notional check_quote_age
      check_price_band check_execution_slippage check_consecutive_rejects check_repeated_execution
      check_working_orders check_open_positions check_position_limit check_gross_exposure
      check_daily_notional
  check-windows ControlId.duplicate_order {w} {d} h =
      duplicate-windows w d e.duplicate_window h.duplicates
  check-windows ControlId.order_rate {w} {d} h = rate-windows w d h.rate
  check-windows _ h = refl

  is_some-settle :
      (d d' : Option DuplicateWindow) → settle d now ≡ settle d' now → is_some d ≡ is_some d'
  is_some-settle none none h = refl
  is_some-settle none (some v) h = cc
  is_some-settle (some w) none h = cc
  is_some-settle (some w) (some v) h = refl

  runs-windows :
      (c : ControlId) {w : RateWindow} {d : Option DuplicateWindow}
      → IsSettled e w d now
      → runs (with_windows e w d) c ≡ runs e c
  unfolding runs is_armed
  runs-windows ControlId.duplicate_order {w} {d} h =
      ap (λ b. not (is_disabled e.limits ControlId.duplicate_order) && b)
        (is_some-settle d e.duplicate_window h.duplicates)
  runs-windows ControlId.kill_switch h = refl
  runs-windows _ h = refl

  pub look-windows :
      (c : ControlId) {w : RateWindow} {d : Option DuplicateWindow}
      → IsSettled e w d now
      → (look exists c (with_windows e w d) r now).1 ≡ says c
  unfolding look
  look-windows c {w} {d} h = ground (arith, runs-windows c h, check-windows c h)

  -- The windows after a look at the control, from those before it.
  abbrev IsLookedAt : Engine F → Type 0
  IsLookedAt e' =
      (w : RateWindow) × (d : Option DuplicateWindow) × (e' ≡ with_windows e w d)
      × IsSettled e w d now

  check-IsLookedAt :
      (c : ControlId) (w : RateWindow) (d : Option DuplicateWindow)
      → IsSettled e w d now
      → IsLookedAt (check exists c (with_windows e w d) r now).0
  unfolding check check_duplicate Duplicate.seen_within_window check_order_rate Rate.count
  check-IsLookedAt ControlId.duplicate_order w none h = (w, none, refl, h)
  check-IsLookedAt ControlId.duplicate_order w (some v) h = (
    w,
    some (Duplicate.prune v now),
    refl,
    record { rate = h.rate; duplicates = settle_idem (some v) now ∙ h.duplicates },
  )
  check-IsLookedAt ControlId.order_rate w d h = (
    Rate.prune w now,
    d,
    refl,
    record { rate = rate_idem w now ∙ h.rate; duplicates = h.duplicates },
  )
  check-IsLookedAt _ w d h = (w, d, refl, h)

  look-IsLookedAt :
      (c : ControlId) (w : RateWindow) (d : Option DuplicateWindow)
      → IsSettled e w d now
      → IsLookedAt (look exists c (with_windows e w d) r now).0
  unfolding look
  look-IsLookedAt c w d h = elim (Bool-cases (runs (with_windows e w d) c)) [
    | inl on ↦ rw on (check-IsLookedAt c w d h)
    | inr off ↦ rw off (w, d, refl, h)
  ]

  abbrev Agrees : Engine F × Verdict F → Verdict F → Type 0
  Agrees end v = (end.1 ≡ v) × IsLookedAt end.0

  -- One round of each loop, from what the control says.
  abbrev round : List ControlId → Engine F → Outcome F → Engine F × Verdict F
  round cs e' o = elim o [
    | satisfied ↦ walk exists cs e' r now
    | refused d ↦ (e', decided d)
    | raises ↦ (e', raised)
  ]

  abbrev pure_round : List ControlId → Outcome F → Verdict F
  pure_round cs o = elim o [
    | satisfied ↦ first_objection cs says
    | refused d ↦ decided d
    | raises ↦ raised
  ]

  round-Agrees :
      (cs : List ControlId) (o : Outcome F) (e' : Engine F)
      → IsLookedAt e'
      → ((w : RateWindow) (d : Option DuplicateWindow)
          → IsSettled e w d now
          → Agrees (walk exists cs (with_windows e w d) r now) (first_objection cs says))
      → Agrees (round cs e' o) (pure_round cs o)
  round-Agrees cs satisfied e' (w, d, p, h) rest =
      subst (λ x. Agrees (walk exists cs x r now) (first_objection cs says)) (sym p) (rest w d h)
  round-Agrees cs (refused v) e' looked rest = (refl, looked)
  round-Agrees cs raises e' looked rest = (refl, looked)

  walk-Agrees :
      (cs : List ControlId) (w : RateWindow) (d : Option DuplicateWindow)
      → IsSettled e w d now
      → Agrees (walk exists cs (with_windows e w d) r now) (first_objection cs says)
  unfolding walk first_objection
  walk-Agrees [] w d h = (refl, (w, d, refl, h))
  walk-Agrees (c ∷ cs) w d h =
      let e' = (look exists c (with_windows e w d) r now).0 in
      subst (λ o. Agrees (round cs e' o) (pure_round cs (says c))) (sym (look-windows c h))
        (round-Agrees cs (says c) e' (look-IsLookedAt c w d h) (walk-Agrees cs))

module _ {F : Type 0} ⦃fl : Float F⦄ ⦃py : Python⦄ (exists : String → Option Bool) where
  -- The verdict on an order is the first objection in the control sequence, each control asked about
  -- the engine as it is once the trading day has rolled.
  pub evaluate-eq-first_objection :
      (e : Engine F) (r : OrderRequest F) (now : ℤ)
      → (evaluate exists e r now).1
        ≡ first_objection control_sequence (says exists (roll_trading_day e now) r now)
  unfolding evaluate
  evaluate-eq-first_objection e r now =
      let e' = roll_trading_day e now in
      (walk-Agrees exists e' r now control_sequence e'.rate_window e'.duplicate_window
        (record { rate = refl; duplicates = refl })).0

  -- What `evaluate` leaves behind: the engine once the day has rolled, with windows that show at
  -- this instant what they showed before.
  pub evaluate-IsSettled :
      (e : Engine F) (r : OrderRequest F) (now : ℤ)
      → (w : RateWindow) × (d : Option DuplicateWindow) × ((evaluate exists e r now).0
          ≡ with_windows (roll_trading_day e now) w d)
        × IsSettled (roll_trading_day e now) w d now
  unfolding evaluate
  evaluate-IsSettled e r now =
      let e' = roll_trading_day e now in
      (walk-Agrees exists e' r now control_sequence e'.rate_window e'.duplicate_window
        (record { rate = refl; duplicates = refl })).1
