-- ===== src/Engine/Sequence/Total.antt =====
-- Orders on which the engine would raise.
use pretrade_risk_controls.Common.{
  Option, none, some, String, ◌≡◌, ◌≢◌, refl, ◌∙◌, Bool, true, List, [], ◌∷◌, ℤ, arith, is_some,
  ◌⊎◌, ◌↔◌, inl, inr, sym, false, Bool-cases,
}
use mathlib.Core.Path.{subst}
use pretrade_risk_controls.Limits.{RiskLimits, is_disabled}
use pretrade_risk_controls.Float.{Float, IsBinary64}
use pretrade_risk_controls.Python.{Python}
use pretrade_risk_controls.Decision.{ControlId, RiskDecision, accepted_decision}
use pretrade_risk_controls.Order.{OrderRequest}
use pretrade_risk_controls.Windows.Duplicate
use pretrade_risk_controls.Engine.State.{Engine, roll_trading_day}
use pretrade_risk_controls.Engine.Derived.{
  breached, floor, effective_max_order_quantity, effective_max_order_notional,
}
use pretrade_risk_controls.Engine.Checks.Outcome.{Outcome, satisfied, refused, raises}
use pretrade_risk_controls.Engine.Checks.Stops.{check_kill_switch, check_loss_limit}
use pretrade_risk_controls.Engine.Checks.Eligibility.{
  check_instrument_permitted, check_instrument_restricted, check_session_state,
  check_short_sale_locate,
}
use pretrade_risk_controls.Engine.Checks.Validation.{
  check_quantity_sign, check_price_sign, check_notional_sign, check_max_quantity,
  check_max_notional,
}
use pretrade_risk_controls.Engine.Checks.Prices.{
  check_quote_age, check_price_band, check_execution_slippage,
}
use pretrade_risk_controls.Engine.Checks.Conduct.{
  check_duplicate, check_order_rate, check_consecutive_rejects, check_repeated_execution,
}
use pretrade_risk_controls.Engine.Checks.Exposure.{
  check_working_orders, check_open_positions, check_position_limit, check_self_match,
  check_gross_exposure, check_daily_notional,
}
use pretrade_risk_controls.Engine.Sequence.{
  control_sequence, runs, is_armed, check, look, evaluate, decided, raised,
}
use pretrade_risk_controls.Engine.Sequence.Settled.{
  first_objection, says, evaluate-eq-first_objection,
}

-- The duplicate window stands exactly if its width is configured.
abbrev pub IsConsistent : {F : Type 0} → Engine F → Type 0
IsConsistent e = is_some e.duplicate_window ≡ is_some e.limits.duplicate_window_millis

-- The kill switch is on, with a path, and the test of the path raises.
abbrev pub PathFails : {F : Type 0} → (String → Option Bool) → RiskLimits F → Type 0
PathFails exists limits =
    (is_disabled limits ControlId.kill_switch ≡ false)
    × ((path : String) × (limits.kill_switch_path ≡ some path) × (exists path ≡ none))

PathFails-cases :
    {F : Type 0} (exists : String → Option Bool) (limits : RiskLimits F)
    → PathFails exists limits ⊎ ¬ PathFails exists limits
PathFails-cases exists limits = elim (Bool-cases (is_disabled limits ControlId.kill_switch)) [
  | inl off ↦ inr λ h. cc (sym off ∙ h.0)
  | inr on ↦ at_path limits.kill_switch_path refl on
]
  where
    at_path :
        (o : Option String)
        → limits.kill_switch_path ≡ o
        → is_disabled limits ControlId.kill_switch ≡ false
        → PathFails exists limits ⊎ ¬ PathFails exists limits
    at_path none h on = inr λ (_, (path, set, _)). cc (sym h ∙ set)
    at_path (some path) h on = tested (exists path) refl
      where
        tested :
            (o : Option Bool)
            → exists path ≡ o
            → PathFails exists limits ⊎ ¬ PathFails exists limits
        tested none q = inl (on, (path, h, q))
        tested (some found) q = inr λ (_, (path', set, fails)). cc (sym h ∙ set, q, fails)

module _ {F : Type 0} ⦃fl : Float F⦄ ⦃py : Python⦄ (laws : IsBinary64 F)
    (exists : String → Option Bool) (e : Engine F) (r : OrderRequest F) (now : ℤ) where
  kill_switch-says :
      is_disabled e.limits ControlId.kill_switch ≡ false
      → (path : String) → e.limits.kill_switch_path ≡ some path
      → exists path ≡ none
      → says exists e r now ControlId.kill_switch ≡ raises
  unfolding look runs is_armed check check_kill_switch
  kill_switch-says on path set fails = ground arith

  kill_switch-total :
      ¬ PathFails exists e.limits → says exists e r now ControlId.kill_switch ≢ raises
  unfolding look runs is_armed check check_kill_switch
  kill_switch-total answers = at_path e.limits.kill_switch_path refl
    where
      at_path :
          (o : Option String)
          → e.limits.kill_switch_path ≡ o
          → says exists e r now ControlId.kill_switch ≢ raises
      at_path none h = ground arith
      at_path (some path) h = elim (Bool-cases (is_disabled e.limits ControlId.kill_switch)) [
        | inl off ↦ ground arith
        | inr on ↦
            let there : exists path ≢ none = λ fails. answers (on, (path, h, fails)) in
            ground (arith, there)
      ]

  price_band-total : is_some e.limits.price_band_fraction ≡ true → check_price_band e r ≢ raises
  unfolding check_price_band
  price_band-total armed = grind (arith, laws.eq-le)

  duplicate-total :
      IsConsistent e → is_some e.duplicate_window ≡ true → (check_duplicate e r now).1 ≢ raises
  unfolding check_duplicate Duplicate.seen_within_window
  duplicate-total h armed = ground arith

  -- An armed control gives an answer.
  check-total :
      (c : ControlId)
      → c ≢ ControlId.kill_switch
      → IsConsistent e
      → is_armed c e ≡ true
      → (check exists c e r now).1 ≢ raises
  unfolding check is_armed check_loss_limit breached floor check_instrument_permitted
      check_instrument_restricted check_session_state check_short_sale_locate check_quantity_sign
      check_price_sign check_notional_sign check_max_quantity check_max_notional
      effective_max_order_quantity effective_max_order_notional check_quote_age
      check_execution_slippage check_order_rate check_consecutive_rejects check_repeated_execution
      check_working_orders check_open_positions check_position_limit check_self_match
      check_gross_exposure check_daily_notional
  check-total ControlId.kill_switch other h armed = absurd (other refl)
  check-total ControlId.duplicate_order other h armed = duplicate-total h armed
  check-total ControlId.price_band other h armed = price_band-total armed
  check-total _ other h armed = ground arith

  says-total :
      (c : ControlId)
      → ¬ PathFails exists e.limits
      → IsConsistent e
      → says exists e r now c ≢ raises
  unfolding look runs
  says-total ControlId.kill_switch answers h = kill_switch-total answers
  says-total c answers h = ground (arith, check-total c (λ same. cc same) h)

first_objection-total :
    {F : Type 0} (cs : List ControlId) (saying : ControlId → Outcome F)
    → ((c : ControlId) → saying c ≢ raises)
    → (d : RiskDecision F) × (first_objection cs saying ≡ decided d)
unfolding first_objection
first_objection-total [] saying total = (accepted_decision, refl)
first_objection-total {F} (c ∷ cs) saying total =
    go (saying c) refl (first_objection-total cs saying total)
  where
    go :
        (o : Outcome F)
        → saying c ≡ o
        → (d : RiskDecision F) × (first_objection cs saying ≡ decided d)
        → (d : RiskDecision F) × (first_objection (c ∷ cs) saying ≡ decided d)
    go satisfied p (d, q) = (d, rw (p, first_objection) q)
    go (refused v) p rest = (v, rw (p, first_objection))
    go raises p rest = absurd (total c p)

module _ {F : Type 0} ⦃fl : Float F⦄ ⦃py : Python⦄ where
  pub roll-IsConsistent :
      (e : Engine F) (now : ℤ) → IsConsistent e → IsConsistent (roll_trading_day e now)
  unfolding roll_trading_day
  roll-IsConsistent e now h = ground arith

  roll-limits : (e : Engine F) (now : ℤ) → (roll_trading_day e now).limits ≡ e.limits
  unfolding roll_trading_day
  roll-limits e now = ground arith

  evaluate-decides :
      (laws : IsBinary64 F) (exists : String → Option Bool) (e : Engine F) (r : OrderRequest F)
      (now : ℤ)
      → ¬ PathFails exists e.limits
      → IsConsistent e
      → (d : RiskDecision F) × ((evaluate exists e r now).1 ≡ decided d)
  evaluate-decides laws exists e r now answers h =
      let e' = roll_trading_day e now in
      let answers' : ¬ PathFails exists e'.limits =
        λ fails. answers (subst (λ l. PathFails exists l) (roll-limits e now) fails) in
      let (d, p) =
        first_objection-total control_sequence (says exists e' r now)
          (λ c. says-total laws exists e' r now c answers' (roll-IsConsistent e now h)) in
      (d, evaluate-eq-first_objection exists e r now ∙ p)

  -- On an engine whose duplicate window stands exactly if its width is configured, `evaluate` raises
  -- exactly if the kill switch is on and the test of its path raises: no other control that runs
  -- compares with an unset limit or divides by zero.
  pub evaluate-raises_iff :
      (laws : IsBinary64 F) (exists : String → Option Bool) (e : Engine F) (r : OrderRequest F)
      (now : ℤ)
      → IsConsistent e
      → ((evaluate exists e r now).1 ≡ raised) ↔ PathFails exists e.limits
  unfolding first_objection
  evaluate-raises_iff laws exists e r now h = (
    λ raises_it. elim (PathFails-cases exists e.limits) [
      | inl fails ↦ fails
      | inr answers ↦
          let (d, p) = evaluate-decides laws exists e r now answers h in
          absurd (cc (sym raises_it ∙ p))
    ],
    λ fails.
        let e' = roll_trading_day e now in
        let (on, (path, set, raising)) =
          subst (λ l. PathFails exists l) (sym (roll-limits e now)) fails in
        evaluate-eq-first_objection exists e r now
        ∙ rw (kill_switch-says laws exists e' r now on path set raising, first_objection),
  )
