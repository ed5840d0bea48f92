-- ===== src/Engine/Sequence/Listing.antt =====
-- The listings of controls, and the decisions.
use pretrade_risk_controls.Common.{
  Option, String, ◌≡◌, refl, sym, ◌∙◌, ap, Bool, false, List, [], ◌∷◌, ℤ, keep, map, Bool-cases,
  inl, inr,
}
use pretrade_risk_controls.Float.{Float}
use pretrade_risk_controls.Python.{Python}
use pretrade_risk_controls.Decision.{ControlId}
use pretrade_risk_controls.Order.{OrderRequest}
use pretrade_risk_controls.Limits.{is_disabled}
use pretrade_risk_controls.Engine.State.{Engine, roll_trading_day}
use pretrade_risk_controls.Engine.Checks.Outcome.{Outcome, satisfied, refused, raises}
use pretrade_risk_controls.Engine.Sequence.{
  control_sequence, is_armed, runs, running_controls, running, status, control_status, look,
  evaluate, decided, raised,
}
use pretrade_risk_controls.Engine.Sequence.Settled.{
  first_objection, says, evaluate-eq-first_objection,
}

module _ {F : Type 0} where
  keep-running :
      (e : Engine F) (cs : List ControlId)
      → map (λ s. s.id) (keep running (map (status e) cs)) ≡ keep (runs e) cs
  unfolding status runs
  keep-running e [] = refl
  keep-running e (c ∷ cs) = elim (Bool-cases (is_armed c e)) [
    | inl armed ↦ elim (Bool-cases (is_disabled e.limits c)) [
      | inl off ↦ rw (armed, off) (keep-running e cs)
      | inr on ↦ rw (armed, on) (ap (λ ds. c ∷ ds) (keep-running e cs))
    ]
    | inr idle ↦ elim (Bool-cases (is_disabled e.limits c)) [
      | inl off ↦ rw (idle, off) (keep-running e cs)
      | inr on ↦ rw (idle, on) (keep-running e cs)
    ]
  ]

  -- Controls that have nothing to say do not decide.
  first_objection-keep :
      (test : ControlId → Bool) (answer : ControlId → Outcome F) (cs : List ControlId)
      → ((c : ControlId) → test c ≡ false → answer c ≡ satisfied)
      → first_objection (keep test cs) answer ≡ first_objection cs answer
  unfolding first_objection
  first_objection-keep test answer [] h = refl
  first_objection-keep test answer (c ∷ cs) h = elim (Bool-cases (test c)) [
    | inl kept ↦ rw kept (
        ap (λ rest. elim (answer c) [ satisfied ↦ rest | refused d ↦ decided d | raises ↦ raised ])
          (first_objection-keep test answer cs h))
    | inr out ↦ rw (out, first_objection, h c out) (first_objection-keep test answer cs h)
  ]

module _ {F : Type 0} ⦃fl : Float F⦄ ⦃py : Python⦄ where
  silent :
      (exists : String → Option Bool) (e : Engine F) (r : OrderRequest F) (now : ℤ) (c : ControlId)
      → runs e c ≡ false
      → says exists e r now c ≡ satisfied
  unfolding look
  silent exists e r now c h = rw (says, h) refl

  -- What the engine lists as running is what its status says is running, and is what decides: the
  -- verdict is the first objection among the running controls alone, once the trading day has
  -- rolled.
  pub running_controls-decide :
      (exists : String → Option Bool) (e : Engine F) (r : OrderRequest F) (now : ℤ)
      → (map (λ s. s.id) (keep running (control_status e)) ≡ running_controls e)
        × let e' = roll_trading_day e now in
          ((evaluate exists e r now).1
            ≡ first_objection (running_controls e') (says exists e' r now))
  unfolding running_controls control_status
  running_controls-decide exists e r now =
      let e' = roll_trading_day e now in
      (
        keep-running e control_sequence,
        evaluate-eq-first_objection exists e r now
            ∙ sym (
                first_objection-keep (runs e') (says exists e' r now) control_sequence
                  (silent exists e' r now)),
      )
