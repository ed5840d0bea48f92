-- ===== src/Engine/Sequence/Decisions.antt =====
-- The decision of `evaluate`, described apart from the loop and the checks.
use mathlib.Core.Path.{subst}
use pretrade_risk_controls.Common.{
  Option, String, ◌≡◌, ◌↔◌, ◌∙◌, sym, ap, Bool, true, false, List, ◌∷◌, ◌++◌, ℤ, arith, Bool-cases,
  inl, inr, All,
}
use pretrade_risk_controls.Common.Keep.{All-map}
use pretrade_risk_controls.Float.{Float, IsBinary64}
use pretrade_risk_controls.Python.{Python}
use pretrade_risk_controls.Decision.{ControlId, RiskDecision, accepted_decision}
use pretrade_risk_controls.Order.{OrderRequest}
use pretrade_risk_controls.Engine.State.{Engine, roll_trading_day}
use pretrade_risk_controls.Engine.Checks.Outcome.{satisfied, refused}
use pretrade_risk_controls.Engine.Sequence.{
  control_sequence, runs, is_armed, check, look, evaluate, decided,
}
use pretrade_risk_controls.Engine.Sequence.Settled.{says, evaluate-eq-first_objection}
use pretrade_risk_controls.Engine.Sequence.Objections.{
  AllSatisfied, first_objection-accepts, first_objection-cases,
}
use pretrade_risk_controls.Engine.Sequence.Total.{IsConsistent, roll-IsConsistent}
use pretrade_risk_controls.Engine.Sequence.Permits.{Permits}
use pretrade_risk_controls.Engine.Sequence.Accepts.{check-Permits, Permits-check}
use pretrade_risk_controls.Engine.Sequence.Rejection.{Blames, IsRejectionBy, check-Blames}

-- What a control requires of an order while it runs.
abbrev pub Allows :
    {F : Type 0}
    → ⦃fl : Float F⦄ → (String → Option Bool)
    → Engine F
    → OrderRequest F
    → ℤ
    → ControlId
    → Type 0
Allows exists e r now c = runs e c ≡ true → Permits exists c e r now

module _ {F : Type 0} ⦃fl : Float F⦄ ⦃py : Python⦄ (laws : IsBinary64 F)
    (exists : String → Option Bool) (e : Engine F) (r : OrderRequest F) (now : ℤ)
    (consistent : IsConsistent e) where
  runs-is_armed : (c : ControlId) → runs e c ≡ true → is_armed c e ≡ true
  unfolding runs
  runs-is_armed c h = ground arith

  says-on : (c : ControlId) → runs e c ≡ true → says exists e r now c ≡ (check exists c e r now).1
  unfolding look
  says-on c on = ground arith

  says-off : (c : ControlId) → runs e c ≡ false → says exists e r now c ≡ satisfied
  unfolding look
  says-off c off = ground arith

  Allows-says : (c : ControlId) → Allows exists e r now c → says exists e r now c ≡ satisfied
  Allows-says c h = elim (Bool-cases (runs e c)) [
    | inl on ↦
        says-on c on ∙ Permits-check laws exists e r now c consistent (runs-is_armed c on) (h on)
    | inr off ↦ says-off c off
  ]

  says-Allows : (c : ControlId) → says exists e r now c ≡ satisfied → Allows exists e r now c
  says-Allows c h on =
      check-Permits laws exists e r now c consistent (runs-is_armed c on) (sym (says-on c on) ∙ h)

  abbrev pub Refuses : ControlId → RiskDecision F → Type 0
  Refuses c d = (runs e c ≡ true) × ¬ Permits exists c e r now × IsRejectionBy c d

  says-Refuses :
      (c : ControlId) (d : RiskDecision F) → says exists e r now c ≡ refused d → Refuses c d
  says-Refuses c d h = elim (Bool-cases (runs e c)) [
    | inl on ↦
        let p : (check exists c e r now).1 ≡ refused d = sym (says-on c on) ∙ h in
        let allowed = Permits-check laws exists e r now c consistent (runs-is_armed c on) in
        (on, λ permits. cc (p, allowed permits), subst (Blames c) p (check-Blames exists e r now c))
    | inr off ↦ cc (h, says-off c off)
  ]

  All-Allows :
      (cs : List ControlId) → AllSatisfied (says exists e r now) cs → All (Allows exists e r now) cs
  All-Allows = All-map says-Allows

  All-says :
      (cs : List ControlId) → All (Allows exists e r now) cs → AllSatisfied (says exists e r now) cs
  All-says = All-map Allows-says

module _ {F : Type 0} ⦃fl : Float F⦄ ⦃py : Python⦄ (laws : IsBinary64 F)
    (exists : String → Option Bool) (e : Engine F) (r : OrderRequest F) (now : ℤ)
    (consistent : IsConsistent e) where
  -- On an engine whose duplicate window stands exactly if its width is configured, an order is
  -- rejected only by the first control in the sequence that runs and does not permit it, as the
  -- engine stands once the trading day has rolled. All running controls before it permit the order,
  -- and the rejection carries this control's name and one of its codes.
  pub evaluate-rejection :
      (d : RiskDecision F)
      → (evaluate exists e r now).1 ≡ decided d
      → d.accepted ≡ false
      → let e' = roll_trading_day e now in
        (before : List ControlId) × (c : ControlId) × (after : List ControlId) × (control_sequence
          ≡ before ++ c ∷ after)
        × All (Allows exists e' r now) before
        × (runs e' c ≡ true)
        × ¬ Permits exists c e' r now
        × IsRejectionBy c d
  evaluate-rejection d h rejected =
      let e' = roll_trading_day e now in
      let k = roll-IsConsistent e now consistent in
      elim (first_objection-cases (says exists e' r now) control_sequence d
        (sym (evaluate-eq-first_objection exists e r now) ∙ h)) [
          | inl (a, _) ↦ cc (ap (λ (x : RiskDecision F). x.accepted) a)
          | inr (before, c, after, p, passed, u) ↦
              let (on, forbidden, blame) = says-Refuses laws exists e' r now k c d u in
              (
                before,
                c,
                after,
                p,
                All-Allows laws exists e' r now k before passed,
                on,
                forbidden,
                blame,
              )
        ]

  -- On an engine whose duplicate window stands exactly if its width is configured, an order is
  -- accepted exactly if every control that runs permits it, as the engine stands once the trading
  -- day has rolled.
  pub evaluate-accepts_iff :
      ((evaluate exists e r now).1 ≡ decided accepted_decision)
      ↔ All (Allows exists (roll_trading_day e now) r now) control_sequence
  evaluate-accepts_iff =
      let e' = roll_trading_day e now in
      let k = roll-IsConsistent e now consistent in
      let pure = evaluate-eq-first_objection exists e r now in
      (
        λ h.
            elim (first_objection-cases (says exists e' r now) control_sequence accepted_decision
              (sym pure ∙ h)) [
                | inl (_, passed) ↦ All-Allows laws exists e' r now k control_sequence passed
                | inr (_, c, _, _, _, u) ↦
                    let (_, _, (rejected, _, _)) =
                      says-Refuses laws exists e' r now k c accepted_decision u in
                    cc rejected
              ],
        λ allowed.
            pure
            ∙ first_objection-accepts (says exists e' r now) control_sequence
                (All-says laws exists e' r now k control_sequence allowed),
      )
