-- ===== src/Engine/Sequence/Repeat.antt =====
-- Several orders evaluated at one instant.
use pretrade_risk_controls.Common.{
  String, str_eq, ◌≡◌, refl, sym, ◌∙◌, ap, Bool, Option, List, [], ◌∷◌, ℤ, Bool-cases, inl, inr,
}
use pretrade_risk_controls.Float.{Float}
use pretrade_risk_controls.Python.{Python}
use pretrade_risk_controls.Order.{OrderRequest}
use pretrade_risk_controls.Windows.Rate.{RateWindow}
use pretrade_risk_controls.Windows.Duplicate.{DuplicateWindow}
use pretrade_risk_controls.Engine.State.{Engine, roll_trading_day, start_day, today}
use pretrade_risk_controls.Engine.Readings.Undisturbed.{roll_idem}
use pretrade_risk_controls.Engine.Sequence.{control_sequence, evaluate}
use pretrade_risk_controls.Engine.Sequence.Settled.{
  with_windows, IsSettled, first_objection, says, look-windows, evaluate-eq-first_objection,
  evaluate-IsSettled,
}

module _ {F : Type 0} ⦃fl : Float F⦄ ⦃py : Python⦄ where
  roll-with_windows :
      (e : Engine F) (w : RateWindow) (d : Option DuplicateWindow) (now : ℤ)
      → roll_trading_day (with_windows e w d) now ≡ with_windows (roll_trading_day e now) w d
  unfolding roll_trading_day start_day
  roll-with_windows e w d now = elim (Bool-cases (str_eq (today e.limits now) e.trading_day)) [
    | inl same ↦ rw same refl
    | inr other ↦ rw other refl
  ]

  settled-verdict :
      (exists : String → Option Bool) (e : Engine F) (r : OrderRequest F) (now : ℤ) (w : RateWindow)
      (d : Option DuplicateWindow)
      → IsSettled (roll_trading_day e now) w d now
      → (evaluate exists (with_windows (roll_trading_day e now) w d) r now).1
        ≡ (evaluate exists e r now).1
  settled-verdict exists e r now w d settled =
      let e' = roll_trading_day e now in
      let rolled : roll_trading_day (with_windows e' w d) now ≡ with_windows e' w d =
        roll-with_windows e' w d now ∙ ap (λ x. with_windows x w d) (roll_idem e now) in
      evaluate-eq-first_objection exists (with_windows e' w d) r now
      ∙ ap (λ x. first_objection control_sequence (says exists x r now)) rolled
      ∙ (λ i. first_objection control_sequence λ c. look-windows exists e' r now c settled i)
      ∙ sym (evaluate-eq-first_objection exists e r now)

-- The engine after it was asked about some orders at one instant, whatever paths existed then.
abbrev pub asked :
    {F : Type 0}
    → ⦃fl : Float F⦄ → ⦃py : Python⦄ → List ((String → Option Bool) × OrderRequest F)
    → Engine F
    → ℤ
    → Engine F
asked [] e now = e
asked ((exists, r) ∷ orders) e now = asked orders (evaluate exists e r now).0 now

module _ {F : Type 0} ⦃fl : Float F⦄ ⦃py : Python⦄ where
  -- To ask is free: whatever orders were evaluated before it at the same instant, an order gets the
  -- verdict that it would have got first.
  pub evaluate-asked :
      (orders : List ((String → Option Bool) × OrderRequest F)) (exists : String → Option Bool)
      (e : Engine F) (r : OrderRequest F) (now : ℤ)
      → (evaluate exists (asked orders e now) r now).1 ≡ (evaluate exists e r now).1
  evaluate-asked [] exists e r now = refl
  evaluate-asked ((exists', r') ∷ orders) exists e r now =
      let (w, d, left, settled) = evaluate-IsSettled exists' e r' now in
      evaluate-asked orders exists (evaluate exists' e r' now).0 r now
      ∙ ap (λ x. (evaluate exists x r now).1) left
      ∙ settled-verdict exists e r now w d settled
