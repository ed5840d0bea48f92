-- ===== src/Engine/Sequence/Objections.antt =====
-- The first objection in a list of controls, by what it says of the list.
use pretrade_risk_controls.Common.{◌≡◌, refl, ◌⊎◌, inl, inr, List, [], ◌∷◌, ◌++◌, All, arith}
use pretrade_risk_controls.Decision.{ControlId, RiskDecision, accepted_decision}
use pretrade_risk_controls.Engine.Checks.Outcome.{Outcome, satisfied, refused, raises}
use pretrade_risk_controls.Engine.Sequence.{decided}
use pretrade_risk_controls.Engine.Sequence.Settled.{first_objection}

module _ {F : Type 0} (saying : ControlId → Outcome F) where
  abbrev pub AllSatisfied : List ControlId → Type 0
  AllSatisfied = All (λ c. saying c ≡ satisfied)

  -- A control that refuses, behind controls that are satisfied.
  abbrev pub FirstRefusal : List ControlId → RiskDecision F → Type 0
  FirstRefusal cs d =
      (before : List ControlId) × (c : ControlId) × (after : List ControlId) × (cs
        ≡ before ++ c ∷ after)
      × AllSatisfied before
      × (saying c ≡ refused d)

  pub first_objection-accepts :
      (cs : List ControlId)
      → AllSatisfied cs
      → first_objection cs saying ≡ decided accepted_decision
  unfolding first_objection
  first_objection-accepts [] h = refl
  first_objection-accepts (c ∷ cs) h = rw (h.0, first_objection) (first_objection-accepts cs h.1)

  shift :
      (c : ControlId) (cs : List ControlId) (d : RiskDecision F)
      → saying c ≡ satisfied
      → FirstRefusal cs d
      → FirstRefusal (c ∷ cs) d
  shift c cs d p (before, b, after, q, h, u) = (c ∷ before, b, after, cc q, (p, h), u)

  -- A decision is acceptance with every control satisfied, or the first refusal.
  pub first_objection-cases :
      (cs : List ControlId) (d : RiskDecision F)
      → first_objection cs saying ≡ decided d
      → ((d ≡ accepted_decision) × AllSatisfied cs) ⊎ FirstRefusal cs d
  unfolding first_objection
  first_objection-cases [] d h = inl (ground arith, tt)
  first_objection-cases (c ∷ cs) d h = go (saying c) refl (first_objection-cases cs d)
    where
      go :
          (o : Outcome F)
          → saying c ≡ o
          → (first_objection cs saying ≡ decided d
              → ((d ≡ accepted_decision) × AllSatisfied cs) ⊎ FirstRefusal cs d)
          → ((d ≡ accepted_decision) × AllSatisfied (c ∷ cs)) ⊎ FirstRefusal (c ∷ cs) d
      go satisfied p ih = elim (ih (rw (p, first_objection) at h)) [
        | inl (a, s) ↦ inl (a, (p, s))
        | inr f ↦ inr (shift c cs d p f)
      ]
      go (refused v) p ih = inr ([], c, cs, refl, tt, ground arith)
      go raises p ih = absurd (ground arith)
