-- ===== src/Engine/Sequence/Invariant.antt =====
-- What the loop of `evaluate` keeps.
use pretrade_risk_controls.Common.{Option, String, Bool, List, [], ◌∷◌, ℤ}
use pretrade_risk_controls.Float.{Float}
use pretrade_risk_controls.Python.{Python}
use pretrade_risk_controls.Decision.{ControlId}
use pretrade_risk_controls.Order.{OrderRequest}
use pretrade_risk_controls.Engine.State.{Engine}
use pretrade_risk_controls.Engine.Checks.Outcome.{Outcome, satisfied, refused, raises}
use pretrade_risk_controls.Engine.Sequence.{look, walk, Verdict, decided, raised}

module _ {F : Type 0} ⦃fl : Float F⦄ ⦃py : Python⦄ (exists : String → Option Bool) where
  -- One round of the loop, behind the look.
  abbrev round : List ControlId → OrderRequest F → ℤ → Engine F → Outcome F → Engine F × Verdict F
  round cs r now e o = elim o [
    | satisfied ↦ walk exists cs e r now
    | refused d ↦ (e, decided d)
    | raises ↦ (e, raised)
  ]

  -- What each control's look keeps, the walk over them keeps.
  pub walk-invariant :
      (P : Engine F → Type 0) (r : OrderRequest F) (now : ℤ)
      → ((c : ControlId) (e : Engine F) → P e → P (look exists c e r now).0)
      → (cs : List ControlId) (e : Engine F) → P e
      → P (walk exists cs e r now).0
  unfolding walk
  walk-invariant P r now keeps [] e h = h
  walk-invariant P r now keeps (c ∷ cs) e h =
      let looked = keeps c e h in
      let e' = (look exists c e r now).0 in
      behind (look exists c e r now).1 e' looked (walk-invariant P r now keeps cs e' looked)
    where
      behind :
          (o : Outcome F) (e' : Engine F)
          → P e'
          → P (walk exists cs e' r now).0
          → P (round cs r now e' o).0
      behind satisfied e' looked rest = rest
      behind (refused d) e' looked rest = looked
      behind raises e' looked rest = looked
