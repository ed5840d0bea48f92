-- ===== src/Common/Field.antt =====
-- Texts that are joined by a separator, taken apart from the right.
use Prim.Native.Char.{Char}
use Prim.Native.String.{String, ◌++◌ as ◌<>◌}
use text.Mathlib.TextLemmas.{
  nil-append, cons-append, nil≢cons, head-eq_of_cons-eq, tail-eq_of_cons-eq,
}
use mathlib.Core.Path.{◌≡◌, refl, sym, ◌∙◌}
use mathlib.Core.Logic.{◌≢◌}

module _ (bar : Char) where
  -- The separator does not occur.
  abbrev pub IsField : String → Type 0
  IsField String.[] = Unit
  IsField (String.◌∷◌ c s) = (c ≢ bar) × IsField s

  bar_absent : (s p q : String) → IsField p → p ≢ s <> String.◌∷◌ bar q
  bar_absent String.[] String.[] q field h = nil≢cons (h ∙ nil-append _)
  bar_absent String.[] (String.◌∷◌ x p) q (other, _) h =
      other (head-eq_of_cons-eq (h ∙ nil-append _))
  bar_absent (String.◌∷◌ c s) String.[] q field h = nil≢cons (h ∙ cons-append c s _)
  bar_absent (String.◌∷◌ c s) (String.◌∷◌ x p) q (_, field) h =
      bar_absent s p q field (tail-eq_of_cons-eq (h ∙ cons-append c s _))

  -- Where neither last field has the separator, equal texts have equal last fields.
  pub last_field :
      (s s' p p' : String)
      → IsField p
      → IsField p'
      → s <> String.◌∷◌ bar p ≡ s' <> String.◌∷◌ bar p'
      → (s ≡ s') × (p ≡ p')
  last_field String.[] String.[] p p' field field' h =
      (refl, tail-eq_of_cons-eq (sym (nil-append _) ∙ h ∙ nil-append _))
  last_field String.[] (String.◌∷◌ c s') p p' field field' h =
      absurd (
        bar_absent s' p p' field (tail-eq_of_cons-eq (sym (nil-append _) ∙ h ∙ cons-append c s' _)))
  last_field (String.◌∷◌ c s) String.[] p p' field field' h = absurd (
      bar_absent s p' p field'
        (tail-eq_of_cons-eq (sym (nil-append _) ∙ sym h ∙ cons-append c s _)))
  last_field (String.◌∷◌ c s) (String.◌∷◌ d s') p p' field field' h =
      let equal : String.◌∷◌ c (s <> String.◌∷◌ bar p) ≡ String.◌∷◌ d (s' <> String.◌∷◌ bar p') =
        sym (cons-append c s _) ∙ h ∙ cons-append d s' _ in
      let (rest, last) = last_field s s' p p' field field' (tail-eq_of_cons-eq equal) in
      (cc (head-eq_of_cons-eq equal, rest), last)
