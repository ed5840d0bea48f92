-- ===== src/Python/Plain.antt =====
-- A standard library that meets the stated laws: a date is the number of its day. It runs the
-- examples.
use pretrade_risk_controls.Common.{
  ℕ, Bool, true, ◌&&◌, ◌==◌, List, [], ◌∷◌, All, Bool-cases, inl, inr, arith, refl, ◌≡◌, ap, sym,
  ◌∙◌, ℤ, div_ℤ, if◌then◌else◌,
}
use mathlib.Core.Path.{subst}
use pretrade_risk_controls.Encoding.{codes}
use pretrade_risk_controls.Float.Whole.Decimal.{show_int, read_int, read_int-show_int}
use pretrade_risk_controls.Python.{Python, IsCalendar, IsStrip, millis_per_day}

-- A space, and no other whitespace.
abbrev pub is_space : ℕ → Bool
is_space c = c == b' '

abbrev blank : List ℕ → Bool
blank [] = true
blank (c ∷ s) = is_space c && blank s

instance abbrev pub plain_python : Python
plain_python = record {
  iso_date = λ t. show_int (div_ℤ t millis_per_day);
  format_int = show_int;
  sorted = λ texts. texts;
  strip = λ s. if blank (codes s) then "" else s;
}

blank-All : (s : List ℕ) → blank s ≡ true → All (λ c. is_space c ≡ true) s
blank-All [] h = tt
blank-All (c ∷ s) h = (ground arith, blank-All s (ground arith))

All-blank : (s : List ℕ) → All (λ c. is_space c ≡ true) s → blank s ≡ true
All-blank [] h = refl
All-blank (c ∷ s) h = ground (arith, All-blank s h.1, h.0)

pub plain_python-IsStrip : IsStrip is_space plain_python
plain_python-IsStrip text = elim (Bool-cases (blank (codes text))) [
  | inl all ↦ (λ h. blank-All _ all, λ h. rw all refl)
  | inr other ↦ (
    λ h.
        let same : text ≡ "" = sym (rw other refl) ∙ h in
        subst (λ t. All (λ c. is_space c ≡ true) (codes t)) (sym same) tt,
    λ h. absurd (cc (sym other ∙ All-blank _ h)),
  )
]

show_int-injective : (a b : ℤ) → show_int a ≡ show_int b → a ≡ b
show_int-injective a b h = sym (read_int-show_int a) ∙ ap read_int h ∙ read_int-show_int b

pub plain_python-IsCalendar : IsCalendar plain_python
plain_python-IsCalendar a b = (show_int-injective _ _, ap show_int)
