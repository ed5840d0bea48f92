-- ===== src/Limits/Switch.antt =====
-- The off switch: what `disable` and `enable` do to `is_disabled`.
use pretrade_risk_controls.Common.{
  ◌≡◌, refl, sym, ap, ◌∙◌, Bool, true, false, not, ◌&&◌, ◌||◌, List, [], ◌∷◌, ◌++◌, keep, arith,
  ◌==◌, ℕ, Bool-cases, inl, inr, if◌then◌else◌,
}
use pretrade_risk_controls.Float.{Float}
use pretrade_risk_controls.Python.{ok, ◌>>◌, raise_if}
use pretrade_risk_controls.Decision.{ControlId, always_on, same_control, position, has_control}
use pretrade_risk_controls.Limits.{
  RiskLimits, as_entries, names_locked, check_numbers, post_init, disable, enable, is_disabled,
}
use pretrade_risk_controls.Limits.Validation.{
  IsValid, bind-ok, guard-ok, members-as_entries, HasBounds-check_numbers,
}

or-step : (b x y z : Bool) → x ≡ (y || z) → (b || x) ≡ ((b || y) || z)
or-step b x y z h = ground arith

keep-step :
    (same out_d out_c there rest : Bool)
    → (same ≡ true → out_c ≡ out_d)
    → rest ≡ (there && not out_c)
    → ((not out_d && same) || rest) ≡ ((same || there) && not out_c)
keep-step same out_d out_c there rest agree h = elim (Bool-cases same) [
  | inl same_true ↦ ground (arith, agree same_true)
  | inr same_false ↦ ground arith
]

==-sound : (m n : ℕ) → (m == n) ≡ true → m ≡ n
==-sound m n h = ground arith

has_control-append :
    (c : ControlId) (xs ys : List ControlId)
    → has_control c (xs ++ ys) ≡ (has_control c xs || has_control c ys)
unfolding has_control
has_control-append c [] ys = refl
has_control-append c (x ∷ xs) ys =
    or-step (same_control c x) (has_control c (xs ++ ys)) (has_control c xs) (has_control c ys)
      (has_control-append c xs ys)

-- Controls of one position stand in the same lists.
has_control-position :
    (c d : ControlId) (xs : List ControlId)
    → position c ≡ position d
    → has_control c xs ≡ has_control d xs
unfolding has_control
has_control-position c d [] h = refl
has_control-position c d (x ∷ xs) h = ground (arith, has_control-position c d xs h)

has_control-if :
    (c d : ControlId) (xs : List ControlId) (test : Bool)
    → has_control c (if test then d ∷ xs else xs) ≡ ((test && same_control c d) || has_control c xs)
unfolding has_control
has_control-if c d xs true = refl
has_control-if c d xs false = refl

has_control-keep :
    (c : ControlId) (out xs : List ControlId)
    → has_control c (keep (λ d. not (has_control d out)) xs)
      ≡ (has_control c xs && not (has_control c out))
unfolding has_control
has_control-keep c out [] = refl
has_control-keep c out (x ∷ xs) =
    has_control-if c x _ (not (has_control x out))
    ∙ keep-step (same_control c x) (has_control x out) (has_control c out) (has_control c xs) _
        (λ same. has_control-position c x out (==-sound (position c) (position x) same))
        (has_control-keep c out xs)

-- A list that names no locked control keeps none under filtering.
names_locked-keep :
    (test : ControlId → Bool) (xs : List ControlId)
    → names_locked xs ≡ false
    → names_locked (keep test xs) ≡ false
unfolding names_locked
names_locked-keep test [] h = refl
names_locked-keep test (x ∷ xs) h = ground (arith, names_locked-keep test xs)

-- A locked control is not in a list that names none.
locked-absent :
    (c : ControlId) (xs : List ControlId)
    → has_control c always_on ≡ true
    → names_locked xs ≡ false
    → has_control c xs ≡ false
unfolding names_locked has_control
locked-absent c [] locked h = refl
locked-absent c (x ∷ xs) locked h =
    ground (arith, locked-absent c xs locked, has_control-position c x always_on)

module _ {F : Type 0} ⦃fl : Float F⦄ where
  -- What validation does to a list of members.
  post_init-members :
      (l : RiskLimits F) (cs : List ControlId)
      → post_init l (as_entries cs) ≡ (
          check_numbers l
          >> (raise_if (names_locked cs) >> ok (record l { disabled_controls = cs })))
  unfolding post_init
  post_init-members l cs = rw (members-as_entries cs) refl

  made :
      (l : RiskLimits F) (cs : List ControlId) (l' : RiskLimits F)
      → post_init l (as_entries cs) ≡ ok l'
      → (names_locked cs ≡ false) × (l' ≡ record l { disabled_controls = cs })
  made l cs l' h =
      let (_, _, rest) = bind-ok (check_numbers l) _ l' (sym (post_init-members l cs) ∙ h) in
      let (unlocked, last) = guard-ok (names_locked cs) _ l' rest in (unlocked, ground arith)

  -- Disabling controls adds them, and nothing else, to what was disabled.
  pub disable-is_disabled :
      (l : RiskLimits F) (controls : List ControlId) (l' : RiskLimits F)
      → disable l controls ≡ ok l'
      → (c : ControlId) → is_disabled l' c ≡ (is_disabled l c || has_control c controls)
  unfolding disable is_disabled
  disable-is_disabled l controls l' h c =
      let (unlocked, same) = made l (l.disabled_controls ++ controls) l' h in
      let here = has_control-append c l.disabled_controls controls in
      let absent = locked-absent c (l.disabled_controls ++ controls) in
      ap (λ k. is_disabled k c) same ∙ ground (arith, absent)

  -- Enabling never fails on a coherent limit set, and takes exactly the named controls out of what
  -- was disabled.
  pub enable-is_disabled :
      (l : RiskLimits F) (controls : List ControlId)
      → IsValid l
      → (l' : RiskLimits F) × (enable l controls ≡ ok l')
        × ((c : ControlId) → is_disabled l' c ≡ (is_disabled l c && not (has_control c controls)))
  unfolding enable is_disabled
  enable-is_disabled l controls (bounds, unlocked) =
      let rest = keep (λ d. not (has_control d controls)) l.disabled_controls in
      let numbers = HasBounds-check_numbers l bounds in
      let passed = post_init-members l rest in
      let still =
        names_locked-keep (λ d. not (has_control d controls)) l.disabled_controls unlocked in
      (
        record l { disabled_controls = rest },
        ground arith,
        λ c. ground (arith, has_control-keep c controls l.disabled_controls),
      )
