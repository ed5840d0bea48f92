-- ===== src/Float/Order.antt =====
-- The order of the numbers, and Python's two-argument `max`.
use pretrade_risk_controls.Common.{◌≡◌, true, ◌⊎◌, false, pos, arith, Bool-cases, inl, inr}
use pretrade_risk_controls.Float.{Float, nought, max, IsNumber, IsBinary64}

module _ {F : Type 0} ⦃fl : Float F⦄ (laws : IsBinary64 F) where
  pub IsNumber-nought : IsNumber {F = F} nought
  IsNumber-nought = laws.is_finite-IsNumber nought (laws.of_int-is_finite (pos 0) (omega arith))

  pub le-max-left : (a b : F) → IsNumber a → fl.le a (max a b) ≡ true
  unfolding max
  le-max-left a b h = elim (Bool-cases (fl.lt a b)) [
    | inl less ↦ ground (arith, laws.lt-le a b less)
    | inr not_less ↦ ground arith
  ]

  pub not-lt-le : (a b : F) → IsNumber a → IsNumber b → fl.lt a b ≡ false → fl.le b a ≡ true
  not-lt-le a b na nb h = elim (Bool-cases (fl.le b a)) [
    | inl le ↦ le
    | inr not_le ↦ ground (arith, laws.not-le-lt a b na nb not_le)
  ]

  pub le-max-right : (a b : F) → IsNumber a → IsNumber b → fl.le b (max a b) ≡ true
  unfolding max
  le-max-right a b na nb = elim (Bool-cases (fl.lt a b)) [
    | inl less ↦ ground arith
    | inr not_less ↦ ground (arith, not-lt-le a b na nb not_less)
  ]

  pub max-le : (a b c : F) → fl.le a c ≡ true → fl.le b c ≡ true → fl.le (max a b) c ≡ true
  unfolding max
  max-le a b c ha hb = elim (Bool-cases (fl.lt a b)) [
    | inl less ↦ ground arith
    | inr not_less ↦ ground arith
  ]

  -- Equal numbers bound each other.
  pub eq-le-both : (x y : F) → fl.eq x y ≡ true → (fl.le x y ≡ true) × (fl.le y x ≡ true)
  eq-le-both x y h = (ground (arith, laws.eq-le x y), ground (arith, laws.eq-le x y))

  -- The greatest of zero and two numbers below `top`, one of which reaches it.
  pub max_of_zero-eq :
      (a b top : F)
      → fl.le nought top ≡ true
      → fl.le a top ≡ true
      → fl.le b top ≡ true
      → (fl.le top a ≡ true) ⊎ (fl.le top b ≡ true)
      → fl.eq (max (max nought a) b) top ≡ true
  max_of_zero-eq a b top above a_le b_le reaches =
      let inner : fl.le (max nought a) top ≡ true = max-le nought a top above a_le in
      let upper : fl.le (max (max nought a) b) top ≡ true = max-le _ b top inner b_le in
      let (zero_number, _) = laws.le_numbers nought top above in
      let (a_number, _) = laws.le_numbers a top a_le in
      let (inner_number, _) = laws.le_numbers _ top inner in
      let (b_number, _) = laws.le_numbers b top b_le in
      let lower : fl.le top (max (max nought a) b) ≡ true = elim reaches [
        | inl by_a ↦ laws.le_trans top a _ by_a (
            laws.le_trans a _ _ (le-max-right nought a zero_number a_number)
              (le-max-left (max nought a) b inner_number))
        | inr by_b ↦ laws.le_trans top b _ by_b (le-max-right _ b inner_number b_number)
      ] in
      ground (arith, laws.eq-le (max (max nought a) b) top)
