-- ===== src/Common/Keep.antt =====
-- Filtering by a Boolean test.
use Prim.Native.Nat.{◌≤◌}
use mathlib.Core.Path.{◌≡◌, refl}
use mathlib.Core.Bool.{Bool, true, ◌&&◌}
use mathlib.Core.List.{List, [], ◌∷◌, ◌++◌}
use native.Mathlib.Omega.{arith}
use pretrade_risk_controls.Common.Lists.{length, keep, All}

module _ {ℓ} {A : Type ℓ} where
  pub keep-append :
      (test : A → Bool) (xs ys : List A) → keep test (xs ++ ys) ≡ keep test xs ++ keep test ys
  keep-append test [] ys = refl
  keep-append test (x ∷ xs) ys = ground (arith, keep-append test xs ys)

  -- A test that implies an earlier one makes the earlier one redundant.
  pub keep-keep :
      (later earlier : A → Bool) (xs : List A)
      → All (λ x. later x ≡ true → earlier x ≡ true) xs
      → keep later (keep earlier xs) ≡ keep later xs
  keep-keep later earlier [] h = refl
  keep-keep later earlier (x ∷ xs) h = ground (arith, keep-keep later earlier xs h.1, h.0)

  pub keep-and : (p q : A → Bool) (xs : List A) → keep p (keep q xs) ≡ keep (λ x. q x && p x) xs
  keep-and p q [] = refl
  keep-and p q (x ∷ xs) = ground (arith, keep-and p q xs)

  pub All-keep {κ} :
      (P : A → Type κ) (test : A → Bool) (xs : List A) → All P xs → All P (keep test xs)
  All-keep P test [] a = a
  All-keep P test (x ∷ xs) a = ground (arith, All-keep P test xs a.1)

  pub All-map {κ μ} :
      {P : A → Type κ} {Q : A → Type μ} (f : (x : A) → P x → Q x) (xs : List A)
      → All P xs
      → All Q xs
  All-map f [] a = tt
  All-map f (x ∷ xs) a = (f x a.0, All-map f xs a.1)

  pub length-keep-le : (test : A → Bool) (xs : List A) → length (keep test xs) ≤ length xs
  length-keep-le test [] = omega arith
  length-keep-le test (x ∷ xs) = ground (arith, length-keep-le test xs)
