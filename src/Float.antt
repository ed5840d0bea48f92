-- ===== src/Float.antt =====
-- Python's `float`, IEEE-754 binary64, as the program uses it: the arithmetic, the comparisons,
-- the conversions, and the renderings of `format`. None of it is code of the repository, so it is
-- an interface; `IsBinary64` states what IEEE-754 and the Python reference say of it.
pub mod Order
pub mod Whole
use pretrade_risk_controls.Common.{
  ℕ, ◌^◌, ◌≤◌, String, ◌≡◌, Bool, true, false, ◌&&◌, ℤ, pos, ltb_ℤ, ◌≤ℤ◌, pos_part, neg_part,
  if◌then◌else◌,
}

pub record Float (F : Type 0) : Type 0 where
  pub add : F → F → F
  pub sub : F → F → F
  pub mul : F → F → F
  -- `/` where the divisor is not zero; the model raises at zero by itself.
  pub div : F → F → F
  pub abs : F → F
  pub lt : F → F → Bool
  pub le : F → F → Bool
  pub eq : F → F → Bool
  -- `math.isfinite`
  pub is_finite : F → Bool
  -- `float(n)` and `int(x)`
  pub of_int : ℤ → F
  pub to_int : F → ℤ
  -- `n < x` between an `int` and a `float`, which Python compares exactly
  pub int_lt : ℤ → F → Bool
  -- `f"{x:.17g}"`, and `float(raw)` on a text of the grammar of `_NUMBER_RE`
  pub format_17g : F → String
  pub parse : String → F
  -- `:g`, `:.2f`, `:+.2f`, `:.2%` and `:+.4g`
  pub format_g : F → String
  pub format_2f : F → String
  pub format_signed_2f : F → String
  pub format_percent : F → String
  pub format_signed_4g : F → String

module _ {F : Type 0} ⦃fl : Float F⦄ where
  -- `0.0`, which is also what a comparison with the `int` 0 compares with
  abbrev pub nought : F
  nought = fl.of_int (pos 0)

  -- The two-argument `max`: the later argument only if it is strictly greater.
  unfoldable pub max : F → F → F
  max a b = if fl.lt a b then b else a

  -- `x <= x`, which fails for NaN alone
  abbrev pub IsNumber : F → Type 0
  IsNumber x = fl.le x x ≡ true

-- Integers of this size are binary64 values without rounding.
abbrev pub exact_bound : ℕ
exact_bound = 2 ^ 53

abbrev pub IsExact : ℤ → Type 0
IsExact n = (pos_part n ≤ exact_bound) × (neg_part n ≤ exact_bound)

pub record IsBinary64 (F : Type 0) ⦃fl : Float F⦄ : Type 0 where
  -- Comparisons: a total order on the numbers, and false at NaN.
  pub le_numbers : (x y : F) → fl.le x y ≡ true → IsNumber x × IsNumber y
  pub le_trans : (x y z : F) → fl.le x y ≡ true → fl.le y z ≡ true → fl.le x z ≡ true
  pub lt_numbers : (x y : F) → fl.lt x y ≡ true → IsNumber x × IsNumber y
  pub lt-not-le : (x y : F) → IsNumber x → IsNumber y → fl.lt x y ≡ true → fl.le y x ≡ false
  pub not-le-lt : (x y : F) → IsNumber x → IsNumber y → fl.le y x ≡ false → fl.lt x y ≡ true
  pub lt-le : (x y : F) → fl.lt x y ≡ true → fl.le x y ≡ true
  pub eq-le : (x y : F) → fl.eq x y ≡ (fl.le x y && fl.le y x)
  pub is_finite-IsNumber : (x : F) → fl.is_finite x ≡ true → IsNumber x
  -- Conversions of integers that need no rounding.
  pub of_int-is_finite : (n : ℤ) → IsExact n → fl.is_finite (fl.of_int n) ≡ true
  pub to_int-of_int : (n : ℤ) → IsExact n → fl.to_int (fl.of_int n) ≡ n
  pub int_lt-of_int : (m n : ℤ) → IsExact n → fl.int_lt m (fl.of_int n) ≡ ltb_ℤ m n
  pub lt-of_int : (m n : ℤ) → IsExact m → IsExact n → fl.lt (fl.of_int m) (fl.of_int n) ≡ ltb_ℤ m n
  -- A positive amount taken from zero leaves less than zero.
  pub sub_nought_lt : (x : F) → fl.lt nought x ≡ true → fl.lt (fl.sub nought x) nought ≡ true
  -- Subtraction of finite values is zero only between equals, and has the sign of the comparison.
  pub sub_le_nought :
      (x y : F)
      → fl.is_finite x ≡ true
      → fl.is_finite y ≡ true
      → fl.le (fl.sub x y) nought ≡ fl.le x y
  -- `int(x)` drops the fraction.
  pub to_int-nonnegative :
      (x : F) → fl.is_finite x ≡ true → fl.lt x nought ≡ false → pos 0 ≤ℤ fl.to_int x
