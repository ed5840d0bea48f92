-- ===== src/Float/Whole.antt =====
-- An interface of floats that meets the stated laws: whole numbers, and `none` for NaN. It shows
-- that the hypotheses can hold, and runs the examples.
pub mod Decimal
use pretrade_risk_controls.Common.{
  refl, ◌≡◌, ap, ℕ, zero, suc, ◌+◌, ◌*◌, ◌/◌, String, Bool, true, false, ◌&&◌, Option, none, some,
  ℤ, pos, negsuc, pos_part, neg_part, sub_ℕ, ◌+ℤ◌, ◌-ℤ◌, leb_ℤ, ltb_ℤ, ◌==◌, div_ℤ, arith,
  if◌then◌else◌,
}
use pretrade_risk_controls.Float.{Float, IsBinary64}
use pretrade_risk_controls.Encoding.{codes}
use pretrade_risk_controls.Encoding.Printf.{IsPrintf, IsRoundTrip}
use Decimal.{show_int, read_int, read_int-show_int, show_int-IsPrintf}

abbrev pub Whole : Type 0
Whole = Option ℤ

-- An operation that gives NaN at NaN, and a test that fails there.
abbrev on_both : (ℤ → ℤ → ℤ) → Whole → Whole → Whole
on_both f (some a) (some b) = some (f a b)
on_both f _ _ = none

abbrev holds_of : (ℤ → ℤ → Bool) → Whole → Whole → Bool
holds_of f (some a) (some b) = f a b
holds_of f _ _ = false

abbrev times : ℤ → ℤ → ℤ
times a b =
    sub_ℕ (pos_part a * pos_part b + neg_part a * neg_part b)
      (pos_part a * neg_part b + neg_part a * pos_part b)

abbrev over : Whole → Whole → Whole
over (some a) (some (pos (suc d))) = some (div_ℤ a (suc d))
over _ _ = none

abbrev magnitude : Whole → Whole
magnitude none = none
magnitude (some a) = some (pos (pos_part a + neg_part a))

abbrev is_whole : Whole → Bool
is_whole none = false
is_whole (some a) = true

abbrev to_whole : Whole → ℤ
to_whole none = pos 0
to_whole (some a) = a

abbrev show : Whole → String
show none = "nan"
show (some a) = show_int a

instance abbrev pub whole_float : Float Whole
whole_float = record {
  add = on_both ◌+ℤ◌;
  sub = on_both ◌-ℤ◌;
  mul = on_both times;
  div = over;
  abs = magnitude;
  lt = holds_of ltb_ℤ;
  le = holds_of leb_ℤ;
  eq = holds_of λ a b. leb_ℤ a b && leb_ℤ b a;
  is_finite = is_whole;
  of_int = some;
  to_int = to_whole;
  int_lt = λ n x. holds_of ltb_ℤ (some n) x;
  format_17g = show;
  parse = λ s. some (read_int s);
  format_g = show;
  format_2f = show;
  format_signed_2f = show;
  format_percent = show;
  format_signed_4g = show;
}

pub Whole-IsBinary64 : IsBinary64 Whole
unfolding ◌-ℤ◌
Whole-IsBinary64 = ground arith

is_whole-parse : (x : Whole) → is_whole x ≡ true → some (read_int (show x)) ≡ x
is_whole-parse none h = cc
is_whole-parse (some a) h = ap some (read_int-show_int a)

show-IsPrintf : (x : Whole) → is_whole x ≡ true → IsPrintf (codes (show x))
show-IsPrintf none h = cc
show-IsPrintf (some a) h = show_int-IsPrintf a

pub Whole-IsRoundTrip : IsRoundTrip Whole
unfolding read_int
Whole-IsRoundTrip = record {
  format-IsPrintf = show-IsPrintf;
  parse-format = is_whole-parse;
  parse-zero = refl;
}
