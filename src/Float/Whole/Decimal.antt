-- ===== src/Float/Whole/Decimal.antt =====
-- Decimal texts of integers, and reading them back.
use Prim.Native.Char.{Char, code}
use pretrade_risk_controls.Common.{
  ℕ, zero, suc, ◌+◌, ◌-◌, ◌*◌, ◌/◌, ◌%◌, ◌<◌, String, ◌≡◌, refl, ℤ, pos, negsuc, ltb, ◌==◌, arith,
  if◌then◌else◌, [], ◌∷◌, Bool-cases, inl, inr, ltb→lt, ◌∙◌, ap, sym,
}
use mathlib.Core.List.{append-nil}
use pretrade_risk_controls.Encoding.{codes}
use pretrade_risk_controls.Encoding.Grammar.{IsDigit, AllDigits}
use pretrade_risk_controls.Encoding.Printf.{IsPrintf}

abbrev digit : ℕ → Char
digit zero = "0"
digit (suc zero) = "1"
digit (suc (suc zero)) = "2"
digit (suc (suc (suc zero))) = "3"
digit (suc (suc (suc (suc zero)))) = "4"
digit (suc (suc (suc (suc (suc zero))))) = "5"
digit (suc (suc (suc (suc (suc (suc zero)))))) = "6"
digit (suc (suc (suc (suc (suc (suc (suc zero))))))) = "7"
digit (suc (suc (suc (suc (suc (suc (suc (suc zero)))))))) = "8"
digit (suc (suc (suc (suc (suc (suc (suc (suc (suc n))))))))) = "9"

-- The digits of `n` in front of a text, on fuel above `n`.
pub show_from : ℕ → ℕ → String → String
show_from zero n tail = tail
show_from (suc fuel) n tail =
    let rest = show_from fuel (n / 10) (String.◌∷◌ (digit (n % 10)) tail) in
    if ltb n 10 then String.◌∷◌ (digit n) tail else rest

unfoldable pub show_int : ℤ → String
unfolding show_from
show_int (pos n) = show_from (suc n) n String.[]
show_int (negsuc n) = String.◌∷◌ "-" (show_from (suc (suc n)) (suc n) String.[])

-- The number that the text's digits continue.
pub read_from : ℕ → String → ℕ
read_from acc String.[] = acc
read_from acc (String.◌∷◌ c s) = read_from (acc * 10 + (code c - 48)) s

abbrev negate : ℕ → ℤ
negate zero = pos 0
negate (suc n) = negsuc n

unfoldable pub read_int : String → ℤ
unfolding read_from
read_int String.[] = pos 0
read_int (String.◌∷◌ c s) =
    if code c == b'-' then negate (read_from 0 s) else pos (read_from (0 * 10 + (code c - 48)) s)

code-digit : (d : ℕ) → d < 10 → code (digit d) ≡ 48 + d
code-digit zero h = refl
code-digit (suc zero) h = refl
code-digit (suc (suc zero)) h = refl
code-digit (suc (suc (suc zero))) h = refl
code-digit (suc (suc (suc (suc zero)))) h = refl
code-digit (suc (suc (suc (suc (suc zero))))) h = refl
code-digit (suc (suc (suc (suc (suc (suc zero)))))) h = refl
code-digit (suc (suc (suc (suc (suc (suc (suc zero))))))) h = refl
code-digit (suc (suc (suc (suc (suc (suc (suc (suc zero)))))))) h = refl
code-digit (suc (suc (suc (suc (suc (suc (suc (suc (suc zero))))))))) h = refl
code-digit (suc (suc (suc (suc (suc (suc (suc (suc (suc (suc d)))))))))) h = absurd (omega arith)

read_from-show_from :
    (fuel n : ℕ) (tail : String) → n < fuel → read_from 0 (show_from fuel n tail) ≡ read_from n tail
unfolding show_from read_from
read_from-show_from zero n tail h = absurd (omega arith)
read_from-show_from (suc fuel) n tail h = elim (Bool-cases (ltb n 10)) [
  | inl small ↦
      let value = code-digit n (ltb→lt n 10 small) in
      rw small (ap (λ m. read_from m tail) (omega (arith, value)))
  | inr large ↦
      rw
        (large, read_from-show_from fuel (n / 10) (String.◌∷◌ (digit (n % 10)) tail) (ground arith))
        (ap (λ m. read_from m tail) (omega (arith, code-digit (n % 10) (omega arith))))
]

digit-IsDigit : (d : ℕ) → d < 10 → IsDigit (code (digit d))
digit-IsDigit d h = (ground (arith, code-digit d h), ground (arith, code-digit d h))

-- A text of digits, one at least, has a digit in front.
abbrev StartsWithDigit : String → Type 0
StartsWithDigit String.[] = ⊥
StartsWithDigit (String.◌∷◌ c s) = IsDigit (code c) × AllDigits (codes s)

show_from-StartsWithDigit :
    (fuel n : ℕ) (tail : String)
    → n < fuel
    → AllDigits (codes tail)
    → StartsWithDigit (show_from fuel n tail)
unfolding show_from
show_from-StartsWithDigit zero n tail h t = absurd (omega arith)
show_from-StartsWithDigit (suc fuel) n tail h t = elim (Bool-cases (ltb n 10)) [
  | inl small ↦ rw small (digit-IsDigit n (ltb→lt n 10 small), t)
  | inr large ↦ rw large (
      show_from-StartsWithDigit fuel (n / 10) (String.◌∷◌ (digit (n % 10)) tail) (ground arith)
        (digit-IsDigit (n % 10) (omega arith), t))
]

whole-IsPrintf : (s : String) → StartsWithDigit s → IsPrintf (codes s)
whole-IsPrintf String.[] h = absurd h
whole-IsPrintf (String.◌∷◌ c s) h =
    ([], code c ∷ codes s, [], [], sym (append-nil _ ∙ append-nil _), tt, h, tt, tt)

negative-IsPrintf : (s : String) → StartsWithDigit s → IsPrintf (codes (String.◌∷◌ "-" s))
negative-IsPrintf String.[] h = absurd h
negative-IsPrintf (String.◌∷◌ c s) h = (
  b'-' ∷ [],
  code c ∷ codes s,
  [],
  [],
  ap (λ t. b'-' ∷ t) (sym (append-nil _ ∙ append-nil _)),
  refl,
  h,
  tt,
  tt,
)

-- The decimal text of an integer has the form of `%g`.
pub show_int-IsPrintf : (n : ℤ) → IsPrintf (codes (show_int n))
unfolding show_int
show_int-IsPrintf (pos n) =
    whole-IsPrintf (show_from (suc n) n String.[])
      (show_from-StartsWithDigit (suc n) n String.[] (omega arith) tt)
show_int-IsPrintf (negsuc n) =
    negative-IsPrintf (show_from (suc (suc n)) (suc n) String.[])
      (show_from-StartsWithDigit (suc (suc n)) (suc n) String.[] (omega arith) tt)

read_int-StartsWithDigit : (s : String) → StartsWithDigit s → read_int s ≡ pos (read_from 0 s)
unfolding read_int
read_int-StartsWithDigit String.[] h = absurd h
read_int-StartsWithDigit (String.◌∷◌ c s) h = ground arith

-- It reads back as the integer.
pub read_int-show_int : (n : ℤ) → read_int (show_int n) ≡ n
unfolding show_int read_from
read_int-show_int (pos n) =
    read_int-StartsWithDigit (show_from (suc n) n String.[])
      (show_from-StartsWithDigit (suc n) n String.[] (omega arith) tt)
    ∙ ap pos (read_from-show_from (suc n) n String.[] (omega arith))
read_int-show_int (negsuc n) =
    unfold read_int in ap negate (read_from-show_from (suc (suc n)) (suc n) String.[] (omega arith))
