-- ===== src/Python.antt =====
-- What the program calls of Python's standard library besides floats: dates, texts and sorting.
pub mod Plain
use pretrade_risk_controls.Common.{All, true, false, String, ◌≡◌, ◌↔◌, Bool, List, ℤ, ℕ, div_ℤ}
use pretrade_risk_controls.Encoding.{codes}

pub record Python : Type 0 where
  -- `datetime.fromtimestamp(millis / 1000, UTC).date().isoformat()`, for the instants that `datetime`
  -- can write: the years 1 to 9999. Beyond them Python raises, and nothing here speaks of it.
  pub iso_date : ℤ → String
  -- `f"{n}"` of an `int`
  pub format_int : ℤ → String
  -- `sorted` on texts
  pub sorted : List String → List String
  -- `text.strip()`
  pub strip : String → String

-- What the reference says of `strip`: without an argument it removes the whitespace at both ends. So
-- nothing is left exactly of a text that has whitespace only. Which code points are whitespace is a
-- parameter.
abbrev pub IsStrip : (ℕ → Bool) → Python → Type 0
IsStrip is_space py =
    (text : String) → (py.strip text ≡ "") ↔ All (λ c. is_space c ≡ true) (codes text)

abbrev pub millis_per_second : ℕ
millis_per_second = 1_000

abbrev pub millis_per_day : ℕ
millis_per_day = 86_400_000

-- Two instants have the same ISO date exactly if they lie in the same UTC day.
abbrev pub IsCalendar : Python → Type 0
IsCalendar py =
    (a b : ℤ) → (py.iso_date a ≡ py.iso_date b) ↔ (div_ℤ a millis_per_day ≡ div_ℤ b millis_per_day)

-- What a call that can raise gives back.
pub data Result {ℓ} (A : Type ℓ) : Type ℓ where
  ok : A → Result A
  value_error : Result A

infixl 5 ◌>>=◌ ◌>>◌
abbrev pub ◌>>=◌ {ℓ κ} : {A : Type ℓ} {B : Type κ} → Result A → (A → Result B) → Result B
ok a >>= f = f a
value_error >>= f = value_error

abbrev pub ◌>>◌ {ℓ} : {B : Type ℓ} → Result (Unit {0}) → Result B → Result B
m >> k = m >>= λ _. k

-- `if test: raise ValueError(...)`
abbrev pub raise_if : Bool → Result (Unit {0})
raise_if b = elim b [ true ↦ value_error | false ↦ ok tt ]
