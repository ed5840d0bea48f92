-- ===== src/Engine/Lifecycle/Torn/Prefix.antt =====
-- The first writes of a batch.
use pretrade_risk_controls.Common.{
  ℕ, zero, suc, String, ◌≡◌, refl, ◌⊎◌, inl, inr, ap, ◌∙◌, Option, none, some, [], ◌∷◌, arith,
  if◌then◌else◌, str_eq,
}
use pretrade_risk_controls.Common.Dict.{Dict, lookup, IsDict}
use pretrade_risk_controls.Store.{written}

-- The `i`th of the values after `n` of the writes.
abbrev pub pick {ℓ} : {A : Type ℓ} → ℕ → ℕ → A → A → A
pick i zero old new = old
pick zero (suc n) old new = new
pick (suc i) (suc n) old new = pick i n old new

pub pick-either {ℓ} :
    {A : Type ℓ} (i n : ℕ) (old new : A) → (pick i n old new ≡ old) ⊎ (pick i n old new ≡ new)
pick-either i zero old new = inl refl
pick-either zero (suc n) old new = inr refl
pick-either (suc i) (suc n) old new = pick-either i n old new

pick-same {ℓ} : {A : Type ℓ} (i n : ℕ) (a : A) → pick i n a a ≡ a
pick-same i zero a = refl
pick-same zero (suc n) a = refl
pick-same (suc i) (suc n) a = pick-same i n a

-- What is written two places behind is written later.
pub pick-stages :
    {A : Type 0} (i n : ℕ) (a b c d : A)
    → ((pick i n a b ≡ a) × (pick (suc (suc i)) n c d ≡ c))
      ⊎ ((pick i n a b ≡ b) × (pick (suc (suc i)) n c d ≡ c))
      ⊎ ((pick i n a b ≡ b) × (pick (suc (suc i)) n c d ≡ d))
pick-stages i zero a b c d = inl (refl, refl)
pick-stages zero (suc n) a b c d = elim (pick-either 1 n c d) [
  | inl before ↦ inr (inl (refl, before))
  | inr behind ↦ inr (inr (refl, behind))
]
pick-stages (suc i) (suc n) a b c d = pick-stages i n a b c d

unfoldable pub first {ℓ} : {V : Type ℓ} → ℕ → Dict V → Dict V
first zero entries = []
first (suc n) [] = []
first (suc n) (entry ∷ entries) = entry ∷ first n entries

-- The place of a key.
unfoldable pub index {ℓ} : {V : Type ℓ} → String → Dict V → ℕ
index k [] = 0
index k ((j, v) ∷ entries) = let rest = index k entries in if str_eq j k then 0 else suc rest

pub lookup-first {ℓ} :
    {V : Type ℓ} (k : String) (n : ℕ) (entries : Dict V)
    → lookup k (first n entries) ≡ pick (index k entries) n none (lookup k entries)
unfolding lookup first index
lookup-first k zero entries = refl
lookup-first k (suc n) [] = refl
lookup-first k (suc n) ((j, v) ∷ entries) = ground (arith, lookup-first k n entries)

pub first-IsDict {ℓ} :
    {V : Type ℓ} (n : ℕ) (entries : Dict V) → IsDict entries → IsDict (first n entries)
unfolding first lookup
first-IsDict zero entries h = tt
first-IsDict (suc n) [] h = tt
first-IsDict (suc n) ((j, v) ∷ entries) (fresh, h) = (
  lookup-first j n entries ∙ ap (pick (index j entries) n none) fresh ∙ pick-same _ n none,
  first-IsDict n entries h,
)

-- The text at a key after `n` of the writes.
pub written-pick :
    {A : Type 0} (i n : ℕ) (text : A → String) (old new : A) (stored : Option String)
    → stored ≡ some (text old)
    → written (pick i n none (some (text new))) stored ≡ some (text (pick i n old new))
written-pick i zero text old new stored h = h
written-pick zero (suc n) text old new stored h = refl
written-pick (suc i) (suc n) text old new stored h = written-pick i n text old new stored h
