-- ===== src/Common/Dict.antt =====
-- A Python `dict` with text keys, as the list of its items in insertion order.
use Prim.Native.String.{String}
use text.Mathlib.Text.{◌==◌}
use text.Mathlib.TextEquality.{eq_iff}
use mathlib.Core.Path.{◌≡◌, refl}
use mathlib.Core.Option.{Option, none, some}
use mathlib.Core.List.{List, [], ◌∷◌}
use native.Mathlib.Omega.{arith}
use pretrade_risk_controls.Common.Tests.{if◌then◌else◌}
use pretrade_risk_controls.Common.Lists.{keep}
use mathlib.Core.Bool.{Bool}

abbrev pub Dict {ℓ} : Type ℓ → Type ℓ
Dict V = List (String × V)

module _ {ℓ} {V : Type ℓ} where
  -- `d.get(k)`
  unfoldable pub lookup : String → Dict V → Option V
  lookup k [] = none
  lookup k ((j, v) ∷ d) = if j == k then some v else lookup k d

  -- `d[k] = v`
  unfoldable pub insert : String → V → Dict V → Dict V
  insert k v [] = (k, v) ∷ []
  insert k v ((j, w) ∷ d) = if j == k then (k, v) ∷ d else (j, w) ∷ insert k v d

  -- `d.update(entries)`
  unfoldable pub update : Dict V → Dict V → Dict V
  unfolding insert
  update [] d = d
  update ((k, v) ∷ entries) d = update entries (insert k v d)

  pub lookup-insert :
      (k j : String) (v : V) (d : Dict V)
      → lookup j (insert k v d) ≡ (if k == j then some v else lookup j d)
  unfolding lookup insert
  lookup-insert k j v [] = refl
  lookup-insert k j v ((i, w) ∷ d) =
      ground (arith, eq_iff k j, eq_iff i k, eq_iff i j, lookup-insert k j v d)

  -- No key stands twice.
  abbrev pub IsDict : Dict V → Type ℓ
  IsDict [] = Unit
  IsDict ((k, v) ∷ d) = (lookup k d ≡ none) × IsDict d

  pub insert-IsDict : (k : String) (v : V) (d : Dict V) → IsDict d → IsDict (insert k v d)
  unfolding insert lookup
  insert-IsDict k v [] h = (refl, tt)
  insert-IsDict k v ((j, w) ∷ d) h =
      ground (arith, eq_iff j k, eq_iff k j, insert-IsDict k v d h.1, lookup-insert k j v d)

  -- What a test on the value leaves of a looked up value.
  abbrev pub only : (V → Bool) → Option V → Option V
  only test none = none
  only test (some v) = if test v then some v else none

  pub lookup-keep-none :
      (test : V → Bool) (k : String) (d : Dict V)
      → lookup k d ≡ none
      → lookup k (keep (λ e. test e.1) d) ≡ none
  unfolding lookup
  lookup-keep-none test k [] h = refl
  lookup-keep-none test k ((j, w) ∷ d) h = ground (arith, lookup-keep-none test k d)

  pub lookup-keep :
      (test : V → Bool) (k : String) (d : Dict V)
      → IsDict d
      → lookup k (keep (λ e. test e.1) d) ≡ only test (lookup k d)
  unfolding lookup
  lookup-keep test k [] h = refl
  lookup-keep test k ((j, w) ∷ d) h =
      ground (arith, eq_iff j k, lookup-keep test k d h.1, lookup-keep-none test j d)

  pub keep-IsDict : (test : V → Bool) (d : Dict V) → IsDict d → IsDict (keep (λ e. test e.1) d)
  keep-IsDict test [] h = tt
  keep-IsDict test ((j, w) ∷ d) h =
      ground (arith, keep-IsDict test d h.1, lookup-keep-none test j d)
