-- ===== src/Store.antt =====
-- src/pretrade_risk/store.py: the key-value contract, as an interface with its laws, and the
-- dictionary that meets it. A coroutine is a function of the store, since nothing else runs between
-- its awaits.
pub mod Memory
pub mod Sequential
pub mod Sqlite
use pretrade_risk_controls.Common.{
  String, str_eq, ◌≡◌, refl, Bool, true, false, ◌||◌, Option, none, some, List, [], ◌∷◌,
  if◌then◌else◌,
}
use pretrade_risk_controls.Common.Dict.{Dict, lookup, IsDict}

pub record StateStore (S : Type 0) : Type 0 where
  pub get : S → String → Option String
  pub get_many : S → List String → Dict (Option String)
  pub set : S → String → String → S
  pub set_many : S → Dict String → S

-- `raw.get(key)` on the result of `get_many`: a key that is not there reads as `None`.
abbrev pub flat : Option (Option String) → Option String
flat none = none
flat (some value) = value

unfoldable pub raw_get : Dict (Option String) → String → Option String
raw_get raw key = flat (lookup key raw)

abbrev pub has_text : String → List String → Bool
has_text k [] = false
has_text k (j ∷ js) = str_eq j k || has_text k js

-- `entries[key]` if it is there, else what was stored.
abbrev pub written : Option String → Option String → Option String
written none old = old
written (some value) old = some value

-- The contract: a written value reads back and the other keys keep theirs; a batch writes as its
-- single calls do; and a batch read has exactly the keys that were asked for, each with what the
-- single call reads, a missing one with `None`.
pub record IsStore (S : Type 0) ⦃st : StateStore S⦄ : Type 0 where
  pub get-set :
      (s : S) (k v j : String)
      → st.get (st.set s k v) j ≡ (if str_eq k j then some v else st.get s j)
  pub get-set_many :
      (s : S) (entries : Dict String) (j : String)
      → IsDict entries
      → st.get (st.set_many s entries) j ≡ written (lookup j entries) (st.get s j)
  pub lookup-get_many :
      (s : S) (ks : List String) (k : String)
      → lookup k (st.get_many s ks) ≡ (if has_text k ks then some (st.get s k) else none)

-- So a key that was asked for reads as by the single call.
pub raw_get-get_many :
    {S : Type 0} ⦃st : StateStore S⦄ (store : IsStore S) (s : S) (ks : List String) (k : String)
    → has_text k ks ≡ true
    → raw_get (st.get_many s ks) k ≡ st.get s k
unfolding raw_get
raw_get-get_many store s ks k h = rw (store.lookup-get_many s ks k, h) refl
