-- ===== src/Store/Sequential.antt =====
-- `SequentialBatchMixin`: batches as single calls, one after the other.
use pretrade_risk_controls.Common.{
  String, str_eq, str_eq_iff, ◌≡◌, refl, Option, none, some, List, [], ◌∷◌, arith, if◌then◌else◌,
}
use pretrade_risk_controls.Common.Dict.{Dict, lookup, IsDict}
use pretrade_risk_controls.Store.{StateStore, IsStore, has_text, written}
use pretrade_risk_controls.Store.Memory.{collect, lookup-collect}

module _ {S : Type 0} (get : S → String → Option String) (set : S → String → String → S) where
  unfoldable pub get_many : S → List String → Dict (Option String)
  unfolding collect
  get_many s ks = collect (get s) ks []

  unfoldable pub set_many : S → Dict String → S
  set_many s [] = s
  set_many s ((k, v) ∷ entries) = set_many (set s k v) entries

  -- A backend with the two single calls, and the mixin's batches.
  abbrev pub sequential_store : StateStore S
  sequential_store = record { get = get; get_many = get_many; set = set; set_many = set_many }

  module _
      (get-set : (s : S) (k v j : String)
        → get (set s k v) j ≡ (if str_eq k j then some v else get s j)) where
    get-set_many :
        (s : S) (entries : Dict String) (j : String)
        → IsDict entries
        → get (set_many s entries) j ≡ written (lookup j entries) (get s j)
    unfolding set_many lookup
    get-set_many s [] j h = refl
    get-set_many s ((k, v) ∷ entries) j h =
        rw (get-set_many (set s k v) entries j h.1, get-set s k v j)
          (ground (arith, str_eq_iff k j))

    lookup-get_many :
        (s : S) (ks : List String) (k : String)
        → lookup k (get_many s ks) ≡ (if has_text k ks then some (get s k) else none)
    unfolding get_many lookup
    lookup-get_many s ks k = lookup-collect (get s) ks [] k

    -- Over single calls that read back what they wrote, the mixin's batches keep the whole
    -- contract.
    pub sequential_store-IsStore : IsStore S ⦃st = sequential_store⦄
    sequential_store-IsStore = record {
      get-set = get-set;
      get-set_many = get-set_many;
      lookup-get_many = lookup-get_many;
    }
