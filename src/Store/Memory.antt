-- ===== src/Store/Memory.antt =====
-- `InMemoryStateStore`: a dictionary, whose batch write is `dict.update`.
use pretrade_risk_controls.Common.{
  String, str_eq_iff, ◌≡◌, refl, Option, some, List, [], ◌∷◌, arith, if◌then◌else◌,
}
use pretrade_risk_controls.Common.Dict.{Dict, lookup, insert, update, lookup-insert, IsDict}
use pretrade_risk_controls.Store.{StateStore, IsStore, has_text, written}

-- `{key: get(key) for key in keys}`, onto what is collected already
unfoldable pub collect :
    (String → Option String) → List String → Dict (Option String) → Dict (Option String)
unfolding insert
collect get [] d = d
collect get (k ∷ ks) d = collect get ks (insert k (get k) d)

pub lookup-collect :
    (get : String → Option String) (ks : List String) (d : Dict (Option String)) (j : String)
    → lookup j (collect get ks d) ≡ (if has_text j ks then some (get j) else lookup j d)
unfolding collect
lookup-collect get [] d j = refl
lookup-collect get (k ∷ ks) d j =
    rw (lookup-collect get ks (insert k (get k) d) j, lookup-insert k j (get k) d)
      (ground (arith, str_eq_iff k j))

pub lookup-update :
    (entries d : Dict String) (j : String)
    → IsDict entries
    → lookup j (update entries d) ≡ written (lookup j entries) (lookup j d)
unfolding update lookup
lookup-update [] d j h = refl
lookup-update ((k, v) ∷ entries) d j h =
    rw (lookup-update entries (insert k v d) j h.1, lookup-insert k j v d)
      (ground (arith, str_eq_iff k j))

-- The store's state is its dictionary.
pub record Memory : Type 0 where
  pub contents : Dict String

instance abbrev pub memory_store : StateStore Memory
memory_store = record {
  get = λ s k. lookup k s.contents;
  get_many = λ s ks. collect (λ k. lookup k s.contents) ks [];
  set = λ s k v. record { contents = insert k v s.contents };
  set_many = λ s entries. record { contents = update entries s.contents };
}

-- The in-memory store keeps the contract.
pub Memory-IsStore : IsStore Memory
unfolding lookup
Memory-IsStore = record {
  get-set = λ s k v j. lookup-insert k j v s.contents;
  get-set_many = λ s entries j h. lookup-update entries s.contents j h;
  lookup-get_many = λ s ks k. lookup-collect (λ k. lookup k s.contents) ks [] k;
}
