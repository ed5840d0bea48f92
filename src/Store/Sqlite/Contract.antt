-- ===== src/Store/Sqlite/Contract.antt =====
-- The contract of store.py over SQLite.
use pretrade_risk_controls.Common.{
  String, str_eq, str_eq_iff, ◌≡◌, refl, sym, ◌∙◌, ap, Option, none, some, List, [], ◌∷◌, map,
  arith, if◌then◌else◌,
}
use pretrade_risk_controls.Common.Dict.{Dict, lookup, insert, update, IsDict}
use pretrade_risk_controls.Python.{ok}
use pretrade_risk_controls.Database.{Database, IsDatabase, upsert, value_rows, pair_row}
use pretrade_risk_controls.Store.{IsStore, has_text, written}
use pretrade_risk_controls.Store.Memory.{lookup-collect, lookup-update}
use pretrade_risk_controls.Store.Sqlite.{
  run_calls, prepare, get, get_many, set, set_many, first_value, collect_rows, stamped, answer,
  value_or_empty, sqlite_store,
}

first_value-value_rows : (value : Option String) → first_value (value_rows value) ≡ value
first_value-value_rows none = refl
first_value-value_rows (some value) = refl

collect_rows-update :
    (found entries : Dict String)
    → collect_rows found (map pair_row entries) ≡ ok (update entries found)
unfolding collect_rows update
collect_rows-update found [] = refl
collect_rows-update found ((key, value) ∷ entries) =
    collect_rows-update (insert key value found) entries

written-none : (value : Option String) → written value none ≡ value
written-none none = refl
written-none (some value) = refl

lookup-update_empty :
    (entries : Dict String) (j : String)
    → IsDict entries
    → lookup j (update entries []) ≡ lookup j entries
unfolding lookup
lookup-update_empty entries j once = lookup-update entries [] j once ∙ written-none _

module _ {D C : Type 0} (db : Database D C) (laws : IsDatabase D C db) where
  open laws use {committed, visible, durable, HasTable}

  -- A prepared connection has the table, and shows the file.
  pub prepare-HasTable : (c : C) → HasTable (prepare db c)
  unfolding prepare
  prepare-HasTable c = laws.schema-HasTable _

  prepare-visible : (c : C) (k : String) → visible (prepare db c) k ≡ visible c k
  unfolding prepare
  prepare-visible c k = laws.schema-visible _ k ∙ laws.wal_mode-visible c k

  prepare-durable : (c : C) (k : String) → durable (prepare db c) k ≡ durable c k
  unfolding prepare
  prepare-durable c k = laws.schema-durable _ k ∙ laws.wal_mode-durable c k

  pub opened-visible :
      (file : D) (k : String) → visible (prepare db (db.connect file)) k ≡ committed file k
  opened-visible file k = prepare-visible _ k ∙ laws.visible-connect file k

  pub opened-durable :
      (file : D) (k : String) → durable (prepare db (db.connect file)) k ≡ committed file k
  opened-durable file k = prepare-durable _ k ∙ laws.durable-connect file k

  pub get-committed : (file : D) (key : String) → (get db file key).1 ≡ committed file key
  unfolding get
  get-committed file key =
      ap first_value (laws.select_one-rows _ key (prepare-HasTable _))
      ∙ first_value-value_rows _
      ∙ opened-visible file key

  pub get_many-answer :
      (file : D) (key : String) (keys : List String)
      → (found : Dict String) × ((get_many db file (key ∷ keys)).1 ≡ answer (key ∷ keys) (ok found))
        × ((j : String)
            → lookup j found ≡ (if has_text j (key ∷ keys) then committed file j else none))
  unfolding get_many
  get_many-answer file key keys =
      let c = prepare db (db.connect file) in
      let (entries, rows, once, shown) =
        laws.select_many-rows c (key ∷ keys) (prepare-HasTable _) in
      (
        update entries [],
        ap (λ r. answer (key ∷ keys) (collect_rows [] r)) rows
            ∙ ap (answer (key ∷ keys)) (collect_rows-update [] entries),
        λ j.
            lookup-update_empty entries j once
            ∙ shown j
            ∙ ap (λ v. if has_text j (key ∷ keys) then v else none) (opened-visible file j),
      )

  lookup-get_many :
      (file : D) (keys : List String) (k : String)
      → lookup k (value_or_empty (get_many db file keys).1)
        ≡ (if has_text k keys then some (get db file k).1 else none)
  unfolding get_many lookup
  lookup-get_many file [] k = refl
  lookup-get_many file (key ∷ keys) k =
      let (found, made, shown) = get_many-answer file key keys in
      let wanted = key ∷ keys in
      ap (λ r. lookup k (value_or_empty r)) made
      ∙ lookup-collect (λ j. lookup j found) wanted [] k
      ∙ rw (shown k, get-committed file k) (ground arith)

  -- `executemany`, over all its rows.
  pub execute_many-visible :
      (c : C) (entries : Dict String) (stamp j : String)
      → HasTable c
      → IsDict entries
      → visible (db.execute_many c upsert (stamped stamp entries)) j
        ≡ written (lookup j entries) (visible c j)
  unfolding lookup
  execute_many-visible c [] stamp j table once = laws.execute_many-none c j
  execute_many-visible c ((k, v) ∷ entries) stamp j table once =
      let next = (db.execute c upsert (k ∷ v ∷ stamp ∷ [])).0 in
      laws.execute_many-row c _ _ j
      ∙ execute_many-visible next entries stamp j (laws.upsert-HasTable c k v stamp table) once.1
      ∙ ap (written (lookup j entries)) (laws.upsert-visible c k v stamp j table)
      ∙ ground (arith, str_eq_iff k j, once.0)

  pub set_many-committed :
      (stamp : String) (file : D) (entries : Dict String) (j : String)
      → IsDict entries
      → committed (run_calls db (set_many stamp entries) file) j
        ≡ written (lookup j entries) (committed file j)
  unfolding run_calls set_many prepare lookup
  set_many-committed stamp file [] j once = refl
  set_many-committed stamp file (entry ∷ entries) j once =
      let c = prepare db (db.connect file) in
      laws.committed-close _ j
      ∙ laws.commit-durable _ j
      ∙ execute_many-visible c (entry ∷ entries) stamp j (prepare-HasTable _) once
      ∙ ap (written (lookup j (entry ∷ entries))) (opened-visible file j)

  set-committed :
      (stamp : String) (file : D) (key value j : String)
      → committed (run_calls db (set stamp key value) file) j
        ≡ (if str_eq key j then some value else committed file j)
  unfolding set lookup
  set-committed stamp file key value j =
      set_many-committed stamp file ((key, value) ∷ []) j (refl, tt) ∙ ground arith

  -- Over a database that does what SQLite documents, the store of sqlite_store.py keeps the contract
  -- of store.py, whatever the clock reads at each call.
  pub sqlite_store-IsStore : (now : D → String) → IsStore D ⦃st = sqlite_store db now⦄
  sqlite_store-IsStore now = record {
    get-set = λ file k v j.
        get-committed _ j
        ∙ set-committed (now file) file k v j
        ∙ ap (λ old. if str_eq k j then some v else old) (sym (get-committed file j));
    get-set_many = λ file entries j once.
        get-committed _ j
        ∙ set_many-committed (now file) file entries j once
        ∙ ap (written (lookup j entries)) (sym (get-committed file j));
    lookup-get_many = lookup-get_many;
  }

  -- Reading is harmless: one key or several, it leaves every committed value of the file as it is,
  -- and a read of several never raises.
  pub get_many-harmless :
      (file : D) (key : String) (keys : List String) (j : String)
      → (committed (get db file key).0 j ≡ committed file j)
        × (committed (get_many db file keys).0 j ≡ committed file j)
        × ((found : Dict (Option String)) × ((get_many db file keys).1 ≡ ok found))
  unfolding get get_many
  get_many-harmless file key keys j = (
    laws.committed-close _ j ∙ laws.select_one-durable _ key j ∙ opened-durable file j,
    left_alone keys,
    answered keys,
  )
    where
      left_alone : (keys : List String) → committed (get_many db file keys).0 j ≡ committed file j
      left_alone [] = refl
      left_alone (k ∷ ks) =
          laws.committed-close _ j ∙ laws.select_many-durable _ (k ∷ ks) j ∙ opened-durable file j

      answered :
          (keys : List String)
          → (found : Dict (Option String)) × ((get_many db file keys).1 ≡ ok found)
      answered [] = ([], refl)
      answered (k ∷ ks) = let (found, made, _) = get_many-answer file k ks in (_, made)
