-- ===== src/Database/Plain.antt =====
-- A database that meets the stated laws: a file is a dictionary, and a connection holds what the file
-- had, what it sees, and whether the table was created. It tells the statements apart by their texts.
use text.Mathlib.Text.{starts_with}
use text.Mathlib.TextPositions.{starts_with-append}
use pretrade_risk_controls.Common.{
  ℕ, String, ◌∙◌, ap, str_eq, str_eq_iff, ◌≡◌, refl, Bool, true, false, Option, none, some, List,
  [], ◌∷◌, map, length, arith, if◌then◌else◌,
}
use pretrade_risk_controls.Common.Dict.{Dict, lookup, insert, IsDict, lookup-insert, insert-IsDict}
use pretrade_risk_controls.Store.{has_text, written}
use pretrade_risk_controls.Database.{
  Database, IsDatabase, Row, schema, upsert, select_one, select_many, value_rows, pair_row,
}

pub record Connection : Type 0 where
  pub saved : Dict String
  pub seen : Dict String
  pub has_table : Bool

-- The rows of the keys that are there, each once.
unfoldable pub find_many : (String → Option String) → List String → Dict String → Dict String
unfolding insert
find_many get [] found = found
find_many get (k ∷ ks) found =
    find_many get ks (elim (get k) [ none ↦ found | some v ↦ insert k v found ])

abbrev many_prefix : String
many_prefix = "SELECT key, value FROM state WHERE key IN ("

abbrev pub write_row : Connection → List String → Connection
write_row c (k ∷ v ∷ stamp ∷ []) = record c { seen = insert k v c.seen }
write_row c row = c

abbrev pub one_row : Connection → List String → List Row
one_row c [] = []
one_row c (k ∷ ks) = value_rows (lookup k c.seen)

unfoldable pub run_statement : Connection → String → List String → Connection × List Row
unfolding find_many insert lookup
run_statement c sql ks =
    if starts_with sql many_prefix
    then (c, map pair_row (find_many (λ k. lookup k c.seen) ks []))
    else if str_eq sql select_one
    then (c, one_row c ks)
    else if str_eq sql schema
    then (record c { has_table = true }, [])
    else if str_eq sql upsert
    then (write_row c ks, [])
    else (c, [])

unfoldable pub run_many : Connection → String → List Row → Connection
unfolding run_statement
run_many c sql [] = c
run_many c sql (row ∷ rows) = run_many (run_statement c sql row).0 sql rows

abbrev pub plain_database : Database (Dict String) Connection
plain_database = record {
  connect = λ file. record { saved = file; seen = file; has_table = false };
  execute = run_statement;
  execute_many = run_many;
  commit = λ c. record c { saved = c.seen };
  close = λ c. c.saved;
}

is_many : (n : ℕ) → starts_with (select_many n) many_prefix ≡ true
is_many n = starts_with-append many_prefix _

find_many-IsDict :
    (get : String → Option String) (ks : List String) (found : Dict String)
    → IsDict found
    → IsDict (find_many get ks found)
unfolding find_many
find_many-IsDict get [] found h = h
find_many-IsDict get (k ∷ ks) found h = find_many-IsDict get ks _ (one (get k))
  where
    one : (v : Option String) → IsDict (elim v [ none ↦ found | some w ↦ insert k w found ])
    one none = h
    one (some w) = insert-IsDict k w found h

lookup-insert_found :
    (k j : String) (v : Option String) (found : Dict String)
    → lookup j (elim v [ none ↦ found | some w ↦ insert k w found ])
      ≡ (if str_eq k j then written v (lookup j found) else lookup j found)
lookup-insert_found k j none found = ground arith
lookup-insert_found k j (some w) found = lookup-insert k j w found

lookup-find_many :
    (get : String → Option String) (ks : List String) (found : Dict String) (j : String)
    → lookup j (find_many get ks found)
      ≡ (if has_text j ks then written (get j) (lookup j found) else lookup j found)
unfolding find_many
lookup-find_many get [] found j = refl
lookup-find_many get (k ∷ ks) found j =
    lookup-find_many get ks _ j
    ∙ ground (arith, str_eq_iff k j, lookup-insert_found k j (get k) found)

written-none : (value : Option String) → written value none ≡ value
written-none none = refl
written-none (some value) = refl

write_row-saved : (c : Connection) (row : Row) → (write_row c row).saved ≡ c.saved
write_row-saved c (k ∷ v ∷ stamp ∷ []) = refl
write_row-saved c [] = refl
write_row-saved c (k ∷ []) = refl
write_row-saved c (k ∷ v ∷ []) = refl
write_row-saved c (k ∷ v ∷ stamp ∷ more ∷ row) = refl

run_many-saved :
    (c : Connection) (rows : List Row) (j : String)
    → lookup j (run_many c upsert rows).saved ≡ lookup j c.saved
unfolding run_many run_statement
run_many-saved c [] j = refl
run_many-saved c (row ∷ rows) j =
    run_many-saved (write_row c row) rows j ∙ ap (lookup j) (write_row-saved c row)

pub plain_database-IsDatabase : IsDatabase (Dict String) Connection plain_database
unfolding run_statement run_many lookup
plain_database-IsDatabase = record {
  committed = λ file k. lookup k file;
  visible = λ c k. lookup k c.seen;
  durable = λ c k. lookup k c.saved;
  HasTable = λ c. c.has_table ≡ true;
  visible-connect = λ file k. refl;
  durable-connect = λ file k. refl;
  committed-close = λ c k. refl;
  wal_mode-visible = λ c k. refl;
  wal_mode-durable = λ c k. refl;
  schema-HasTable = λ c. refl;
  schema-visible = λ c k. refl;
  schema-durable = λ c k. refl;
  select_one-rows = λ c k h. refl;
  select_one-durable = λ c k j. refl;
  select_many-rows = λ c ks h. (
    find_many (λ k. lookup k c.seen) ks [],
    rw (is_many (length ks)) refl,
    find_many-IsDict _ ks [] tt,
    λ j.
        lookup-find_many (λ k. lookup k c.seen) ks [] j
        ∙ ap (λ v. if has_text j ks then v else none) (written-none _),
  );
  select_many-durable = λ c ks j. rw (is_many (length ks)) refl;
  upsert-visible = λ c k v stamp j h. lookup-insert k j v c.seen;
  upsert-HasTable = λ c k v stamp h. h;
  execute_many-none = λ c j. refl;
  execute_many-row = λ c row rows j. refl;
  execute_many-durable = λ c rows j. run_many-saved c rows j;
  commit-durable = λ c k. refl;
}
