-- ===== src/Database.antt =====
-- aiosqlite and SQLite, which sqlite_store.py calls: an interface, and in `IsDatabase` what their
-- documentation says of the five statements that the program sends.
pub mod Plain
use pretrade_risk_controls.Common.{
  ℕ, zero, suc, String, ◌<>◌, str_eq, ◌≡◌, Bool, true, Option, none, some, List, [], ◌∷◌, map,
  length, if◌then◌else◌,
}
use pretrade_risk_controls.Common.Dict.{Dict, lookup, IsDict}
use pretrade_risk_controls.Store.{has_text}

abbrev pub Row : Type 0
Row = List String

-- `D` is the file, `C` an open connection.
pub record Database (D C : Type 0) : Type 0 where
  -- `aiosqlite.connect(path)`, on the file that stands at the path
  pub connect : D → C
  -- `execute` with its parameters, and the rows that it selects
  pub execute : C → String → List String → C × List Row
  -- `executemany`
  pub execute_many : C → String → List Row → C
  pub commit : C → C
  -- The end of `async with`, or of the process: what was not committed is rolled back.
  pub close : C → D

-- The texts of sqlite_store.py.
abbrev pub wal_mode : String
wal_mode = "PRAGMA journal_mode=WAL"

abbrev pub schema : String
schema =
    "CREATE TABLE IF NOT EXISTS state (  key TEXT PRIMARY KEY,  value TEXT NOT NULL,  updated_at TEXT NOT NULL)"

abbrev pub upsert : String
upsert =
    "INSERT INTO state(key, value, updated_at) VALUES (?, ?, ?) ON CONFLICT(key) DO UPDATE SET   value = excluded.value,   updated_at = excluded.updated_at"

abbrev pub select_one : String
select_one = "SELECT value FROM state WHERE key = ?"

-- `",".join("?" * n)`
abbrev pub placeholders : ℕ → String
placeholders zero = ""
placeholders (suc zero) = "?"
placeholders (suc (suc n)) = "?," <> placeholders (suc n)

abbrev pub select_many : ℕ → String
select_many n = "SELECT key, value FROM state WHERE key IN (" <> placeholders n <> ")"

-- The row of a key that is there.
abbrev pub value_rows : Option String → List Row
value_rows none = []
value_rows (some value) = (value ∷ []) ∷ []

abbrev pub pair_row : String × String → Row
pair_row (key, value) = key ∷ value ∷ []

pub record IsDatabase (D C : Type 0) (db : Database D C) : Type 1 where
  -- The committed table of a file, what a connection sees of it, and what the file would hold if the
  -- connection ended now.
  pub committed : D → String → Option String
  pub visible : C → String → Option String
  pub durable : C → String → Option String
  -- The table exists for this connection.
  pub HasTable : C → Type 0
  pub visible-connect : (d : D) (k : String) → visible (db.connect d) k ≡ committed d k
  pub durable-connect : (d : D) (k : String) → durable (db.connect d) k ≡ committed d k
  pub committed-close : (c : C) (k : String) → committed (db.close c) k ≡ durable c k
  pub wal_mode-visible : (c : C) (k : String) → visible (db.execute c wal_mode []).0 k ≡ visible c k
  pub wal_mode-durable : (c : C) (k : String) → durable (db.execute c wal_mode []).0 k ≡ durable c k
  pub schema-HasTable : (c : C) → HasTable (db.execute c schema []).0
  pub schema-visible : (c : C) (k : String) → visible (db.execute c schema []).0 k ≡ visible c k
  pub schema-durable : (c : C) (k : String) → durable (db.execute c schema []).0 k ≡ durable c k
  -- A query of a key that is the primary key selects one row, or none, and changes nothing.
  pub select_one-rows :
      (c : C) (k : String)
      → HasTable c
      → (db.execute c select_one (k ∷ [])).1 ≡ value_rows (visible c k)
  pub select_one-durable :
      (c : C) (k j : String) → durable (db.execute c select_one (k ∷ [])).0 j ≡ durable c j
  -- A query of several keys, within SQLite's limit on parameters, selects the row of each that is
  -- there, once, in some order.
  pub select_many-rows :
      (c : C) (ks : List String)
      → HasTable c
      → (found : Dict String) × ((db.execute c (select_many (length ks)) ks).1 ≡ map pair_row found)
        × IsDict found
        × ((j : String) → lookup j found ≡ (if has_text j ks then visible c j else none))
  pub select_many-durable :
      (c : C) (ks : List String) (j : String)
      → durable (db.execute c (select_many (length ks)) ks).0 j ≡ durable c j
  -- The upsert replaces the row of the key, or adds one.
  pub upsert-visible :
      (c : C) (k v stamp j : String)
      → HasTable c
      → visible (db.execute c upsert (k ∷ v ∷ stamp ∷ [])).0 j
        ≡ (if str_eq k j then some v else visible c j)
  pub upsert-HasTable :
      (c : C) (k v stamp : String)
      → HasTable c
      → HasTable (db.execute c upsert (k ∷ v ∷ stamp ∷ [])).0
  -- `executemany` runs the statement for each row, in the transaction of the connection.
  pub execute_many-none :
      (c : C) (j : String) → visible (db.execute_many c upsert []) j ≡ visible c j
  pub execute_many-row :
      (c : C) (row : Row) (rows : List Row) (j : String)
      → visible (db.execute_many c upsert (row ∷ rows)) j
        ≡ visible (db.execute_many (db.execute c upsert row).0 upsert rows) j
  pub execute_many-durable :
      (c : C) (rows : List Row) (j : String)
      → durable (db.execute_many c upsert rows) j ≡ durable c j
  pub commit-durable : (c : C) (k : String) → durable (db.commit c) k ≡ visible c k
