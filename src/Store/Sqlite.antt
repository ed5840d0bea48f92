-- ===== src/Store/Sqlite.antt =====
-- src/pretrade_risk/sqlite_store.py: the store over a SQLite file, a connection for each call. The
-- reading of the clock that stamps the rows is an argument.
pub mod Contract
pub mod Atomic
use pretrade_risk_controls.Common.{
  String, Option, none, some, List, [], ◌∷◌, map, length, ◌++◌, if◌then◌else◌,
}
use pretrade_risk_controls.Common.Dict.{Dict, lookup, insert}
use pretrade_risk_controls.Python.{Result, ok, value_error}
use pretrade_risk_controls.Database.{
  Database, Row, wal_mode, schema, upsert, select_one, select_many,
}
use pretrade_risk_controls.Store.{StateStore}
use pretrade_risk_controls.Store.Memory.{collect}

-- `row[0] if row else None`, on what `fetchone` returns of the rows.
abbrev pub first_value : List Row → Option String
first_value [] = none
first_value ([] ∷ rows) = none
first_value ((value ∷ row) ∷ rows) = some value

-- `async for key, value in cur: found[key] = value`: a row of another width cannot be unpacked.
unfoldable pub collect_rows : Dict String → List Row → Result (Dict String)
unfolding insert
collect_rows found [] = ok found
collect_rows found ((key ∷ value ∷ []) ∷ rows) = collect_rows (insert key value found) rows
collect_rows found (row ∷ rows) = value_error

-- `[(key, value, stamp) for key, value in entries.items()]`
abbrev pub stamped : String → Dict String → List Row
stamped stamp entries = map (λ (key, value). key ∷ value ∷ stamp ∷ []) entries

-- `{key: found.get(key) for key in wanted}`
abbrev pub answer : List String → Result (Dict String) → Result (Dict (Option String))
answer wanted (ok found) = ok (collect (λ key. lookup key found) wanted [])
answer wanted value_error = value_error

-- A call on the database, in the order in which the code makes them: `aiosqlite.connect`,
-- `execute`, `executemany`, `commit`, and the end of `async with`.
pub data Call : Type 0 where
  connects : Call
  executes : String → List String → Call
  executes_many : String → List Row → Call
  commits closes : Call

-- `_prepare`, as the statements that it executes
abbrev pub prepare_statements : List String
prepare_statements = wal_mode ∷ schema ∷ []

-- `set_many`, as the calls that it makes. Nothing to write makes none.
unfoldable pub set_many : String → Dict String → List Call
set_many stamp [] = []
set_many stamp (entry ∷ entries) =
    let rows = stamped stamp (entry ∷ entries) in
    connects ∷ map (λ statement. executes statement []) prepare_statements
    ++ (executes_many upsert rows ∷ commits ∷ closes ∷ [])

unfoldable pub set : String → String → String → List Call
unfolding set_many
set stamp key value = set_many stamp ((key, value) ∷ [])

-- A file that nobody has open, or a connection to it.
pub data Handle (D C : Type 0) : Type 0 where
  shut : D → Handle D C
  live : C → Handle D C

module _ {D C : Type 0} (db : Database D C) where
  -- A call needs the connection that it is made on; no code here makes one without.
  abbrev pub perform : Call → Handle D C → Handle D C
  perform connects (shut file) = live (db.connect file)
  perform connects (live c) = live c
  perform (executes statement parameters) (shut file) = shut file
  perform (executes statement parameters) (live c) = live (db.execute c statement parameters).0
  perform (executes_many statement rows) (shut file) = shut file
  perform (executes_many statement rows) (live c) = live (db.execute_many c statement rows)
  perform commits (shut file) = shut file
  perform commits (live c) = live (db.commit c)
  perform closes (shut file) = shut file
  perform closes (live c) = shut (db.close c)

  abbrev pub perform_all : List Call → Handle D C → Handle D C
  perform_all [] handle = handle
  perform_all (call ∷ calls) handle = perform_all calls (perform call handle)

  -- The file: a connection that is left open is closed, by `async with` or with the process.
  abbrev pub file_of : Handle D C → D
  file_of (shut file) = file
  file_of (live c) = db.close c

  unfoldable pub run_calls : List Call → D → D
  run_calls calls file = file_of (perform_all calls (shut file))

  abbrev execute_all : C → List String → C
  execute_all c [] = c
  execute_all c (statement ∷ statements) = execute_all (db.execute c statement []).0 statements

  -- `_prepare`
  unfoldable pub prepare : C → C
  prepare c = execute_all c prepare_statements

  -- Each call opens the file and closes it, and so gives back the file too.
  unfoldable pub get : D → String → D × Option String
  unfolding prepare
  get file key =
      let (c, rows) = db.execute (prepare (db.connect file)) select_one (key ∷ []) in
      (db.close c, first_value rows)

  unfoldable pub get_many : D → List String → D × Result (Dict (Option String))
  unfolding prepare collect_rows collect
  get_many file [] = (file, ok [])
  get_many file (key ∷ keys) =
      let wanted = key ∷ keys in
      let (c, rows) = db.execute (prepare (db.connect file)) (select_many (length wanted)) wanted in
      (db.close c, answer wanted (collect_rows [] rows))

-- The dictionary of a call that did not raise.
abbrev pub value_or_empty : Result (Dict (Option String)) → Dict (Option String)
value_or_empty (ok found) = found
value_or_empty value_error = []

-- The class over any state that has the file, with a way to perform the calls of a write on it.
-- `now` is the clock's reading at a call, as text.
module _ {D C S : Type 0} (db : Database D C) (now : D → String) (file_in : S → D)
    (perform_in : List Call → S → S) where
  abbrev pub store_by : StateStore S
  store_by = record {
    get = λ s key. (get db (file_in s) key).1;
    get_many = λ s keys. value_or_empty (get_many db (file_in s) keys).1;
    set = λ s key value. perform_in (set (now (file_in s)) key value) s;
    set_many = λ s entries. perform_in (set_many (now (file_in s)) entries) s;
  }

-- The store that the engine sees: all calls are performed.
module _ {D C : Type 0} (db : Database D C) (now : D → String) where
  abbrev pub sqlite_store : StateStore D
  sqlite_store = store_by db now (λ file. file) (run_calls db)
