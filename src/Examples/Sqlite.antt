-- ===== src/Examples/Sqlite.antt =====
-- The store over a database, a write that is interrupted, and the restart behind it.
use pretrade_risk_controls.Common.{String, ◌≡◌, refl, ◌⊎◌, Option, [], ◌∷◌, pos, arith}
use pretrade_risk_controls.Common.Dict.{Dict, lookup, IsDict}
use pretrade_risk_controls.Float.Whole.{Whole, whole_float, Whole-IsBinary64, Whole-IsRoundTrip}
use pretrade_risk_controls.Python.Plain.{plain_python}
use pretrade_risk_controls.Database.Plain.{plain_database, plain_database-IsDatabase}
use pretrade_risk_controls.Store.{IsStore, written}
use pretrade_risk_controls.Store.Sqlite.{sqlite_store, set_many, run_calls}
use pretrade_risk_controls.Store.Sqlite.Contract.{sqlite_store-IsStore}
use pretrade_risk_controls.Store.Sqlite.Atomic.{cut, set_many-atomic}
use pretrade_risk_controls.Engine.State.{Engine}
use pretrade_risk_controls.Engine.Lifecycle.{load, persist}
use pretrade_risk_controls.Engine.Lifecycle.Restart.{IsStorable, SameCounters}
use pretrade_risk_controls.Engine.Lifecycle.Crash.{crashed, load-crashed}
use pretrade_risk_controls.Examples.Data.{engine}
use pretrade_risk_controls.Examples.Fresh.{
  fresh, executed-IsStorable, engine-IsStorable, engine-today,
}

abbrev noon : Dict String → String
noon file = "2026-01-05T12:00:00"

sqlite_store-IsStore_example : IsStore (Dict String) ⦃st = sqlite_store plain_database noon⦄
sqlite_store-IsStore_example = sqlite_store-IsStore plain_database plain_database-IsDatabase noon

abbrev file : Dict String
file = ("a", "1") ∷ ("b", "2") ∷ []

abbrev entries : Dict String
entries = ("b", "5") ∷ ("c", "6") ∷ []

entries-IsDict : IsDict entries
unfolding lookup
entries-IsDict = (refl, (refl, tt))

abbrev torn : Dict String
torn = run_calls plain_database (cut 3 1 (set_many "12:00" entries)) file

-- What a file holds at a key.
abbrev saved : Dict String → String → Option String
saved = plain_database-IsDatabase.committed

set_many-atomic_example :
    (((j : String) → saved torn j ≡ saved file j)
      ⊎ ((j : String) → saved torn j ≡ written (lookup j entries) (saved file j)))
    × ((j : String)
        → saved (run_calls plain_database (set_many "12:00" entries) file) j
          ≡ written (lookup j entries) (saved file j))
set_many-atomic_example =
    set_many-atomic plain_database plain_database-IsDatabase 3 1 "12:00" file entries entries-IsDict

-- The engine, and what it is one execution later.
abbrev later : Engine Whole
later = record engine { executions_since_rearm = pos 3 }

later-IsStorable : IsStorable later
later-IsStorable = executed-IsStorable (pos 3) (omega arith, (omega arith, omega arith))

abbrev restarted : Engine Whole
restarted =
    (load ⦃st = sqlite_store plain_database noon⦄ fresh
      (crashed plain_database noon 3 5 later
        (persist ⦃st = sqlite_store plain_database noon⦄ engine file))
      (pos 11000)).0

load-crashed_example : SameCounters restarted engine ⊎ SameCounters restarted later
load-crashed_example =
    load-crashed plain_database plain_database-IsDatabase noon Whole-IsBinary64 Whole-IsRoundTrip
      engine later fresh file 3 5 (pos 11000) engine-IsStorable later-IsStorable engine-today
      engine-today
