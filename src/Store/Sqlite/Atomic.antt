-- ===== src/Store/Sqlite/Atomic.antt =====
-- A write that is interrupted: the process ends, or a call raises, anywhere in `set_many`.
use pretrade_risk_controls.Common.{
  refl, length, ◌-◌, ℕ, zero, suc, String, ◌≡◌, ◌∙◌, ◌⊎◌, inl, inr, List, [], ◌∷◌,
}
use pretrade_risk_controls.Common.Dict.{Dict, lookup, IsDict}
use pretrade_risk_controls.Database.{Database, IsDatabase, Row, upsert}
use pretrade_risk_controls.Store.{written, StateStore}
use pretrade_risk_controls.Store.Sqlite.{
  Call, connects, executes, executes_many, commits, closes, set_many, store_by, run_calls, prepare,
}
use pretrade_risk_controls.Store.Sqlite.Contract.{opened-durable, set_many-committed}

abbrev pub first_rows : ℕ → List Row → List Row
first_rows zero rows = []
first_rows (suc n) [] = []
first_rows (suc n) (row ∷ rows) = row ∷ first_rows n rows

-- The calls up to an interruption: `n` of them, and if the next is `executemany`, its first `m`
-- rows.
abbrev pub cut : ℕ → ℕ → List Call → List Call
cut n m [] = []
cut zero m (connects ∷ calls) = []
cut zero m (executes statement parameters ∷ calls) = []
cut zero m (executes_many statement rows ∷ calls) = executes_many statement (first_rows m rows) ∷ []
cut zero m (commits ∷ calls) = []
cut zero m (closes ∷ calls) = []
cut (suc n) m (call ∷ calls) = call ∷ cut n m calls

-- The store of a process that ends after so many calls of its writes, its state the file and the
-- number of calls that are left: whatever the code writes behind that does not happen. Reads are not
-- counted, since they change nothing.
module _ {D C : Type 0} (db : Database D C) (now : D → String) (m : ℕ) where
  unfoldable pub spend : List Call → D × ℕ → D × ℕ
  spend calls (file, left) = (run_calls db (cut left m calls) file, left - length calls)

  abbrev pub crash_store : StateStore (D × ℕ)
  crash_store = store_by db now (λ s. s.0) spend

module _ {D C : Type 0} (db : Database D C) (laws : IsDatabase D C db) where
  open laws use {committed, durable, visible}

  abbrev Unchanged : D → D → Type 0
  Unchanged file' file = (j : String) → committed file' j ≡ committed file j

  abbrev Updated : D → Dict String → D → Type 0
  Updated file' entries file =
      (j : String) → committed file' j ≡ written (lookup j entries) (committed file j)

  rolled_back :
      (c : C) (file : D)
      → ((j : String) → durable c j ≡ committed file j)
      → Unchanged (db.close c) file
  rolled_back c file h j = laws.committed-close c j ∙ h j

  upserting-durable :
      (rows : List Row) (file : D) (j : String)
      → durable (db.execute_many (prepare db (db.connect file)) upsert rows) j ≡ committed file j
  upserting-durable rows file j = laws.execute_many-durable _ rows j ∙ opened-durable db laws file j

  at_interruption :
      (n m : ℕ) (stamp : String) (file : D) (entries : Dict String)
      → IsDict entries
      → let left = run_calls db (cut n m (set_many stamp entries)) file in
        Unchanged left file ⊎ Updated left entries file
  unfolding run_calls set_many prepare lookup
  at_interruption n m stamp file [] once = inl λ j. refl
  at_interruption zero m stamp file (e ∷ entries) once = inl λ j. refl
  at_interruption (suc zero) m stamp file (e ∷ entries) once =
      inl (rolled_back _ file (laws.durable-connect file))
  at_interruption (suc (suc zero)) m stamp file (e ∷ entries) once =
      inl (rolled_back _ file (λ j. laws.wal_mode-durable _ j ∙ laws.durable-connect file j))
  at_interruption (suc (suc (suc zero))) m stamp file (e ∷ entries) once =
      inl (rolled_back _ file (upserting-durable _ file))
  at_interruption (suc (suc (suc (suc zero)))) m stamp file (e ∷ entries) once =
      inl (rolled_back _ file (upserting-durable _ file))
  at_interruption (suc (suc (suc (suc (suc zero))))) m stamp file (e ∷ entries) once =
      inr λ j. set_many-committed db laws stamp file (e ∷ entries) j once
  at_interruption (suc (suc (suc (suc (suc (suc n)))))) m stamp file (e ∷ entries) once =
      inr λ j. set_many-committed db laws stamp file (e ∷ entries) j once

  -- Wherever the calls of a batch write are cut off, between two of them or within `executemany`
  -- behind any number of rows, the file then holds every old value or every new one, never a
  -- mixture; and a write that returns has written all.
  pub set_many-atomic :
      (n m : ℕ) (stamp : String) (file : D) (entries : Dict String)
      → IsDict entries
      → (Unchanged (run_calls db (cut n m (set_many stamp entries)) file) file
          ⊎ Updated (run_calls db (cut n m (set_many stamp entries)) file) entries file)
        × Updated (run_calls db (set_many stamp entries) file) entries file
  set_many-atomic n m stamp file entries once = (
    at_interruption n m stamp file entries once,
    λ j. set_many-committed db laws stamp file entries j once,
  )
