-- ===== src/Examples/Stores.antt =====
-- The texts of floats, and a backend with single calls only.
use pretrade_risk_controls.Common.{String, ◌≡◌, refl, Option, some, pos, arith, inl}
use pretrade_risk_controls.Common.Dict.{lookup, insert, lookup-insert}
use pretrade_risk_controls.Float.Whole.{Whole, whole_float, Whole-IsRoundTrip, Whole-IsBinary64}
use pretrade_risk_controls.Encoding.{encode_float, decode_float}
use pretrade_risk_controls.Encoding.RoundTrip.{decode_float-encode_float}
use pretrade_risk_controls.Store.{IsStore, StateStore}
use pretrade_risk_controls.Store.Memory.{Memory}
use pretrade_risk_controls.Store.Sequential.{sequential_store, sequential_store-IsStore}
use pretrade_risk_controls.Python.Plain.{plain_python}
use pretrade_risk_controls.Engine.State.{Engine}
use pretrade_risk_controls.Engine.Lifecycle.{load, persist}
use pretrade_risk_controls.Engine.Lifecycle.Restart.{IsStorable}
use pretrade_risk_controls.Engine.Lifecycle.Torn.{IsOldOrNew, torn, load-torn}
use pretrade_risk_controls.Examples.Data.{engine, empty_store}
use pretrade_risk_controls.Examples.Fresh.{
  fresh, engine-IsStorable, executed-IsStorable, engine-today,
}

decode_float-encode_float_example :
    decode_float (some (encode_float {F = Whole} (some (pos 42)))) ≡ some (some (pos 42))
decode_float-encode_float_example = decode_float-encode_float Whole-IsRoundTrip (some (pos 42)) refl

abbrev dict_get : Memory → String → Option String
dict_get s k = lookup k s.contents

abbrev dict_set : Memory → String → String → Memory
dict_set s k v = record { contents = insert k v s.contents }

sequential_store-IsStore_example : IsStore Memory ⦃st = sequential_store dict_get dict_set⦄
sequential_store-IsStore_example =
    sequential_store-IsStore dict_get dict_set λ s k v j. lookup-insert k j v s.contents

-- One execution later.
abbrev later : Engine Whole
later = record engine { executions_since_rearm = pos 3 }

later-IsStorable : IsStorable later
later-IsStorable = executed-IsStorable (pos 3) (omega arith, (omega arith, omega arith))

load-torn_example :
    let store : StateStore Memory = sequential_store dict_get dict_set in
    IsOldOrNew
      (load ⦃st = store⦄ fresh
        (torn dict_get dict_set 7 later (persist ⦃st = store⦄ engine empty_store))
        (pos 11000)).0
      engine
      later
load-torn_example =
    load-torn dict_get dict_set (λ s k v j. lookup-insert k j v s.contents) Whole-IsBinary64
      Whole-IsRoundTrip 7 engine later fresh empty_store (pos 11000) engine-IsStorable
      later-IsStorable (refl, inl refl) (refl, inl refl) engine-today engine-today
