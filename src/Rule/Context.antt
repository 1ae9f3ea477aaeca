-- ===== src/Rule/Context.antt =====
-- EvalContext (interface.go), MapContext (context.go) and PreloadedEvalContext
-- (preloaded_context.go), with the aggregate keys of entity.go.
use rule_engine.Prelude.{Option, none, some, if◌then◌else◌, ◌++◌, ◌∷◌, []}
use rule_engine.Text.{Text, text_eq, contains_byte}
use rule_engine.Dict
use rule_engine.Dict.{Dict}
use rule_engine.Rule.Value.{Value, null, format_int}
use rule_engine.Rule.Window.{TimeWindow}
use rule_engine.Rule.Outcome.{Error}

pub record EvalContext (F : Type 0) : Type 0 where
  pub resolve : Text → Option TimeWindow → Value F × Option Error
  pub get_variable : Text → Option (Value F)

-- the key of an aggregation
pub record AggregateKey : Type 0 where
  pub field : Text
  pub window : Option TimeWindow

unfoldable pub cache_key : AggregateKey → Text
cache_key k = elim k.window [
  | none ↦ k.field
  | some w ↦ k.field ++ b'|' ∷ (format_int w.value ++ w.unit)
]

module _ {F : Type 0} where
  -- a read of a map that yields nil for a missing key
  abbrev pub or_null : Option (Value F) → Value F
  or_null none = null
  or_null (some v) = v

-- MapContext and PreloadedEvalContext
pub record MapContext (F : Type 0) : Type 0 where
  pub fields : Dict Text (Value F)
  pub variables : Dict Text (Value F)

pub record PreloadedEvalContext (F : Type 0) : Type 0 where
  pub fields : Dict Text (Value F)
  pub cache : Dict Text (Value F)
  pub variables : Dict Text (Value F)

module _ {F : Type 0} where
  unfoldable pub new_map_context : Dict Text (Value F) → MapContext F
  new_map_context fields = record { fields = fields; variables = [] }

  unfoldable pub with_variables : MapContext F → Dict Text (Value F) → MapContext F
  with_variables c vars = record c { variables = Dict.put_all (Dict.put_all [] c.variables) vars }

  unfoldable pub map_eval_context : MapContext F → EvalContext F
  unfolding Dict.get
  map_eval_context c = record {
    resolve = λ field _. (or_null (Dict.get c.fields field), none);
    get_variable = λ name. Dict.get c.variables name;
  }

  unfoldable pub new_preloaded_context :
      Dict Text (Value F) → Dict Text (Value F) → PreloadedEvalContext F
  new_preloaded_context fields cache = record { fields = fields; cache = cache; variables = [] }

  unfoldable pub preloaded_eval_context : PreloadedEvalContext F → EvalContext F
  unfolding Dict.get contains_byte cache_key
  preloaded_eval_context c = record {
    resolve = λ field window.
        if contains_byte b':' field
        then (
          or_null (Dict.get c.cache (cache_key (record { field = field; window = window }))),
          none,
        )
        else (or_null (Dict.get c.fields field), none);
    get_variable = λ name. Dict.get c.variables name;
  }
