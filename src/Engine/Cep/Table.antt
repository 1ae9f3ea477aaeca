-- ===== src/Engine/Cep/Table.antt =====
-- service/base/cep/repository/db/cep_pattern.go. The rows that gorm finds and json.Unmarshal of the
-- states are parameters.
use rule_engine.Prelude.{List, [], ◌∷◌, Option, none, some, ℤ, pos}
use rule_engine.Text.{Text}
use rule_engine.Engine.Event.{PatternState, CepPattern}

-- CEPPatternStatus is an int.
abbrev pub active_pattern : ℤ
active_pattern = pos 1

-- CEPPatternRecord, without its timestamps
pub record CepPatternRecord : Type 0 where
  pub id : Text
  pub name : Text
  pub description : Text
  pub states : Text
  pub status : ℤ

pub data PatternsError : Type 0 where
  find_failed : PatternsError
  unmarshal_failed : Text → PatternsError

pub data Patterns (F : Type 0) : Type 0 where
  listed : List (CepPattern F) → Patterns F
  unlisted : PatternsError → Patterns F

module _ {F : Type 0} (unmarshal : Text → Option (List (PatternState F))) where
  -- the loop of ListActive
  unfoldable pub patterns_of : List CepPatternRecord → Patterns F
  patterns_of [] = listed []
  patterns_of (rec ∷ records) = elim (unmarshal rec.states) [
    | none ↦ unlisted (unmarshal_failed rec.id)
    | some states ↦ elim (patterns_of records) [
      | unlisted e ↦ unlisted e
      | listed patterns ↦
          listed (record { id = rec.id; name = rec.name; states = states } ∷ patterns)
    ]
  ]

  -- ListActive, over the rows of a status
  unfoldable pub list_active_patterns : (ℤ → Option (List CepPatternRecord)) → Patterns F
  list_active_patterns find = elim (find active_pattern) [
    | none ↦ unlisted find_failed
    | some records ↦ patterns_of records
  ]
