-- ===== src/Engine/Event.antt =====
-- BehaviorEvent (service/base/behavior/model/entity.go), and the CEP data of
-- service/base/cep/model/entity.go.
use rule_engine.Prelude.{ℕ, Bool, List, Option}
use rule_engine.Text.{Text}
use rule_engine.Time.{Time}
use rule_engine.Dict.{Dict}
use rule_engine.Rule.Value.{Value}
use rule_engine.Rule.Window.{TimeWindow}
use rule_engine.Rule.Node.{RuleNode}

pub record BehaviorEvent (F : Type 0) : Type 0 where
  pub event_id : Text
  pub member_id : Text
  pub behavior : Text
  pub fields : Dict Text (Value F)
  pub occurred_at : Time

pub record PatternState (F : Type 0) : Type 0 where
  pub name : Text
  pub condition : RuleNode F
  pub max_wait : Option TimeWindow
  pub is_negative : Bool
  pub context_binding : Dict Text Text

pub record CepPattern (F : Type 0) : Type 0 where
  pub id : Text
  pub name : Text
  pub states : List (PatternState F)

pub record PatternProgress (F : Type 0) : Type 0 where
  pub id : Text
  pub pattern_id : Text
  pub member_id : Text
  pub current_step : ℕ
  pub variables : Dict Text (Value F)
  pub started_at : Time
  pub expires_at : Time
  pub processed_events : List Text
  pub negative_deadline : Time

-- the Event of the CEP model
pub record CepEvent (F : Type 0) : Type 0 where
  pub event_id : Text
  pub member_id : Text
  pub behavior : Text
  pub fields : Dict Text (Value F)
  pub occurred_at : Time

pub record MatchResult (F : Type 0) : Type 0 where
  pub pattern_id : Text
  pub pattern_name : Text
  pub member_id : Text
  pub variables : Dict Text (Value F)
  pub matched_at : Time
