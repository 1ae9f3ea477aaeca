-- ===== src/Startup.antt =====
-- cmd/rule-engine-core/main.go and pkg/env: one shard as a process starts it, from the environment
-- and the two tables, up to the run of its consumer. Connecting to a broker is a parameter.
pub mod Subject
pub mod Loaded
pub mod Routing
use rule_engine.Prelude.{
  ◌++◌, [], ◌∷◌, List, Option, none, some, Bool, true, false, ◌==◌, if◌then◌else◌, ℤ, pos,
}
use rule_engine.Text.{Text, text_eq, bytes}
use rule_engine.Text.Number.{atoi}
use rule_engine.Time.{Duration}
use rule_engine.Float.{Float}
use rule_engine.Rule.Value.{format_int}
use rule_engine.Rule.Keys.{CompiledRuleSet}
use rule_engine.Rule.Strategy
use rule_engine.Rule.Strategy.{
  Repo, StrategyError, RuleStrategyUsecase, new_rule_strategy_usecase, list_active_compiled,
}
use rule_engine.Engine.Event.{PatternState, CepPattern}
use rule_engine.Engine.Cep.Pattern.{PatternError, AddResult, added, refused}
use rule_engine.Engine.Cep.Table.{
  CepPatternRecord, PatternsError, listed, unlisted, list_active_patterns,
}
use rule_engine.Engine.Core.{Core, new_core, register_pattern}
use rule_engine.Engine.Producer.{wrap32}

-- Str, over os.Getenv
unfoldable pub env_str : (Text → Text) → Text → Text → Text
env_str getenv key default = if getenv key == [] then default else getenv key

-- Int
unfoldable pub env_int : (Text → Text) → Text → ℤ → ℤ
env_int getenv key default =
    if getenv key == [] then default else (elim (atoi (getenv key)) [ none ↦ default | some n ↦ n ])

-- the settings of a shard
pub record Settings : Type 0 where
  pub backend : Text
  pub shard_id : ℤ
  pub snapshot_path : Text

unfoldable pub read_settings : (Text → Text) → Settings
read_settings getenv =
    let shard_id = env_int getenv (bytes "SHARD_ID") (pos 0) in
    let dir = env_str getenv (bytes "SNAPSHOT_DIR") [] in
    record {
      backend = env_str getenv (bytes "BACKEND") (bytes "nats");
      shard_id = shard_id;
      snapshot_path =
          if dir == []
          then []
          else dir ++ (bytes "/shard_" ++ (format_int shard_id ++ bytes ".snap"));
    }

-- where a consumer reads from: the stream and the filter of its subjects, or the topic and the
-- partition
pub data Source : Type 0 where
  nats_source : Text → Text → Source
  kafka_source : Text → ℤ → Source

-- FilterSubject
unfoldable pub filter_subject : ℤ → Text
filter_subject shard_id = bytes "rule.events." ++ (format_int shard_id ++ bytes ".>")

-- the switch on the backend
unfoldable pub source_of : (Text → Text) → Settings → Option Source
source_of getenv settings =
    if settings.backend == bytes "nats"
    then some (nats_source (bytes "rule-events") (filter_subject settings.shard_id))
    else if settings.backend == bytes "kafka"
    then some (
        kafka_source (env_str getenv (bytes "TOPIC") (bytes "rule-events"))
          (wrap32 settings.shard_id))
    else none

-- the calls of log.Fatal before the consumer runs
pub data Fatal : Type 0 where
  load_rules : StrategyError → Fatal
  load_patterns : PatternsError → Fatal
  add_pattern_failed : PatternError → Fatal
  unknown_backend : Text → Fatal
  connect_failed : Fatal

pub data StartResult (F : Type 0) : Type 0 where
  running : Core F → Settings → Source → StartResult F
  fatal : Fatal → StartResult F

module _ {F : Type 0} (fl : Float F) where
  -- the loop over AddPattern
  unfoldable pub register_patterns : Core F → List (CepPattern F) → AddResult (Core F)
  register_patterns c [] = added c
  register_patterns c (p ∷ patterns) = elim (register_pattern fl c p) [
    | refused e ↦ refused e
    | added c' ↦ register_patterns c' patterns
  ]

  -- from the patterns on; the flag says that the broker was reached
  unfoldable pub start_core :
      (Text → Text) → Bool → CompiledRuleSet F → List (CepPattern F) → StartResult F
  start_core getenv reached rule_set patterns =
      let settings = read_settings getenv in
      elim (register_patterns (new_core settings.shard_id rule_set []) patterns) [
        | refused e ↦ fatal (add_pattern_failed e)
        | added c ↦ elim (source_of getenv settings) [
          | none ↦ fatal (unknown_backend settings.backend)
          | some source ↦ if reached then running c settings source else fatal connect_failed
        ]
      ]

  -- main up to the run of the consumer
  unfoldable pub start_process :
      {S : Type 0}
      → (Text → Text)
      → Bool
      → Repo F S
      → S
      → (Text → Option (List (PatternState F)))
      → (ℤ → Option (List CepPatternRecord))
      → StartResult F
  start_process getenv reached repo store unmarshal find =
      elim (list_active_compiled fl repo (new_rule_strategy_usecase store)).1 [
        | Strategy.failed e ↦ fatal (load_rules e)
        | Strategy.done rule_set ↦ elim (list_active_patterns unmarshal find) [
          | unlisted e ↦ fatal (load_patterns e)
          | listed patterns ↦ start_core getenv reached rule_set patterns
        ]
      ]
