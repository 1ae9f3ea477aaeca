-- ===== src/Tests/Startup.antt =====
-- A process that starts on one rule and one pattern, and events on their way to a shard.
use rule_engine.Prelude.{◌≡◌, refl, List, [], ◌∷◌, true, Option, some, ℤ, pos, ◌==◌, if◌then◌else◌}
use rule_engine.Text.{Text, text_eq, bytes}
use rule_engine.Rule.Strategy
use rule_engine.Rule.Strategy.{RuleStrategy, active}
use rule_engine.Engine.Event.{BehaviorEvent}
use rule_engine.Engine.Cep.Table.{CepPatternRecord}
use rule_engine.Engine.Core.{Core, new_core}
use rule_engine.Engine.Reachable.{Reachable}
use rule_engine.Startup.{
  Source, nats_source, StartResult, running, fatal, read_settings, start_process,
}
use rule_engine.Tests.Program.{program}
use rule_engine.Tests.Samples.{int_float, foreign_rule, abandoned, alice, event_of, no_rules}
use rule_engine.Tests.Strategies.{Store, list_repo}

abbrev environment : Text → Text
environment key =
    if key == bytes "SHARD_ID"
    then bytes "3"
    else if key == bytes "SNAPSHOT_DIR"
    then bytes "/var"
    else []

abbrev stored_rule : Store
stored_rule =
    record {
      id = 1;
      name = bytes "foreign";
      description = [];
      rule_node = foreign_rule;
      status = active;
    }
    ∷ []

abbrev stored_pattern : ℤ → Option (List CepPatternRecord)
stored_pattern status = some (
    record {
      id = bytes "p";
      name = bytes "abandoned";
      description = [];
      states = [];
      status = status;
    }
    ∷ [])

abbrev begun : StartResult ℤ
begun =
    start_process int_float environment true list_repo stored_rule (λ json. some abandoned.states)
      stored_pattern

abbrev core_of : StartResult ℤ → Core ℤ
core_of (running c settings source) = c
core_of (fatal e) = new_core (pos 0) no_rules []

-- one pattern in the third shard, fed by NATS
settings_begun : (read_settings environment).snapshot_path ≡ bytes "/var/shard_3.snap"
unfolding program
settings_begun = refl

abbrev third_shard : Source
third_shard = nats_source (bytes "rule-events") (bytes "rule.events.3.>")

abbrev to_json : BehaviorEvent ℤ → Option Text
to_json event = some (bytes "{}")

abbrev bought : BehaviorEvent ℤ
bought = event_of (bytes "e1") alice (bytes "Buy") 5
