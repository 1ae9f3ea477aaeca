-- ===== src/Startup/Loaded.antt =====
-- What a process that gets as far as its consumer has loaded (cmd/rule-engine-core/main.go).
use rule_engine.Prelude.{◌≡◌, List, map}
use rule_engine.Text.{Text}
use rule_engine.Float.{Float}
use rule_engine.Rule.Strategy
use rule_engine.Rule.Strategy.{compile_and_cache}
use rule_engine.Engine.Event.{CepPattern}
use rule_engine.Engine.Core.{Core}
use rule_engine.Engine.Reachable.{Reachable}

abbrev pub patterns_in : {F : Type 0} → Core F → List (CepPattern F)
patterns_in c = map (λ cp. cp.pattern) c.patterns

-- what registering patterns leaves of a core
abbrev Same : {F : Type 0} → Core F → Core F → Type 0
Same c c' = (c'.rule_set ≡ c.rule_set) × (c'.shard_id ≡ c.shard_id)
