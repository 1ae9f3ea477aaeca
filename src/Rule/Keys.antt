-- ===== src/Rule/Keys.antt =====
-- The aggregate keys of rules: CollectAggregateKeys of entity.go, and aggregate.go.
pub mod Retention
use rule_engine.Prelude.{◌==◌, any, List, [], ◌∷◌, ◌++◌, ltb_ℤ, pos, if◌then◌else◌}
use rule_engine.Text.{Text, text_eq, contains_byte}
use rule_engine.Time.{Duration}
use rule_engine.Rule.Window.{duration}
use rule_engine.Rule.Node.{RuleNode, RuleNodes, node, nil, cons, node_kind, condition_node}
use rule_engine.Rule.Context.{AggregateKey, cache_key}
use rule_engine.Rule.Compile.{CompiledRule}
use rule_engine.Prelude.{ℕ}

-- The set `seen` and the keys found so far.
pub record Collected : Type 0 where
  pub seen : List Text
  pub keys : List AggregateKey

abbrev pub nothing_seen : Collected
nothing_seen = record { seen = []; keys = [] }

-- `if _, ok := seen[ck]; !ok { … }`
unfoldable pub collect_key : AggregateKey → Collected → Collected
collect_key k acc =
    let ck = cache_key k in
    if any (λ s. s == ck) acc.seen
    then acc
    else record { seen = ck ∷ acc.seen; keys = acc.keys ++ k ∷ [] }

-- collectKeys and its loop over the children
unfoldable mutual
  pub collect_keys : {F : Type 0} → RuleNode F → Collected → Collected
  collect_keys (node type children field operator value window) acc = elim (node_kind type) [
    | condition_node ↦
        if contains_byte b':' field
        then collect_key (record { field = field; window = window }) acc
        else acc
    | _ ↦ collect_children children acc
  ]

  pub collect_children : {F : Type 0} → RuleNodes F → Collected → Collected
  collect_children nil acc = acc
  collect_children (cons c cs) acc = collect_children cs (collect_keys c acc)

unfoldable pub collect_aggregate_keys : {F : Type 0} → RuleNode F → List AggregateKey
unfolding collect_keys
collect_aggregate_keys n = (collect_keys n nothing_seen).keys

-- CompiledStrategy and CompiledRuleSet
pub record CompiledStrategy (F : Type 0) : Type 0 where
  pub id : ℕ
  pub name : Text
  pub eval : CompiledRule F
  pub aggregate_keys : List AggregateKey

pub record CompiledRuleSet (F : Type 0) : Type 0 where
  pub strategies : List (CompiledStrategy F)
  pub max_window : Duration

-- the inner and the outer loop of CollectUniqueAggregateKeys
unfoldable pub collect_list : List AggregateKey → Collected → Collected
unfolding collect_key
collect_list [] acc = acc
collect_list (k ∷ ks) acc = collect_list ks (collect_key k acc)

unfoldable pub collect_strategies : {F : Type 0} → List (CompiledStrategy F) → Collected → Collected
unfolding collect_list
collect_strategies [] acc = acc
collect_strategies (cs ∷ rest) acc = collect_strategies rest (collect_list cs.aggregate_keys acc)

unfoldable pub collect_unique_aggregate_keys :
    {F : Type 0} → List (CompiledStrategy F) → List AggregateKey
unfolding collect_strategies
collect_unique_aggregate_keys strategies = (collect_strategies strategies nothing_seen).keys

unfoldable pub max_window_loop : Duration → List AggregateKey → Duration
max_window_loop max [] = max
max_window_loop max (k ∷ ks) =
    let d = duration k.window in max_window_loop (if ltb_ℤ max d then d else max) ks

unfoldable pub max_window_from_keys : List AggregateKey → Duration
unfolding max_window_loop
max_window_from_keys = max_window_loop (pos 0)
