-- ===== src/Rule/Strategy.antt =====
-- service/base/rule/usecase/strategy.go: the rule store's use case, with its cache of the compiled
-- rules. The repository is an interface; an operation of it that fails leaves the store alone.
pub mod Coherence
pub mod Persistence
use rule_engine.Prelude.{ℕ, List, [], ◌∷◌, Option, none, some, ℤ, pos}
use rule_engine.Text.{Text}
use rule_engine.Float.{Float}
use rule_engine.Rule.Node.{RuleNode}
use rule_engine.Rule.Outcome.{Error}
use rule_engine.Rule.Compile
use rule_engine.Rule.Compile.{CompiledRule, compile}
use rule_engine.Rule.Validate.{ValidationError, validate_rule_node}
use rule_engine.Rule.Keys.{
  CompiledStrategy, CompiledRuleSet, collect_aggregate_keys, collect_unique_aggregate_keys,
  max_window_from_keys,
}

-- an int, of which the program names two values
abbrev pub RuleStrategyStatus : Type 0
RuleStrategyStatus = ℤ

abbrev pub active : RuleStrategyStatus
active = pos 1

abbrev pub inactive : RuleStrategyStatus
inactive = pos 2

-- RuleStrategy, without its timestamps and its column of JSON
pub record RuleStrategy (F : Type 0) : Type 0 where
  pub id : ℕ
  pub name : Text
  pub description : Text
  pub rule_node : RuleNode F
  pub status : RuleStrategyStatus

pub record CreateRuleStrategyReq (F : Type 0) : Type 0 where
  pub name : Text
  pub description : Text
  pub rule_node : RuleNode F

pub record UpdateRuleStrategyReq (F : Type 0) : Type 0 where
  pub name : Option Text
  pub description : Option Text
  pub rule_node : Option (RuleNode F)

-- the columns that an update sets
pub record Updates : Type 0 where
  pub name : Option Text
  pub description : Option Text
  pub rule_node : Option Text
  pub status : Option RuleStrategyStatus

-- RuleStrategyRepoInterface over a store, and json.Marshal of a rule; none is an error.
-- Get may answer with nil, which is none inside.
pub record Repo (F S : Type 0) : Type 0 where
  pub get : S → ℕ → Option (Option (RuleStrategy F))
  pub list : S → Option RuleStrategyStatus → Option (List (RuleStrategy F))
  pub create : S → RuleStrategy F → Option (S × RuleStrategy F)
  pub update : S → ℕ → Updates → Option S
  pub marshal : RuleNode F → Option Text

pub data StrategyError : Type 0 where
  invalid_rule : ValidationError → StrategyError
  compile_failed : ℕ → Text → Error → StrategyError
  store_failed marshal_failed : StrategyError

pub data Reply {ℓ} (A : Type ℓ) : Type ℓ where
  done : A → Reply A
  failed : StrategyError → Reply A

abbrev pub or_store_failed {ℓ} : {A : Type ℓ} → Option A → Reply A
or_store_failed none = failed store_failed
or_store_failed (some x) = done x

-- RuleStrategyUsecase: the store behind its repository, and `cached`
pub record RuleStrategyUsecase (F S : Type 0) : Type 0 where
  pub store : S
  pub cached : Option (CompiledRuleSet F)

module _ {F S : Type 0} where
  unfoldable pub new_rule_strategy_usecase : S → RuleStrategyUsecase F S
  new_rule_strategy_usecase store = record { store = store; cached = none }

  unfoldable pub invalidate_cache : RuleStrategyUsecase F S → RuleStrategyUsecase F S
  invalidate_cache uc = record uc { cached = none }

module _ {F : Type 0} where
  -- the loop of compileAndCache
  unfoldable pub compile_strategies :
      Float F → List (RuleStrategy F) → Reply (List (CompiledStrategy F))
  compile_strategies fl [] = done []
  compile_strategies fl (rule ∷ rules) = elim (compile fl rule.rule_node) [
    | Compile.rejected e ↦ failed (compile_failed rule.id rule.name e)
    | Compile.ok eval ↦ elim (compile_strategies fl rules) [
      | failed e ↦ failed e
      | done strategies ↦ done (
          record {
            id = rule.id;
            name = rule.name;
            eval = eval;
            aggregate_keys = collect_aggregate_keys rule.rule_node;
          }
          ∷ strategies)
    ]
  ]

  -- compileAndCache up to the write of the cache, on what ListActive returned
  unfoldable pub compile_active :
      Float F → Option (List (RuleStrategy F)) → Reply (CompiledRuleSet F)
  compile_active fl none = failed store_failed
  compile_active fl (some rules) = elim (compile_strategies fl rules) [
    | failed e ↦ failed e
    | done strategies ↦ done (record {
      strategies = strategies;
      max_window = max_window_from_keys (collect_unique_aggregate_keys strategies);
    })
  ]

module _ {F S : Type 0} (fl : Float F) (repo : Repo F S) where
  unfoldable pub list_active : RuleStrategyUsecase F S → Option (List (RuleStrategy F))
  list_active uc = repo.list uc.store (some active)

  unfoldable pub compile_and_cache :
      RuleStrategyUsecase F S → RuleStrategyUsecase F S × Reply (CompiledRuleSet F)
  compile_and_cache uc = elim (compile_active fl (list_active uc)) [
    | failed e ↦ (uc, failed e)
    | done rs ↦ (record uc { cached = some rs }, done rs)
  ]

  unfoldable pub list_active_compiled :
      RuleStrategyUsecase F S → RuleStrategyUsecase F S × Reply (CompiledRuleSet F)
  list_active_compiled uc = elim uc.cached [ some rs ↦ (uc, done rs) | none ↦ compile_and_cache uc ]

  -- Get
  unfoldable pub get_rule : RuleStrategyUsecase F S → ℕ → Reply (Option (RuleStrategy F))
  get_rule uc id = or_store_failed (repo.get uc.store id)

  -- List
  unfoldable pub list_rules :
      RuleStrategyUsecase F S → Option RuleStrategyStatus → Reply (List (RuleStrategy F))
  list_rules uc status = or_store_failed (repo.list uc.store status)

  -- Create; the repository gives the strategy its id
  unfoldable pub create :
      RuleStrategyUsecase F S
      → CreateRuleStrategyReq F
      → RuleStrategyUsecase F S × Reply (RuleStrategy F)
  create uc req = elim (validate_rule_node req.rule_node) [
    | some e ↦ (uc, failed (invalid_rule e))
    | none ↦
        elim (repo.create uc.store (record {
          id = 0;
          name = req.name;
          description = req.description;
          rule_node = req.rule_node;
          status = active;
        })) [
          | none ↦ (uc, failed store_failed)
          | some (store, obj) ↦ (invalidate_cache (record uc { store = store }), done obj)
        ]
  ]

  -- the update of the repository and the invalidation, which Update and SetStatus share
  unfoldable pub update_store :
      RuleStrategyUsecase F S → ℕ → Updates → RuleStrategyUsecase F S × Reply (Unit {0})
  update_store uc id updates = elim (repo.update uc.store id updates) [
    | none ↦ (uc, failed store_failed)
    | some store ↦ (invalidate_cache (record uc { store = store }), done tt)
  ]

  unfoldable pub update_fields :
      RuleStrategyUsecase F S
      → ℕ
      → Option Text
      → Option Text
      → Option Text
      → RuleStrategyUsecase F S × Reply (Unit {0})
  update_fields uc id none none none = (uc, done tt)
  update_fields uc id name description rule_node =
      update_store uc id
        (record { name = name; description = description; rule_node = rule_node; status = none })

  -- Update
  unfoldable pub update :
      RuleStrategyUsecase F S
      → ℕ
      → UpdateRuleStrategyReq F
      → RuleStrategyUsecase F S × Reply (Unit {0})
  update uc id req = elim req.rule_node [
    | none ↦ update_fields uc id req.name req.description none
    | some n ↦ elim (validate_rule_node n) [
      | some e ↦ (uc, failed (invalid_rule e))
      | none ↦ elim (repo.marshal n) [
        | none ↦ (uc, failed marshal_failed)
        | some json ↦ update_fields uc id req.name req.description (some json)
      ]
    ]
  ]

  unfoldable pub set_status :
      RuleStrategyUsecase F S → ℕ → RuleStrategyStatus → RuleStrategyUsecase F S × Reply (Unit {0})
  set_status uc id status =
      update_store uc id
        (record { name = none; description = none; rule_node = none; status = some status })
