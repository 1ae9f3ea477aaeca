-- ===== src/Rule/Repository.antt =====
-- service/base/rule/repository/db/rule.go: the repository of the rule strategies, over a table that
-- gorm reads and writes. The table and the JSON of package encoding/json are parameters.
pub mod Rows
pub mod Stored
use rule_engine.Prelude.{ℕ, List, [], ◌∷◌, Option, none, some}
use rule_engine.Text.{Text}
use rule_engine.Rule.Node.{RuleNode}
use rule_engine.Rule.Strategy.{RuleStrategy, RuleStrategyStatus, Updates, Repo}

-- a row of the table rule_strategies, without its timestamps
pub record RuleRow : Type 0 where
  pub id : ℕ
  pub name : Text
  pub description : Text
  pub rule_node : Text
  pub status : RuleStrategyStatus

-- what the repository calls of gorm; none is an error, a missing row of First included
pub record Table (S : Type 0) : Type 0 where
  pub first : S → ℕ → Option RuleRow
  pub find : S → Option RuleStrategyStatus → Option (List RuleRow)
  pub insert : S → RuleRow → Option (S × ℕ)
  pub updates : S → ℕ → Updates → Option S

-- json.Marshal and json.Unmarshal of a rule
pub record Codec (F : Type 0) : Type 0 where
  pub marshal : RuleNode F → Option Text
  pub unmarshal : Text → Option (RuleNode F)

abbrev pub or_failed {ℓ κ} : {A : Type ℓ} {B : Type κ} → Option A → (A → Option B) → Option B
or_failed none f = none
or_failed (some x) f = f x

module _ {F : Type 0} (codec : Codec F) where
  unfoldable pub marshal_rule_node : RuleStrategy F → Option RuleRow
  marshal_rule_node obj = or_failed (codec.marshal obj.rule_node) (λ json. some (record {
    id = obj.id;
    name = obj.name;
    description = obj.description;
    rule_node = json;
    status = obj.status;
  }))

  unfoldable pub unmarshal_rule_node : RuleRow → Option (RuleStrategy F)
  unmarshal_rule_node row = or_failed (codec.unmarshal row.rule_node) (λ n. some (record {
    id = row.id;
    name = row.name;
    description = row.description;
    rule_node = n;
    status = row.status;
  }))

  -- the loop of List
  unfoldable pub unmarshal_rule_nodes : List RuleRow → Option (List (RuleStrategy F))
  unmarshal_rule_nodes [] = some []
  unmarshal_rule_nodes (row ∷ rows) =
      or_failed (unmarshal_rule_node row)
        (λ obj. or_failed (unmarshal_rule_nodes rows) (λ objs. some (obj ∷ objs)))

module _ {F S : Type 0} (codec : Codec F) (table : Table S) where
  -- Get answers with a rule or an error, never with nil.
  unfoldable pub get_row : S → ℕ → Option (Option (RuleStrategy F))
  get_row store id =
      or_failed (table.first store id)
        (λ row. or_failed (unmarshal_rule_node codec row) (λ obj. some (some obj)))

  unfoldable pub list_rows : S → Option RuleStrategyStatus → Option (List (RuleStrategy F))
  list_rows store status = or_failed (table.find store status) (unmarshal_rule_nodes codec)

  unfoldable pub create_row : S → RuleStrategy F → Option (S × RuleStrategy F)
  create_row store obj = or_failed (marshal_rule_node codec obj) (λ row.
      or_failed (table.insert store row) (λ (store', id). some (store', record obj { id = id })))

  -- RuleStrategyRepo; Update is gorm's
  unfoldable pub rule_strategy_repo : Repo F S
  rule_strategy_repo = record {
    get = get_row;
    list = list_rows;
    create = create_row;
    update = table.updates;
    marshal = codec.marshal;
  }
