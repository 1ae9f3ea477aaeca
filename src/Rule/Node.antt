-- ===== src/Rule/Node.antt =====
-- RuleNode of service/base/rule/model/entity.go and the node types of const.go.
use rule_engine.Prelude.{◌≡◌, refl, ◌⊎◌, inl, inr, ◌==◌, Option, if◌then◌else◌, ℕ, zero, suc}
use rule_engine.Text.{Text, text_eq, bytes}
use rule_engine.Rule.Value.{Value}
use rule_engine.Rule.Window.{TimeWindow}

-- A node has its type, children, field, operator, value and window.
mutual
  pub data RuleNode (F : Type 0) : Type 0 where
    node : Text → RuleNodes F → Text → Text → Value F → Option TimeWindow → RuleNode F

  pub data RuleNodes (F : Type 0) : Type 0 where
    nil : RuleNodes F
    cons : RuleNode F → RuleNodes F → RuleNodes F

pub data NodeKind : Type 0 where
  and_node or_node not_node condition_node unknown_node : NodeKind

-- the switch on `node.Type`
unfoldable pub node_kind : Text → NodeKind
node_kind t =
    if t == bytes "AND"
    then and_node
    else if t == bytes "OR"
    then or_node
    else if t == bytes "NOT"
    then not_node
    else if t == bytes "CONDITION"
    then condition_node
    else unknown_node

module _ {F : Type 0} where
  -- `len(children)`
  abbrev pub count_nodes : RuleNodes F → ℕ
  count_nodes nil = zero
  count_nodes (cons c cs) = suc (count_nodes cs)

  abbrev pub condition : Text → Text → Value F → Option TimeWindow → RuleNode F
  condition field op value window = node (bytes "CONDITION") nil field op value window

pub NodeKind-cases :
    (k : NodeKind)
    → (k ≡ and_node) ⊎ (k ≡ or_node) ⊎ (k ≡ not_node) ⊎ (k ≡ condition_node) ⊎ (k ≡ unknown_node)
NodeKind-cases and_node = inl refl
NodeKind-cases or_node = inr (inl refl)
NodeKind-cases not_node = inr (inr (inl refl))
NodeKind-cases condition_node = inr (inr (inr (inl refl)))
NodeKind-cases unknown_node = inr (inr (inr (inr refl)))
