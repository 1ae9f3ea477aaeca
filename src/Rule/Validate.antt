-- ===== src/Rule/Validate.antt =====
-- service/base/rule/model/validate.go
use rule_engine.Prelude.{
  ◌==◌, Bool, true, false, ◌||◌, ◌&&◌, any, List, [], ◌∷◌, Option, none, some, ℕ, leb, nat_beq,
  if◌then◌else◌,
}
use rule_engine.Text.{Text, text_eq, bytes, contains_byte, split_n, to_upper}
use rule_engine.Rule.Node.{RuleNode, RuleNodes, node, nil, cons, node_kind, condition_node}

pub data ValidationError : Type 0 where
  invalid_aggregation : Text → ValidationError
  invalid_field_path : Text → ValidationError
  invalid_aggregate_field : Text → ValidationError
  in_field : Text → ValidationError → ValidationError

abbrev pub allowed_aggregations : List Text
allowed_aggregations = bytes "COUNT" ∷ bytes "SUM" ∷ bytes "AVG" ∷ bytes "MAX" ∷ bytes "MIN" ∷ []

unfoldable pub is_letter : ℕ → Bool
is_letter b = leb b'a' b && leb b b'z' || (leb b'A' b && leb b b'Z' || nat_beq b b'_')

unfoldable pub is_word : ℕ → Bool
unfolding is_letter
is_word b = is_letter b || leb b'0' b && leb b b'9'

unfoldable pub all_words : Text → Bool
unfolding is_word
all_words [] = true
all_words (b ∷ s) = is_word b && all_words s

-- `identifierRe.MatchString`, for `^[a-zA-Z_][a-zA-Z0-9_]*$`
unfoldable pub is_identifier : Text → Bool
unfolding is_letter all_words
is_identifier [] = false
is_identifier (b ∷ s) = is_letter b && all_words s

-- nil, or the error
unfoldable pub validate_aggregation : Text → Option ValidationError
validate_aggregation agg =
    if any (λ a. a == to_upper agg) allowed_aggregations
    then none
    else some (invalid_aggregation agg)

unfoldable pub validate_field_path : Text → Option ValidationError
unfolding is_identifier
validate_field_path [] = none
validate_field_path (b ∷ s) =
    if is_identifier (b ∷ s) then none else some (invalid_field_path (b ∷ s))

abbrev pub in_field_error : Text → Option ValidationError → Option ValidationError
in_field_error field none = none
in_field_error field (some e) = some (in_field field e)

-- the parts of a field with a colon
unfoldable pub validate_parts : Text → List Text → Option ValidationError
unfolding validate_aggregation validate_field_path
validate_parts field [] = some (invalid_aggregate_field field)
validate_parts field (behavior ∷ []) = some (invalid_aggregate_field field)
validate_parts field (behavior ∷ agg ∷ []) = in_field_error field (validate_aggregation agg)
validate_parts field (behavior ∷ agg ∷ path ∷ more) = elim (validate_aggregation agg) [
  | some e ↦ some (in_field field e)
  | none ↦ in_field_error field (validate_field_path path)
]

unfoldable pub validate_field : Text → Option ValidationError
unfolding validate_parts
validate_field field =
    if contains_byte b':' field then validate_parts field (split_n b':' 3 field) else none

-- ValidateRuleNode and its loop over the children
unfoldable mutual
  unfolding validate_field

  pub validate_rule_node : {F : Type 0} → RuleNode F → Option ValidationError
  validate_rule_node (node type children field operator value window) = elim (node_kind type) [
    | condition_node ↦ validate_field field
    | _ ↦ validate_children children
  ]

  pub validate_children : {F : Type 0} → RuleNodes F → Option ValidationError
  validate_children nil = none
  validate_children (cons c cs) = elim (validate_rule_node c) [
    | some e ↦ some e
    | none ↦ validate_children cs
  ]
