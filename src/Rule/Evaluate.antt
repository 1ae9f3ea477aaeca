-- ===== src/Rule/Evaluate.antt =====
-- service/base/rule/usecase/rule.go: the recursive evaluator.
use rule_engine.Prelude.{◌==◌, true, false, not, Option, none, some, if◌then◌else◌}
use rule_engine.Text.{Text, text_eq, bytes, to_upper, has_prefix, drop_bytes}
use rule_engine.Float.{Float}
use rule_engine.Rule.Value.{Value, str, sprint, to_float64}
use rule_engine.Rule.Window.{TimeWindow}
use rule_engine.Rule.Node.{
  RuleNode, RuleNodes, node, nil, cons, node_kind, and_node, or_node, not_node, condition_node,
  unknown_node, count_nodes,
}
use rule_engine.Rule.Outcome.{
  Error, Outcome, and_then, unknown_type, not_arity, in_needs_list, unsupported_operator,
  not_for_strings, condition_field, condition_value,
}
use rule_engine.Rule.Context.{EvalContext, or_null}
use rule_engine.Rule.Operator.{
  is_in, not_in, greater, less, at_least, at_most, equal, unequal, read_operator, occurs, as_array,
}

unfoldable pub compare_strings : Text → Text → Text → Outcome
compare_strings op lhs rhs = elim (read_operator op) [
  | equal ↦ (lhs == rhs, none)
  | unequal ↦ (not (lhs == rhs), none)
  | _ ↦ (false, some (not_for_strings op))
]

module _ {F : Type 0} ⦃fl : Float F⦄ where
  unfoldable pub resolve_rhs : Value F → EvalContext F → Value F × Option Error
  resolve_rhs (str s) ctx =
      if has_prefix s (bytes "$")
      then (elim (ctx.get_variable (drop_bytes 1 s)) [ none ↦ str s | some v ↦ v ], none)
      else (str s, none)
  resolve_rhs value ctx = (value, none)

  unfoldable pub resolve_value : Text → Option TimeWindow → EvalContext F → Value F × Option Error
  resolve_value field window ctx =
      if has_prefix field (bytes "$")
      then (or_null (ctx.get_variable (drop_bytes 1 field)), none)
      else ctx.resolve field window

  unfoldable pub compare_numbers : Text → F → F → Outcome
  compare_numbers op lhs rhs = elim (read_operator op) [
    | greater ↦ (fl.lt rhs lhs, none)
    | less ↦ (fl.lt lhs rhs, none)
    | at_least ↦ (fl.le rhs lhs, none)
    | at_most ↦ (fl.le lhs rhs, none)
    | equal ↦ (fl.eq lhs rhs, none)
    | unequal ↦ (not (fl.eq lhs rhs), none)
    | _ ↦ (false, some (unsupported_operator op))
  ]

  unfoldable pub eval_in : Value F → Value F → Outcome
  eval_in actual list = elim (as_array list) [
    | none ↦ (false, some in_needs_list)
    | some items ↦ (occurs (sprint fl actual) items, none)
  ]

  -- the numeric path if both sides are numbers, else the string path
  unfoldable pub compare_values : Text → Value F → Value F → Outcome
  unfolding compare_numbers compare_strings
  compare_values op actual expected = elim (to_float64 actual) [
    | none ↦ compare_strings op (sprint fl actual) (sprint fl expected)
    | some l ↦ elim (to_float64 expected) [
      | none ↦ compare_strings op (sprint fl actual) (sprint fl expected)
      | some r ↦ compare_numbers op l r
    ]
  ]

  unfoldable pub apply_operator : Text → Value F → Value F → Outcome
  unfolding eval_in compare_values
  apply_operator op actual expected = elim (read_operator op) [
    | is_in ↦ eval_in actual expected
    | not_in ↦ (not (eval_in actual expected).0, (eval_in actual expected).1)
    | _ ↦ compare_values op actual expected
  ]

  unfoldable pub eval_condition :
      Text → Text → Value F → Option TimeWindow → EvalContext F → Outcome
  unfolding resolve_value resolve_rhs apply_operator
  eval_condition field operator value window ctx =
      let (actual, field_error) = resolve_value field window ctx in
      elim field_error [
        | some e ↦ (false, some (condition_field field e))
        | none ↦
            let (expected, value_error) = resolve_rhs value ctx in
            elim value_error [
              | some e ↦ (false, some (condition_value e))
              | none ↦ apply_operator (to_upper operator) actual expected
            ]
      ]

abbrev not_result : Outcome → Outcome
not_result r = and_then r (λ ok. (not ok, none))

-- Evaluate, evalAnd, evalOr and evalNot
unfoldable mutual
  pub evaluate : {F : Type 0} → Float F → RuleNode F → EvalContext F → Outcome
  evaluate fl (node type children field operator value window) ctx = elim (node_kind type) [
    | and_node ↦ eval_and fl children ctx
    | or_node ↦ eval_or fl children ctx
    | not_node ↦ eval_not fl children ctx
    | condition_node ↦ eval_condition ⦃fl = fl⦄ field operator value window ctx
    | unknown_node ↦ (false, some (unknown_type type))
  ]

  pub eval_and : {F : Type 0} → Float F → RuleNodes F → EvalContext F → Outcome
  eval_and fl nil ctx = (true, none)
  eval_and fl (cons c cs) ctx =
      and_then (evaluate fl c ctx) (λ ok. if ok then eval_and fl cs ctx else (false, none))

  pub eval_or : {F : Type 0} → Float F → RuleNodes F → EvalContext F → Outcome
  eval_or fl nil ctx = (false, none)
  eval_or fl (cons c cs) ctx =
      and_then (evaluate fl c ctx) (λ ok. if ok then (true, none) else eval_or fl cs ctx)

  pub eval_not : {F : Type 0} → Float F → RuleNodes F → EvalContext F → Outcome
  eval_not fl nil ctx = (false, some (not_arity 0))
  eval_not fl (cons c nil) ctx = not_result (evaluate fl c ctx)
  eval_not fl (cons c (cons d ds)) ctx =
      (false, some (not_arity (count_nodes (cons c (cons d ds)))))
