-- ===== src/Rule/Compile.antt =====
-- service/base/rule/usecase/compile.go: the compiler from rule trees to closures.
use rule_engine.Prelude.{
  ◌==◌, Bool, true, false, not, ◌&&◌, Option, none, some, List, [], ◌∷◌, if◌then◌else◌,
}
use rule_engine.Text.{Text, text_eq, bytes, to_upper, has_prefix, drop_bytes, contains_byte}
use rule_engine.Float.{Float}
use rule_engine.Rule.Value.{Value, str, sprint, to_float64}
use rule_engine.Rule.Window.{TimeWindow}
use rule_engine.Rule.Node.{
  RuleNode, RuleNodes, node, nil, cons, node_kind, and_node, or_node, not_node, condition_node,
  unknown_node, count_nodes,
}
use rule_engine.Rule.Outcome.{
  Error, Outcome, and_then, unknown_type, not_arity, in_needs_list, unsupported_operator,
  needs_numbers, condition_field, condition_value,
}
use rule_engine.Rule.Context.{EvalContext, or_null}
use rule_engine.Rule.Operator.{
  is_in, not_in, greater, less, at_least, at_most, equal, unequal, other, read_operator, occurs,
  as_array,
}

abbrev pub CompiledRule : Type 0 → Type 0
CompiledRule F = EvalContext F → Outcome

-- a value, or the error of the compiler
pub data Compilation {ℓ} (A : Type ℓ) : Type ℓ where
  ok : A → Compilation A
  rejected : Error → Compilation A

infixl 5 ◌>>=◌
abbrev pub ◌>>=◌ {ℓ κ} :
    {A : Type ℓ} {B : Type κ} → Compilation A → (A → Compilation B) → Compilation B
ok a >>= f = f a
rejected e >>= f = rejected e

abbrev pub ValueResolver : Type 0 → Type 0
ValueResolver F = EvalContext F → Value F × Option Error

abbrev pub Comparator : Type 0 → Type 0
Comparator F = Value F → Value F → Outcome

module _ {F : Type 0} where
  -- the closures that compileAnd, compileOr and compileNot return
  unfoldable pub run_and : List (CompiledRule F) → CompiledRule F
  run_and [] ctx = (true, none)
  run_and (fn ∷ fns) ctx = and_then (fn ctx) (λ ok. if ok then run_and fns ctx else (false, none))

  unfoldable pub run_or : List (CompiledRule F) → CompiledRule F
  run_or [] ctx = (false, none)
  run_or (fn ∷ fns) ctx = and_then (fn ctx) (λ ok. if ok then (true, none) else run_or fns ctx)

  unfoldable pub run_not : CompiledRule F → CompiledRule F
  run_not inner ctx = and_then (inner ctx) (λ ok. (not ok, none))

  unfoldable pub build_lhs_resolver : Text → Bool → Bool → Option TimeWindow → ValueResolver F
  build_lhs_resolver field true is_aggregate window ctx =
      (or_null (ctx.get_variable (drop_bytes 1 field)), none)
  build_lhs_resolver field false true window ctx = ctx.resolve field window
  build_lhs_resolver field false false window ctx = ctx.resolve field none

  unfoldable pub build_rhs_resolver : Value F → Bool → Text → ValueResolver F
  build_rhs_resolver value true var_ref ctx =
      (elim (ctx.get_variable (drop_bytes 1 var_ref)) [ none ↦ str var_ref | some v ↦ v ], none)
  build_rhs_resolver value false var_ref ctx = (value, none)

  -- `value.(string)`, with the empty string where it is none
  abbrev pub string_of : Value F → Text × Bool
  string_of (str s) = (s, true)
  string_of _ = ([], false)

module _ {F : Type 0} ⦃fl : Float F⦄ where
  unfoldable pub cmp_in : Comparator F
  cmp_in actual list = elim (as_array list) [
    | none ↦ (false, some in_needs_list)
    | some items ↦ (occurs (sprint fl actual) items, none)
  ]

  unfoldable pub numeric_or_string_cmp : (F → F → Bool) → Option (Text → Text → Bool) → Comparator F
  numeric_or_string_cmp num_fn str_fn lhs rhs =
      let by_text : Outcome = elim str_fn [
        | some f ↦ (f (sprint fl lhs) (sprint fl rhs), none)
        | none ↦ (false, some needs_numbers)
      ] in
      elim (to_float64 lhs) [
        | none ↦ by_text
        | some l ↦ elim (to_float64 rhs) [ none ↦ by_text | some r ↦ (num_fn l r, none) ]
      ]

  unfoldable pub build_comparator : Text → Compilation (Comparator F)
  unfolding cmp_in numeric_or_string_cmp
  build_comparator op = elim (read_operator op) [
    | is_in ↦ ok cmp_in
    | not_in ↦ ok (λ lhs rhs. (not (cmp_in lhs rhs).0, (cmp_in lhs rhs).1))
    | greater ↦ ok (numeric_or_string_cmp (λ l r. fl.lt r l) none)
    | less ↦ ok (numeric_or_string_cmp (λ l r. fl.lt l r) none)
    | at_least ↦ ok (numeric_or_string_cmp (λ l r. fl.le r l) none)
    | at_most ↦ ok (numeric_or_string_cmp (λ l r. fl.le l r) none)
    | equal ↦ ok (numeric_or_string_cmp (λ l r. fl.eq l r) (some (λ l r. l == r)))
    | unequal ↦ ok (numeric_or_string_cmp (λ l r. not (fl.eq l r)) (some (λ l r. not (l == r))))
    | other ↦ rejected (unsupported_operator op)
  ]

  -- the closure that compileCondition returns
  unfoldable pub run_condition :
      Text → ValueResolver F → ValueResolver F → Comparator F → CompiledRule F
  run_condition field resolve_lhs resolve_rhs cmp ctx =
      let (lhs, field_error) = resolve_lhs ctx in
      elim field_error [
        | some e ↦ (false, some (condition_field field e))
        | none ↦
            let (rhs, value_error) = resolve_rhs ctx in
            elim value_error [ some e ↦ (false, some (condition_value e)) | none ↦ cmp lhs rhs ]
      ]

  unfoldable pub compile_condition :
      Text → Text → Value F → Option TimeWindow → Compilation (CompiledRule F)
  unfolding build_lhs_resolver build_rhs_resolver build_comparator run_condition
  compile_condition field operator value window =
      let field_is_var = has_prefix field (bytes "$") in
      let field_is_aggregate = not field_is_var && contains_byte b':' field in
      let (rhs_str, rhs_is_var_ref) = string_of value in
      let rhs_is_var = rhs_is_var_ref && has_prefix rhs_str (bytes "$") in
      let resolve_lhs : ValueResolver F =
        build_lhs_resolver field field_is_var field_is_aggregate window in
      let resolve_rhs : ValueResolver F = build_rhs_resolver value rhs_is_var rhs_str in
      do
        cmp ← build_comparator (to_upper operator)
        ok (run_condition field resolve_lhs resolve_rhs cmp)

-- Compile, compileNot and the loops of compileAnd and compileOr
unfoldable mutual
  pub compile : {F : Type 0} → Float F → RuleNode F → Compilation (CompiledRule F)
  compile fl (node type children field operator value window) = elim (node_kind type) [
    | and_node ↦ compile_all fl children >>= λ fns. ok (run_and fns)
    | or_node ↦ compile_all fl children >>= λ fns. ok (run_or fns)
    | not_node ↦ compile_not fl children
    | condition_node ↦ compile_condition ⦃fl = fl⦄ field operator value window
    | unknown_node ↦ rejected (unknown_type type)
  ]

  pub compile_all : {F : Type 0} → Float F → RuleNodes F → Compilation (List (CompiledRule F))
  compile_all fl nil = ok []
  compile_all fl (cons c cs) = do fn ← compile fl c; fns ← compile_all fl cs; ok (fn ∷ fns)

  pub compile_not : {F : Type 0} → Float F → RuleNodes F → Compilation (CompiledRule F)
  compile_not fl nil = rejected (not_arity 0)
  compile_not fl (cons c nil) = compile fl c >>= λ inner. ok (run_not inner)
  compile_not fl (cons c (cons d ds)) = rejected (not_arity (count_nodes (cons c (cons d ds))))
