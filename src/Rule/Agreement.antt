-- ===== src/Rule/Agreement.antt =====
-- The compiled closure against the evaluator: compile.go and rule.go give the same answers.
pub mod Condition
use rule_engine.Prelude.{
  sym, ◌∙◌, inl, inr, ◌≡◌, refl, Bool, true, false, not, ◌&&◌, Option, none, some, List, arith,
  if◌then◌else◌,
}
use rule_engine.Text.{Text, bytes, to_upper, has_prefix, contains_byte}
use rule_engine.Float.{Float}
use rule_engine.Rule.Value.{Value}
use rule_engine.Rule.Window.{TimeWindow}
use rule_engine.Rule.Node.{
  not_node, or_node, condition_node, and_node, unknown_node, RuleNode, RuleNodes, node, nil, cons,
  node_kind, NodeKind-cases,
}
use rule_engine.Rule.Outcome.{unknown_type, Outcome, and_then, Agree, Error}
use rule_engine.Rule.Context.{EvalContext}
use rule_engine.Rule.Evaluate.{
  evaluate, eval_and, eval_or, eval_not, eval_condition, apply_operator, resolve_value, resolve_rhs,
}
use rule_engine.Rule.Compile.{
  string_of, CompiledRule, Comparator, Compilation, ok, rejected, ◌>>=◌, run_and, run_or, run_not,
  build_comparator, build_lhs_resolver, build_rhs_resolver, run_condition, compile_condition,
  compile, compile_all, compile_not,
}
use rule_engine.Rule.Agreement.Condition.{
  IgnoresWindow, Agree-and_then, bind_ok, ok-injective, if-Agree, condition-Agree,
}

bind-Agree {ℓ} :
    {F : Type 0} {A : Type ℓ} (ctx : EvalContext F) (m : Compilation A) (g : A → CompiledRule F)
    (r : Outcome) (fn : CompiledRule F)
    → ((a : A) → m ≡ ok a → Agree (g a ctx) r)
    → (m >>= λ a. ok (g a)) ≡ ok fn
    → Agree (fn ctx) r
bind-Agree ctx (ok a) g r fn k h = rw (← ok-injective h) (k a refl)
bind-Agree ctx (rejected e) g r fn k h = cc

-- One step of both recursions, by the kind of the node.
module _ {F : Type 0} (fl : Float F) (type : Text) (cs : RuleNodes F) (field operator : Text)
    (value : Value F) (window : Option TimeWindow) (ctx : EvalContext F) where
  abbrev n : RuleNode F
  n = node type cs field operator value window

  abbrev OnAll : (List (CompiledRule F) → CompiledRule F) → Outcome → Type 0
  OnAll run r =
      (compile fl n ≡ (compile_all fl cs >>= λ fns. ok (run fns))) × (evaluate fl n ctx ≡ r)

  and_step : node_kind type ≡ and_node → OnAll run_and (eval_and fl cs ctx)
  unfolding compile evaluate
  and_step e = ground arith

  or_step : node_kind type ≡ or_node → OnAll run_or (eval_or fl cs ctx)
  unfolding compile evaluate
  or_step e = ground arith

  not_step :
      node_kind type ≡ not_node
      → (compile fl n ≡ compile_not fl cs) × (evaluate fl n ctx ≡ eval_not fl cs ctx)
  unfolding compile evaluate
  not_step e = ground arith

  condition_step :
      node_kind type ≡ condition_node
      → (compile fl n ≡ compile_condition ⦃fl = fl⦄ field operator value window)
        × (evaluate fl n ctx ≡ eval_condition ⦃fl = fl⦄ field operator value window ctx)
  unfolding compile evaluate
  condition_step e = ground arith

  unknown_step : node_kind type ≡ unknown_node → compile fl n ≡ rejected (unknown_type type)
  unfolding compile
  unknown_step e = ground arith

-- The induction over the tree.
mutual
  unfolding compile evaluate run_and run_or run_not

  node-Agree :
      {F : Type 0} (fl : Float F) (ctx : EvalContext F)
      → IgnoresWindow ctx
      → (n : RuleNode F) (fn : CompiledRule F) → compile fl n ≡ ok fn
      → Agree (fn ctx) (evaluate fl n ctx)
  node-Agree fl ctx ignores (node type cs field operator value window) fn h =
      elim (NodeKind-cases (node_kind type)) [
        | inl e ↦
            let (c, r) = and_step fl type cs field operator value window ctx e in
            rw r (
              bind-Agree ctx (compile_all fl cs) run_and (eval_and fl cs ctx) fn
                (λ fns p. and-Agree fl ctx ignores cs fns p) (sym c ∙ h))
        | inr (inl e) ↦
            let (c, r) = or_step fl type cs field operator value window ctx e in
            rw r (
              bind-Agree ctx (compile_all fl cs) run_or (eval_or fl cs ctx) fn
                (λ fns p. or-Agree fl ctx ignores cs fns p) (sym c ∙ h))
        | inr (inr (inl e)) ↦
            let (c, r) = not_step fl type cs field operator value window ctx e in
            rw r (not-Agree fl ctx ignores cs fn (sym c ∙ h))
        | inr (inr (inr (inl e))) ↦
            let (c, r) = condition_step fl type cs field operator value window ctx e in
            rw r (condition-Agree ⦃fl = fl⦄ ctx field operator value window fn ignores (sym c ∙ h))
        | inr (inr (inr (inr e))) ↦ cc (unknown_step fl type cs field operator value window ctx e)
      ]

  and-Agree :
      {F : Type 0} (fl : Float F) (ctx : EvalContext F)
      → IgnoresWindow ctx
      → (cs : RuleNodes F) (fns : List (CompiledRule F)) → compile_all fl cs ≡ ok fns
      → Agree (run_and fns ctx) (eval_and fl cs ctx)
  and-Agree fl ctx ignores nil fns h = rw (← ok-injective h) (refl, refl)
  and-Agree fl ctx ignores (cons c cs) fns h =
      let (fn, p, h') = bind_ok (compile fl c) _ h in
      let (rest, q, e) = bind_ok (compile_all fl cs) _ h' in
      rw (← ok-injective e) (
        Agree-and_then (fn ctx) (evaluate fl c ctx)
          (λ ok. if ok then run_and rest ctx else (false, none))
          (λ ok. if ok then eval_and fl cs ctx else (false, none))
          (node-Agree fl ctx ignores c fn p)
          (λ b. if-Agree b _ _ _ _ (and-Agree fl ctx ignores cs rest q) (refl, refl)))

  or-Agree :
      {F : Type 0} (fl : Float F) (ctx : EvalContext F)
      → IgnoresWindow ctx
      → (cs : RuleNodes F) (fns : List (CompiledRule F)) → compile_all fl cs ≡ ok fns
      → Agree (run_or fns ctx) (eval_or fl cs ctx)
  or-Agree fl ctx ignores nil fns h = rw (← ok-injective h) (refl, refl)
  or-Agree fl ctx ignores (cons c cs) fns h =
      let (fn, p, h') = bind_ok (compile fl c) _ h in
      let (rest, q, e) = bind_ok (compile_all fl cs) _ h' in
      rw (← ok-injective e) (
        Agree-and_then (fn ctx) (evaluate fl c ctx)
          (λ ok. if ok then (true, none) else run_or rest ctx)
          (λ ok. if ok then (true, none) else eval_or fl cs ctx) (node-Agree fl ctx ignores c fn p)
          (λ b. if-Agree b _ _ _ _ (refl, refl) (or-Agree fl ctx ignores cs rest q)))

  not-Agree :
      {F : Type 0} (fl : Float F) (ctx : EvalContext F)
      → IgnoresWindow ctx
      → (cs : RuleNodes F) (fn : CompiledRule F) → compile_not fl cs ≡ ok fn
      → Agree (fn ctx) (eval_not fl cs ctx)
  not-Agree fl ctx ignores nil fn h = cc
  not-Agree fl ctx ignores (cons c nil) fn h =
      bind-Agree ctx (compile fl c) run_not (eval_not fl (cons c nil) ctx) fn
        (λ inner p.
          Agree-and_then (inner ctx) (evaluate fl c ctx) (λ b. (not b, none)) (λ b. (not b, none))
            (node-Agree fl ctx ignores c inner p) (λ b. (refl, refl)))
        h
  not-Agree fl ctx ignores (cons c (cons d ds)) fn h = cc

-- A compiled rule and the evaluator agree on every tree that compiles: both fail or both return the
-- same answer, in any context that ignores the windows of fields that are no aggregates.
pub compile-evaluate-Agree :
    {F : Type 0} (fl : Float F) (ctx : EvalContext F) (n : RuleNode F) (fn : CompiledRule F)
    → IgnoresWindow ctx
    → compile fl n ≡ ok fn
    → Agree (fn ctx) (evaluate fl n ctx)
compile-evaluate-Agree fl ctx n fn ignores h = node-Agree fl ctx ignores n fn h
