-- ===== src/Rule/Agreement/Condition.antt =====
-- compileCondition of compile.go against evalCondition of rule.go, on one condition.
use rule_engine.Prelude.{
  ◌≡◌, refl, Bool, true, false, not, ◌&&◌, Option, none, some, arith, if◌then◌else◌,
}
use rule_engine.Text.{Text, bytes, to_upper, has_prefix, contains_byte}
use rule_engine.Float.{Float}
use rule_engine.Rule.Value.{Value}
use rule_engine.Rule.Window.{TimeWindow}
use rule_engine.Rule.Outcome.{Outcome, and_then, Agree, Error}
use rule_engine.Rule.Context.{EvalContext}
use rule_engine.Rule.Evaluate.{eval_condition, apply_operator, resolve_value, resolve_rhs}
use rule_engine.Rule.Compile.{
  string_of, CompiledRule, Comparator, Compilation, ok, rejected, ◌>>=◌, build_comparator,
  build_lhs_resolver, build_rhs_resolver, run_condition, compile_condition,
}

-- A context that reads the window of aggregate fields only, as both contexts of the program do.
abbrev pub IgnoresWindow : {F : Type 0} → EvalContext F → Type 0
IgnoresWindow ctx =
    (field : Text) (window : Option TimeWindow)
    → contains_byte b':' field ≡ false
    → ctx.resolve field window ≡ ctx.resolve field none

pub Agree-and_then :
    (a b : Outcome) (f g : Bool → Outcome)
    → Agree a b
    → ((x : Bool) → Agree (f x) (g x))
    → Agree (and_then a f) (and_then b g)
Agree-and_then (x, none) (y, none) f g h k = rw h.1 (k y)
Agree-and_then (x, none) (y, some e) f g h k = cc h.0
Agree-and_then (x, some d) (y, none) f g h k = cc h.0
Agree-and_then (x, some d) (y, some e) f g h k = (refl, refl)

-- Where a chain succeeds, both of its steps do.
pub bind_ok {ℓ κ} :
    {A : Type ℓ} {B : Type κ} {last : B} (first : Compilation A) (next : A → Compilation B)
    → (first >>= next) ≡ ok last
    → (made : A) × (first ≡ ok made) × (next made ≡ ok last)
bind_ok (rejected e) next h = cc
bind_ok (ok made) next h = (made, refl, h)

pub ok-injective {ℓ} : {A : Type ℓ} {a b : A} → ok a ≡ ok b → a ≡ b
ok-injective e = cc

pub if-Agree :
    (b : Bool) (x y x' y' : Outcome)
    → Agree x x'
    → Agree y y'
    → Agree (if b then x else y) (if b then x' else y')
if-Agree true x y x' y' h k = h
if-Agree false x y x' y' h k = k

module _ {F : Type 0} ⦃fl : Float F⦄ where
  build_comparator-Agree :
      (op : Text) (cmp : Comparator F) (l r : Value F)
      → build_comparator op ≡ ok cmp
      → Agree (cmp l r) (apply_operator op l r)
  unfolding build_comparator apply_operator
  build_comparator-Agree op cmp l r h = ground arith

  lhs-resolve_value :
      (ctx : EvalContext F) (field : Text) (window : Option TimeWindow)
      → IgnoresWindow ctx
      → build_lhs_resolver field
          (has_prefix field (bytes "$"))
          (not (has_prefix field (bytes "$")) && contains_byte b':' field)
          window
          ctx
        ≡ resolve_value field window ctx
  unfolding build_lhs_resolver resolve_value
  lhs-resolve_value ctx field window ignores = ground (arith, ignores field window)

  rhs-resolve_rhs :
      (ctx : EvalContext F) (value : Value F)
      → build_rhs_resolver value
          ((string_of value).1 && has_prefix (string_of value).0 (bytes "$"))
          (string_of value).0
          ctx
        ≡ resolve_rhs value ctx
  unfolding build_rhs_resolver resolve_rhs
  rhs-resolve_rhs ctx value = ground arith

  run_condition-Agree :
      (ctx : EvalContext F) (field operator : Text) (value : Value F) (window : Option TimeWindow)
      (lhs rhs : EvalContext F → Value F × Option Error) (cmp : Comparator F)
      → build_comparator (to_upper operator) ≡ ok cmp
      → lhs ctx ≡ resolve_value field window ctx
      → rhs ctx ≡ resolve_rhs value ctx
      → Agree (run_condition field lhs rhs cmp ctx) (eval_condition field operator value window ctx)
  unfolding run_condition eval_condition
  run_condition-Agree ctx field operator value window lhs rhs cmp h hl hr = ground (
    arith,
    build_comparator-Agree (to_upper operator) cmp (resolve_value field window ctx).0
        (resolve_rhs value ctx).0 h,
  )

  pub condition-Agree :
      (ctx : EvalContext F) (field operator : Text) (value : Value F) (window : Option TimeWindow)
      (fn : CompiledRule F)
      → IgnoresWindow ctx
      → compile_condition field operator value window ≡ ok fn
      → Agree (fn ctx) (eval_condition field operator value window ctx)
  unfolding compile_condition
  condition-Agree ctx field operator value window fn ignores h =
      let (cmp, built, e) = bind_ok (build_comparator (to_upper operator)) _ h in
      rw (← ok-injective e) (
        run_condition-Agree ctx field operator value window
          (build_lhs_resolver field (has_prefix field (bytes "$"))
            (not (has_prefix field (bytes "$")) && contains_byte b':' field) window)
          (build_rhs_resolver value
            ((string_of value).1 && has_prefix (string_of value).0 (bytes "$")) (string_of value).0)
          cmp built (lhs-resolve_value ctx field window ignores) (rhs-resolve_rhs ctx value))
