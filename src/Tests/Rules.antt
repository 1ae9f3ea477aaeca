-- ===== src/Tests/Rules.antt =====
-- Rules: a compiled rule and the evaluator on sample data.
use rule_engine.Prelude.{some, List, ◌≤ℤ◌, Each, ◌≡◌, refl, true, false, [], ◌∷◌, none, ℤ, pos}
use rule_engine.Text.{Text, bytes}
use rule_engine.Dict.{Dict}
use rule_engine.Rule.Value.{Value, str, float64}
use rule_engine.Rule.Outcome.{Agree}
use rule_engine.Rule.Context.{EvalContext, new_preloaded_context, preloaded_eval_context}
use rule_engine.Rule.Evaluate.{evaluate}
use rule_engine.Rule.Compile.{CompiledRule, Compilation, ok, rejected, compile}
use rule_engine.Rule.Agreement.{compile-evaluate-Agree}
use rule_engine.Rule.Agreement.Condition.{IgnoresWindow}
use rule_engine.Tests.Program.{program}
use rule_engine.Rule.Window.{duration}
use rule_engine.Rule.Context.{AggregateKey}
use rule_engine.Rule.Keys.{max_window_from_keys}
use rule_engine.Rule.Keys.Retention.{max_window_from_keys-bounds}
use rule_engine.Tests.Samples.{minutes, int_float, foreign_rule}

abbrev from_ok : Compilation (CompiledRule ℤ) → CompiledRule ℤ
from_ok (ok fn) = fn
from_ok (rejected e) = λ ctx. (false, none)

abbrev fields : Dict Text (Value ℤ)
fields = (bytes "amount", float64 (pos 250)) ∷ (bytes "country", str (bytes "JP")) ∷ []

abbrev ctx : EvalContext ℤ
ctx = preloaded_eval_context (new_preloaded_context fields [])

foreign_rule_compiles :
    compile int_float foreign_rule ≡ ok (from_ok (compile int_float foreign_rule))
unfolding program
foreign_rule_compiles = refl

ctx-IgnoresWindow : IgnoresWindow ctx
unfolding preloaded_eval_context
ctx-IgnoresWindow = λ field window h. rw (h) refl

compile-evaluate-Agree_example :
    Agree (from_ok (compile int_float foreign_rule) ctx) (evaluate int_float foreign_rule ctx)
compile-evaluate-Agree_example =
    compile-evaluate-Agree int_float ctx foreign_rule (from_ok (compile int_float foreign_rule))
      ctx-IgnoresWindow foreign_rule_compiles

foreign_rule_holds : evaluate int_float foreign_rule ctx ≡ (true, none)
unfolding program
foreign_rule_holds = refl

abbrev sample_keys : List AggregateKey
sample_keys =
    record { field = bytes "Trade:SUM:amount"; window = some (minutes 5) }
    ∷ record { field = bytes "Login:COUNT"; window = some (minutes 120) }
    ∷ record { field = bytes "Login:COUNT"; window = none }
    ∷ []

max_window_run : max_window_from_keys sample_keys ≡ pos 7_200_000_000_000
unfolding program
max_window_run = refl

max_window_from_keys-bounds_example :
    (pos 0 ≤ℤ max_window_from_keys sample_keys)
    × Each (λ k. duration k.window ≤ℤ max_window_from_keys sample_keys) sample_keys
max_window_from_keys-bounds_example = max_window_from_keys-bounds sample_keys
