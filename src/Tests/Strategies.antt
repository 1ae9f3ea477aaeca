-- ===== src/Tests/Strategies.antt =====
-- Rule strategies: a repository over a list, and a cache that is cleared by a change.
use rule_engine.Prelude.{
  ◌≡◌, refl, ◌++◌, ℕ, suc, List, [], ◌∷◌, Option, none, some, ℤ, int_beq, length, filter, Bool,
  nat_beq, if◌then◌else◌,
}
use rule_engine.Text.{bytes}
use rule_engine.Rule.Keys.{CompiledRuleSet}
use rule_engine.Rule.Strategy.{
  RuleStrategyStatus, inactive, RuleStrategy, Repo, Reply, done, failed, new_rule_strategy_usecase,
  RuleStrategyUsecase, list_active, list_active_compiled, compile_active,
}
use rule_engine.Rule.Strategy.Coherence.{
  Call, creates, sets_status, reads, call_all, list_active_compiled-call_all,
}
use rule_engine.Tests.Program.{program}
use rule_engine.Tests.Samples.{int_float, foreign_rule}

abbrev pub Store : Type 0
Store = List (RuleStrategy ℤ)

abbrev find_rule : Store → ℕ → Option (RuleStrategy ℤ)
find_rule [] id = none
find_rule (r ∷ rest) id = if nat_beq r.id id then some r else find_rule rest id

abbrev has_status : RuleStrategyStatus → RuleStrategy ℤ → Bool
has_status s r = int_beq r.status s

abbrev with_status : ℕ → Option RuleStrategyStatus → Store → Store
with_status id status [] = []
with_status id status (r ∷ rest) =
    let later = with_status id status rest in
    if nat_beq r.id id
    then (elim status [ none ↦ r | some s ↦ record r { status = s } ]) ∷ later
    else r ∷ later

abbrev pub list_repo : Repo ℤ Store
list_repo = record {
  get = λ store id. some (find_rule store id);
  list = λ store status. elim status [
    | none ↦ some store
    | some s ↦ some (filter (has_status s) store)
  ];
  create = λ store r. let r' = record r { id = suc (length store) } in some (store ++ r' ∷ [], r');
  update = λ store id u. some (with_status id u.status store);
  marshal = λ n. none;
}

abbrev calls : List (Call ℤ)
calls =
    creates (record { name = bytes "foreign"; description = []; rule_node = foreign_rule })
    ∷ reads
    ∷ creates (record { name = bytes "again"; description = []; rule_node = foreign_rule })
    ∷ reads
    ∷ sets_status 1 inactive
    ∷ []

abbrev used : RuleStrategyUsecase ℤ Store
used = call_all int_float list_repo (new_rule_strategy_usecase []) calls

abbrev count_strategies : Reply (CompiledRuleSet ℤ) → ℕ
count_strategies (failed e) = 0
count_strategies (done rs) = length rs.strategies

one_rule_left : count_strategies (list_active_compiled int_float list_repo used).1 ≡ 1
unfolding program
one_rule_left = refl

list_active_compiled-call_all_example :
    (list_active_compiled int_float list_repo used).1
    ≡ compile_active int_float (list_active int_float list_repo used)
list_active_compiled-call_all_example = list_active_compiled-call_all int_float list_repo [] calls
