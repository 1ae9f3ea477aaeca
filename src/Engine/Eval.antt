-- ===== src/Engine/Eval.antt =====
-- service/engine/core/eval.go
use rule_engine.Prelude.{ℕ, Bool, false, List, [], ◌∷◌, none, some, if◌then◌else◌}
use rule_engine.Text.{Text, text_eq, bytes}
use rule_engine.Time.{Time}
use rule_engine.Dict
use rule_engine.Dict.{Dict}
use rule_engine.Float.{Float}
use rule_engine.Rule.Value.{Value, float64, str}
use rule_engine.Rule.Context.{
  AggregateKey, cache_key, EvalContext, new_preloaded_context, preloaded_eval_context,
}
use rule_engine.Rule.Keys.{CompiledStrategy, CompiledRuleSet, collect_unique_aggregate_keys}
use rule_engine.Rule.Outcome.{Outcome}
use rule_engine.Engine.Event.{BehaviorEvent}
use rule_engine.Engine.Member.{MemberState}
use rule_engine.Engine.Aggregation.{compute_bucket_aggregation}

pub record MatchedRule : Type 0 where
  pub id : ℕ
  pub name : Text

-- `err == nil && ok`
abbrev pub holds : Outcome → Bool
holds (b, none) = b
holds (b, some e) = false

module _ {F : Type 0} where
  -- the loop over the strategies, in a context
  unfoldable pub matched_rules : EvalContext F → List (CompiledStrategy F) → List MatchedRule
  matched_rules ctx [] = []
  matched_rules ctx (cs ∷ rest) =
      let found = matched_rules ctx rest in
      if holds (cs.eval ctx) then record { id = cs.id; name = cs.name } ∷ found else found

  unfoldable pub build_eval_fields : BehaviorEvent F → Dict Text (Value F)
  unfolding Dict.put Dict.put_all
  build_eval_fields event =
      Dict.put (Dict.put (Dict.put_all [] event.fields) (bytes "behavior") (str event.behavior))
        (bytes "member_id") (str event.member_id)

module _ {F : Type 0} ⦃fl : Float F⦄ where
  -- the loop that fills the aggregate cache
  unfoldable pub fill_cache :
      MemberState F → Time → List AggregateKey → Dict Text (Value F) → Dict Text (Value F)
  unfolding Dict.put cache_key
  fill_cache ms now [] cache = cache
  fill_cache ms now (k ∷ ks) cache =
      fill_cache ms now ks
        (Dict.put cache (cache_key k) (float64 (compute_bucket_aggregation ms k now)))

  unfoldable pub evaluate_rules :
      MemberState F → Dict Text (Value F) → Time → CompiledRuleSet F → List MatchedRule
  unfolding fill_cache matched_rules new_preloaded_context
  evaluate_rules ms fields occurred_at rule_set =
      let all_keys = collect_unique_aggregate_keys rule_set.strategies in
      let agg_cache = fill_cache ms occurred_at all_keys [] in
      matched_rules (preloaded_eval_context (new_preloaded_context fields agg_cache))
        rule_set.strategies
