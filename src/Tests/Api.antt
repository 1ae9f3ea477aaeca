-- ===== src/Tests/Api.antt =====
-- Rule strategies over HTTP, down to a table that is a list of rows.
use rule_engine.Prelude.{
  ℕ, arith, ◌<◌, ◌^◌, ◌≡◌, ◌≢◌, refl, List, [], ◌∷◌, none, some, ℤ, if◌then◌else◌, ◌⊎◌, ◌==◌,
}
use rule_engine.Text.{Text, text_eq, bytes, digits}
use rule_engine.Rule.Strategy.{
  RuleStrategy, UpdateRuleStrategyReq, CreateRuleStrategyReq, Repo, done, active, get_rule, update,
  RuleStrategyUsecase, new_rule_strategy_usecase,
}
use rule_engine.Rule.Repository.{RuleRow, rule_strategy_repo}
use rule_engine.Api.Controller.{
  Bind, Response, Request, post_rule, get_one, handle, answer_ok, rule,
}
use rule_engine.Api.Refused.{handle-refused}
use rule_engine.Api.RoundTrip.{IsBind, handle-post_get}
use rule_engine.Rule.Repository.Rows.{IsDecoded}
use rule_engine.Rule.Repository.Stored.{edited}
use rule_engine.Rule.Strategy.Persistence.{update-get_rule}
use rule_engine.Text.Number.{atoi}
use rule_engine.Tests.Program.{program}
use rule_engine.Tests.Samples.{int_float}
use rule_engine.Tests.Rows.{above, bound_codec, row_table, bound_codec-IsCodec, row_table-IsTable}

-- a body is the name of the rule, or the number of its status
abbrev text_bind : Bind ℤ
text_bind = record {
  bind_create = λ body.
      if body == []
      then none
      else some (record { name = body; description = []; rule_node = above 100 });
  bind_update =
      λ body. some (record { name = some body; description = none; rule_node = some (above 50) });
  bind_status = atoi;
}

text_bind-IsBind : IsBind bound_codec text_bind
text_bind-IsBind = record { condition = bound_condition }
  where
    bound_condition :
        (body : Text) (req : CreateRuleStrategyReq ℤ)
        → text_bind.bind_create body ≡ some req
        → IsDecoded bound_codec req.rule_node
    bound_condition body req e = (100 ∷ [], ground arith)

abbrev row_repo : Repo ℤ (List RuleRow)
row_repo = rule_strategy_repo bound_codec row_table

abbrev request :
    RuleStrategyUsecase ℤ (List RuleRow)
    → Request
    → RuleStrategyUsecase ℤ (List RuleRow) × Response ℤ
request = handle text_bind int_float row_repo

abbrev posted : RuleStrategyUsecase ℤ (List RuleRow) × Response ℤ
posted = request (new_rule_strategy_usecase []) (post_rule (bytes "large"))

abbrev large : RuleStrategy ℤ
large = record {
  id = 1;
  name = bytes "large";
  description = [];
  rule_node = above 100;
  status = active;
}

posted_large : posted.1 ≡ answer_ok (rule large)
unfolding program
posted_large = refl

-- a rule that is not there
missing_rule : (request posted.0 (get_one (bytes "2"))).1.status ≡ 500
unfolding program
missing_rule = refl

handle-post_get_example :
    (req : CreateRuleStrategyReq ℤ) × (obj : RuleStrategy ℤ) × (text_bind.bind_create
        (bytes "large")
      ≡ some req)
    × (obj ≡ record {
      id = obj.id;
      name = req.name;
      description = req.description;
      rule_node = req.rule_node;
      status = active;
    })
    × (posted.1 ≡ answer_ok (rule obj))
    × (request posted.0 (get_one (digits obj.id)) ≡ (posted.0, posted.1))
    × ((other : ℕ)
        → other < 2 ^ 64
        → other ≢ obj.id
        → (request posted.0 (get_one (digits other))).1
          ≡ (request (new_rule_strategy_usecase []) (get_one (digits other))).1)
unfolding program
handle-post_get_example =
    handle-post_get text_bind int_float bound_codec row_table text_bind-IsBind bound_codec-IsCodec
      row_table-IsTable (new_rule_strategy_usecase []) posted.0 (bytes "large") posted.1 refl refl

handle-refused_example :
    ((request posted.0 (get_one (bytes "2"))).1.status ≡ 200)
    ⊎ (((request posted.0 (get_one (bytes "2"))).0 ≡ posted.0)
        × (((request posted.0 (get_one (bytes "2"))).1.status ≡ 400)
            ⊎ ((request posted.0 (get_one (bytes "2"))).1.status ≡ 500)))
handle-refused_example =
    handle-refused text_bind int_float bound_codec row_table posted.0 (get_one (bytes "2"))

abbrev renamed : UpdateRuleStrategyReq ℤ
renamed = record { name = some (bytes "middle"); description = none; rule_node = some (above 50) }

update-get_rule_example :
    (get_rule int_float row_repo (update int_float row_repo posted.0 1 renamed).0 1
      ≡ done (some (edited renamed.name renamed.description renamed.rule_node none large)))
    × ((other : ℕ)
        → other ≢ 1
        → get_rule int_float row_repo (update int_float row_repo posted.0 1 renamed).0 other
          ≡ get_rule int_float row_repo posted.0 other)
unfolding program
update-get_rule_example =
    update-get_rule int_float bound_codec row_table bound_codec-IsCodec row_table-IsTable posted.0
      (update int_float row_repo posted.0 1 renamed).0 1 renamed large (λ n set. (50 ∷ [], set))
      refl refl
