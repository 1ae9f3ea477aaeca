-- ===== src/Api/Controller.antt =====
-- service/bff/apis/controller/rule.go, over the use case of the rule strategies, to which the use
-- case of the API hands each call on. The binding of a body to a request is gin's, a parameter.
use rule_engine.Prelude.{ℕ, List, Option, none, some, [], ◌==◌, if◌then◌else◌}
use rule_engine.Text.{Text, text_eq}
use rule_engine.Text.Number.{atoi, parse_uint}
use rule_engine.Float.{Float}
use rule_engine.Rule.Strategy.{
  RuleStrategy, RuleStrategyStatus, CreateRuleStrategyReq, UpdateRuleStrategyReq, Repo, Reply, done,
  failed, StrategyError, RuleStrategyUsecase, create, get_rule, list_rules, update, set_status,
}

-- ShouldBindJSON of the three bodies, with the required fields of their tags; none is an error
pub record Bind (F : Type 0) : Type 0 where
  pub bind_create : Text → Option (CreateRuleStrategyReq F)
  pub bind_update : Text → Option (UpdateRuleStrategyReq F)
  pub bind_status : Text → Option RuleStrategyStatus

pub data ApiError : Type 0 where
  bad_id bad_body invalid_status not_found : ApiError
  refused : StrategyError → ApiError

pub data Body (F : Type 0) : Type 0 where
  error : ApiError → Body F
  rule : RuleStrategy F → Body F
  rules : List (RuleStrategy F) → Body F
  empty : Body F

pub record Response (F : Type 0) : Type 0 where
  pub status : ℕ
  pub body : Body F

-- the routes, with the parameter `id`, the query `status` and the body as texts
pub data Request : Type 0 where
  post_rule : Text → Request
  get_one : Text → Request
  get_all : Text → Request
  put_rule : Text → Text → Request
  patch_status : Text → Text → Request

module _ {F : Type 0} where
  abbrev pub answer_ok : Body F → Response F
  answer_ok body = record { status = 200; body = body }

  abbrev pub bad_request : ApiError → Response F
  bad_request e = record { status = 400; body = error e }

  abbrev pub internal_error : StrategyError → Response F
  internal_error e = record { status = 500; body = error (refused e) }

  -- the end of Update and SetStatus
  abbrev pub answer_change : Reply (Unit {0}) → Response F
  answer_change (failed e) = internal_error e
  answer_change (done _) = answer_ok empty

  abbrev pub answer_created : Reply (RuleStrategy F) → Response F
  answer_created (failed e) = internal_error e
  answer_created (done obj) = answer_ok (rule obj)

  abbrev pub answer_found : Reply (Option (RuleStrategy F)) → Response F
  answer_found (failed e) = internal_error e
  answer_found (done none) = record { status = 404; body = error not_found }
  answer_found (done (some obj)) = answer_ok (rule obj)

  abbrev pub answer_listed : Reply (List (RuleStrategy F)) → Response F
  answer_listed (failed e) = internal_error e
  answer_listed (done objs) = answer_ok (rules objs)

module _ {F S : Type 0} (bind : Bind F) (fl : Float F) (repo : Repo F S) where
  unfoldable pub handle_create :
      RuleStrategyUsecase F S → Text → RuleStrategyUsecase F S × Response F
  handle_create uc body = elim (bind.bind_create body) [
    | none ↦ (uc, bad_request bad_body)
    | some req ↦ let (uc', reply) = create fl repo uc req in (uc', answer_created reply)
  ]

  unfoldable pub handle_get : RuleStrategyUsecase F S → Text → Response F
  handle_get uc id = elim (parse_uint id) [
    | none ↦ bad_request bad_id
    | some n ↦ answer_found (get_rule fl repo uc n)
  ]

  unfoldable pub handle_list : RuleStrategyUsecase F S → Text → Response F
  handle_list uc status =
      if status == [] then answer_listed (list_rules fl repo uc none) else (elim (atoi status) [
        | none ↦ bad_request invalid_status
        | some s ↦ answer_listed (list_rules fl repo uc (some s))
      ])

  unfoldable pub handle_update :
      RuleStrategyUsecase F S → Text → Text → RuleStrategyUsecase F S × Response F
  handle_update uc id body = elim (parse_uint id) [
    | none ↦ (uc, bad_request bad_id)
    | some n ↦ elim (bind.bind_update body) [
      | none ↦ (uc, bad_request bad_body)
      | some req ↦ let (uc', reply) = update fl repo uc n req in (uc', answer_change reply)
    ]
  ]

  unfoldable pub handle_set_status :
      RuleStrategyUsecase F S → Text → Text → RuleStrategyUsecase F S × Response F
  handle_set_status uc id body = elim (parse_uint id) [
    | none ↦ (uc, bad_request bad_id)
    | some n ↦ elim (bind.bind_status body) [
      | none ↦ (uc, bad_request bad_body)
      | some status ↦
          let (uc', reply) = set_status fl repo uc n status in (uc', answer_change reply)
    ]
  ]

  -- RuleRegister
  unfoldable pub handle : RuleStrategyUsecase F S → Request → RuleStrategyUsecase F S × Response F
  handle uc (post_rule body) = handle_create uc body
  handle uc (get_one id) = (uc, handle_get uc id)
  handle uc (get_all status) = (uc, handle_list uc status)
  handle uc (put_rule id body) = handle_update uc id body
  handle uc (patch_status id body) = handle_set_status uc id body
