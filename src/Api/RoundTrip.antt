-- ===== src/Api/RoundTrip.antt =====
-- A rule posted over HTTP, and the rule that is then read (controller/rule.go down to the table).
use rule_engine.Prelude.{
  ℕ, ◌<◌, ◌^◌, ◌≡◌, ◌≢◌, some, refl, sym, ap, ◌∙◌, Option-cases, inl, inr, arith,
}
use rule_engine.Text.{Text, digits}
use rule_engine.Text.Number.{parse_uint-digits}
use rule_engine.Float.{Float}
use rule_engine.Rule.Strategy.{
  RuleStrategy, CreateRuleStrategyReq, Repo, Reply, done, failed, active, RuleStrategyUsecase,
  create, get_rule,
}
use rule_engine.Rule.Strategy.Persistence.{create-get_rule}
use rule_engine.Rule.Repository.{Table, Codec, rule_strategy_repo}
use rule_engine.Rule.Repository.Rows.{IsDecoded, IsCodec, IsTable}
use rule_engine.Api.Controller.{
  Bind, Response, rule, post_rule, get_one, answer_ok, answer_created, answer_found, handle_create,
  handle_get, handle,
}

module _ {F S : Type 0} (bind : Bind F) (fl : Float F) (repo : Repo F S) where
  handle_get-digits :
      (uc : RuleStrategyUsecase F S) (id : ℕ)
      → id < 2 ^ 64
      → handle_get bind fl repo uc (digits id) ≡ answer_found (get_rule fl repo uc id)
  unfolding handle_get
  handle_get-digits uc id h = rw (handle_get, parse_uint-digits id h) refl

  created_ok :
      (p : RuleStrategyUsecase F S × Reply (RuleStrategy F)) (after : RuleStrategyUsecase F S)
      (answer : Response F)
      → ◌≡◌ {A = RuleStrategyUsecase F S × Response F} (p.0, answer_created p.1) (after, answer)
      → answer.status ≡ 200
      → (obj : RuleStrategy F) × (p ≡ (after, done obj)) × (answer ≡ answer_ok (rule obj))
  created_ok (uc, failed x) after answer e ok = ground arith
  created_ok (uc, done obj) after answer e ok =
      (obj, ap (λ p. (p.0, done obj)) e, sym (ap (λ p. p.1) e))

  -- a rule was created if the answer says so
  handle_create_ok :
      (uc after : RuleStrategyUsecase F S) (body : Text) (answer : Response F)
      → handle_create bind fl repo uc body ≡ (after, answer)
      → answer.status ≡ 200
      → (req : CreateRuleStrategyReq F) × (obj : RuleStrategy F) × (bind.bind_create body
          ≡ some req)
        × (create fl repo uc req ≡ (after, done obj))
        × (answer ≡ answer_ok (rule obj))
  unfolding handle_create
  handle_create_ok uc after body answer e ok = elim (Option-cases (bind.bind_create body)) [
    | inl bad ↦ ground (arith, bad, e, ok)
    | inr (req, good) ↦
        let opened : handle_create bind fl repo uc body
            ≡ ((create fl repo uc req).0, answer_created (create fl repo uc req).1) =
          rw (handle_create, good) refl in
        let (obj, made, shown) =
          created_ok (create fl repo uc req) after answer (sym opened ∙ e) ok in
        (req, obj, good, made, shown)
  ]

-- ShouldBindJSON reads the condition of a body as encoding/json does.
pub record IsBind {F : Type 0} (codec : Codec F) (bind : Bind F) : Type 0 where
  pub condition :
      (body : Text) (req : CreateRuleStrategyReq F)
      → bind.bind_create body ≡ some req
      → IsDecoded codec req.rule_node

module _ {F S : Type 0} (bind : Bind F) (fl : Float F) (codec : Codec F) (table : Table S)
    (binds : IsBind codec bind) (reads : IsCodec codec) (lawful : IsTable codec table) where
  -- A POST that is answered 200 answers with a rule of the name, the description and the condition
  -- of its body, which is active; a GET of that rule's id, in decimal, then answers 200 with that
  -- same rule, and a GET of any other id of 64 bits answers as it did before. The binding of
  -- bodies, the table and the JSON of a rule keep their documented laws.
  pub handle-post_get :
      (uc after : RuleStrategyUsecase F S) (body : Text) (answer : Response F)
      → handle bind fl (rule_strategy_repo codec table) uc (post_rule body) ≡ (after, answer)
      → answer.status ≡ 200
      → (req : CreateRuleStrategyReq F) × (obj : RuleStrategy F) × (bind.bind_create body
          ≡ some req)
        × (obj ≡ record {
          id = obj.id;
          name = req.name;
          description = req.description;
          rule_node = req.rule_node;
          status = active;
        })
        × (answer ≡ answer_ok (rule obj))
        × (handle bind fl (rule_strategy_repo codec table) after (get_one (digits obj.id))
            ≡ (after, answer))
        × ((other : ℕ)
            → other < 2 ^ 64
            → other ≢ obj.id
            → (handle bind fl (rule_strategy_repo codec table) after (get_one (digits other))).1
              ≡ (handle bind fl (rule_strategy_repo codec table) uc (get_one (digits other))).1)
  unfolding handle
  handle-post_get uc after body answer e ok =
      let repo = rule_strategy_repo codec table in
      let (req, obj, bound, made, shown) =
        handle_create_ok bind fl repo uc after body answer e ok in
      let (shape, bits, here, others) =
        create-get_rule fl codec table reads lawful uc after req obj
          (binds.condition body req bound) made in
      (
        req,
        obj,
        bound,
        shape,
        shown,
        ap (λ r. (after, r))
            (handle_get-digits bind fl repo after obj.id bits ∙ ap answer_found here ∙ sym shown),
        λ other small apart.
            handle_get-digits bind fl repo after other small
            ∙ ap answer_found (others other apart)
            ∙ sym (handle_get-digits bind fl repo uc other small),
      )
