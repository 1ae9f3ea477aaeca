-- ===== src/Api/Refused.antt =====
-- The error answers of controller/rule.go.
use rule_engine.Prelude.{ℕ, ◌≡◌, Option, none, some, refl, Option-cases, ◌⊎◌, inl, inr, arith}
use rule_engine.Text.{Text, text_eq}
use rule_engine.Text.Number.{parse_uint}
use rule_engine.Float.{Float}
use rule_engine.Rule.Strategy.{
  RuleStrategy, CreateRuleStrategyReq, UpdateRuleStrategyReq, Updates, Repo, Reply, done, failed,
  RuleStrategyUsecase, create, get_rule, update, update_fields, update_store, set_status,
}
use rule_engine.Rule.Repository.{Table, Codec, rule_strategy_repo}
use rule_engine.Rule.Repository.Rows.{get_row-read_row, read_row}
use rule_engine.Api.Controller.{
  Bind, Response, Request, post_rule, get_one, get_all, put_rule, patch_status, answer_change,
  answer_created, handle_create, handle_get, handle_list, handle_update, handle_set_status, handle,
}

abbrev IsFailed : {A : Type 0} → Reply A → Type 0
IsFailed (done x) = ⊥
IsFailed (failed e) = Unit

module _ {F S : Type 0} (bind : Bind F) (fl : Float F) (repo : Repo F S) where
  create_failed :
      (uc : RuleStrategyUsecase F S) (req : CreateRuleStrategyReq F)
      → IsFailed (create fl repo uc req).1
      → (create fl repo uc req).0 ≡ uc
  unfolding create
  create_failed uc req = ground arith

  update_store_failed :
      (uc : RuleStrategyUsecase F S) (id : ℕ) (u : Updates)
      → IsFailed (update_store fl repo uc id u).1
      → (update_store fl repo uc id u).0 ≡ uc
  unfolding update_store
  update_store_failed uc id u = ground arith

  set_status_failed :
      (uc : RuleStrategyUsecase F S) (id : ℕ) (status : _)
      → IsFailed (set_status fl repo uc id status).1
      → (set_status fl repo uc id status).0 ≡ uc
  unfolding set_status
  set_status_failed uc id status = update_store_failed uc id _

  update_fields_failed :
      (uc : RuleStrategyUsecase F S) (id : ℕ) (name description json : Option Text)
      → IsFailed (update_fields fl repo uc id name description json).1
      → (update_fields fl repo uc id name description json).0 ≡ uc
  unfolding update_fields
  update_fields_failed uc id none none none h = refl
  update_fields_failed uc id (some n) d r h = update_store_failed uc id _ h
  update_fields_failed uc id none (some d) r h = update_store_failed uc id _ h
  update_fields_failed uc id none none (some r) h = update_store_failed uc id _ h

  update_failed :
      (uc : RuleStrategyUsecase F S) (id : ℕ) (req : UpdateRuleStrategyReq F)
      → IsFailed (update fl repo uc id req).1
      → (update fl repo uc id req).0 ≡ uc
  unfolding update
  update_failed uc id req = grind (arith, update_fields_failed uc id req.name req.description)

  -- What is answered is a success, or a failure that changed nothing.
  abbrev Settled : RuleStrategyUsecase F S → RuleStrategyUsecase F S × Response F → Type 0
  Settled uc reply =
      (reply.1.status ≡ 200) ⊎ ((reply.0 ≡ uc) × ((reply.1.status ≡ 400) ⊎ (reply.1.status ≡ 500)))

  created-Settled :
      (uc : RuleStrategyUsecase F S) (p : RuleStrategyUsecase F S × Reply (RuleStrategy F))
      → (IsFailed p.1 → p.0 ≡ uc)
      → Settled uc (p.0, answer_created p.1)
  created-Settled uc (after, done obj) h = inl refl
  created-Settled uc (after, failed e) h = inr (h tt, inr refl)

  changed-Settled :
      (uc : RuleStrategyUsecase F S) (p : RuleStrategyUsecase F S × Reply (Unit {0}))
      → (IsFailed p.1 → p.0 ≡ uc)
      → Settled uc (p.0, answer_change p.1)
  changed-Settled uc (after, done x) h = inl refl
  changed-Settled uc (after, failed e) h = inr (h tt, inr refl)

  handle_create-Settled :
      (uc : RuleStrategyUsecase F S) (body : Text) → Settled uc (handle_create bind fl repo uc body)
  unfolding handle_create
  handle_create-Settled uc body = elim (Option-cases (bind.bind_create body)) [
    | inl e ↦ rw (handle_create, e) (inr (refl, inl refl))
    | inr (req, e) ↦ rw (handle_create, e) (created-Settled uc _ (create_failed uc req))
  ]

  handle_update-Settled :
      (uc : RuleStrategyUsecase F S) (id body : Text)
      → Settled uc (handle_update bind fl repo uc id body)
  unfolding handle_update
  handle_update-Settled uc id body = elim (Option-cases (parse_uint id)) [
    | inl e ↦ rw (handle_update, e) (inr (refl, inl refl))
    | inr (n, e) ↦ elim (Option-cases (bind.bind_update body)) [
      | inl e' ↦ rw (handle_update, e, e') (inr (refl, inl refl))
      | inr (req, e') ↦ rw (handle_update, e, e') (changed-Settled uc _ (update_failed uc n req))
    ]
  ]

  handle_set_status-Settled :
      (uc : RuleStrategyUsecase F S) (id body : Text)
      → Settled uc (handle_set_status bind fl repo uc id body)
  unfolding handle_set_status
  handle_set_status-Settled uc id body = elim (Option-cases (parse_uint id)) [
    | inl e ↦ rw (handle_set_status, e) (inr (refl, inl refl))
    | inr (n, e) ↦ elim (Option-cases (bind.bind_status body)) [
      | inl e' ↦ rw (handle_set_status, e, e') (inr (refl, inl refl))
      | inr (status, e') ↦
          rw (handle_set_status, e, e') (changed-Settled uc _ (set_status_failed uc n status))
    ]
  ]

  handle_list-Settled :
      (uc : RuleStrategyUsecase F S) (status : Text)
      → Settled uc (uc, handle_list bind fl repo uc status)
  unfolding handle_list
  handle_list-Settled uc status = ground arith

module _ {F S : Type 0} (bind : Bind F) (fl : Float F) (codec : Codec F) (table : Table S) where
  handle_get-Settled :
      (uc : RuleStrategyUsecase F S) (id : Text)
      → Settled bind fl
          (rule_strategy_repo codec table)
          uc
          (uc, handle_get bind fl (rule_strategy_repo codec table) uc id)
  unfolding handle_get get_rule rule_strategy_repo
  handle_get-Settled uc id = elim (Option-cases (parse_uint id)) [
    | inl e ↦ rw (handle_get, e) (inr (refl, inl refl))
    | inr (n, e) ↦ elim (Option-cases (read_row codec table uc.store n)) [
      | inl e' ↦
          rw (handle_get, e, get_row-read_row codec table uc.store n, e') (inr (refl, inr refl))
      | inr (obj, e') ↦ rw (handle_get, e, get_row-read_row codec table uc.store n, e') (inl refl)
    ]
  ]

  -- Over the program's repository, a request is answered 200, or it is answered 400 or 500, never
  -- 404, and leaves the store and the cache of the compiled rules as they were. A repository
  -- operation that fails is taken to leave the store alone.
  pub handle-refused :
      (uc : RuleStrategyUsecase F S) (r : Request)
      → ((handle bind fl (rule_strategy_repo codec table) uc r).1.status ≡ 200)
        ⊎ (((handle bind fl (rule_strategy_repo codec table) uc r).0 ≡ uc)
            × (((handle bind fl (rule_strategy_repo codec table) uc r).1.status ≡ 400)
                ⊎ ((handle bind fl (rule_strategy_repo codec table) uc r).1.status ≡ 500)))
  unfolding handle
  handle-refused uc (post_rule body) = handle_create-Settled bind fl _ uc body
  handle-refused uc (get_one id) = handle_get-Settled uc id
  handle-refused uc (get_all status) = handle_list-Settled bind fl _ uc status
  handle-refused uc (put_rule id body) = handle_update-Settled bind fl _ uc id body
  handle-refused uc (patch_status id body) = handle_set_status-Settled bind fl _ uc id body
