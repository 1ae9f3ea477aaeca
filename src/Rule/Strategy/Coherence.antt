-- ===== src/Rule/Strategy/Coherence.antt =====
-- The cache of strategy.go, over any sequence of calls that do not overlap.
use rule_engine.Prelude.{
  ◌≡◌, refl, ap, ◌∙◌, sym, List, [], ◌∷◌, Option, none, some, ℕ, arith, inl, inr, Option-cases, ◌⊎◌,
}
use rule_engine.Float.{Float}
use rule_engine.Text.{Text}
use rule_engine.Rule.Keys.{CompiledRuleSet}
use rule_engine.Rule.Strategy.{
  RuleStrategyStatus, CreateRuleStrategyReq, UpdateRuleStrategyReq, Updates, Repo, Reply, done,
  failed, RuleStrategyUsecase, new_rule_strategy_usecase, invalidate_cache, compile_active,
  list_active, compile_and_cache, list_active_compiled, create, update_store, update_fields, update,
  set_status,
}

-- the calls that change the store or the cache
pub data Call (F : Type 0) : Type 0 where
  creates : CreateRuleStrategyReq F → Call F
  updates : ℕ → UpdateRuleStrategyReq F → Call F
  sets_status : ℕ → RuleStrategyStatus → Call F
  reads : Call F

-- What is cached is the compilation of the rules that are active in the store.
abbrev pub IsCoherent : {F S : Type 0} → Float F → Repo F S → RuleStrategyUsecase F S → Type 0
IsCoherent {F} fl repo uc =
    (rs : CompiledRuleSet F)
    → uc.cached ≡ some rs
    → compile_active fl (list_active fl repo uc) ≡ done rs

module _ {F S : Type 0} (fl : Float F) (repo : Repo F S) where
  unfoldable pub call : RuleStrategyUsecase F S → Call F → RuleStrategyUsecase F S
  call uc (creates req) = (create fl repo uc req).0
  call uc (updates id req) = (update fl repo uc id req).0
  call uc (sets_status id status) = (set_status fl repo uc id status).0
  call uc reads = (list_active_compiled fl repo uc).0

  unfoldable pub call_all : RuleStrategyUsecase F S → List (Call F) → RuleStrategyUsecase F S
  unfolding call
  call_all uc [] = uc
  call_all uc (c ∷ calls) = call_all (call uc c) calls

  -- A call that changed the store cleared the cache.
  abbrev Cleared : RuleStrategyUsecase F S → RuleStrategyUsecase F S → Type 0
  Cleared uc after = (after ≡ uc) ⊎ (after.cached ≡ none)

  Cleared-IsCoherent :
      (uc after : RuleStrategyUsecase F S)
      → Cleared uc after
      → IsCoherent fl repo uc
      → IsCoherent fl repo after
  Cleared-IsCoherent uc after (inl e) h = rw e h
  Cleared-IsCoherent uc after (inr e) h = λ rs found. cc (e, found)

  update_store-Cleared :
      (uc : RuleStrategyUsecase F S) (id : ℕ) (u : Updates)
      → Cleared uc (update_store fl repo uc id u).0
  unfolding update_store invalidate_cache
  update_store-Cleared uc id u = ground arith

  create-Cleared :
      (uc : RuleStrategyUsecase F S) (req : CreateRuleStrategyReq F)
      → Cleared uc (create fl repo uc req).0
  unfolding create invalidate_cache
  create-Cleared uc req = ground arith

  update_fields-Cleared :
      (uc : RuleStrategyUsecase F S) (id : ℕ) (name description rule_node : Option Text)
      → Cleared uc (update_fields fl repo uc id name description rule_node).0
  unfolding update_fields
  update_fields-Cleared uc id none none none = inl refl
  update_fields-Cleared uc id (some n) d r = update_store-Cleared uc id _
  update_fields-Cleared uc id none (some d) r = update_store-Cleared uc id _
  update_fields-Cleared uc id none none (some r) = update_store-Cleared uc id _

  update-Cleared :
      (uc : RuleStrategyUsecase F S) (id : ℕ) (req : UpdateRuleStrategyReq F)
      → Cleared uc (update fl repo uc id req).0
  unfolding update
  update-Cleared uc id req = grind (arith, update_fields-Cleared uc id req.name req.description)

  read_cached :
      (uc : RuleStrategyUsecase F S) (rs : CompiledRuleSet F)
      → uc.cached ≡ some rs
      → list_active_compiled fl repo uc ≡ (uc, done rs)
  unfolding list_active_compiled
  read_cached uc rs e = ground arith

  read_fresh :
      (uc : RuleStrategyUsecase F S)
      → uc.cached ≡ none
      → list_active_compiled fl repo uc ≡ compile_and_cache fl repo uc
  unfolding list_active_compiled
  read_fresh uc e = ground arith

  fresh_lem :
      (uc : RuleStrategyUsecase F S) (answer : Reply (CompiledRuleSet F))
      → compile_active fl (list_active fl repo uc) ≡ answer
      → ((compile_and_cache fl repo uc).1 ≡ answer)
        × ((compile_and_cache fl repo uc).0.store ≡ uc.store)
        × ((rs : CompiledRuleSet F)
            → (compile_and_cache fl repo uc).0.cached ≡ some rs
            → (uc.cached ≡ some rs) ⊎ (answer ≡ done rs))
  unfolding compile_and_cache
  fresh_lem uc (failed x) e = rw (compile_and_cache, e) (refl, refl, λ rs found. inl found)
  fresh_lem uc (done x) e = rw (compile_and_cache, e) (refl, refl, λ rs found. inr (cc found))

  same_store :
      (uc after : RuleStrategyUsecase F S)
      → after.store ≡ uc.store
      → list_active fl repo after ≡ list_active fl repo uc
  unfolding list_active
  same_store uc after e = rw e refl

  reads-IsCoherent :
      (uc : RuleStrategyUsecase F S)
      → IsCoherent fl repo uc
      → IsCoherent fl repo (list_active_compiled fl repo uc).0
  reads-IsCoherent uc h = elim (Option-cases uc.cached) [
    | inr (rs, e) ↦ rw (read_cached uc rs e) h
    | inl e ↦
        let (reply, store, cached) =
          fresh_lem uc (compile_active fl (list_active fl repo uc)) refl in
        rw (read_fresh uc e) (λ rs found.
          ap (compile_active fl) (same_store uc (compile_and_cache fl repo uc).0 store)
          ∙ elim (cached rs found) [ inl old ↦ h rs old | inr new ↦ new ])
  ]

  call-IsCoherent :
      (uc : RuleStrategyUsecase F S) (c : Call F)
      → IsCoherent fl repo uc
      → IsCoherent fl repo (call uc c)
  unfolding call set_status
  call-IsCoherent uc (creates req) h = Cleared-IsCoherent uc _ (create-Cleared uc req) h
  call-IsCoherent uc (updates id req) h = Cleared-IsCoherent uc _ (update-Cleared uc id req) h
  call-IsCoherent uc (sets_status id status) h =
      Cleared-IsCoherent uc _ (update_store-Cleared uc id _) h
  call-IsCoherent uc reads h = reads-IsCoherent uc h

  call_all-IsCoherent :
      (uc : RuleStrategyUsecase F S) (calls : List (Call F))
      → IsCoherent fl repo uc
      → IsCoherent fl repo (call_all uc calls)
  unfolding call_all
  call_all-IsCoherent uc [] h = h
  call_all-IsCoherent uc (c ∷ calls) h =
      call_all-IsCoherent (call uc c) calls (call-IsCoherent uc c h)

  read_coherent :
      (uc : RuleStrategyUsecase F S)
      → IsCoherent fl repo uc
      → (list_active_compiled fl repo uc).1 ≡ compile_active fl (list_active fl repo uc)
  read_coherent uc h = elim (Option-cases uc.cached) [
    | inr (rs, e) ↦ rw (read_cached uc rs e) (sym (h rs e))
    | inl e ↦
        rw (read_fresh uc e) (fresh_lem uc (compile_active fl (list_active fl repo uc)) refl).0
  ]

  -- After any calls that do not overlap, from an empty cache on, ListActiveCompiled returns the
  -- compilation of the rules that are then active in the store, or its error: the cache is never
  -- stale. A repository operation that fails is taken to leave the store alone.
  pub list_active_compiled-call_all :
      (store : S) (calls : List (Call F))
      → (list_active_compiled fl repo (call_all (new_rule_strategy_usecase store) calls)).1
        ≡ compile_active fl (list_active fl repo (call_all (new_rule_strategy_usecase store) calls))
  list_active_compiled-call_all store calls =
      read_coherent (call_all (new_rule_strategy_usecase store) calls) (
        call_all-IsCoherent (new_rule_strategy_usecase store) calls
          (unfold new_rule_strategy_usecase in λ rs found. cc found))
