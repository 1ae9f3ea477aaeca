-- ===== src/Rule/Strategy/Persistence.antt =====
-- The use case of strategy.go over the repository: what Get and List read after a change.
use rule_engine.Prelude.{
  ℕ, ◌<◌, ◌^◌, ◌≡◌, ◌≢◌, Option, none, some, refl, sym, ap, Option-cases, inl, inr, arith,
}
use rule_engine.Text.{Text}
use rule_engine.Float.{Float}
use mathlib.Core.Option.{none-ne-some}
use rule_engine.Rule.Node.{RuleNode}
use rule_engine.Rule.Validate.{validate_rule_node}
use rule_engine.Rule.Strategy.{
  RuleStrategy, RuleStrategyStatus, CreateRuleStrategyReq, UpdateRuleStrategyReq, Updates, Repo,
  done, active, or_store_failed, RuleStrategyUsecase, invalidate_cache, get_rule, create,
  update_store, update_fields, update, set_status,
}
use rule_engine.Rule.Repository.{Table, Codec, create_row, get_row, rule_strategy_repo}
use rule_engine.Rule.Repository.Rows.{IsDecoded, IsCodec, IsTable}
use rule_engine.Rule.Repository.Stored.{edited, Written, create_row_lem, updates-get_row}

module _ {F S : Type 0} (fl : Float F) (codec : Codec F) (table : Table S) (reads : IsCodec codec)
    (lawful : IsTable codec table) where
  abbrev repo : Repo F S
  repo = rule_strategy_repo codec table

  abbrev Keeps : RuleStrategyUsecase F S → RuleStrategyUsecase F S → ℕ → Type 0
  Keeps uc after id =
      (other : ℕ) → other ≢ id → get_rule fl repo after other ≡ get_rule fl repo uc other

  update_store-get_rule :
      (uc after : RuleStrategyUsecase F S) (id : ℕ) (u : Updates) (n : Option (RuleNode F))
      (obj : RuleStrategy F)
      → Written codec u.rule_node n
      → update_store fl repo uc id u ≡ (after, done tt)
      → get_rule fl repo uc id ≡ done (some obj)
      → (get_rule fl repo after id ≡ done (some (edited u.name u.description n u.status obj)))
        × Keeps uc after id
  unfolding update_store invalidate_cache get_rule rule_strategy_repo
  update_store-get_rule uc after id u n obj written e there =
      elim (Option-cases (table.updates uc.store id u)) [
        | inl bad ↦ ground (arith, bad, e)
        | inr (store, good) ↦
            let same : after ≡ record uc { store = store; cached = none } =
              ground (arith, good, e) in
            let read : get_row codec table uc.store id ≡ some (some obj) = ground (arith, there) in
            let (here, others) =
              updates-get_row codec table reads lawful uc.store store id u n obj written good
                read in
            rw (same)
              (ap or_store_failed here, λ other apart. ap or_store_failed (others other apart))
      ]

  update_fields-get_rule :
      (uc after : RuleStrategyUsecase F S) (id : ℕ) (name description json : Option Text)
      (n : Option (RuleNode F)) (obj : RuleStrategy F)
      → Written codec json n
      → update_fields fl repo uc id name description json ≡ (after, done tt)
      → get_rule fl repo uc id ≡ done (some obj)
      → (get_rule fl repo after id ≡ done (some (edited name description n none obj)))
        × Keeps uc after id
  unfolding update_fields
  update_fields-get_rule uc after id none none none n obj (inr (json, n', e, _, _, _)) h there =
      absurd (none-ne-some _ e)
  update_fields-get_rule uc after id none none none n obj (inl (e, e')) h there =
      rw (e', sym (ap (λ p. p.0) h)) (there, λ other apart. refl)
  update_fields-get_rule uc after id (some x) d r n obj written e there =
      update_store-get_rule uc after id _ n obj written e there
  update_fields-get_rule uc after id none (some d) r n obj written e there =
      update_store-get_rule uc after id _ n obj written e there
  update_fields-get_rule uc after id none none (some r) n obj written e there =
      update_store-get_rule uc after id _ n obj written e there

  -- If Update succeeds on a rule that Get reads, with a condition that was read from JSON if it has
  -- one, Get then reads that rule with the fields of the request and its other fields as they were,
  -- and what it reads of every other rule is unchanged.
  -- The table and the JSON of a rule keep their documented laws.
  pub update-get_rule :
      (uc after : RuleStrategyUsecase F S) (id : ℕ) (req : UpdateRuleStrategyReq F)
      (obj : RuleStrategy F)
      → ((n : RuleNode F) → req.rule_node ≡ some n → IsDecoded codec n)
      → update fl repo uc id req ≡ (after, done tt)
      → get_rule fl repo uc id ≡ done (some obj)
      → (get_rule fl repo after id
          ≡ done (some (edited req.name req.description req.rule_node none obj)))
        × ((other : ℕ) → other ≢ id → get_rule fl repo after other ≡ get_rule fl repo uc other)
  unfolding update rule_strategy_repo
  update-get_rule uc after id req obj was_read e there = elim (Option-cases req.rule_node) [
    | inl kept ↦ rw (kept) (
        update_fields-get_rule uc after id req.name req.description none none obj (inl (refl, refl))
          (ground (arith, kept, e)) there)
    | inr (n, set) ↦ elim (Option-cases (validate_rule_node n)) [
      | inr (x, bad) ↦ ground (arith, set, bad, e)
      | inl ok ↦ elim (Option-cases (codec.marshal n)) [
        | inl bad ↦ ground (arith, set, ok, bad, e)
        | inr (json, good) ↦ rw (set) (
            update_fields-get_rule uc after id req.name req.description (some json) (some n) obj
              (inr (json, n, refl, refl, was_read n set, good)) (ground (arith, set, ok, good, e))
              there)
      ]
    ]
  ]

  pub set_status-get_rule :
      (uc after : RuleStrategyUsecase F S) (id : ℕ) (status : RuleStrategyStatus)
      (obj : RuleStrategy F)
      → set_status fl repo uc id status ≡ (after, done tt)
      → get_rule fl repo uc id ≡ done (some obj)
      → (get_rule fl repo after id ≡ done (some (record obj { status = status })))
        × Keeps uc after id
  unfolding set_status
  set_status-get_rule uc after id status obj =
      update_store-get_rule uc after id _ none obj (inl (refl, refl))

  -- the rule that Create makes of a request
  abbrev pub Made : CreateRuleStrategyReq F → RuleStrategy F → Type 0
  Made req obj = obj ≡ record {
    id = obj.id;
    name = req.name;
    description = req.description;
    rule_node = req.rule_node;
    status = active;
  }

  pub create-get_rule :
      (uc after : RuleStrategyUsecase F S) (req : CreateRuleStrategyReq F) (obj : RuleStrategy F)
      → IsDecoded codec req.rule_node
      → create fl repo uc req ≡ (after, done obj)
      → Made req obj
        × (obj.id < 2 ^ 64)
        × (get_rule fl repo after obj.id ≡ done (some obj))
        × Keeps uc after obj.id
  unfolding create invalidate_cache get_rule rule_strategy_repo
  create-get_rule uc after req obj was_read e =
      elim (Option-cases (validate_rule_node req.rule_node)) [
        | inr (x, bad) ↦ ground (arith, bad, e)
        | inl ok ↦
            let fresh : RuleStrategy F = record {
              id = 0;
              name = req.name;
              description = req.description;
              rule_node = req.rule_node;
              status = active;
            } in
            elim (Option-cases (create_row codec table uc.store fresh)) [
              | inl bad ↦ ground (arith, ok, bad, e)
              | inr ((store, made), good) ↦
                  let (same, whole) : (after ≡ record uc { store = store; cached = none })
                      × (obj ≡ made) =
                    ground (arith, ok, good, e) in
                  let (shape, bits, here, others) =
                    create_row_lem codec table reads lawful uc.store store fresh made was_read
                      good in
                  rw (same, whole)
                    (
                      shape,
                      bits,
                      ap or_store_failed here,
                      λ other apart. ap or_store_failed (others other apart),
                    )
            ]
      ]
