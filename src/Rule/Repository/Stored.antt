-- ===== src/Rule/Repository/Stored.antt =====
-- What is read of the table after a rule is created or updated.
use rule_engine.Prelude.{
  ℕ, ◌<◌, ◌^◌, ◌≡◌, ◌≢◌, Option, none, some, refl, sym, ap, ◌∙◌, Option-cases, inl, inr, arith, ◌⊎◌,
}
use rule_engine.Text.{Text}
use rule_engine.Rule.Node.{RuleNode}
use rule_engine.Rule.Strategy.{RuleStrategy, RuleStrategyStatus, Updates}
use rule_engine.Rule.Repository.{
  RuleRow, Table, Codec, marshal_rule_node, unmarshal_rule_node, get_row, create_row,
}
use rule_engine.Rule.Repository.Rows.{
  IsDecoded, IsCodec, IsTable, overwrite, or_old, read_row, found, get_row-read_row,
}

module _ {F : Type 0} (codec : Codec F) where
  pub marshal_rule_node-cases :
      IsCodec codec
      → (obj : RuleStrategy F) → IsDecoded codec obj.rule_node
      → (marshal_rule_node codec obj ≡ none)
        ⊎ ((row : RuleRow) × (marshal_rule_node codec obj ≡ some row)
            × ((id : ℕ)
                → unmarshal_rule_node codec (record row { id = id })
                  ≡ some (record obj { id = id })))
  unfolding marshal_rule_node unmarshal_rule_node
  marshal_rule_node-cases lawful obj was_read = elim (Option-cases (codec.marshal obj.rule_node)) [
    | inl e ↦ rw (e) (inl refl)
    | inr (json, e) ↦
        rw (e) (inr (_, refl, λ id. rw (lawful.reads_back obj.rule_node json was_read e) refl))
  ]

-- a rule with the fields of an update
abbrev pub edited :
    {F : Type 0}
    → Option Text
    → Option Text
    → Option (RuleNode F)
    → Option RuleStrategyStatus
    → RuleStrategy F
    → RuleStrategy F
edited name description rule_node status obj = record obj {
  name = or_old obj.name name;
  description = or_old obj.description description;
  rule_node = or_old obj.rule_node rule_node;
  status = or_old obj.status status;
}

-- The column of JSON that an update sets is that of a rule read from JSON.
abbrev pub Written : {F : Type 0} → Codec F → Option Text → Option (RuleNode F) → Type 0
Written {F} codec column rule_node =
    ((column ≡ none) × (rule_node ≡ none))
    ⊎ ((json : Text) × (n : RuleNode F) × (column ≡ some json)
        × (rule_node ≡ some n)
        × IsDecoded codec n
        × (codec.marshal n ≡ some json))

module _ {F : Type 0} (codec : Codec F) where
  unmarshalled :
      (row : RuleRow) (obj : RuleStrategy F)
      → unmarshal_rule_node codec row ≡ some obj
      → (codec.unmarshal row.rule_node ≡ some obj.rule_node)
        × (obj ≡ record {
          id = row.id;
          name = row.name;
          description = row.description;
          rule_node = obj.rule_node;
          status = row.status;
        })
  unfolding unmarshal_rule_node
  unmarshalled row obj e = elim (Option-cases (codec.unmarshal row.rule_node)) [
    | inl bad ↦ ground (arith, bad, e)
    | inr (n, good) ↦
        let whole : obj ≡ record {
          id = row.id;
          name = row.name;
          description = row.description;
          rule_node = n;
          status = row.status;
        } =
          ground (arith, good, e) in
        rw (whole) (good, refl)
  ]

  unmarshal_rule_node-overwrite :
      IsCodec codec
      → (u : Updates) (rule_node : Option (RuleNode F)) (row : RuleRow) (obj : RuleStrategy F)
      → Written codec u.rule_node rule_node
      → unmarshal_rule_node codec row ≡ some obj
      → unmarshal_rule_node codec (overwrite u row)
        ≡ some (edited u.name u.description rule_node u.status obj)
  unfolding unmarshal_rule_node
  unmarshal_rule_node-overwrite reads u n row obj (inl (kept, kept')) e =
      let (good, whole) = unmarshalled row obj e in rw (kept, kept', good, whole) refl
  unmarshal_rule_node-overwrite reads u n row obj (inr (json, n', set, set', was_read, made)) e =
      let (good, whole) = unmarshalled row obj e in
      rw (set, set', reads.reads_back n' json was_read made, whole) refl

  read_found :
      {S : Type 0} (table : Table S) (store : S) (id : ℕ) (obj : RuleStrategy F)
      → found (read_row codec table store id) ≡ some (some obj)
      → (row : RuleRow) × (table.first store id ≡ some row)
        × (unmarshal_rule_node codec row ≡ some obj)
  read_found table store id obj e = elim (Option-cases (table.first store id)) [
    | inl bad ↦ ground (arith, bad, e)
    | inr (row, good) ↦ elim (Option-cases (unmarshal_rule_node codec row)) [
      | inl bad ↦ ground (arith, good, bad, e)
      | inr (obj', read) ↦ (row, good, ground (arith, good, read, e))
    ]
  ]

module _ {F S : Type 0} (codec : Codec F) (table : Table S) (reads : IsCodec codec)
    (lawful : IsTable codec table) where
  -- A created rule is read back under the key that the table gave it.
  pub create_row_lem :
      (store after : S) (obj made : RuleStrategy F)
      → IsDecoded codec obj.rule_node
      → create_row codec table store obj ≡ some (after, made)
      → (made ≡ record obj { id = made.id })
        × (made.id < 2 ^ 64)
        × (get_row codec table after made.id ≡ some (some made))
        × ((other : ℕ)
            → other ≢ made.id
            → get_row codec table after other ≡ get_row codec table store other)
  unfolding create_row
  create_row_lem store after obj made was_read e =
      elim (marshal_rule_node-cases codec reads obj was_read) [
        | inl bad ↦ ground (arith, bad, e)
        | inr (row, good, back) ↦ elim (Option-cases (table.insert store row)) [
          | inl refused ↦ ground (arith, good, refused, e)
          | inr ((after', id), put) ↦
              let (same_store, same_rule) : (after ≡ after') × (made ≡ record obj { id = id }) =
                ground (arith, good, put, e) in
              rw (same_store, same_rule)
                (
                  refl,
                  lawful.key_bits store after' row id put,
                  get_row-read_row codec table after' id
                      ∙ ap found (lawful.inserted store after' row id put ∙ back id),
                  λ other apart.
                      get_row-read_row codec table after' other
                      ∙ ap found (lawful.insert_others store after' row id other put apart)
                      ∙ sym (get_row-read_row codec table store other),
                )
        ]
      ]

  -- A rule that is there is read back with the fields of the update, and no other rule changes.
  pub updates-get_row :
      (store after : S) (id : ℕ) (u : Updates) (rule_node : Option (RuleNode F))
      (obj : RuleStrategy F)
      → Written codec u.rule_node rule_node
      → table.updates store id u ≡ some after
      → get_row codec table store id ≡ some (some obj)
      → (get_row codec table after id
          ≡ some (some (edited u.name u.description rule_node u.status obj)))
        × ((other : ℕ)
            → other ≢ id
            → get_row codec table after other ≡ get_row codec table store other)
  updates-get_row store after id u n obj written e there =
      let (row, first, read) =
        read_found codec table store id obj (sym (get_row-read_row codec table store id) ∙ there) in
      (
        get_row-read_row codec table after id
            ∙ ap found (
                lawful.updated store after row id u e first
                ∙ unmarshal_rule_node-overwrite codec reads u n row obj written read),
        λ other apart.
            get_row-read_row codec table after other
            ∙ ap found (lawful.update_others store after id other u e apart)
            ∙ sym (get_row-read_row codec table store other),
      )
