-- ===== src/Rule/Repository/Rows.antt =====
-- What the repository relies on of gorm's table and of package encoding/json.
use rule_engine.Prelude.{ℕ, ◌<◌, ◌^◌, ◌≡◌, ◌≢◌, Option, none, some, refl, Option-cases, inl, inr}
use rule_engine.Text.{Text}
use rule_engine.Rule.Node.{RuleNode}
use rule_engine.Rule.Strategy.{RuleStrategy, Updates}
use rule_engine.Rule.Repository.{RuleRow, Table, Codec, or_failed, unmarshal_rule_node, get_row}

abbrev pub or_old {ℓ} : {A : Type ℓ} → A → Option A → A
or_old x none = x
or_old x (some y) = y

-- the columns that an update sets, over a row
abbrev pub overwrite : Updates → RuleRow → RuleRow
overwrite u row = record row {
  name = or_old row.name u.name;
  description = or_old row.description u.description;
  rule_node = or_old row.rule_node u.rule_node;
  status = or_old row.status u.status;
}

-- the row of a key with its JSON read
abbrev pub read_row : {F S : Type 0} → Codec F → Table S → S → ℕ → Option (RuleStrategy F)
read_row codec table store id = or_failed (table.first store id) (unmarshal_rule_node codec)

-- A rule that some JSON is read as: its numbers are float64 and its strings are UTF-8.
abbrev pub IsDecoded : {F : Type 0} → Codec F → RuleNode F → Type 0
IsDecoded codec n = (text : Text) × (codec.unmarshal text ≡ some n)

-- A rule that was read from JSON and is written again is read back as it was. Of other rules this
-- is not so: an int or a float32 is read back as a float64.
pub record IsCodec {F : Type 0} (codec : Codec F) : Type 0 where
  pub reads_back :
      (n : RuleNode F) (json : Text)
      → IsDecoded codec n
      → codec.marshal n ≡ some json
      → codec.unmarshal json ≡ some n

-- A row is kept under its key, which is one of 64 bits, and only an insert or an update of that key
-- changes it. Its JSON keeps its value and not its text, since the column is of type jsonb.
pub record IsTable {F S : Type 0} (codec : Codec F) (table : Table S) : Type 0 where
  pub key_bits :
      (store after : S) (row : RuleRow) (id : ℕ)
      → table.insert store row ≡ some (after, id)
      → id < 2 ^ 64
  pub inserted :
      (store after : S) (row : RuleRow) (id : ℕ)
      → table.insert store row ≡ some (after, id)
      → read_row codec table after id ≡ unmarshal_rule_node codec (record row { id = id })
  pub insert_others :
      (store after : S) (row : RuleRow) (id other : ℕ)
      → table.insert store row ≡ some (after, id)
      → other ≢ id
      → read_row codec table after other ≡ read_row codec table store other
  pub updated :
      (store after : S) (row : RuleRow) (id : ℕ) (u : Updates)
      → table.updates store id u ≡ some after
      → table.first store id ≡ some row
      → read_row codec table after id ≡ unmarshal_rule_node codec (overwrite u row)
  pub update_others :
      (store after : S) (id other : ℕ) (u : Updates)
      → table.updates store id u ≡ some after
      → other ≢ id
      → read_row codec table after other ≡ read_row codec table store other

-- an answer of Get
abbrev pub found {ℓ} : {A : Type ℓ} → Option A → Option (Option A)
found none = none
found (some x) = some (some x)

pub get_row-read_row :
    {F S : Type 0} (codec : Codec F) (table : Table S) (store : S) (id : ℕ)
    → get_row codec table store id ≡ found (read_row codec table store id)
unfolding get_row
get_row-read_row codec table store id = elim (Option-cases (table.first store id)) [
  | inl e ↦ rw (e) refl
  | inr (row, e) ↦ elim (Option-cases (unmarshal_rule_node codec row)) [
    | inl e' ↦ rw (e, e') refl
    | inr (obj, e') ↦ rw (e, e') refl
  ]
]
