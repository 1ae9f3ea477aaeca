-- ===== src/Tests/Rows.antt =====
-- A table that is a list of rows, and JSON of conditions on an amount, with their laws.
use rule_engine.Prelude.{
  ℕ, suc, ◌<◌, ◌^◌, ◌≡◌, ◌≢◌, refl, ap, ◌∙◌, List, [], ◌∷◌, Option, none, some, ℤ, pos, length,
  nat_beq, ltb, arith, if◌then◌else◌, Option-cases, inl, inr, ◌&&◌, ◌==◌,
}
use mathlib.Core.Option.{none-ne-some}
use rule_engine.Text.{Text, text_eq, text_beq_iff, bytes}
use rule_engine.Rule.Value.{Value, float64}
use rule_engine.Rule.Node.{RuleNode, node, nil, cons, condition}
use rule_engine.Rule.Strategy.{Updates}
use rule_engine.Rule.Repository.{RuleRow, Table, Codec, or_failed, unmarshal_rule_node}
use rule_engine.Rule.Repository.Rows.{IsDecoded, IsCodec, IsTable, overwrite}
use rule_engine.Tests.Samples.{int_float}

-- an amount above a bound, whose JSON is the bound as one byte
abbrev pub above : ℕ → RuleNode ℤ
above n = condition (bytes "amount") (bytes ">") (float64 (pos n)) none

abbrev pub value_bound : Value ℤ → Option ℕ
value_bound (float64 (pos n)) = some n
value_bound _ = none

abbrev pub marshal_above : RuleNode ℤ → Option Text
marshal_above (node type nil field operator value none) =
    if type == bytes "CONDITION" && field == bytes "amount" && operator == bytes ">"
    then or_failed (value_bound value) (λ n. some (n ∷ []))
    else none
marshal_above _ = none

abbrev pub unmarshal_above : Text → Option (RuleNode ℤ)
unmarshal_above [] = none
unmarshal_above (n ∷ _) = some (above n)

abbrev pub bound_codec : Codec ℤ
bound_codec = record { marshal = marshal_above; unmarshal = unmarshal_above }

value_bound_lem : (v : Value ℤ) (n : ℕ) → value_bound v ≡ some n → v ≡ float64 (pos n)
value_bound_lem v n e = ground arith

marshal_above_lem :
    (type field operator : Text) (value : Value ℤ) (json : Text)
    → marshal_above (node type nil field operator value none) ≡ some json
    → (n : ℕ) × (value_bound value ≡ some n)
      × (json ≡ n ∷ [])
      × (type ≡ bytes "CONDITION")
      × (field ≡ bytes "amount")
      × (operator ≡ bytes ">")
marshal_above_lem type field operator value json e = elim (Option-cases (value_bound value)) [
  | inl bad ↦ ground (arith, e, ap {B = Option Text} (λ b. or_failed b (λ n. some (n ∷ []))) bad)
  | inr (n, good) ↦
      let made = ap {B = Option Text} (λ b. or_failed b (λ n. some (n ∷ []))) good in
      (
        n,
        good,
        ground (arith, made, e),
        (text_beq_iff type _).0 (ground (arith, e)),
        (text_beq_iff field _).0 (ground (arith, e)),
        (text_beq_iff operator _).0 (ground (arith, e)),
      )
]

pub bound_codec-IsCodec : IsCodec bound_codec
bound_codec-IsCodec = record { reads_back = reads_back }
  where
    reads_back :
        (n : RuleNode ℤ) (json : Text)
        → IsDecoded bound_codec n
        → marshal_above n ≡ some json
        → unmarshal_above json ≡ some n
    reads_back (node type (cons c cs) field operator value window) json d e =
        absurd (none-ne-some _ e)
    reads_back (node type nil field operator value (some w)) json d e = absurd (none-ne-some _ e)
    reads_back (node type nil field operator value none) json d e =
        let (n, found, made, t, f, o) = marshal_above_lem type field operator value json e in
        rw (made, t, f, o, value_bound_lem value n found) refl

abbrev pub rows_first : List RuleRow → ℕ → Option RuleRow
rows_first [] id = none
rows_first (row ∷ rows) id = if nat_beq row.id id then some row else rows_first rows id

abbrev pub rows_update : List RuleRow → ℕ → Updates → List RuleRow
rows_update [] id u = []
rows_update (row ∷ rows) id u =
    let rest = rows_update rows id u in
    if nat_beq row.id id then overwrite u row ∷ rest else row ∷ rest

abbrev pub row_table : Table (List RuleRow)
row_table = record {
  first = rows_first;
  find = λ rows status. some rows;
  insert = λ rows row.
      let id = suc (length rows) in
      if ltb id (2 ^ 64) then some (record row { id = id } ∷ rows, id) else none;
  updates = λ rows id u. some (rows_update rows id u);
}

first-update :
    (rows : List RuleRow) (id : ℕ) (u : Updates)
    → rows_first (rows_update rows id u) id
      ≡ or_failed (rows_first rows id) (λ row. some (overwrite u row))
first-update [] id u = refl
first-update (row ∷ rows) id u = ground (arith, first-update rows id u)

first-update_others :
    (rows : List RuleRow) (id other : ℕ) (u : Updates)
    → other ≢ id
    → rows_first (rows_update rows id u) other ≡ rows_first rows other
first-update_others [] id other u apart = refl
first-update_others (row ∷ rows) id other u apart =
    ground (arith, first-update_others rows id other u apart)

insert_cases :
    (rows after : List RuleRow) (row : RuleRow) (id : ℕ)
    → row_table.insert rows row ≡ some (after, id)
    → (id < 2 ^ 64) × (after ≡ record row { id = id } ∷ rows)
insert_cases rows after row id e = ground arith

pub row_table-IsTable : IsTable bound_codec row_table
row_table-IsTable = record {
  key_bits = λ rows after row id e. (insert_cases rows after row id e).0;
  inserted = λ rows after row id e. rw ((insert_cases rows after row id e).1) (
      ap (λ r. or_failed r (unmarshal_rule_node bound_codec))
        (first_here (record row { id = id }) rows));
  insert_others = λ rows after row id other e apart. rw ((insert_cases rows after row id e).1) (
      ap (λ r. or_failed r (unmarshal_rule_node bound_codec))
        (first_there (record row { id = id }) rows other apart));
  updated = λ rows after row id u e there. rw (updated_rows rows after id u e) (
      ap (λ r. or_failed r (unmarshal_rule_node bound_codec))
        (first-update rows id u ∙ ap (λ r. or_failed r (λ row. some (overwrite u row))) there));
  update_others = λ rows after id other u e apart. rw (updated_rows rows after id u e) (
      ap (λ r. or_failed r (unmarshal_rule_node bound_codec))
        (first-update_others rows id other u apart));
}
  where
    first_here : (row : RuleRow) (rows : List RuleRow) → rows_first (row ∷ rows) row.id ≡ some row
    first_here row rows = ground arith

    first_there :
        (row : RuleRow) (rows : List RuleRow) (other : ℕ)
        → other ≢ row.id
        → rows_first (row ∷ rows) other ≡ rows_first rows other
    first_there row rows other apart = ground arith

    updated_rows :
        (rows after : List RuleRow) (id : ℕ) (u : Updates)
        → row_table.updates rows id u ≡ some after
        → after ≡ rows_update rows id u
    updated_rows rows after id u e = ground arith
