-- ===== src/Rule/Outcome.antt =====
-- What evaluating a rule returns: Go's pair of a bool and an error.
use rule_engine.Prelude.{ℕ, ◌≡◌, Bool, true, false, Option, none, some}
use rule_engine.Text.{Text}

pub data Error : Type 0 where
  unknown_type : Text → Error
  not_arity : ℕ → Error
  in_needs_list : Error
  unsupported_operator : Text → Error
  needs_numbers : Error
  not_for_strings : Text → Error
  condition_field : Text → Error → Error
  condition_value : Error → Error
  -- an error of the context, by its text
  context_error : Text → Error

abbrev pub Outcome : Type 0
Outcome = Bool × Option Error

abbrev pub is_error : Option Error → Bool
is_error none = false
is_error (some e) = true

-- Both fail, or both return the same answer; the texts of the errors may differ.
abbrev pub Agree : Outcome → Outcome → Type 0
Agree a b = (is_error a.1 ≡ is_error b.1) × (a.0 ≡ b.0)

-- `ok, err := r; if err != nil { return false, err }; return next(ok), nil`
abbrev pub and_then : Outcome → (Bool → Outcome) → Outcome
and_then (b, none) next = next b
and_then (b, some e) next = (false, some e)
