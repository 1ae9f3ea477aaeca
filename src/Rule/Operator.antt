-- ===== src/Rule/Operator.antt =====
-- The operators of a condition: the strings that compareNumbers, compareStrings and evalCondition
-- (rule.go) and buildComparator (compile.go) switch on, and the comparisons of values.
use rule_engine.Prelude.{Bool, false, ◌||◌, ◌==◌, if◌then◌else◌, Option, none, some}
use rule_engine.Text.{Text, text_eq, bytes}
use rule_engine.Float.{Float}
use rule_engine.Rule.Value.{Value, Values, end, item, sprint, array}

pub data Operator : Type 0 where
  is_in not_in greater less at_least at_most equal unequal other : Operator

unfoldable pub read_operator : Text → Operator
read_operator op =
    if op == bytes "IN"
    then is_in
    else if op == bytes "NOT_IN"
    then not_in
    else if op == bytes ">"
    then greater
    else if op == bytes "<"
    then less
    else if op == bytes ">="
    then at_least
    else if op == bytes "<="
    then at_most
    else if op == bytes "=" || op == bytes "=="
    then equal
    else if op == bytes "!="
    then unequal
    else other

module _ {F : Type 0} ⦃fl : Float F⦄ where
  -- the loop of evalIn and cmpIn
  unfoldable pub occurs : Text → Values F → Bool
  unfolding sprint
  occurs s end = false
  occurs s (item v vs) = s == sprint fl v || occurs s vs

  -- `list.([]any)`
  abbrev pub as_array : Value F → Option (Values F)
  as_array (array vs) = some vs
  as_array _ = none
