-- ===== src/Tests/Samples.antt =====
-- Sample data for the tests: integers in place of float64, rules, patterns and events.
use rule_engine.Prelude.{
  ℕ, ◌+◌, ◌*◌, ◌/◌, [], ◌∷◌, none, some, true, false, ℤ, pos, pos_part, neg_part, sub_ℕ, ltb_ℤ,
  int_beq, not,
}
use rule_engine.Text.{Text, bytes}
use rule_engine.Time.{Time, second, unix_epoch_nanos}
use rule_engine.Float.{Float}
use rule_engine.Rule.Value.{str, float64, format_int}
use rule_engine.Rule.Window.{TimeWindow}
use rule_engine.Rule.Node.{RuleNode, node, nil, cons, condition}
use rule_engine.Rule.Keys.{CompiledRuleSet}
use rule_engine.Engine.Event.{BehaviorEvent, CepPattern}

instance abbrev pub int_float : Float ℤ
int_float = record {
  zero = pos 0;
  of_int = λ n. n;
  add = λ a b. sub_ℕ (pos_part a + pos_part b) (neg_part a + neg_part b);
  div = λ a b. pos (pos_part a / pos_part b);
  lt = λ a b. ltb_ℤ a b;
  le = λ a b. not (ltb_ℤ b a);
  eq = λ a b. int_beq a b;
  format = format_int;
  format32 = format_int;
}

abbrev pub alice : Text
alice = bytes "alice"

abbrev pub bob : Text
bob = bytes "bob"

-- amount > 100 and not country = TW
abbrev pub foreign_rule : RuleNode ℤ
foreign_rule =
    node (bytes "AND")
      (cons (condition (bytes "amount") (bytes ">") (float64 (pos 100)) none) (
        cons
          (node (bytes "NOT")
            (cons (condition (bytes "country") (bytes "=") (str (bytes "TW")) none) nil) [] []
            (str []) none)
          nil))
      [] [] (str []) none

-- at `s` seconds after the Unix epoch
abbrev pub at_second : ℕ → Time
at_second s = unix_epoch_nanos + s * second

abbrev pub minutes : ℕ → TimeWindow
minutes n = record { value = pos n; unit = bytes "minutes" }

abbrev pub behavior_is : Text → RuleNode ℤ
behavior_is b = condition (bytes "behavior") (bytes "=") (str b) none

-- a cart that no purchase follows within five minutes
abbrev pub abandoned : CepPattern ℤ
abandoned = record {
  id = bytes "p";
  name = bytes "abandoned";
  states =
      record {
        name = bytes "cart";
        condition = behavior_is (bytes "Cart");
        max_wait = none;
        is_negative = false;
        context_binding = [];
      }
      ∷ record {
        name = bytes "buy";
        condition = behavior_is (bytes "Buy");
        max_wait = some (minutes 5);
        is_negative = true;
        context_binding = [];
      }
      ∷ [];
}

abbrev pub no_rules : CompiledRuleSet ℤ
no_rules = record { strategies = []; max_window = pos 0 }

abbrev pub event_of : Text → Text → Text → ℕ → BehaviorEvent ℤ
event_of event_id member_id behavior s = record {
  event_id = event_id;
  member_id = member_id;
  behavior = behavior;
  fields = [];
  occurred_at = at_second s;
}
