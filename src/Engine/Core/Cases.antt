-- ===== src/Engine/Core/Cases.antt =====
-- The branches of ProcessEvent, as equations.
use rule_engine.Prelude.{
  ◌≡◌, true, false, List, [], ◌∷◌, none, some, arith, if◌then◌else◌, not, ◌&&◌,
}
use rule_engine.Float.{Float}
use rule_engine.Engine.Event.{BehaviorEvent}
use rule_engine.Engine.Member.{MemberState}
use rule_engine.Engine.Shard.{Shard, Address, member_for_write, write_member}
use rule_engine.Engine.Core.{Core, Processed, is_late, fold_event, process_on_time, process_event}

module _ {F : Type 0} ⦃fl : Float F⦄ (c : Core F) (event : BehaviorEvent F) where
  abbrev pub s : Shard F
  s = (member_for_write c.shard event.member_id).0

  abbrev pub a : Address
  a = (member_for_write c.shard event.member_id).1

  -- the core after the event was folded into the member's state
  abbrev pub folded : MemberState F → Core F
  folded ms = record c { shard = write_member s a (fold_event c event ms) }

  abbrev pub no_result : Core F → List (BehaviorEvent F) → Processed F
  no_result d late = record {
    core = d;
    result = record { matched_rules = []; matched_patterns = [] };
    late_events = late;
  }

  pub lost_member :
      s.members a ≡ none → process_event c event ≡ no_result (record c { shard = s }) []
  unfolding process_event
  lost_member e = ground arith

  pub late_event :
      (ms : MemberState F)
      → s.members a ≡ some ms
      → is_late c event.occurred_at ≡ true
      → process_event c event
        ≡ no_result (folded ms) (if c.has_late_sink && not c.replaying then event ∷ [] else [])
  unfolding process_event
  late_event ms e late = ground arith

  pub on_time_event :
      (ms : MemberState F)
      → s.members a ≡ some ms
      → is_late c event.occurred_at ≡ false
      → process_event c event ≡ process_on_time (folded ms) a (fold_event c event ms) event
  unfolding process_event
  on_time_event ms e late = ground arith
