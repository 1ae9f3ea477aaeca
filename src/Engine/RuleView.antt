-- ===== src/Engine/RuleView.antt =====
-- An abstract specification of ProcessEvent (service/engine/core/core.go) for the rules and the late
-- sink: a map from member ids to aggregates, without key groups, pointers, versions and patterns.
pub mod Members
pub mod Drained
pub mod OnTime
pub mod Refines
pub mod Restart
use rule_engine.Prelude.{Bool, ◌&&◌, not, List, [], ◌∷◌, Option, some, none, ltb, if◌then◌else◌}
use rule_engine.Text.{Text, text_beq}
use rule_engine.Time.{Time, Duration, unix_nano, unix_nano_of_sum, negate, later_of}
use rule_engine.Float.{Float}
use rule_engine.Rule.Keys.{CompiledRuleSet}
use rule_engine.Engine.Event.{BehaviorEvent}
use rule_engine.Engine.Member.{MemberState}
use rule_engine.Engine.Aggregation.{update_aggregations, numeric_fields_of}
use rule_engine.Engine.Eval.{MatchedRule, evaluate_rules, build_eval_fields}
use rule_engine.Engine.Shard.{member}
use rule_engine.Engine.Shard.CopyOnWrite.{or_new}
use rule_engine.Engine.Core.{Core, process_event}

-- a member state as the rules see it
abbrev pub base : {F : Type 0} → MemberState F → MemberState F
base ms = record ms { progresses = []; version = 0 }

abbrev pub base_of : {F : Type 0} → Option (MemberState F) → Option (MemberState F)
base_of none = none
base_of (some ms) = some (base ms)

pub record RuleView (F : Type 0) : Type 0 where
  pub rule_set : CompiledRuleSet F
  pub max_window : Duration
  pub allowed_lateness : Duration
  pub reports_late : Bool
  pub watermark : Time
  pub members : Text → Option (MemberState F)

-- the rules that matched, and what the late sink was given
abbrev pub Answer : Type 0 → Type 0
Answer F = List MatchedRule × List (BehaviorEvent F)

abbrev pub set_member {ℓ} : {A : Type ℓ} → (Text → Option A) → Text → A → Text → Option A
set_member members id ms j = if text_beq id j then some ms else members j

-- what the rules see of a core
unfoldable pub view_of : {F : Type 0} → Core F → RuleView F
view_of c = record {
  rule_set = c.rule_set;
  max_window = c.max_window;
  allowed_lateness = c.allowed_lateness;
  reports_late = c.has_late_sink && not c.replaying;
  watermark = c.watermark;
  members = λ id. base_of (member c.shard id);
}

module _ {F : Type 0} ⦃fl : Float F⦄ where
  unfoldable pub counted : Duration → BehaviorEvent F → MemberState F → MemberState F
  unfolding update_aggregations numeric_fields_of later_of
  counted max_window event ms =
      let ms' =
        update_aggregations ms event.behavior event.event_id event.occurred_at
          (numeric_fields_of event.fields) max_window in
      record ms' { last_seen_at = later_of ms'.last_seen_at event.occurred_at }

  unfoldable pub see : RuleView F → BehaviorEvent F → RuleView F × Answer F
  see b event =
      let ms = counted b.max_window event (or_new event.member_id (b.members event.member_id)) in
      let members = set_member b.members event.member_id ms in
      let candidate = unix_nano_of_sum event.occurred_at (negate b.allowed_lateness) in
      if ltb (unix_nano event.occurred_at) b.watermark
      then (record b { members = members }, ([], if b.reports_late then event ∷ [] else []))
      else (
        record b {
          members = members;
          watermark = if ltb b.watermark candidate then candidate else b.watermark;
        },
        (evaluate_rules ms (build_eval_fields event) event.occurred_at b.rule_set, []),
      )

  unfoldable pub see_all : RuleView F → List (BehaviorEvent F) → List (Answer F)
  unfolding see
  see_all b [] = []
  see_all b (event ∷ events) = let (b', seen) = see b event in seen ∷ see_all b' events

  -- the same of a core
  unfoldable pub process_all : Core F → List (BehaviorEvent F) → List (Answer F)
  unfolding process_event
  process_all c [] = []
  process_all c (event ∷ events) =
      let p = process_event c event in
      (p.result.matched_rules, p.late_events) ∷ process_all p.core events
