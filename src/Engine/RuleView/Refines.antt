-- ===== src/Engine/RuleView/Refines.antt =====
-- ProcessEvent refines the specification of RuleView.
use rule_engine.Prelude.{
  ◌≡◌, refl, sym, ap, ◌∙◌, ◌&&◌, not, Bool, true, false, List, [], ◌∷◌, Option, some, inl, inr,
  arith, ltb, if◌then◌else◌, Bool-cases,
}
use rule_engine.Text.{Text, text_beq}
use rule_engine.Time.{unix_nano, unix_nano_of_sum, negate}
use rule_engine.Float.{Float}
use rule_engine.Engine.Event.{BehaviorEvent}
use rule_engine.Engine.Member.{MemberState}
use rule_engine.Engine.Eval.{MatchedRule, evaluate_rules, build_eval_fields}
use rule_engine.Engine.Shard.{member, write_member}
use rule_engine.Engine.Shard.Valid.{IsValid}
use rule_engine.Engine.Shard.Install.{write_member-IsValid}
use rule_engine.Engine.Shard.CopyOnWrite.{or_new}
use rule_engine.Engine.Shard.Frozen.{Edit, edit_lem}
use rule_engine.Engine.Shard.Live.{w, member-edit_member}
use rule_engine.Engine.Core.{
  Core, is_late, advance_watermark, fold_event, process_on_time, process_event,
}
use rule_engine.Engine.Core.Cases.{s, a, folded, late_event, on_time_event}
use rule_engine.Engine.Writes.{shard-advance_watermark, version-fold_event}
use rule_engine.Engine.Reachable.{Reachable, Reachable-IsValid}
use rule_engine.Engine.RuleView.{
  base, base_of, RuleView, view_of, set_member, counted, see, see_all, process_all,
}
use rule_engine.Engine.RuleView.Members.{
  base-counted, evaluate_rules-base, base-or_new, base-unversioned,
}
use rule_engine.Engine.RuleView.Drained.{LooksLike}
use rule_engine.Engine.RuleView.OnTime.{Shows, advance_lem, on_time_lem}

module _ {F : Type 0} ⦃fl : Float F⦄ where
  fold_event-counted :
      (c : Core F) (event : BehaviorEvent F) (ms : MemberState F)
      → fold_event c event ms ≡ counted c.max_window event ms
  unfolding fold_event counted
  fold_event-counted c event ms = refl

  -- the fold of the event as an edit
  abbrev folding : Core F → BehaviorEvent F → Edit F
  folding c event = record { run = fold_event c event; version = version-fold_event c event }

  module _ (c : Core F) (b : RuleView F) (event : BehaviorEvent F) (h : Shows c b) where
    abbrev content : MemberState F
    content = (w c.shard event.member_id (folding c event) h.valid).content

    abbrev ms : MemberState F
    ms = fold_event c event content

    abbrev seen : MemberState F
    seen = counted b.max_window event (or_new event.member_id (b.members event.member_id))

    base-content : base content ≡ or_new event.member_id (b.members event.member_id)
    base-content =
        base-unversioned content (or_new event.member_id (member c.shard event.member_id))
          (w c.shard event.member_id (folding c event) h.valid).same_content
        ∙ base-or_new event.member_id (member c.shard event.member_id)
        ∙ ap (or_new event.member_id) (h.members event.member_id)

    base-ms : base ms ≡ seen
    base-ms =
        ap base (fold_event-counted c event content)
        ∙ base-counted c.max_window event content
        ∙ ap (counted c.max_window event) base-content
        ∙ ap (λ d. counted d event (or_new event.member_id (b.members event.member_id)))
            h.max_window

    folded-members :
        (id : Text)
        → base_of (member (folded c event content).shard id)
          ≡ set_member b.members event.member_id seen id
    folded-members id =
        ap (λ t. base_of (member t id))
          (sym (edit_lem c.shard event.member_id (folding c event) h.valid))
        ∙ ap base_of (member-edit_member c.shard event.member_id (folding c event) h.valid id)
        ∙ elim (Bool-cases (text_beq event.member_id id)) [
          | inl self ↦ rw (self) (ap {B = Option (MemberState F)} some base-ms)
          | inr other ↦ rw (other) (h.members id)
        ]

    valid_fold : IsValid (folded c event content).shard
    valid_fold =
        write_member-IsValid (s c event) (a c event) content ms
          (w c.shard event.member_id (folding c event) h.valid).valid
          (w c.shard event.member_id (folding c event) h.valid).cell
          (version-fold_event c event content)

    late_answer :
        (sink : Bool)
        → sink ≡ b.reports_late
        → is_late c event.occurred_at ≡ true
        → see b event ≡ (
          record b { members = set_member b.members event.member_id seen },
          ([], if sink then event ∷ [] else []),
        )
    unfolding see is_late
    late_answer sink e late =
        rw (see, e, ap (λ t. ltb (unix_nano event.occurred_at) t) (sym h.watermark) ∙ late) refl

    early_answer :
        is_late c event.occurred_at ≡ false
        → see b event ≡ (
          record b {
            members = set_member b.members event.member_id seen;
            watermark =
                if ltb b.watermark (unix_nano_of_sum event.occurred_at (negate b.allowed_lateness))
                then unix_nano_of_sum event.occurred_at (negate b.allowed_lateness)
                else b.watermark;
          },
          (evaluate_rules seen (build_eval_fields event) event.occurred_at b.rule_set, []),
        )
    unfolding see is_late
    early_answer early =
        rw (see, ap (λ t. ltb (unix_nano event.occurred_at) t) (sym h.watermark) ∙ early) refl

    late-Shows :
        Shows
          (folded c event content)
          (record b { members = set_member b.members event.member_id seen })
    late-Shows = record {
      valid = valid_fold;
      rule_set = h.rule_set;
      max_window = h.max_window;
      allowed_lateness = h.allowed_lateness;
      reports_late = h.reports_late;
      watermark = h.watermark;
      members = folded-members;
    }

    abbrev later_view : RuleView F
    later_view = record b {
      members = set_member b.members event.member_id seen;
      watermark =
          if ltb b.watermark (unix_nano_of_sum event.occurred_at (negate b.allowed_lateness))
          then unix_nano_of_sum event.occurred_at (negate b.allowed_lateness)
          else b.watermark;
    }

    early-Shows :
        (d : Core F)
        → LooksLike (advance_watermark (folded c event content) event.occurred_at) d
        → Shows d later_view
    early-Shows d (valid, same, members) =
        let all = same ∙ advance_lem (folded c event content) event.occurred_at in
        record {
          valid = valid;
          rule_set = ap (λ p. p.0) all ∙ h.rule_set;
          max_window = ap (λ p. p.1) all ∙ h.max_window;
          allowed_lateness = ap (λ p. p.2) all ∙ h.allowed_lateness;
          reports_late = ap (λ p. p.3 && not p.4) all ∙ h.reports_late;
          watermark =
              ap (λ p. p.5) all
              ∙ ap
                  (λ x.
                    if ltb x (unix_nano_of_sum event.occurred_at (negate c.allowed_lateness))
                    then unix_nano_of_sum event.occurred_at (negate c.allowed_lateness)
                    else x)
                  h.watermark
              ∙ ap
                  (λ x.
                    if ltb b.watermark (unix_nano_of_sum event.occurred_at (negate x))
                    then unix_nano_of_sum event.occurred_at (negate x)
                    else b.watermark)
                  h.allowed_lateness;
          members = λ id.
              members id
              ∙ ap (λ t. base_of (member t id))
                  (shard-advance_watermark (folded c event content) event.occurred_at)
              ∙ folded-members id;
        }

    rules_early :
        (rules : List MatchedRule)
        → rules
          ≡ evaluate_rules ms
              (build_eval_fields event)
              event.occurred_at
              (advance_watermark (folded c event content) event.occurred_at).rule_set
        → rules ≡ evaluate_rules seen (build_eval_fields event) event.occurred_at b.rule_set
    rules_early rules e =
        e
        ∙ ap (evaluate_rules ms (build_eval_fields event) event.occurred_at)
            (ap (λ p. p.0) (advance_lem (folded c event content) event.occurred_at) ∙ h.rule_set)
        ∙ sym (evaluate_rules-base ms (build_eval_fields event) event.occurred_at b.rule_set)
        ∙ ap (λ m. evaluate_rules m (build_eval_fields event) event.occurred_at b.rule_set) base-ms

    process_event-Shows :
        Shows (process_event c event).core (see b event).0
        × (((process_event c event).result.matched_rules, (process_event c event).late_events)
            ≡ (see b event).1)
    process_event-Shows =
        let cell = (w c.shard event.member_id (folding c event) h.valid).cell in
        elim (Bool-cases (is_late c event.occurred_at)) [
          | inl late ↦
              rw
                (
                  late_event c event content cell late,
                  late_answer (c.has_late_sink && not c.replaying) h.reports_late late,
                )
                (late-Shows, refl)
          | inr early ↦
              let (looks, rules, none_late) =
                on_time_lem (folded c event content) (a c event) ms event valid_fold
                  (unfold write_member in ground arith) in
              rw (on_time_event c event content cell early, early_answer early)
                (
                  early-Shows (process_on_time (folded c event content) (a c event) ms event).core
                      looks,
                  λ i. (
                    rules_early
                        (process_on_time (folded c event content) (a c event) ms
                          event).result.matched_rules
                        rules i,
                    none_late i,
                  ),
                )
        ]

  pub all-Shows :
      (c : Core F) (b : RuleView F) (events : List (BehaviorEvent F))
      → Shows c b
      → process_all c events ≡ see_all b events
  unfolding process_all see_all
  all-Shows c b [] h = refl
  all-Shows c b (event ∷ events) h =
      let (after, answer) = process_event-Shows c b event h in
      ap (λ o. o ∷ process_all (process_event c event).core events) answer
      ∙ ap (λ l. (see b event).1 ∷ l)
          (all-Shows (process_event c event).core (see b event).0 events after)

  -- For the rules and the late sink, every core that the operations lead to answers any events as a
  -- plain map from member ids to aggregates does: the rules that match and the late events are those
  -- of the specification, whatever key groups, copies for snapshots and patterns do meanwhile.
  pub process_all-see_all :
      (c : Core F) (events : List (BehaviorEvent F))
      → Reachable fl c
      → process_all c events ≡ see_all (view_of c) events
  process_all-see_all c events r = all-Shows c (view_of c) events (
      unfold view_of in
      record {
        valid = Reachable-IsValid fl c r;
        rule_set = refl;
        max_window = refl;
        allowed_lateness = refl;
        reports_late = refl;
        watermark = refl;
        members = λ id. refl;
      })
