-- ===== src/Engine/RuleView/OnTime.antt =====
-- The part of ProcessEvent for an event on time, as the rules see it.
use rule_engine.Prelude.{◌≡◌, refl, sym, ap, ◌∙◌, ◌&&◌, not, [], some, arith, ltb, if◌then◌else◌}
use rule_engine.Text.{Text}
use rule_engine.Time.{Time, unix_nano_of_sum, negate}
use rule_engine.Float.{Float}
use rule_engine.Engine.Event.{BehaviorEvent}
use rule_engine.Engine.Member.{MemberState}
use rule_engine.Engine.Eval.{evaluate_rules, build_eval_fields}
use rule_engine.Engine.Shard.{Shard, Address, member, write_member}
use rule_engine.Engine.Shard.Valid.{IsValid}
use rule_engine.Engine.Shard.Install.{write_member-IsValid}
use rule_engine.Engine.Core.{
  Core, cep_event, drain_negative_matches, advance_watermark, process_on_time,
}
use rule_engine.Engine.Cep.Process.{process_cep}
use rule_engine.Engine.Core.Cases.{a}
use rule_engine.Engine.Writes.{shard-advance_watermark}
use rule_engine.Engine.RuleView.{base, base_of, RuleView}
use rule_engine.Engine.RuleView.Members.{base-write_member}
use rule_engine.Engine.RuleView.Drained.{
  setting, SameMembers, LooksLike, drain_negative_matches-LooksLike,
}

-- What the rules see of a valid core is the view.
pub record Shows {F : Type 0} (c : Core F) (b : RuleView F) : Type 0 where
  pub valid : IsValid c.shard
  pub rule_set : c.rule_set ≡ b.rule_set
  pub max_window : c.max_window ≡ b.max_window
  pub allowed_lateness : c.allowed_lateness ≡ b.allowed_lateness
  pub reports_late : (c.has_late_sink && not c.replaying) ≡ b.reports_late
  pub watermark : c.watermark ≡ b.watermark
  pub members : (id : Text) → base_of (member c.shard id) ≡ b.members id

module _ {F : Type 0} where
  pub advance_lem :
      (c : Core F) (t : Time)
      → setting (advance_watermark c t) ≡ (
        c.rule_set,
        c.max_window,
        c.allowed_lateness,
        c.has_late_sink,
        c.replaying,
        if ltb c.watermark (unix_nano_of_sum t (negate c.allowed_lateness))
            then unix_nano_of_sum t (negate c.allowed_lateness)
            else c.watermark,
      )
  unfolding advance_watermark
  advance_lem c t = ground arith

  same-LooksLike :
      (c d : Core F)
      → LooksLike c d
      → (e : Core F) → setting c ≡ setting e
      → SameMembers e.shard c.shard
      → LooksLike e d
  same-LooksLike c d (valid, same, members) e q m = (valid, same ∙ q, λ id. members id ∙ m id)

  rewritten :
      (t u : Shard F) (a : Address) (ms new : MemberState F)
      → u ≡ t
      → IsValid t
      → t.members a ≡ some ms
      → new.version ≡ ms.version
      → base new ≡ base ms
      → IsValid (write_member u a new) × SameMembers t (write_member u a new)
  rewritten t u a ms new e v there version same = rw (e) (
    write_member-IsValid t a ms new v there version,
    λ id. base-write_member t a ms new id there same,
  )

module _ {F : Type 0} ⦃fl : Float F⦄ where
  pub on_time_lem :
      (c : Core F) (a : Address) (ms : MemberState F) (event : BehaviorEvent F)
      → IsValid c.shard
      → c.shard.members a ≡ some ms
      → LooksLike (advance_watermark c event.occurred_at) (process_on_time c a ms event).core
        × ((process_on_time c a ms event).result.matched_rules
            ≡ evaluate_rules ms
                (build_eval_fields event)
                event.occurred_at
                (advance_watermark c event.occurred_at).rule_set)
        × ((process_on_time c a ms event).late_events ≡ [])
  unfolding process_on_time
  on_time_lem c a ms event v there =
      let c1 = advance_watermark c event.occurred_at in
      let run =
        process_cep c1.patterns (cep_event event) c1.watermark ms.progresses c1.neg_deadlines in
      let parked : MemberState F = record ms { progresses = run.progresses } in
      let c2 : Core F = record c1 {
        shard = write_member c1.shard a parked;
        neg_deadlines = run.heap;
      } in
      let (valid, same) =
        rewritten c.shard c1.shard a ms parked (shard-advance_watermark c event.occurred_at) v there
          refl refl in
      (
        same-LooksLike c2 (drain_negative_matches c2 c1.watermark).0
            (drain_negative_matches-LooksLike c2 c1.watermark valid) c1 refl
            (λ id.
              same id
              ∙ ap (λ t. base_of (member t id))
                  (sym (shard-advance_watermark c event.occurred_at))),
        refl,
        refl,
      )
