-- ===== src/Engine/Core/Watermark.antt =====
-- The watermark of watermark.go through ProcessEvent.
use rule_engine.Prelude.{
  inl, inr, Option-cases, Bool-cases, ◌≤◌, ◌<◌, ◌≡◌, refl, arith, Each, Each-map, length,
}
use rule_engine.Time.{Time}
use rule_engine.Float.{Float}
use rule_engine.Engine.Event.{BehaviorEvent}
use rule_engine.Engine.Member.{MemberState}
use rule_engine.Engine.Deadlines.{Deadline}
use rule_engine.Engine.Shard.{Address}
use rule_engine.Engine.Core.{
  fold_event, Core, is_late, advance_watermark, fire_deadline, drain_negative_matches,
  process_on_time, process_event,
}
use rule_engine.Engine.Core.Cases.{s, a, folded, lost_member, late_event, on_time_event}
use rule_engine.Engine.Core.Fire.{matched_at-fire_deadline}
use rule_engine.Engine.Core.Drain.{popped, fired, drain_induction}

module _ {F : Type 0} where
  pub advance_watermark-le :
      (c : Core F) (t : Time) → c.watermark ≤ (advance_watermark c t).watermark
  unfolding advance_watermark
  advance_watermark-le c t = ground arith

  watermark-fired : (c : Core F) (top : Deadline) → (fired c top).watermark ≡ c.watermark
  unfolding fire_deadline
  watermark-fired c top = ground arith

  -- Every match of the drain is dated before the watermark, and the watermark stays.
  drain-Due :
      (c : Core F) (watermark : Time)
      → ((drain_negative_matches c watermark).0.watermark ≡ c.watermark)
        × Each (λ m. m.matched_at < watermark) (drain_negative_matches c watermark).1
  unfolding drain_negative_matches
  drain-Due c watermark =
      drain_induction watermark (λ d. d.watermark ≡ c.watermark) (λ m. m.matched_at < watermark)
        (λ d top due h. ground (arith, watermark-fired d top))
        (λ d top due h.
          Each-map (λ m. m.matched_at ≡ top.deadline) (λ m. m.matched_at < watermark)
            (fire_deadline (popped d) top).1 (λ m e. ground arith)
            (matched_at-fire_deadline (popped d) top))
        (length c.neg_deadlines) c refl

module _ {F : Type 0} ⦃fl : Float F⦄ where
  pub watermark-on_time :
      (c : Core F) (a : Address) (ms : MemberState F) (event : BehaviorEvent F)
      → (process_on_time c a ms event).core.watermark
        ≡ (advance_watermark c event.occurred_at).watermark
  unfolding process_on_time
  watermark-on_time c a ms event = (drain-Due _ (advance_watermark c event.occurred_at).watermark).0

  -- The watermark never moves back, whatever event comes in.
  pub watermark-le-process_event :
      (c : Core F) (event : BehaviorEvent F) → c.watermark ≤ (process_event c event).core.watermark
  watermark-le-process_event c event = elim (Option-cases ((s c event).members (a c event))) [
    | inl e ↦ rw (lost_member c event e) (omega arith)
    | inr (ms, e) ↦ elim (Bool-cases (is_late c event.occurred_at)) [
      | inl late ↦ rw (late_event c event ms e late) (omega arith)
      | inr early ↦ rw (on_time_event c event ms e early) (
          omega (
            arith,
            watermark-on_time (folded c event ms) (a c event) (fold_event c event ms) event,
            advance_watermark-le (folded c event ms) event.occurred_at,
          ))
    ]
  ]

  -- Every match that drainNegativeMatches emits is dated strictly before the watermark.
  pub expired-Due :
      (c : Core F) (watermark : Time)
      → Each (λ m. m.matched_at < watermark) (drain_negative_matches c watermark).1
  expired-Due c watermark = (drain-Due c watermark).1
