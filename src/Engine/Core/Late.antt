-- ===== src/Engine/Core/Late.antt =====
-- What leaves ProcessEvent of core.go for the late sink, and the replay flag through it.
use rule_engine.Prelude.{
  ◌≡◌, refl, ◌∙◌, ◌⊎◌, Bool, true, false, not, ◌&&◌, [], ◌∷◌, inl, inr, arith, if◌then◌else◌,
  Option-cases, Bool-cases, length, List, Each,
}
use rule_engine.Time.{Time}
use rule_engine.Float.{Float}
use rule_engine.Engine.Event.{BehaviorEvent, MatchResult}
use rule_engine.Engine.Member.{MemberState}
use rule_engine.Engine.Deadlines.{Deadline}
use rule_engine.Engine.Shard.{Address}
use rule_engine.Engine.Core.{
  Core, advance_watermark, is_late, fire_deadline, fold_event, drain_negative_matches,
  process_on_time, process_event,
}
use rule_engine.Engine.Core.Cases.{s, a, folded, lost_member, late_event, on_time_event}
use rule_engine.Engine.Core.Drain.{popped, fired, drain_induction}

module _ {F : Type 0} where
  replaying-advance : (c : Core F) (t : Time) → (advance_watermark c t).replaying ≡ c.replaying
  unfolding advance_watermark
  replaying-advance c t = ground arith

  replaying-fired : (c : Core F) (top : Deadline) → (fired c top).replaying ≡ c.replaying
  unfolding fire_deadline
  replaying-fired c top = ground arith

  trivial : (ms : List (MatchResult F)) → Each {0, 0} (λ m. Unit) ms
  trivial [] = tt
  trivial (m ∷ ms) = (tt, trivial ms)

  replaying-drain :
      (c : Core F) (watermark : Time)
      → (drain_negative_matches c watermark).0.replaying ≡ c.replaying
  unfolding drain_negative_matches
  replaying-drain c watermark =
      (drain_induction watermark (λ d. d.replaying ≡ c.replaying) (λ m. Unit)
        (λ d top due h. replaying-fired d top ∙ h)
        (λ d top due h. trivial (fire_deadline (popped d) top).1) (length c.neg_deadlines) c refl).0

module _ {F : Type 0} ⦃fl : Float F⦄ where
  replaying-on_time :
      (c : Core F) (a : Address) (ms : MemberState F) (event : BehaviorEvent F)
      → (process_on_time c a ms event).core.replaying ≡ c.replaying
  unfolding process_on_time
  replaying-on_time c a ms event =
      replaying-drain _ (advance_watermark c event.occurred_at).watermark
      ∙ replaying-advance c event.occurred_at

  on_time_not_late :
      (c : Core F) (a : Address) (ms : MemberState F) (event : BehaviorEvent F)
      → (process_on_time c a ms event).late_events ≡ []
  unfolding process_on_time
  on_time_not_late c a ms event = refl

  pub replaying-process_event :
      (c : Core F) (event : BehaviorEvent F) → (process_event c event).core.replaying ≡ c.replaying
  replaying-process_event c event = elim (Option-cases ((s c event).members (a c event))) [
    | inl e ↦ rw (lost_member c event e) refl
    | inr (ms, e) ↦ elim (Bool-cases (is_late c event.occurred_at)) [
      | inl late ↦ rw (late_event c event ms e late) refl
      | inr early ↦
          rw (on_time_event c event ms e early)
            (replaying-on_time (folded c event ms) (a c event) (fold_event c event ms) event)
    ]
  ]

  sink_cases :
      (sink replaying : Bool) (event : BehaviorEvent F)
      → ((if sink && not replaying then event ∷ [] else []) ≡ [])
        ⊎ (((if sink && not replaying then event ∷ [] else []) ≡ event ∷ []) × (replaying ≡ false))
  sink_cases sink true event = ground arith
  sink_cases true false event = inr (refl, refl)
  sink_cases false false event = inl refl

  -- An event is given to the late sink once or not at all, and not at all in a replay.
  pub late_events-process_event :
      (c : Core F) (event : BehaviorEvent F)
      → ((process_event c event).late_events ≡ [])
        ⊎ (((process_event c event).late_events ≡ event ∷ []) × (c.replaying ≡ false))
  late_events-process_event c event = elim (Option-cases ((s c event).members (a c event))) [
    | inl e ↦ rw (lost_member c event e) (inl refl)
    | inr (ms, e) ↦ elim (Bool-cases (is_late c event.occurred_at)) [
      | inl late ↦ rw (late_event c event ms e late) (sink_cases c.has_late_sink c.replaying event)
      | inr early ↦
          rw (on_time_event c event ms e early)
            (inl (on_time_not_late (folded c event ms) (a c event) (fold_event c event ms) event))
    ]
  ]
