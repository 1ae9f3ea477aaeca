-- ===== src/Engine/Consumer/Loop.antt =====
-- The state of a consumer's loop and what one decoded event does to it, as consumer_kafka.go and
-- consumer_nats.go of service/engine/core have it in common.
use rule_engine.Prelude.{
  ℕ, Bool, false, not, ◌&&◌, List, [], ◌∷◌, ◌++◌, if◌then◌else◌, ℤ, pos, ltb_ℤ,
}
use rule_engine.Float.{Float}
use rule_engine.Engine.Event.{BehaviorEvent}
use rule_engine.Engine.Core.{Core, process_event, end_replay}

-- the shard, and the local variable `replaying`
pub record Loop (F : Type 0) : Type 0 where
  pub core : Core F
  pub replaying : Bool

-- What leaves the process: events given to the late sink, and events for which OnProcessed ran.
pub record Effects (F : Type 0) : Type 0 where
  pub late : List (BehaviorEvent F)
  pub on_processed : List (BehaviorEvent F)

module _ {F : Type 0} where
  abbrev pub no_effects : Effects F
  no_effects = record { late = []; on_processed = [] }

  abbrev pub then_effects : Effects F → Effects F → Effects F
  then_effects e e' = record {
    late = e.late ++ e'.late;
    on_processed = e.on_processed ++ e'.on_processed;
  }

  -- `lastSeq.Store(seq)`, and the end of the replay at or past the target
  unfoldable pub note_position : ℤ → ℕ → Loop F → Loop F
  unfolding end_replay
  note_position target seq l =
      let c = record l.core { last_seq = seq } in
      if l.replaying && not (ltb_ℤ (pos seq) target)
      then record { core = end_replay c; replaying = false }
      else record { core = c; replaying = l.replaying }

module _ {F : Type 0} ⦃fl : Float F⦄ where
  -- ProcessEvent and OnProcessed; the flag says whether the hook is set
  unfoldable pub handle_event : Bool → Loop F → BehaviorEvent F → Loop F × Effects F
  unfolding process_event
  handle_event has_hook l event =
      let p = process_event l.core event in
      (
        record l { core = p.core },
        record {
          late = p.late_events;
          on_processed = if has_hook && not l.replaying then event ∷ [] else [];
        },
      )
