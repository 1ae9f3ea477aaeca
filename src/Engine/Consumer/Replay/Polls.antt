-- ===== src/Engine/Consumer/Replay/Polls.antt =====
-- The main loop of consumer_kafka.go: the side effects of all its rounds.
use rule_engine.Prelude.{
  ℕ, zero, suc, ◌≡◌, refl, sym, ap, ◌∙◌, Bool, true, List, [], ◌∷◌, ◌++◌, Option, arith, inl, inr,
  ℤ, Bool-cases,
}
use mathlib.Core.List.{Sublistᴰ}
use mathlib.Core.List.Sublistᴰ.{slnil}
use rule_engine.Text.{Text, text_eq}
use rule_engine.Time.{Time}
use rule_engine.Float.{Float}
use rule_engine.Engine.Event.{BehaviorEvent}
use rule_engine.Engine.Snapshot.{Codec, begin_snapshot, end_snapshot}
use rule_engine.Engine.Consumer.{Disk}
use rule_engine.Engine.Consumer.Loop.{Loop, Effects}
use rule_engine.Engine.Consumer.Snapshotter.{
  Job, idle, reading, writing, finished, Running, is_off, finish, start, start_if_due, tick_on,
  tick, step_job, work, work_on,
}
use rule_engine.Engine.Consumer.Kafka.{KafkaConfig, Poll, kafka_records, kafka_poll, kafka_loop}
use rule_engine.Engine.Consumer.Replay.{
  replaying_after, live_events, live_events-append, all_records,
}
use rule_engine.Engine.Consumer.Replay.Records.{Sublist-append, Handled, kafka_records-Handled}

module _ {F S : Type 0} where
  replaying-start_if_due :
      (now now' : Time) (r : Running F S)
      → (start_if_due now now' r).core.replaying ≡ r.core.replaying
  unfolding start_if_due start begin_snapshot
  replaying-start_if_due now now' r = ground arith

  replaying-tick_on :
      (now now' : Time) (job : Job F) (r : Running F S)
      → (tick_on now now' job r).core.replaying ≡ r.core.replaying
  unfolding tick_on
  replaying-tick_on now now' idle r = replaying-start_if_due now now' r
  replaying-tick_on now now' (reading f kg acc) r = refl
  replaying-tick_on now now' (writing payload) r = refl
  replaying-tick_on now now' (finished ok) r =
      replaying-start_if_due now now' (finish r) ∙ unfold finish end_snapshot in refl

  replaying-tick :
      (now now' : Time) (r : Running F S) → (tick now now' r).core.replaying ≡ r.core.replaying
  unfolding tick
  replaying-tick now now' r = elim (Bool-cases (is_off r.snapshots)) [
    | inl off ↦ rw off refl
    | inr on ↦ rw on (replaying-tick_on now now' r.snapshots.job r)
  ]

  module _ (gob : Codec F) (disk : Disk S) where
    core-step_job : (job : Job F) (r : Running F S) → (step_job gob disk job r).core ≡ r.core
    unfolding step_job
    core-step_job idle r = refl
    core-step_job (finished ok) r = refl
    core-step_job (writing payload) r = refl
    core-step_job (reading f kg acc) r = ground arith

    -- the goroutine does not write to the shard
    pub core-work_on : (n : ℕ) (r : Running F S) → (work_on n gob disk r).core ≡ r.core
    unfolding work_on work
    core-work_on zero r = refl
    core-work_on (suc n) r =
        core-work_on n (step_job gob disk r.snapshots.job r) ∙ core-step_job r.snapshots.job r

module _ {F S : Type 0} ⦃fl : Float F⦄ (unmarshal : Text → Option (BehaviorEvent F)) (gob : Codec F)
    (disk : Disk S) (cfg : KafkaConfig) (target : ℤ) where
  -- the loop state that the records of a poll start from
  abbrev before : Running F S → Bool → Poll → Loop F
  before r replaying poll = record {
    core = (work_on poll.worked gob disk r).core;
    replaying = replaying;
  }

  abbrev records_of : Running F S → Bool → Poll → Loop F × Effects F
  records_of r replaying poll =
      kafka_records unmarshal cfg.has_on_processed target (before r replaying poll) poll.records

  poll_effects :
      (r : Running F S) (replaying : Bool) (poll : Poll)
      → ((kafka_poll unmarshal gob disk cfg target r replaying poll).1
          ≡ (records_of r replaying poll).0.replaying)
        × ((kafka_poll unmarshal gob disk cfg target r replaying poll).2
            ≡ (records_of r replaying poll).1)
        × ((kafka_poll unmarshal gob disk cfg target r replaying poll).0.core.replaying
            ≡ (records_of r replaying poll).0.core.replaying)
  unfolding kafka_poll
  poll_effects r replaying poll = (refl, refl, replaying-tick poll.now poll.now' _)

  poll-Handled :
      (r : Running F S) (replaying : Bool) (poll : Poll)
      → r.core.replaying ≡ replaying
      → Handled cfg.has_on_processed
          (live_events unmarshal target replaying poll.records)
          (replaying_after unmarshal target replaying poll.records)
          (records_of r replaying poll)
  poll-Handled r replaying poll h =
      kafka_records-Handled unmarshal cfg.has_on_processed target (before r replaying poll)
        poll.records (ap (λ c. c.replaying) (core-work_on gob disk poll.worked r) ∙ h)

  -- Where the shard's replay flag agrees with the consumer's, the events for which OnProcessed runs
  -- in the whole loop are exactly the live ones in order: those of the decodable records after the
  -- first decodable record at or past the target, or of all decodable records if no replay runs.
  -- The events that go to the late sink are among the live ones, in order.
  pub kafka_loop-live :
      (r : Running F S) (replaying : Bool) (polls : List Poll)
      → r.core.replaying ≡ replaying
      → (cfg.has_on_processed ≡ true
          → (kafka_loop unmarshal gob disk cfg target r replaying polls).1.on_processed
            ≡ live_events unmarshal target replaying (all_records polls))
        × Sublistᴰ
            (kafka_loop unmarshal gob disk cfg target r replaying polls).1.late
            (live_events unmarshal target replaying (all_records polls))
  unfolding kafka_loop
  kafka_loop-live r replaying [] h = ((λ hook. refl), slnil)
  kafka_loop-live r replaying (poll ∷ polls) h =
      let handled = poll-Handled r replaying poll h in
      let (flag, effects, in_step) = poll_effects r replaying poll in
      let next = kafka_poll unmarshal gob disk cfg target r replaying poll in
      let agrees = in_step ∙ handled.in_step ∙ sym flag in
      let (hooks, lates) = kafka_loop-live next.0 next.1 polls agrees in
      let live =
        live_events-append unmarshal target replaying poll.records (all_records polls)
        ∙ ap
            (λ b.
              live_events unmarshal target replaying poll.records
              ++ live_events unmarshal target b (all_records polls))
            (sym (flag ∙ handled.replaying)) in
      rw live (
        (λ hook. rw (effects, handled.on_processed hook, hooks hook) refl),
        rw effects (Sublist-append handled.late lates),
      )
