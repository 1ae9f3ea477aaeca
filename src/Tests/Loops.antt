-- ===== src/Tests/Loops.antt =====
-- The loops of the two brokers on a few records.
use rule_engine.Prelude.{
  ℕ, ◌≡◌, refl, List, [], ◌∷◌, true, false, Option, none, some, ℤ, pos, map, Each, inl,
}
use mathlib.Core.List.{Sublistᴰ}
use rule_engine.Text.{Text, bytes, text_eq}
use rule_engine.Engine.Core.{begin_replay, new_core}
use rule_engine.Engine.Snapshot.{Snapshot}
use rule_engine.Engine.Consumer.Kafka.{
  KafkaConfig, KafkaRecord, Poll, kafka_loop, kafka_poll, kafka_run,
}
use rule_engine.Engine.Consumer.Nats.{message, nats_loop, nats_message}
use rule_engine.Engine.Consumer.Replay.{live_events, all_records}
use rule_engine.Engine.Consumer.Replay.Polls.{kafka_loop-live}
use rule_engine.Engine.Consumer.Mirror.{
  Delivery, as_poll, as_message, as_nats, IsDecodable, nats_loop-kafka_loop,
}
use rule_engine.Engine.Consumer.Snapshotter.{Running}
use rule_engine.Engine.Consumer.Snapshotter.Steps.{Runs}
use rule_engine.Engine.Consumer.Runs.{kafka_poll-Runs, nats_message-Runs}
use rule_engine.Engine.Consumer.Loop.{Effects}
use rule_engine.Engine.Consumer.Replay.Log.{IsLog}
use rule_engine.Engine.Consumer.Replay.Start.{kafka_run-live}
use rule_engine.Engine.Event.{BehaviorEvent}
use rule_engine.Tests.Program.{program}
use rule_engine.Tests.Samples.{no_rules, int_float, alice, at_second, event_of}
use rule_engine.Tests.Consumers.{Files, files, positions, path, unmarshal, visited, visited-Runs}

abbrev config : KafkaConfig
config = record { snapshot_path = path; snapshot_interval = pos 1; has_on_processed = true }

abbrev record_at : ℕ → Text → KafkaRecord
record_at offset value = record { offset = offset; value = value }

abbrev poll_of : List KafkaRecord → Poll
poll_of records = record { worked = 0; records = records; now = at_second 1; now' = at_second 2 }

-- the record at the target of the replay is malformed
abbrev polls : List Poll
polls =
    poll_of (record_at 0 (bytes "e1") ∷ record_at 1 (bytes "bad") ∷ [])
    ∷ poll_of (record_at 2 (bytes "e2") ∷ record_at 3 (bytes "e3") ∷ [])
    ∷ []

abbrev replaying : Running ℤ Files
replaying = record visited { core = begin_replay visited.core }

-- so the first live event is taken for a replayed one
suppressed_run :
    live_events unmarshal (pos 1) true (all_records polls)
    ≡ event_of (bytes "e3") alice (bytes "Visit") 1000 ∷ []
unfolding program
suppressed_run = refl

kafka_loop-live_example :
    (config.has_on_processed ≡ true
      → (kafka_loop unmarshal positions files config (pos 1) replaying true polls).1.on_processed
        ≡ live_events unmarshal (pos 1) true (all_records polls))
    × Sublistᴰ
        (kafka_loop unmarshal positions files config (pos 1) replaying true polls).1.late
        (live_events unmarshal (pos 1) true (all_records polls))
kafka_loop-live_example =
    kafka_loop-live unmarshal positions files config (pos 1) replaying true polls
      (unfold program in refl)

abbrev delivery : ℕ → Text → Delivery
delivery position payload = record {
  worked = 3;
  position = position;
  payload = payload;
  now = at_second 1;
  now' = at_second 2;
}

abbrev deliveries : List Delivery
deliveries = delivery 1 (bytes "e1") ∷ delivery 2 (bytes "e2") ∷ []

deliveries-IsDecodable : Each (IsDecodable unmarshal) deliveries
unfolding program
deliveries-IsDecodable = ((_, refl), ((_, refl), tt))

nats_loop-kafka_loop_example :
    nats_loop unmarshal positions files
      (as_nats config)
      1
      replaying
      true
      (map (λ d. message (as_message d)) deliveries)
    ≡ (
      (kafka_loop unmarshal positions files config
          (pos 1)
          replaying
          true
          (map as_poll deliveries)).0,
      (kafka_loop unmarshal positions files config
          (pos 1)
          replaying
          true
          (map as_poll deliveries)).1,
      none,
    )
nats_loop-kafka_loop_example =
    nats_loop-kafka_loop unmarshal positions files config 1 replaying true deliveries
      deliveries-IsDecodable

kafka_poll-Runs_example :
    (after : Option (Snapshot ℤ)) × Runs int_float positions files
      (kafka_poll unmarshal positions files config
        (pos 1)
        visited
        false
        (poll_of (record_at 5 (bytes "e5") ∷ []))).0
      after
kafka_poll-Runs_example =
    kafka_poll-Runs positions files unmarshal config (pos 1) visited false
      (poll_of (record_at 5 (bytes "e5") ∷ [])) none visited-Runs

nats_message-Runs_example :
    (after : Option (Snapshot ℤ)) × Runs int_float positions files
      (nats_message unmarshal positions files
        (as_nats config)
        1
        visited
        false
        (as_message (delivery 5 (bytes "e5")))).0
      after
nats_message-Runs_example =
    nats_message-Runs positions files unmarshal (as_nats config) 1 visited false
      (as_message (delivery 5 (bytes "e5"))) none visited-Runs

abbrev log : List Poll
log =
    poll_of (record_at 0 (bytes "e1") ∷ record_at 1 (bytes "e2") ∷ [])
    ∷ poll_of (record_at 2 (bytes "e3") ∷ [])
    ∷ []

abbrev logged : Text → BehaviorEvent ℤ
logged id = event_of id alice (bytes "Visit") 1000

abbrev logged_events : List (BehaviorEvent ℤ)
logged_events = logged (bytes "e1") ∷ logged (bytes "e2") ∷ logged (bytes "e3") ∷ []

log-IsLog : IsLog unmarshal 0 (all_records log) logged_events
unfolding program
log-IsLog = (refl, refl, (refl, refl, (refl, refl, tt)))

-- two records are in the log at the start, and no snapshot
kafka_run-live_example :
    (r : Running ℤ Files) × (effects : Effects ℤ) × (kafka_run unmarshal positions files config
        (some 2)
        (at_second 0)
        (new_core (pos 0) no_rules [])
        []
        log
      ≡ (some (r, effects), none))
    × (effects.on_processed ≡ logged (bytes "e3") ∷ [])
    × Sublistᴰ effects.late (logged (bytes "e3") ∷ [])
kafka_run-live_example =
    kafka_run-live unmarshal positions files config 2 (at_second 0) (new_core (pos 0) no_rules [])
      [] log 0 logged_events (unfold program in refl) refl (inl (unfold program in refl, refl))
      log-IsLog
