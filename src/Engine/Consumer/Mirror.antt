-- ===== src/Engine/Consumer/Mirror.antt =====
-- consumer_kafka.go against consumer_nats.go: Run of one "mirrors" Run of the other "step for step so
-- the two backends produce identical state for the same event stream".
use rule_engine.Prelude.{
  ℕ, ◌≡◌, refl, sym, ap, ◌∙◌, Bool, true, List, [], ◌∷◌, Option, none, some, map, arith,
  if◌then◌else◌, pos, Each,
}
use mathlib.Core.List.{append-nil}
use rule_engine.Text.{Text}
use rule_engine.Time.{Time}
use rule_engine.Float.{Float}
use rule_engine.Engine.Event.{BehaviorEvent}
use rule_engine.Engine.Snapshot.{Codec}
use rule_engine.Engine.Consumer.{Disk, decoded, decode_event}
use rule_engine.Engine.Consumer.Loop.{
  Loop, Effects, no_effects, then_effects, note_position, handle_event,
}
use rule_engine.Engine.Consumer.Snapshotter.{Running, tick, work_on}
use rule_engine.Engine.Consumer.Kafka.{
  KafkaConfig, Poll, kafka_record, kafka_records, kafka_poll, kafka_loop,
}
use rule_engine.Engine.Consumer.Nats.{
  NatsConfig, Message, message, NatsError, ack, note_metadata, nats_message, nats_loop,
}

-- an event of the stream as both brokers deliver it
pub record Delivery : Type 0 where
  pub worked : ℕ
  pub position : ℕ
  pub payload : Text
  pub now : Time
  pub now' : Time

-- alone in its poll
abbrev pub as_poll : Delivery → Poll
as_poll d = record {
  worked = d.worked;
  records = record { offset = d.position; value = d.payload } ∷ [];
  now = d.now;
  now' = d.now';
}

-- acknowledged, with its metadata
abbrev pub as_message : Delivery → Message
as_message d = record {
  worked = d.worked;
  payload = d.payload;
  acked = true;
  sequence = some d.position;
  now = d.now;
  now' = d.now';
}

abbrev pub as_nats : KafkaConfig → NatsConfig
as_nats cfg = record {
  snapshot_path = cfg.snapshot_path;
  snapshot_interval = cfg.snapshot_interval;
  has_on_processed = cfg.has_on_processed;
}

abbrev pub IsDecodable : {F : Type 0} → (Text → Option (BehaviorEvent F)) → Delivery → Type 0
IsDecodable {F} unmarshal d =
    (event : BehaviorEvent F) × (decode_event unmarshal d.payload ≡ decoded event)

module _ {F S : Type 0} ⦃fl : Float F⦄ (unmarshal : Text → Option (BehaviorEvent F)) (gob : Codec F)
    (disk : Disk S) (cfg : KafkaConfig) (target : ℕ) where
  no_more_effects : (e : Effects F) → then_effects e no_effects ≡ e
  no_more_effects e =
      ap
        (λ (lists : List (BehaviorEvent F) × List (BehaviorEvent F)). record {
          late = lists.0;
          on_processed = lists.1;
        })
        (λ i. (append-nil e.late i, append-nil e.on_processed i))

  module _ (r : Running F S) (replaying : Bool) (d : Delivery) (event : BehaviorEvent F)
      (decodable : decode_event unmarshal d.payload ≡ decoded event) where
    abbrev r' : Running F S
    r' = work_on d.worked gob disk r

    abbrev out : Loop F × Effects F
    out = handle_event cfg.has_on_processed (record { core = r'.core; replaying = replaying }) event

    abbrev noted : Loop F
    noted = note_position (pos target) d.position out.0

    first :
        kafka_record unmarshal cfg.has_on_processed
          (pos target)
          (record { core = r'.core; replaying = replaying })
          (record { offset = d.position; value = d.payload })
        ≡ (noted, out.1)
    unfolding kafka_record
    first = ground arith

    abbrev next : Running F S
    next = tick d.now d.now' (record r' { core = noted.core })

    one_record :
        kafka_records unmarshal cfg.has_on_processed
          (pos target)
          (record { core = r'.core; replaying = replaying })
          (as_poll d).records
        ≡ (noted, then_effects out.1 no_effects)
    unfolding kafka_records
    one_record = rw first refl

    by_kafka :
        kafka_poll unmarshal gob disk cfg (pos target) r replaying (as_poll d)
        ≡ (next, noted.replaying, out.1)
    unfolding kafka_poll
    by_kafka =
        ap
          (λ (p : Loop F × Effects F).
            (tick d.now d.now' (record r' { core = p.0.core }), p.0.replaying, p.1))
          (one_record ∙ ap (λ (e : Effects F). (noted, e)) (no_more_effects out.1))

    by_nats :
        nats_message unmarshal gob disk (as_nats cfg) target r replaying (as_message d)
        ≡ (next, noted.replaying, out.1, true)
    unfolding nats_message note_metadata
    by_nats = ground arith

  -- The two consumers do the same with a stream that both deliver alike: one record in each poll,
  -- each message acknowledged and with its metadata, every payload decodable, and the same position
  -- as the target of the replay. The shard, the snapshots, the file system and the effects are equal.
  pub nats_loop-kafka_loop :
      (r : Running F S) (replaying : Bool) (ds : List Delivery)
      → Each (IsDecodable unmarshal) ds
      → nats_loop unmarshal gob disk
          (as_nats cfg)
          target
          r
          replaying
          (map (λ d. message (as_message d)) ds)
        ≡ (
          (kafka_loop unmarshal gob disk cfg (pos target) r replaying (map as_poll ds)).0,
          (kafka_loop unmarshal gob disk cfg (pos target) r replaying (map as_poll ds)).1,
          none,
        )
  unfolding nats_loop kafka_loop
  nats_loop-kafka_loop r replaying [] h = refl
  nats_loop-kafka_loop r replaying (d ∷ ds) ((event, decodable), rest) =
      ap after_message (by_nats r replaying d event decodable)
      ∙ ap
          (λ (p : Running F S × Effects F × Option NatsError).
            (p.0, then_effects (out r replaying d event decodable).1 p.1, p.2))
          (nats_loop-kafka_loop (next r replaying d event decodable)
            (noted r replaying d event decodable).replaying ds rest)
      ∙ sym (ap after_poll (by_kafka r replaying d event decodable))
    where
      after_message :
          Running F S × Bool × Effects F × Bool → Running F S × Effects F × Option NatsError
      after_message p =
          let q =
            nats_loop unmarshal gob disk (as_nats cfg) target p.0 p.1
              (map (λ d. message (as_message d)) ds) in
          if p.3 then (q.0, then_effects p.2 q.1, q.2) else (p.0, p.2, some ack)

      after_poll : Running F S × Bool × Effects F → Running F S × Effects F × Option NatsError
      after_poll p =
          let q = kafka_loop unmarshal gob disk cfg (pos target) p.0 p.1 (map as_poll ds) in
          (q.0, then_effects p.2 q.1, none)
