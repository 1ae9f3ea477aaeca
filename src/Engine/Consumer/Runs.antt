-- ===== src/Engine/Consumer/Runs.antt =====
-- The main loops of consumer_kafka.go and consumer_nats.go as runs of the transition system of the
-- shard and its snapshots.
use rule_engine.Prelude.{
  ℕ, zero, suc, ◌≡◌, Bool, true, false, not, ◌&&◌, List, [], ◌∷◌, Option, none, some, arith, inl,
  inr, ℤ, pos, ltb_ℤ, Bool-cases,
}
use rule_engine.Text.{Text}
use rule_engine.Float.{Float}
use rule_engine.Engine.Event.{BehaviorEvent}
use rule_engine.Engine.Core.{end_replay}
use rule_engine.Engine.Snapshot.{Codec, Snapshot}
use rule_engine.Engine.Consumer.{Disk, DecodeError, decoded, undecodable, decode_event}
use rule_engine.Engine.Consumer.Loop.{Loop, note_position, handle_event}
use rule_engine.Engine.Consumer.Snapshotter.{Running, work, work_on, tick}
use rule_engine.Engine.Consumer.Snapshotter.Steps.{Runs, handled, marked, worked, tick-Runs}
use rule_engine.Engine.Consumer.Kafka.{
  KafkaConfig, KafkaRecord, Poll, kafka_record, kafka_records, kafka_poll,
}
use rule_engine.Engine.Consumer.Nats.{NatsConfig, Message, note_metadata, nats_message}
use rule_engine.Engine.Consumer.Replay.{Decoded-cases}

module _ {F S : Type 0} ⦃fl : Float F⦄ (gob : Codec F) (disk : Disk S) where
  pub work_on-Runs :
      (n : ℕ) (r : Running F S) (frozen : Option (Snapshot F))
      → Runs fl gob disk r frozen
      → Runs fl gob disk (work_on n gob disk r) frozen
  unfolding work_on
  work_on-Runs zero r frozen run = run
  work_on-Runs (suc n) r frozen run = work_on-Runs n (work gob disk r) frozen (worked r frozen run)

  -- a position is noted
  note_position-Runs :
      (target : ℤ) (seq : ℕ) (r : Running F S) (l : Loop F) (frozen : Option (Snapshot F))
      → Runs fl gob disk (record r { core = l.core }) frozen
      → Runs fl gob disk (record r { core = (note_position target seq l).core }) frozen
  unfolding note_position end_replay
  note_position-Runs target seq r l frozen run =
      elim (Bool-cases (l.replaying && not (ltb_ℤ (pos seq) target))) [
        | inl ends ↦ rw ends (marked (record r { core = l.core }) frozen seq false run)
        | inr on ↦ rw on (marked (record r { core = l.core }) frozen seq l.core.replaying run)
      ]

  note_metadata-Runs :
      (target : ℕ) (seq : Option ℕ) (r : Running F S) (l : Loop F) (frozen : Option (Snapshot F))
      → Runs fl gob disk (record r { core = l.core }) frozen
      → Runs fl gob disk (record r { core = (note_metadata target seq l).core }) frozen
  unfolding note_metadata
  note_metadata-Runs target none r l frozen run = run
  note_metadata-Runs target (some seq) r l frozen run =
      note_position-Runs (pos target) seq r l frozen run

  handle_event-Runs :
      (has_hook : Bool) (r : Running F S) (l : Loop F) (event : BehaviorEvent F)
      (frozen : Option (Snapshot F))
      → Runs fl gob disk (record r { core = l.core }) frozen
      → Runs fl gob disk (record r { core = (handle_event has_hook l event).0.core }) frozen
  unfolding handle_event
  handle_event-Runs has_hook r l event frozen run =
      handled (record r { core = l.core }) frozen event run

  module _ (unmarshal : Text → Option (BehaviorEvent F)) where
    module _ (has_hook : Bool) (target : ℤ) where
      dropped :
          (l : Loop F) (p : KafkaRecord) (e : DecodeError)
          → decode_event unmarshal p.value ≡ undecodable e
          → (kafka_record unmarshal has_hook target l p).0 ≡ l
      unfolding kafka_record
      dropped l p e q = ground arith

      taken :
          (l : Loop F) (p : KafkaRecord) (event : BehaviorEvent F)
          → decode_event unmarshal p.value ≡ decoded event
          → (kafka_record unmarshal has_hook target l p).0
            ≡ note_position target p.offset (handle_event has_hook l event).0
      unfolding kafka_record
      taken l p event q = ground arith

      kafka_record-Runs :
          (r : Running F S) (l : Loop F) (p : KafkaRecord) (frozen : Option (Snapshot F))
          → Runs fl gob disk (record r { core = l.core }) frozen
          → Runs fl gob disk
              (record r { core = (kafka_record unmarshal has_hook target l p).0.core })
              frozen
      kafka_record-Runs r l p frozen run = elim (Decoded-cases (decode_event unmarshal p.value)) [
        | inl (e, q) ↦ rw (dropped l p e q) run
        | inr (event, q) ↦ rw (taken l p event q) (
            note_position-Runs target p.offset r (handle_event has_hook l event).0 frozen
              (handle_event-Runs has_hook r l event frozen run))
      ]

      kafka_records-Runs :
          (r : Running F S) (l : Loop F) (records : List KafkaRecord) (frozen : Option (Snapshot F))
          → Runs fl gob disk (record r { core = l.core }) frozen
          → Runs fl gob disk
              (record r { core = (kafka_records unmarshal has_hook target l records).0.core })
              frozen
      unfolding kafka_records
      kafka_records-Runs r l [] frozen run = run
      kafka_records-Runs r l (p ∷ records) frozen run =
          kafka_records-Runs r (kafka_record unmarshal has_hook target l p).0 records frozen
            (kafka_record-Runs r l p frozen run)

    -- A round of the Kafka loop is a run of the system, from wherever a run has come: what holds of
    -- all runs holds of the loop.
    pub kafka_poll-Runs :
        (cfg : KafkaConfig) (target : ℤ) (r : Running F S) (replaying : Bool) (poll : Poll)
        (frozen : Option (Snapshot F))
        → Runs fl gob disk r frozen
        → (after : Option (Snapshot F)) × Runs fl gob disk
            (kafka_poll unmarshal gob disk cfg target r replaying poll).0
            after
    unfolding kafka_poll
    kafka_poll-Runs cfg target r replaying poll frozen run =
        tick-Runs fl gob disk _ frozen poll.now poll.now' (
          kafka_records-Runs cfg.has_on_processed target (work_on poll.worked gob disk r)
            (record { core = (work_on poll.worked gob disk r).core; replaying = replaying })
            poll.records frozen (work_on-Runs poll.worked r frozen run))

    module _ (cfg : NatsConfig) (target : ℕ) (r : Running F S) (replaying : Bool)
        (msg : Message) where
      abbrev r' : Running F S
      r' = work_on msg.worked gob disk r

      abbrev processed : BehaviorEvent F → Loop F
      processed event =
          (handle_event cfg.has_on_processed (record { core = r'.core; replaying = replaying })
            event).0

      terminated :
          (e : DecodeError)
          → decode_event unmarshal msg.payload ≡ undecodable e
          → (nats_message unmarshal gob disk cfg target r replaying msg).0 ≡ r'
      unfolding nats_message
      terminated e q = ground arith

      acknowledged :
          (event : BehaviorEvent F)
          → decode_event unmarshal msg.payload ≡ decoded event
          → msg.acked ≡ true
          → (nats_message unmarshal gob disk cfg target r replaying msg).0
            ≡ tick msg.now msg.now'
                (record r' { core = (note_metadata target msg.sequence (processed event)).core })
      unfolding nats_message
      acknowledged event q ok = ground arith

      unacknowledged :
          (event : BehaviorEvent F)
          → decode_event unmarshal msg.payload ≡ decoded event
          → msg.acked ≡ false
          → (nats_message unmarshal gob disk cfg target r replaying msg).0
            ≡ record r' { core = (processed event).core }
      unfolding nats_message
      unacknowledged event q lost = ground arith

      -- So is a message of the NATS loop, decodable or not, acknowledged or not.
      pub nats_message-Runs :
          (frozen : Option (Snapshot F))
          → Runs fl gob disk r frozen
          → (after : Option (Snapshot F)) × Runs fl gob disk
              (nats_message unmarshal gob disk cfg target r replaying msg).0
              after
      nats_message-Runs frozen run =
          let here = work_on-Runs msg.worked r frozen run in
          elim (Decoded-cases (decode_event unmarshal msg.payload)) [
            | inl (e, q) ↦ rw (terminated e q) (frozen, here)
            | inr (event, q) ↦
                let there =
                  handle_event-Runs cfg.has_on_processed r'
                    (record { core = r'.core; replaying = replaying }) event frozen here in
                elim (Bool-cases msg.acked) [
                  | inl ok ↦ rw (acknowledged event q ok) (
                      tick-Runs fl gob disk _ frozen msg.now msg.now'
                        (note_metadata-Runs target msg.sequence r' (processed event) frozen there))
                  | inr lost ↦ rw (unacknowledged event q lost) (frozen, there)
                ]
          ]
