-- ===== src/Engine/Consumer/Kafka.antt =====
-- service/engine/core/consumer_kafka.go. The broker is the list of polls that the client returns.
use rule_engine.Prelude.{
  ℕ, ◌+◌, Bool, true, false, not, ◌&&◌, List, [], ◌∷◌, Option, none, some, if◌then◌else◌, ℤ, pos,
  ltb_ℤ, sub_ℕ, ◌==◌,
}
use rule_engine.Text.{Text, text_eq}
use rule_engine.Time.{Time, Duration}
use rule_engine.Float.{Float}
use rule_engine.Engine.Event.{BehaviorEvent}
use rule_engine.Engine.Core.{Core, begin_replay}
use rule_engine.Engine.Snapshot.{Codec, RestoreError, Restored, restored, failed, restore}
use rule_engine.Engine.Consumer.{Disk, decoded, undecodable, decode_event}
use rule_engine.Engine.Consumer.Loop.{
  Loop, Effects, no_effects, then_effects, note_position, handle_event,
}
use rule_engine.Engine.Consumer.Snapshotter.{
  Running, new_async_snapshotter, tick, work_on, drain_snapshots,
}

-- KafkaConfig, without what only configures the client
pub record KafkaConfig : Type 0 where
  pub snapshot_path : Text
  pub snapshot_interval : Duration
  pub has_on_processed : Bool

pub record KafkaRecord : Type 0 where
  pub offset : ℕ
  pub value : Text

-- One round of the loop: the steps that the snapshot's goroutine has taken meanwhile, the records
-- of the poll, and the two readings of the clock in tick.
pub record Poll : Type 0 where
  pub worked : ℕ
  pub records : List KafkaRecord
  pub now : Time
  pub now' : Time

pub data StartError : Type 0 where
  restore_failed : RestoreError → StartError
  end_offsets_failed : StartError

pub data Start (F : Type 0) : Type 0 where
  start_at : ℕ → ℤ → Loop F → Start F
  no_start : StartError → Start F

module _ {F : Type 0} where
  -- the restore that opens Run: the offset to start from, and the shard
  unfoldable pub kafka_restore : Codec F → Option Text → Core F → Restored (ℕ × Core F)
  unfolding restore
  kafka_restore gob none c = restored (0, c)
  kafka_restore gob (some blob) c = elim (restore gob c blob) [
    | failed e ↦ failed e
    | restored (c', seq) ↦ restored (seq + 1, c')
  ]

  -- Run up to its loop; the file is none if there is no path or it cannot be read, and the end
  -- offset is none if it cannot be listed
  unfoldable pub kafka_start : Codec F → Option Text → Option ℕ → Core F → Start F
  unfolding kafka_restore begin_replay
  kafka_start gob file end_offset c = elim (kafka_restore gob file c) [
    | failed e ↦ no_start (restore_failed e)
    | restored (start_offset, c') ↦ elim end_offset [
      | none ↦ no_start end_offsets_failed
      | some end ↦
          let target = sub_ℕ end 1 in
          if not (ltb_ℤ target (pos 0)) && not (ltb_ℤ target (pos start_offset))
          then start_at start_offset target (record { core = begin_replay c'; replaying = true })
          else start_at start_offset target (record { core = c'; replaying = false })
    ]
  ]

module _ {F : Type 0} ⦃fl : Float F⦄ (unmarshal : Text → Option (BehaviorEvent F)) (has_hook : Bool)
    (target : ℤ) where
  -- the function that EachRecord runs
  unfoldable pub kafka_record : Loop F → KafkaRecord → Loop F × Effects F
  unfolding decode_event handle_event note_position
  kafka_record l r = elim (decode_event unmarshal r.value) [
    | undecodable e ↦ (l, no_effects)
    | decoded event ↦
        let (l', effects) = handle_event has_hook l event in
        (note_position target r.offset l', effects)
  ]

  unfoldable pub kafka_records : Loop F → List KafkaRecord → Loop F × Effects F
  unfolding kafka_record
  kafka_records l [] = (l, no_effects)
  kafka_records l (r ∷ records) =
      let (l', effects) = kafka_record l r in
      let (l'', effects') = kafka_records l' records in (l'', then_effects effects effects')

module _ {F S : Type 0} ⦃fl : Float F⦄ (unmarshal : Text → Option (BehaviorEvent F)) (gob : Codec F)
    (disk : Disk S) (cfg : KafkaConfig) (target : ℤ) where
  -- one round of the main loop
  unfoldable pub kafka_poll : Running F S → Bool → Poll → Running F S × Bool × Effects F
  unfolding work_on kafka_records tick
  kafka_poll r replaying poll =
      let r' = work_on poll.worked gob disk r in
      let (l, effects) =
        kafka_records unmarshal cfg.has_on_processed target
          (record { core = r'.core; replaying = replaying }) poll.records in
      (tick poll.now poll.now' (record r' { core = l.core }), l.replaying, effects)

  -- the rounds until the context is cancelled, and the drain then
  unfoldable pub kafka_loop : Running F S → Bool → List Poll → Running F S × Effects F
  unfolding kafka_poll drain_snapshots
  kafka_loop r replaying [] = ((drain_snapshots gob disk r).0, no_effects)
  kafka_loop r replaying (poll ∷ polls) =
      let (r', replaying', effects) = kafka_poll r replaying poll in
      let (r'', effects') = kafka_loop r' replaying' polls in (r'', then_effects effects effects')

-- Run: what the loop left, if it was reached, and the error returned otherwise
unfoldable pub kafka_run :
    {F S : Type 0} ⦃fl : Float F⦄
    → (Text → Option (BehaviorEvent F))
    → Codec F
    → Disk S
    → KafkaConfig
    → Option ℕ
    → Time
    → Core F
    → S
    → List Poll
    → Option (Running F S × Effects F) × Option StartError
unfolding kafka_start new_async_snapshotter kafka_loop
kafka_run unmarshal gob disk cfg end_offset now c store polls =
    let file = if cfg.snapshot_path == [] then none else disk.read_file store cfg.snapshot_path in
    elim (kafka_start gob file end_offset c) [
      | no_start e ↦ (none, some e)
      | start_at start_offset target l ↦
          let r : Running _ _ = record {
            core = l.core;
            snapshots = new_async_snapshotter cfg.snapshot_path cfg.snapshot_interval now;
            store = store;
          } in
          (some (kafka_loop unmarshal gob disk cfg target r l.replaying polls), none)
    ]
