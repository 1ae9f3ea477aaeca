-- ===== src/Engine/Consumer.antt =====
-- service/engine/core/consumer.go: what the consumers of all brokers share. The file system and the
-- JSON decoder are parameters.
pub mod Files
pub mod Snapshotter
pub mod Loop
pub mod Kafka
pub mod Nats
pub mod Replay
pub mod Mirror
pub mod Runs
use rule_engine.Prelude.{Bool, true, false, ◌||◌, [], ◌++◌, Option, none, some, if◌then◌else◌, ◌==◌}
use rule_engine.Text.{Text, text_eq, bytes}
use rule_engine.Engine.Event.{BehaviorEvent}
use rule_engine.Engine.Core.{Core}
use rule_engine.Engine.Snapshot.{Codec, take_snapshot}

pub data DecodeError : Type 0 where
  malformed missing_id : DecodeError

pub data Decoded (F : Type 0) : Type 0 where
  decoded : BehaviorEvent F → Decoded F
  undecodable : DecodeError → Decoded F

-- decodeEvent, over json.Unmarshal, which fails with none
unfoldable pub decode_event : {F : Type 0} → (Text → Option (BehaviorEvent F)) → Text → Decoded F
decode_event unmarshal payload = elim (unmarshal payload) [
  | none ↦ undecodable malformed
  | some ev ↦ if ev.event_id == [] || ev.member_id == [] then undecodable missing_id else decoded ev
]

-- os.ReadFile, os.WriteFile and os.Rename on the state of a file system; the flag says that the
-- operation succeeded.
pub record Disk (S : Type 0) : Type 0 where
  pub read_file : S → Text → Option Text
  pub write_file : S → Text → Text → S × Bool
  pub rename : S → Text → Text → S × Bool

abbrev pub temporary : Text → Text
temporary path = path ++ bytes ".tmp"

module _ {S : Type 0} (disk : Disk S) where
  unfoldable pub write_snapshot_file : S → Text → Text → S × Bool
  write_snapshot_file store path payload =
      let (store', ok) = disk.write_file store (temporary path) payload in
      if ok then disk.rename store' (temporary path) path else (store', false)

  -- snapshotToFile
  unfoldable pub snapshot_to_file : {F : Type 0} → Codec F → Core F → S → Text → Core F × S × Bool
  snapshot_to_file gob c store path =
      let (c', blob) = take_snapshot gob c in
      elim blob [
        | none ↦ (c', store, false)
        | some payload ↦
            let (store', ok) = write_snapshot_file store path payload in (c', store', ok)
      ]
