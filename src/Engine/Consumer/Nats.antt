-- ===== src/Engine/Consumer/Nats.antt =====
-- service/engine/core/consumer_nats.go. The stream is the list of what the message iterator returns.
use rule_engine.Prelude.{
  ℕ, Bool, true, false, not, ◌&&◌, List, [], ◌∷◌, Option, none, some, leb, ltb, if◌then◌else◌, pos,
  ◌+◌, ◌==◌,
}
use rule_engine.Text.{Text, text_eq}
use rule_engine.Time.{Time, Duration}
use rule_engine.Float.{Float}
use rule_engine.Engine.Event.{BehaviorEvent}
use rule_engine.Engine.Core.{Core, begin_replay}
use rule_engine.Engine.Snapshot.{Codec, RestoreError, Restored, restored, failed, restore}
use rule_engine.Engine.Consumer.{Disk, decoded, undecodable, decode_event}
use rule_engine.Engine.Consumer.Loop.{
  Loop, Effects, no_effects, then_effects, note_position, handle_event,
}
use rule_engine.Engine.Consumer.Snapshotter.{
  Running, new_async_snapshotter, tick, work_on, drain_snapshots,
}

-- NATSConfig, without what only configures the stream and its consumer
pub record NatsConfig : Type 0 where
  pub snapshot_path : Text
  pub snapshot_interval : Duration
  pub has_on_processed : Bool

-- A message of the iterator: the steps that the snapshot's goroutine has taken meanwhile, its payload,
-- whether Ack succeeds, the stream's sequence number of its metadata unless that fails, and the two
-- readings of the clock in tick.
pub record Message : Type 0 where
  pub worked : ℕ
  pub payload : Text
  pub acked : Bool
  pub sequence : Option ℕ
  pub now : Time
  pub now' : Time

-- what iter.Next returns, an error of the iterator that is not its closing included
pub data Next : Type 0 where
  message : Message → Next
  next_failed : Next

-- the errors of Run
pub data NatsError : Type 0 where
  ensure_stream stream_info create_consumer messages_iterator next_message ack : NatsError
  restore_snapshot : RestoreError → NatsError

-- the answers of the server before the loop: whether the stream exists then, its last sequence
-- number, and whether the consumer and its iterator were made
pub record Setup : Type 0 where
  pub ensured : Bool
  pub last_sequence : Option ℕ
  pub created : Bool
  pub iterating : Bool

pub data NatsStart (F : Type 0) : Type 0 where
  nats_started : ℕ → ℕ → Loop F → NatsStart F
  nats_refused : NatsError → NatsStart F

module _ {F : Type 0} where
  -- the restore from a snapshot: the sequence number to start from, and the shard
  unfoldable pub nats_restore : Codec F → Option Text → Core F → Restored (ℕ × Core F)
  unfolding restore
  nats_restore gob none c = restored (1, c)
  nats_restore gob (some blob) c = elim (restore gob c blob) [
    | failed e ↦ failed e
    | restored (c', seq) ↦ restored (seq + 1, c')
  ]

  -- from the stream's last sequence number to the loop
  unfoldable pub nats_position : Setup → ℕ → ℕ → Core F → NatsStart F
  unfolding begin_replay
  nats_position setup start_seq target c =
      let replaying = ltb 0 target && leb start_seq target in
      let l : Loop F = record {
        core = if replaying then begin_replay c else c;
        replaying = replaying;
      } in
      if not setup.created
      then nats_refused create_consumer
      else if not setup.iterating
      then nats_refused messages_iterator
      else nats_started start_seq target l

  -- Run up to its loop; the file is none if there is no path or it cannot be read
  unfoldable pub nats_start : Codec F → Option Text → Setup → Core F → NatsStart F
  unfolding nats_restore nats_position
  nats_start gob file setup c =
      if not setup.ensured then nats_refused ensure_stream else elim (nats_restore gob file c) [
        | failed e ↦ nats_refused (restore_snapshot e)
        | restored (start_seq, c') ↦ elim setup.last_sequence [
          | none ↦ nats_refused stream_info
          | some target ↦ nats_position setup start_seq target c'
        ]
      ]

  -- the position after an acknowledged message, if its metadata can be read
  unfoldable pub note_metadata : ℕ → Option ℕ → Loop F → Loop F
  unfolding note_position
  note_metadata target none l = l
  note_metadata target (some seq) l = note_position (pos target) seq l

module _ {F S : Type 0} ⦃fl : Float F⦄ (unmarshal : Text → Option (BehaviorEvent F)) (gob : Codec F)
    (disk : Disk S) (cfg : NatsConfig) (target : ℕ) where
  -- the body of the main loop on one message; the flag says that the loop goes on
  unfoldable pub nats_message : Running F S → Bool → Message → Running F S × Bool × Effects F × Bool
  unfolding work_on decode_event handle_event note_metadata tick
  nats_message r replaying msg =
      let r' = work_on msg.worked gob disk r in
      elim (decode_event unmarshal msg.payload) [
        | undecodable e ↦ (r', replaying, no_effects, true)
        | decoded event ↦
            let (l, effects) =
              handle_event cfg.has_on_processed (record { core = r'.core; replaying = replaying })
                event in
            let l' = note_metadata target msg.sequence l in
            if msg.acked
            then (tick msg.now msg.now' (record r' { core = l'.core }), l'.replaying, effects, true)
            else (record r' { core = l.core }, replaying, effects, false)
      ]

  -- The loop: the list ends where the iterator is closed or the context cancelled. The error is
  -- what Run returns.
  unfoldable pub nats_loop :
      Running F S → Bool → List Next → Running F S × Effects F × Option NatsError
  unfolding nats_message drain_snapshots
  nats_loop r replaying [] = ((drain_snapshots gob disk r).0, no_effects, none)
  nats_loop r replaying (next_failed ∷ rest) = (r, no_effects, some next_message)
  nats_loop r replaying (message msg ∷ rest) =
      let (r', replaying', effects, goes_on) = nats_message r replaying msg in
      let (r'', effects', e) = nats_loop r' replaying' rest in
      if goes_on then (r'', then_effects effects effects', e) else (r', effects, some ack)

-- Run: the shard, the snapshots, the file system and the effects where the loop was reached, and
-- the error returned
unfoldable pub nats_run :
    {F S : Type 0} ⦃fl : Float F⦄
    → (Text → Option (BehaviorEvent F))
    → Codec F
    → Disk S
    → NatsConfig
    → Setup
    → Time
    → Core F
    → S
    → List Next
    → Option (Running F S × Effects F) × Option NatsError
unfolding nats_start new_async_snapshotter nats_loop
nats_run unmarshal gob disk cfg setup now c store stream =
    let file = if cfg.snapshot_path == [] then none else disk.read_file store cfg.snapshot_path in
    elim (nats_start gob file setup c) [
      | nats_refused e ↦ (none, some e)
      | nats_started start_seq target l ↦
          let (r, effects, e) =
            nats_loop unmarshal gob disk cfg target
              (record {
                core = l.core;
                snapshots = new_async_snapshotter cfg.snapshot_path cfg.snapshot_interval now;
                store = store;
              })
              l.replaying stream in
          (some (r, effects), e)
    ]
