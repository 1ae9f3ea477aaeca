-- ===== src/Engine/Consumer/Replay/Start.antt =====
-- Run of consumer_kafka.go from its start: what is replayed, and the side effects of the whole run.
use rule_engine.Prelude.{
  ℕ, ◌+◌, ◌-◌, ltb, drop, ◌≡◌, refl, ap, ◌∙◌, Bool, true, false, not, ◌&&◌, List, [], Option, none,
  some, inl, inr, ◌⊎◌, arith, if◌then◌else◌, ℤ, pos, ltb_ℤ, sub_ℕ, ◌==◌, Bool-cases, Option-cases,
}
use mathlib.Core.List.{Sublistᴰ}
use rule_engine.Text.{Text, text_eq}
use rule_engine.Time.{Time}
use rule_engine.Float.{Float}
use rule_engine.Engine.Event.{BehaviorEvent}
use rule_engine.Engine.Core.{Core, begin_replay}
use rule_engine.Engine.Snapshot.{
  Codec, RestoreError, Restored, restored, failed, restore_snapshot, restore,
  rebuild_negative_deadlines,
}
use rule_engine.Engine.Consumer.{Disk}
use rule_engine.Engine.Consumer.Loop.{Loop, Effects}
use rule_engine.Engine.Consumer.Snapshotter.{Running, new_async_snapshotter}
use rule_engine.Engine.Consumer.Kafka.{
  KafkaConfig, Poll, start_at, kafka_restore, kafka_start, kafka_loop, kafka_run,
}
use rule_engine.Engine.Consumer.Replay.{live_events, all_records}
use rule_engine.Engine.Consumer.Replay.Log.{IsLog, live_events-IsLog}
use rule_engine.Engine.Consumer.Replay.Records.{InStep}
use rule_engine.Engine.Consumer.Replay.Polls.{kafka_loop-live}

pub Restored-cases :
    {A : Type 0} (r : Restored A)
    → ((e : RestoreError) × (r ≡ failed e)) ⊎ ((a : A) × (r ≡ restored a))
Restored-cases (failed e) = inl (e, refl)
Restored-cases (restored a) = inr (a, refl)

-- `targetOffset >= 0 && startOffset <= targetOffset`
abbrev pub is_behind : ℕ → ℤ → Bool
is_behind start target = not (ltb_ℤ target (pos 0)) && not (ltb_ℤ target (pos start))

module _ {F : Type 0} (gob : Codec F) (c : Core F) where
  -- Restore leaves the replay flag alone.
  replaying-restore :
      (blob : Text) (c' : Core F) (seq : ℕ)
      → restore gob c blob ≡ restored (c', seq)
      → c'.replaying ≡ c.replaying
  unfolding restore restore_snapshot rebuild_negative_deadlines
  replaying-restore blob c' seq e = ground arith

  replaying-kafka_restore :
      (file : Option Text) (start : ℕ) (c' : Core F)
      → kafka_restore gob file c ≡ restored (start, c')
      → c'.replaying ≡ c.replaying
  unfolding kafka_restore
  replaying-kafka_restore none start c' e = ground arith
  replaying-kafka_restore (some blob) start c' e = let kept = replaying-restore blob in ground arith

  kafka_start_lem :
      (file : Option Text) (end : Option ℕ) (start : ℕ) (target : ℤ) (l : Loop F)
      → c.replaying ≡ false
      → kafka_start gob file end c ≡ start_at start target l
      → InStep l × (l.replaying ≡ is_behind start target)
  unfolding kafka_start begin_replay
  kafka_start_lem file end start target l idle e =
      elim (Restored-cases (kafka_restore gob file c)) [
        | inl (err, q) ↦ absurd (ground arith)
        | inr ((from, c'), q) ↦
            let kept = replaying-kafka_restore file from c' q in
            elim (Option-cases end) [
              | inl no_end ↦ absurd (ground arith)
              | inr (n, has_end) ↦ elim (Bool-cases (is_behind from (sub_ℕ n 1))) [
                | inl behind ↦ (ground arith, ground arith)
                | inr live ↦ (ground arith, ground arith)
              ]
            ]
      ]

-- The offset that Run starts from: 0 without a snapshot, and else the one after the snapshot's.
abbrev pub Resumes : {F : Type 0} → Codec F → Core F → Option Text → ℕ → Type 0
Resumes {F} gob c file start =
    ((file ≡ none) × (start ≡ 0))
    ⊎ ((blob : Text) × (c' : Core F) × (seq : ℕ) × (file ≡ some blob)
        × (restore gob c blob ≡ restored (c', seq))
        × (start ≡ seq + 1))

is_behind_lem : (start end : ℕ) → is_behind start (sub_ℕ end 1) ≡ ltb start end
is_behind_lem start end = ground arith

module _ {F : Type 0} (gob : Codec F) (c : Core F) (file : Option Text) (end start : ℕ) where
  restored_at :
      Resumes gob c file start → (c' : Core F) × (kafka_restore gob file c ≡ restored (start, c'))
  unfolding kafka_restore
  restored_at (inl (no_file, at)) = (c, rw (no_file, at) refl)
  restored_at (inr (blob, c', seq, found, read, at)) =
      (c', rw (found, at, kafka_restore, read) refl)

  kafka_start-Resumes :
      Resumes gob c file start
      → (l : Loop F) × (kafka_start gob file (some end) c ≡ start_at start (sub_ℕ end 1) l)
  unfolding kafka_start
  kafka_start-Resumes resumes =
      let (c', e) = restored_at resumes in
      elim (Bool-cases (is_behind start (sub_ℕ end 1))) [
        | inl behind ↦
            (record { core = begin_replay c'; replaying = true }, rw (kafka_start, e, behind) refl)
        | inr live ↦ (record { core = c'; replaying = false }, rw (kafka_start, e, live) refl)
      ]

module _ {F S : Type 0} ⦃fl : Float F⦄ (unmarshal : Text → Option (BehaviorEvent F)) (gob : Codec F)
    (disk : Disk S) (cfg : KafkaConfig) (end : ℕ) (now : Time) (c : Core F) (store : S)
    (polls : List Poll) where
  abbrev pub snapshot_file : Option Text
  snapshot_file = if cfg.snapshot_path == [] then none else disk.read_file store cfg.snapshot_path

  -- the shard, the snapshots and the file system as the loop begins
  abbrev pub begins : Loop F → Running F S
  begins l = record {
    core = l.core;
    snapshots = new_async_snapshotter cfg.snapshot_path cfg.snapshot_interval now;
    store = store;
  }

  run_lem :
      (start : ℕ) (target : ℤ) (l : Loop F)
      → kafka_start gob snapshot_file (some end) c ≡ start_at start target l
      → kafka_run unmarshal gob disk cfg (some end) now c store polls
        ≡ (some (kafka_loop unmarshal gob disk cfg target (begins l) l.replaying polls), none)
  unfolding kafka_run
  run_lem start target l e = ground arith

  -- A whole Run of the Kafka consumer of a shard on which no replay runs, with OnProcessed set: the
  -- snapshot, if there is one, is restored, the end offset of the log is `end`, and the records
  -- polled are those of the log from the offset after the snapshot on, without a gap, each decodable.
  -- Then Run gets to its loop, and OnProcessed runs for exactly the events from the end offset on:
  -- those that were in the log at the start are replayed, the others are live. The late sink gets
  -- live events only, in order.
  pub kafka_run-live :
      (start : ℕ) (events : List (BehaviorEvent F))
      → c.replaying ≡ false
      → cfg.has_on_processed ≡ true
      → Resumes gob c snapshot_file start
      → IsLog unmarshal start (all_records polls) events
      → (r : Running F S) × (effects : Effects F) × (kafka_run unmarshal gob disk cfg
            (some end)
            now
            c
            store
            polls
          ≡ (some (r, effects), none))
        × (effects.on_processed ≡ drop (end - start) events)
        × Sublistᴰ effects.late (drop (end - start) events)
  kafka_run-live start events idle hook resumes log =
      let (l, e) = kafka_start-Resumes gob c snapshot_file end start resumes in
      let (in_step, flag) =
        kafka_start_lem gob c snapshot_file (some end) start (sub_ℕ end 1) l idle e in
      let (hooks, lates) =
        kafka_loop-live unmarshal gob disk cfg (sub_ℕ end 1) (begins l) l.replaying polls in_step in
      let live =
        ap (λ b. live_events unmarshal (sub_ℕ end 1) b (all_records polls))
          (flag ∙ is_behind_lem start end)
        ∙ live_events-IsLog unmarshal end start (all_records polls) events log in
      let out = kafka_loop unmarshal gob disk cfg (sub_ℕ end 1) (begins l) l.replaying polls in
      (out.0, out.1, run_lem start (sub_ℕ end 1) l e, hooks hook ∙ live, rw live at lates)
