-- ===== src/Engine/Consumer/Snapshotter/Steps.antt =====
-- A running consumer as a transition system: the main loop and the goroutine of the snapshot in
-- flight take their steps in any order. The main loop also notes its position and the end of a replay.
use rule_engine.Prelude.{
  ℕ, ◌≡◌, refl, Bool, true, false, Option, none, some, arith, inl, inr, Bool-cases, ltb_ℤ,
}
use rule_engine.Text.{text_eq}
use rule_engine.Time.{Time, sub_time}
use rule_engine.Float.{Float}
use rule_engine.Engine.Event.{BehaviorEvent}
use rule_engine.Engine.Shard.Valid.{IsValid}
use rule_engine.Engine.Shard.Shared.{HasDistinctKeys}
use rule_engine.Engine.Core.{process_event}
use rule_engine.Engine.Snapshot.{Snapshot, Codec, begin_snapshot, frozen_view}
use rule_engine.Engine.Consumer.{Disk}
use rule_engine.Engine.Consumer.Snapshotter.{
  Job, idle, reading, writing, finished, Running, is_off, finish, start, start_if_due, tick,
  tick_on, work,
}

-- A shard with no snapshot in flight, as a consumer starts with.
pub record IsFresh {F S : Type 0} (r : Running F S) : Type 0 where
  pub valid : IsValid r.core.shard
  pub distinct : HasDistinctKeys r.core.shard
  pub not_frozen : r.core.shard.frozen_epoch ≡ 0
  pub no_job : r.snapshots.job ≡ idle

-- The runs of a consumer, with what the latest snapshot froze.
pub data Runs {F S : Type 0} (fl : Float F) (gob : Codec F) (disk : Disk S)
    : Running F S → Option (Snapshot F) → Type 0 where
  begun : (r : Running F S) → IsFresh r → Runs fl gob disk r none
  handled :
      (r : Running F S) (frozen : Option (Snapshot F)) (event : BehaviorEvent F)
      → Runs fl gob disk r frozen
      → Runs fl gob disk (record r { core = (process_event ⦃fl = fl⦄ r.core event).core }) frozen
  marked :
      (r : Running F S) (frozen : Option (Snapshot F)) (seq : ℕ) (replaying : Bool)
      → Runs fl gob disk r frozen
      → Runs fl gob disk
          (record r { core = record r.core { last_seq = seq; replaying = replaying } })
          frozen
  worked :
      (r : Running F S) (frozen : Option (Snapshot F))
      → Runs fl gob disk r frozen
      → Runs fl gob disk (work gob disk r) frozen
  collected :
      (r : Running F S) (frozen : Option (Snapshot F)) (ok : Bool)
      → r.snapshots.job ≡ finished ok
      → Runs fl gob disk r frozen
      → Runs fl gob disk (finish r) frozen
  started :
      (r : Running F S) (frozen : Option (Snapshot F)) (now : Time)
      → r.snapshots.job ≡ idle
      → Runs fl gob disk r frozen
      → Runs fl gob disk (start now r) (some (frozen_view r.core.shard (begin_snapshot r.core).1))

module _ {F S : Type 0} (fl : Float F) (gob : Codec F) (disk : Disk S) where
  start_if_due-Runs :
      (r : Running F S) (frozen : Option (Snapshot F)) (now now' : Time)
      → r.snapshots.job ≡ idle
      → Runs fl gob disk r frozen
      → (after : Option (Snapshot F)) × Runs fl gob disk (start_if_due now now' r) after
  start_if_due-Runs r frozen now now' e run =
      elim (Bool-cases (ltb_ℤ (sub_time now r.snapshots.last) r.snapshots.interval)) [
        | inl early ↦ rw (early_lem early) (frozen, run)
        | inr due ↦ rw (due_lem due) (_, started r frozen now' e run)
      ]
    where
      early_lem :
          ltb_ℤ (sub_time now r.snapshots.last) r.snapshots.interval ≡ true
          → start_if_due now now' r ≡ r
      early_lem p = unfold start_if_due in ground arith

      due_lem :
          ltb_ℤ (sub_time now r.snapshots.last) r.snapshots.interval ≡ false
          → start_if_due now now' r ≡ start now' r
      due_lem p = unfold start_if_due in ground arith

  tick_on-Runs :
      (r : Running F S) (frozen : Option (Snapshot F)) (now now' : Time) (job : Job F)
      → r.snapshots.job ≡ job
      → Runs fl gob disk r frozen
      → (after : Option (Snapshot F)) × Runs fl gob disk (tick_on now now' job r) after
  unfolding tick_on
  tick_on-Runs r frozen now now' idle e run = start_if_due-Runs r frozen now now' e run
  tick_on-Runs r frozen now now' (reading f kg acc) e run = (frozen, run)
  tick_on-Runs r frozen now now' (writing payload) e run = (frozen, run)
  tick_on-Runs r frozen now now' (finished ok) e run =
      start_if_due-Runs (finish r) frozen now now' (unfold finish in refl)
        (collected r frozen ok e run)

  -- A tick is a step of the system, or two, or none.
  pub tick-Runs :
      (r : Running F S) (frozen : Option (Snapshot F)) (now now' : Time)
      → Runs fl gob disk r frozen
      → (after : Option (Snapshot F)) × Runs fl gob disk (tick now now' r) after
  unfolding tick
  tick-Runs r frozen now now' run = elim (Bool-cases (is_off r.snapshots)) [
    | inl off ↦ rw off (frozen, run)
    | inr on ↦ rw on (tick_on-Runs r frozen now now' r.snapshots.job refl run)
  ]
