-- ===== src/Engine/Consumer/Snapshotter/Written.antt =====
-- What the snapshots of consumer.go write while events are handled: the shard as it was frozen.
use rule_engine.Prelude.{◌≡◌, refl, true, Option, some}
use rule_engine.Text.{Text}
use rule_engine.Float.{Float}
use rule_engine.Engine.Snapshot.{Snapshot, Codec}
use rule_engine.Engine.Consumer.{Disk}
use rule_engine.Engine.Consumer.Files.{IsLawful}
use rule_engine.Engine.Consumer.Snapshotter.{Job, idle, finished, Running, work}
use rule_engine.Engine.Consumer.Snapshotter.Steps.{
  Runs, begun, handled, marked, worked, collected, started,
}
use rule_engine.Engine.Consumer.Snapshotter.Invariant.{
  JobInv, Inv, handled-Inv, started-Inv, collected-Inv,
}
use rule_engine.Engine.Consumer.Snapshotter.Work.{step_job-Inv}

module _ {F S : Type 0} (gob : Codec F) (disk : Disk S) where
  module _ (fl : Float F) (lawful : IsLawful disk) where
    worked-Inv :
        (r : Running F S) (frozen : Option (Snapshot F))
        → Inv gob disk r frozen
        → Inv gob disk (work gob disk r) frozen
    unfolding work
    worked-Inv r frozen i =
        step_job-Inv gob disk r frozen r.snapshots.job lawful i.valid i.distinct refl i.job

    Runs-Inv :
        (r : Running F S) (frozen : Option (Snapshot F))
        → Runs fl gob disk r frozen
        → Inv gob disk r frozen
    Runs-Inv r _ (begun _ fresh) = record {
      valid = fresh.valid;
      distinct = fresh.distinct;
      job = rw fresh.no_job fresh.not_frozen;
    }
    Runs-Inv _ _ (handled r frozen event run) =
        handled-Inv gob disk ⦃fl = fl⦄ r frozen event (Runs-Inv r frozen run)
    Runs-Inv _ _ (marked r frozen seq replaying run) =
        let i = Runs-Inv r frozen run in
        record { valid = i.valid; distinct = i.distinct; job = i.job }
    Runs-Inv _ _ (worked r frozen run) = worked-Inv r frozen (Runs-Inv r frozen run)
    Runs-Inv _ _ (collected r frozen ok e run) =
        collected-Inv gob disk r frozen (Runs-Inv r frozen run)
    Runs-Inv _ _ (started r frozen now e run) =
        started-Inv gob disk r frozen now (Runs-Inv r frozen run)

    finished_lem :
        (r : Running F S) (frozen : Option (Snapshot F)) (job : Job F)
        → job ≡ finished true
        → JobInv gob disk r.core.shard r.store r.snapshots.path frozen job
        → JobInv gob disk r.core.shard r.store r.snapshots.path frozen (finished true)
    finished_lem r frozen job e h = rw e at h

    -- In every run of a consumer on a lawful file system, with events handled in between the reads
    -- of the goroutine in whatever order: when a snapshot was reported as written, the file holds
    -- the encoding of the shard as it was when the snapshot froze it.
    pub Runs-written :
        (r : Running F S) (frozen : Option (Snapshot F))
        → Runs fl gob disk r frozen
        → r.snapshots.job ≡ finished true
        → (snap : Snapshot F) × (payload : Text) × (frozen ≡ some snap)
          × (gob.encode snap ≡ some payload)
          × (disk.read_file r.store r.snapshots.path ≡ some payload)
    Runs-written r frozen run e =
        finished_lem r frozen r.snapshots.job e (Runs-Inv r frozen run).job

    idle_lem :
        (r : Running F S) (frozen : Option (Snapshot F)) (job : Job F)
        → job ≡ idle
        → JobInv gob disk r.core.shard r.store r.snapshots.path frozen job
        → r.core.shard.frozen_epoch ≡ 0
    idle_lem r frozen job e h = rw e at h

    -- Where no snapshot is in flight, no freeze is: copy-on-write is off and costs nothing.
    pub Runs-released :
        (r : Running F S) (frozen : Option (Snapshot F))
        → Runs fl gob disk r frozen
        → r.snapshots.job ≡ idle
        → r.core.shard.frozen_epoch ≡ 0
    Runs-released r frozen run e = idle_lem r frozen r.snapshots.job e (Runs-Inv r frozen run).job
