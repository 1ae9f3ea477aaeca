-- ===== src/Engine/Consumer/Snapshotter/Invariant.antt =====
-- What holds between two statements of a consumer whose snapshot (consumer.go) is in flight.
use rule_engine.Prelude.{ℕ, ◌-◌, ◌≡◌, refl, ap, ◌∙◌, true, false, ◌++◌, Option, some, ℤ, int_eq}
use rule_engine.Text.{Text}
use rule_engine.Time.{Time}
use rule_engine.Dict.{Dict}
use rule_engine.Float.{Float}
use rule_engine.Engine.KeyGroup.{num_key_groups}
use rule_engine.Engine.Event.{BehaviorEvent}
use rule_engine.Engine.Member.{MemberState}
use rule_engine.Engine.Shard.{Shard, freeze_state, unfreeze_state}
use rule_engine.Engine.Shard.Valid.{IsValid}
use rule_engine.Engine.Shard.Frozen.{IsFrozen, freeze_state-IsFrozen, freeze_state-IsValid}
use rule_engine.Engine.Shard.Shared.{
  Keeps, HasDistinctKeys, Keeps-IsKept, HasDistinctKeys-IsKept, IsFrozen-Keeps,
}
use rule_engine.Engine.Core.{process_event}
use rule_engine.Engine.Writes.{process_event-IsKept}
use rule_engine.Engine.Reachable.{IsValid-IsKept, unfreeze_state-IsValid}
use rule_engine.Engine.Snapshot.{
  FrozenSnapshot, Snapshot, Codec, begin_snapshot, end_snapshot, frozen_groups, frozen_view,
}
use rule_engine.Engine.Snapshot.Stable.{frozen_groups_keeps, frozen_groups-freeze_state}
use rule_engine.Engine.Consumer.{Disk}
use rule_engine.Engine.Consumer.Snapshotter.{
  Job, idle, reading, writing, finished, Running, finish, start,
}

module _ {F S : Type 0} (gob : Codec F) (disk : Disk S) where
  -- What was read and what is left to read make up what was frozen.
  pub record IsReading (s : Shard F) (frozen : Option (Snapshot F)) (f : FrozenSnapshot) (kg : ℕ)
      (acc : Dict ℤ (Dict Text (MemberState F))) : Type 0 where
    pub snap : Snapshot F
    pub is_frozen : frozen ≡ some snap
    pub fz : IsFrozen s f.state
    pub groups : acc ++ frozen_groups s f.state kg (num_key_groups - kg) ≡ snap.key_groups
    pub watermark : snap.watermark_nanos ≡ f.watermark_nanos
    pub last_seq : snap.last_seq ≡ f.last_seq

  abbrev pub JobInv : Shard F → S → Text → Option (Snapshot F) → Job F → Type 0
  JobInv s store path frozen idle = s.frozen_epoch ≡ 0
  JobInv s store path frozen (reading f kg acc) = IsReading s frozen f kg acc
  JobInv s store path frozen (writing payload) =
      (snap : Snapshot F) × (frozen ≡ some snap) × (gob.encode snap ≡ some payload)
  JobInv s store path frozen (finished false) = Unit
  JobInv s store path frozen (finished true) =
      (snap : Snapshot F) × (payload : Text) × (frozen ≡ some snap)
      × (gob.encode snap ≡ some payload)
      × (disk.read_file store path ≡ some payload)

  pub record Inv (r : Running F S) (frozen : Option (Snapshot F)) : Type 0 where
    pub valid : IsValid r.core.shard
    pub distinct : HasDistinctKeys r.core.shard
    pub job : JobInv r.core.shard r.store r.snapshots.path frozen r.snapshots.job

  -- an event leaves the job's promise alone
  JobInv-Keeps :
      (s s' : Shard F) (store : S) (path : Text) (frozen : Option (Snapshot F)) (job : Job F)
      → Keeps s s'
      → HasDistinctKeys s
      → JobInv s store path frozen job
      → JobInv s' store path frozen job
  JobInv-Keeps s s' store path frozen idle k d h = k.frozen_epoch ∙ h
  JobInv-Keeps s s' store path frozen (reading f kg acc) k d h = record {
    snap = h.snap;
    is_frozen = h.is_frozen;
    fz = IsFrozen-Keeps s s' f.state k h.fz;
    groups =
        ap (λ rest. acc ++ rest)
          (frozen_groups_keeps s s' f.state h.fz k d (num_key_groups - kg) kg)
        ∙ h.groups;
    watermark = h.watermark;
    last_seq = h.last_seq;
  }
  JobInv-Keeps s s' store path frozen (writing payload) k d h = h
  JobInv-Keeps s s' store path frozen (finished false) k d h = h
  JobInv-Keeps s s' store path frozen (finished true) k d h = h

  pub handled-Inv :
      ⦃fl : Float F⦄ (r : Running F S) (frozen : Option (Snapshot F)) (event : BehaviorEvent F)
      → Inv r frozen
      → Inv (record r { core = (process_event r.core event).core }) frozen
  handled-Inv r frozen event i =
      let s' = (process_event r.core event).core.shard in
      let k =
        process_event-IsKept (Keeps r.core.shard) (Keeps-IsKept r.core.shard) r.core event i.valid
          (record { frozen_epoch = refl; groups = λ b g e h. e; members = λ b m e h. e }) in
      record {
        valid = process_event-IsKept IsValid IsValid-IsKept r.core event i.valid i.valid;
        distinct =
            process_event-IsKept HasDistinctKeys HasDistinctKeys-IsKept r.core event i.valid
              i.distinct;
        job =
            JobInv-Keeps r.core.shard s' r.store r.snapshots.path frozen r.snapshots.job k
              i.distinct i.job;
      }

  pub started-Inv :
      (r : Running F S) (frozen : Option (Snapshot F)) (now : Time)
      → Inv r frozen
      → Inv (start now r) (some (frozen_view r.core.shard (begin_snapshot r.core).1))
  unfolding start begin_snapshot
  started-Inv r frozen now i = record {
    valid = freeze_state-IsValid r.core.shard i.valid;
    distinct = unfold freeze_state in i.distinct;
    job = record {
      snap = frozen_view r.core.shard (begin_snapshot r.core).1;
      is_frozen = refl;
      fz = freeze_state-IsFrozen r.core.shard i.valid;
      groups =
          unfold frozen_view in
          frozen_groups-freeze_state r.core.shard (freeze_state r.core.shard).1 num_key_groups 0;
      watermark = unfold frozen_view in refl;
      last_seq = unfold frozen_view in refl;
    };
  }

  pub collected-Inv :
      (r : Running F S) (frozen : Option (Snapshot F)) → Inv r frozen → Inv (finish r) frozen
  unfolding finish end_snapshot
  collected-Inv r frozen i = record {
    valid = unfreeze_state-IsValid r.core.shard i.valid;
    distinct = unfold unfreeze_state in i.distinct;
    job = unfold unfreeze_state in refl;
  }
