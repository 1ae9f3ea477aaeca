-- ===== src/Engine/Consumer/Snapshotter/Work.antt =====
-- The steps of the goroutine of consumer.go that writes a snapshot.
use mathlib.Core.List.{append_assoc, append-nil}
use rule_engine.Prelude.{
  ℕ, suc, ◌-◌, ◌<◌, ◌≤◌, ◌≡◌, refl, sym, ap, ◌∙◌, false, ◌++◌, Option, none, some, arith, inl, inr,
  Bool-cases, Option-cases, ltb, ℤ, int_eq,
}
use rule_engine.Text.{Text}
use rule_engine.Dict.{Dict}
use rule_engine.Engine.KeyGroup.{num_key_groups}
use rule_engine.Engine.Member.{MemberState}
use rule_engine.Engine.Shard.{Shard}
use rule_engine.Engine.Shard.Valid.{IsValid}
use rule_engine.Engine.Shard.Shared.{HasDistinctKeys}
use rule_engine.Engine.Snapshot.{FrozenSnapshot, Snapshot, Codec, frozen_groups}
use rule_engine.Engine.Snapshot.Stable.{frozen_groups-append}
use rule_engine.Engine.Consumer.{Disk, write_snapshot_file}
use rule_engine.Engine.Consumer.Files.{IsLawful, write_snapshot_file-atomic}
use rule_engine.Engine.Consumer.Snapshotter.{
  Job, idle, reading, writing, finished, Running, step_job, encode_read,
}
use rule_engine.Engine.Consumer.Snapshotter.Invariant.{IsReading, JobInv, Inv}

module _ {F S : Type 0} (gob : Codec F) (disk : Disk S) where
  module _ (f : FrozenSnapshot) (acc : Dict ℤ (Dict Text (MemberState F))) where
    abbrev read_view : Snapshot F
    read_view = record {
      key_groups = acc;
      watermark_nanos = f.watermark_nanos;
      last_seq = f.last_seq;
    }

    not_encoded : gob.encode read_view ≡ none → encode_read gob f acc ≡ finished false
    unfolding encode_read
    not_encoded e = ground arith

    was_encoded :
        (payload : Text)
        → gob.encode read_view ≡ some payload
        → encode_read gob f acc ≡ writing payload
    unfolding encode_read
    was_encoded payload e = ground arith

  encode_read-Inv :
      (s : Shard F) (store : S) (path : Text) (frozen : Option (Snapshot F)) (f : FrozenSnapshot)
      (acc : Dict ℤ (Dict Text (MemberState F))) (snap : Snapshot F)
      → frozen ≡ some snap
      → acc ≡ snap.key_groups
      → snap.watermark_nanos ≡ f.watermark_nanos
      → snap.last_seq ≡ f.last_seq
      → JobInv gob disk s store path frozen (encode_read gob f acc)
  encode_read-Inv s store path frozen f acc snap e groups watermark seq =
      elim (Option-cases (gob.encode snap)) [
        | inl none_left ↦ rw (not_encoded f acc (same ∙ none_left)) tt
        | inr (payload, made) ↦ rw (was_encoded f acc payload (same ∙ made)) (snap, e, made)
      ]
    where
      same :
          gob.encode (record {
            key_groups = acc;
            watermark_nanos = f.watermark_nanos;
            last_seq = f.last_seq;
          })
          ≡ gob.encode snap
      same = λ i. gob.encode (record {
        key_groups = groups i;
        watermark_nanos = sym watermark i;
        last_seq = sym seq i;
      })

  write-Inv :
      (s : Shard F) (store : S) (path payload : Text) (frozen : Option (Snapshot F))
      (snap : Snapshot F)
      → IsLawful disk
      → frozen ≡ some snap
      → gob.encode snap ≡ some payload
      → JobInv gob disk s
          (write_snapshot_file disk store path payload).0
          path
          frozen
          (finished (write_snapshot_file disk store path payload).1)
  write-Inv s store path payload frozen snap lawful e made =
      elim (Bool-cases (write_snapshot_file disk store path payload).1) [
        | inl ok ↦ rw ok (
          snap,
          payload,
          e,
          made,
          (write_snapshot_file-atomic disk lawful store path payload).0 ok,
        )
        | inr lost ↦ rw lost tt
      ]

  read_more :
      (s : Shard F) (frozen : Option (Snapshot F)) (f : FrozenSnapshot) (kg : ℕ)
      (acc : Dict ℤ (Dict Text (MemberState F)))
      → kg < num_key_groups
      → IsReading gob disk s frozen f kg acc
      → IsReading gob disk s frozen f (suc kg) (acc ++ frozen_groups s f.state kg 1)
  read_more s frozen f kg acc more h =
      let left : num_key_groups - kg ≡ suc (num_key_groups - suc kg) = omega arith in
      record {
        snap = h.snap;
        is_frozen = h.is_frozen;
        fz = h.fz;
        groups =
            append_assoc acc (frozen_groups s f.state kg 1)
              (frozen_groups s f.state (suc kg) (num_key_groups - suc kg))
            ∙ ap (λ rest. acc ++ rest)
                (sym (
                  ap (frozen_groups s f.state kg) left
                  ∙ frozen_groups-append s f.state kg (num_key_groups - suc kg)))
            ∙ h.groups;
        watermark = h.watermark;
        last_seq = h.last_seq;
      }

  read_all :
      (r : Running F S) (frozen : Option (Snapshot F)) (f : FrozenSnapshot) (kg : ℕ)
      (acc : Dict ℤ (Dict Text (MemberState F)))
      → num_key_groups ≤ kg
      → IsReading gob disk r.core.shard frozen f kg acc
      → JobInv gob disk r.core.shard r.store r.snapshots.path frozen (encode_read gob f acc)
  read_all r frozen f kg acc done h =
      let left : num_key_groups - kg ≡ 0 = omega arith in
      let groups : acc ≡ h.snap.key_groups =
        sym (append-nil acc)
        ∙ ap (λ rest. acc ++ rest)
            (sym (ap (frozen_groups r.core.shard f.state kg) left ∙ unfold frozen_groups in refl))
        ∙ h.groups in
      encode_read-Inv r.core.shard r.store r.snapshots.path frozen f acc h.snap h.is_frozen groups
        h.watermark h.last_seq

  pub step_job-Inv :
      (r : Running F S) (frozen : Option (Snapshot F)) (job : Job F)
      → IsLawful disk
      → IsValid r.core.shard
      → HasDistinctKeys r.core.shard
      → r.snapshots.job ≡ job
      → JobInv gob disk r.core.shard r.store r.snapshots.path frozen job
      → Inv gob disk (step_job gob disk job r) frozen
  unfolding step_job
  step_job-Inv r frozen idle lawful v d e h = record { valid = v; distinct = d; job = rw e h }
  step_job-Inv r frozen (finished ok) lawful v d e h = record {
    valid = v;
    distinct = d;
    job = rw e h;
  }
  step_job-Inv r frozen (writing payload) lawful v d e (snap, is_frozen, made) = record {
    valid = v;
    distinct = d;
    job = write-Inv r.core.shard r.store r.snapshots.path payload frozen snap lawful is_frozen made;
  }
  step_job-Inv r frozen (reading f kg acc) lawful v d e h =
      elim (Bool-cases (ltb kg num_key_groups)) [
        | inl more ↦ rw more (record {
          valid = v;
          distinct = d;
          job = read_more r.core.shard frozen f kg acc (ground arith) h;
        })
        | inr all ↦
            rw all (record {
              valid = v;
              distinct = d;
              job = read_all r frozen f kg acc (ground arith) h;
            })
      ]
