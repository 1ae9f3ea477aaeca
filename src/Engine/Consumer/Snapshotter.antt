-- ===== src/Engine/Consumer/Snapshotter.antt =====
-- asyncSnapshotter of service/engine/core/consumer.go: the periodic snapshots, which a goroutine
-- encodes and writes while the main loop handles events. The goroutine reads one key group of the
-- frozen view at a time.
pub mod Steps
pub mod Invariant
pub mod Work
pub mod Written
pub mod Wait
use rule_engine.Prelude.{
  ℕ, zero, suc, ◌+◌, Bool, true, false, ◌||◌, [], ◌∷◌, ◌++◌, Option, none, some, ltb, leb, not,
  if◌then◌else◌, ◌==◌, ltb_ℤ, pos, ℤ, negsuc, int_eq,
}
use rule_engine.Text.{Text, text_eq}
use rule_engine.Time.{Time, Duration, sub_time}
use rule_engine.Dict.{Dict}
use rule_engine.Engine.KeyGroup.{num_key_groups}
use rule_engine.Engine.Member.{MemberState}
use rule_engine.Engine.Shard.{Shard}
use rule_engine.Engine.Core.{Core}
use rule_engine.Engine.Snapshot.{
  FrozenSnapshot, Snapshot, Codec, begin_snapshot, end_snapshot, frozen_groups,
}
use rule_engine.Engine.Consumer.{Disk, write_snapshot_file, snapshot_to_file}

-- The channel `done` and the goroutine that will send on it: no snapshot is in flight, the frozen
-- view is read (from a key group on, with what was read), the bytes are written, or the result is in
-- the channel.
pub data Job (F : Type 0) : Type 0 where
  idle : Job F
  reading : FrozenSnapshot → ℕ → Dict ℤ (Dict Text (MemberState F)) → Job F
  writing : Text → Job F
  finished : Bool → Job F

-- asyncSnapshotter
pub record AsyncSnapshotter (F : Type 0) : Type 0 where
  pub path : Text
  pub interval : Duration
  pub last : Time
  pub job : Job F

-- A consumer's loop between two statements: the shard, its snapshots and the file system.
pub record Running (F S : Type 0) : Type 0 where
  pub core : Core F
  pub snapshots : AsyncSnapshotter F
  pub store : S

module _ {F : Type 0} where
  unfoldable pub new_async_snapshotter : Text → Duration → Time → AsyncSnapshotter F
  new_async_snapshotter path interval now = record {
    path = path;
    interval = interval;
    last = now;
    job = idle;
  }

  -- `s.path == "" || s.interval <= 0`
  abbrev pub is_off : AsyncSnapshotter F → Bool
  is_off s = s.path == [] || not (ltb_ℤ (pos 0) s.interval)

  unfoldable pub encoded : Option Text → Job F
  encoded none = finished false
  encoded (some payload) = writing payload

  -- the goroutine after it has read the view: it encodes what it read
  unfoldable pub encode_read : Codec F → FrozenSnapshot → Dict ℤ (Dict Text (MemberState F)) → Job F
  unfolding encoded
  encode_read gob f acc = encoded (
      gob.encode
        (record { key_groups = acc; watermark_nanos = f.watermark_nanos; last_seq = f.last_seq }))

module _ {F S : Type 0} where
  abbrev pub with_job : Running F S → Job F → Running F S
  with_job r job = record r { snapshots = record r.snapshots { job = job } }

  -- finish, without its log
  unfoldable pub finish : Running F S → Running F S
  finish r = record (with_job r idle) { core = end_snapshot r.core }

  -- the start of a snapshot
  unfoldable pub start : Time → Running F S → Running F S
  start now r =
      let (c, f) = begin_snapshot r.core in
      record r { core = c; snapshots = record r.snapshots { last = now; job = reading f 0 [] } }

  -- The clock is read twice: to see whether a snapshot is due, and to note when it began.
  unfoldable pub start_if_due : Time → Time → Running F S → Running F S
  start_if_due now now' r =
      if ltb_ℤ (sub_time now r.snapshots.last) r.snapshots.interval then r else start now' r

  -- tick where snapshots are on, by the job in flight
  unfoldable pub tick_on : Time → Time → Job F → Running F S → Running F S
  tick_on now now' idle r = start_if_due now now' r
  tick_on now now' (finished ok) r = start_if_due now now' (finish r)
  tick_on now now' (reading f kg acc) r = r
  tick_on now now' (writing payload) r = r

  unfoldable pub tick : Time → Time → Running F S → Running F S
  tick now now' r = if is_off r.snapshots then r else tick_on now now' r.snapshots.job r

  -- one step of the goroutine
  unfoldable pub step_job : Codec F → Disk S → Job F → Running F S → Running F S
  unfolding encode_read
  step_job gob disk idle r = r
  step_job gob disk (finished ok) r = r
  step_job gob disk (reading f kg acc) r =
      if ltb kg num_key_groups
      then with_job r (reading f (suc kg) (acc ++ frozen_groups r.core.shard f.state kg 1))
      else with_job r (encode_read gob f acc)
  step_job gob disk (writing payload) r =
      let (store, ok) = write_snapshot_file disk r.store r.snapshots.path payload in
      with_job (record r { store = store }) (finished ok)

  unfoldable pub work : Codec F → Disk S → Running F S → Running F S
  work gob disk r = step_job gob disk r.snapshots.job r

  -- the steps that a goroutine takes until it has sent its result
  unfoldable pub work_on : ℕ → Codec F → Disk S → Running F S → Running F S
  work_on zero gob disk r = r
  work_on (suc n) gob disk r = work_on n gob disk (work gob disk r)

  -- `<-s.done` waits for the goroutine, which reads what is left of the key groups, encodes, and
  -- writes
  unfoldable pub await_job : Codec F → Disk S → Job F → Running F S → Running F S
  await_job gob disk idle r = r
  await_job gob disk (finished ok) r = finish r
  await_job gob disk (writing payload) r = finish (work gob disk r)
  await_job gob disk (reading f kg acc) r = finish (work_on (num_key_groups + 2) gob disk r)

  -- drain
  unfoldable pub drain_snapshots : Codec F → Disk S → Running F S → Running F S × Bool
  drain_snapshots gob disk r =
      if r.snapshots.path == []
      then (r, true)
      else (let r' = await_job gob disk r.snapshots.job r in
          let (c, store, ok) = snapshot_to_file disk gob r'.core r'.store r'.snapshots.path in
          (record r' { core = c; store = store }, ok))
