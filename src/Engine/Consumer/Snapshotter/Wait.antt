-- ===== src/Engine/Consumer/Snapshotter/Wait.antt =====
-- The wait of drain in consumer.go: the goroutine always sends a result.
use rule_engine.Prelude.{
  ℕ, zero, suc, ◌+◌, ◌-◌, ◌<◌, ◌≤◌, ◌≡◌, refl, Bool, Option, none, some, arith, inl, inr,
  Bool-cases, ltb, ℤ, int_eq,
}
use rule_engine.Text.{Text}
use rule_engine.Dict.{Dict}
use rule_engine.Engine.KeyGroup.{num_key_groups}
use rule_engine.Engine.Member.{MemberState}
use rule_engine.Engine.Snapshot.{FrozenSnapshot, Codec}
use rule_engine.Engine.Consumer.{Disk}
use rule_engine.Engine.Consumer.Snapshotter.{
  Job, idle, reading, writing, finished, Running, work, step_job, encode_read, encoded, work_on,
}

-- the most steps that a goroutine still takes
abbrev pub steps_left : {F : Type 0} → Job F → ℕ
steps_left idle = 0
steps_left (finished ok) = 0
steps_left (writing payload) = 1
steps_left (reading f kg acc) = (num_key_groups - kg) + 2

-- a goroutine is there, or has sent its result
abbrev pub IsBegun : {F : Type 0} → Job F → Type 0
IsBegun idle = ⊥
IsBegun (finished ok) = Unit
IsBegun (writing payload) = Unit
IsBegun (reading f kg acc) = Unit

encoded_lem :
    (F : Type 0) (out : Option Text)
    → IsBegun {F = F} (encoded out) × (steps_left {F = F} (encoded out) ≤ 1)
unfolding encoded
encoded_lem F none = (tt, omega arith)
encoded_lem F (some payload) = (tt, omega arith)

module _ {F : Type 0} (gob : Codec F) where
  encode_read_lem :
      (f : FrozenSnapshot) (acc : Dict ℤ (Dict Text (MemberState F)))
      → IsBegun (encode_read gob f acc) × (steps_left (encode_read gob f acc) ≤ 1)
  unfolding encode_read
  encode_read_lem f acc = encoded_lem F (gob.encode _)

module _ {F S : Type 0} (gob : Codec F) (disk : Disk S) where
  step_job_lem :
      (r : Running F S) (job : Job F) (n : ℕ)
      → r.snapshots.job ≡ job
      → IsBegun job
      → steps_left job ≤ suc n
      → IsBegun (step_job gob disk job r).snapshots.job
        × (steps_left (step_job gob disk job r).snapshots.job ≤ n)
  unfolding step_job
  step_job_lem r idle n e b h = elim b [ ]
  step_job_lem r (finished ok) n e b h = rw e (tt, omega arith)
  step_job_lem r (writing payload) n e b h = (tt, omega arith)
  step_job_lem r (reading f kg acc) n e b h = elim (Bool-cases (ltb kg num_key_groups)) [
    | inl more ↦ rw more (tt, (let left : kg < num_key_groups = ground arith in omega arith))
    | inr all ↦ let (begun, few) = encode_read_lem gob f acc in rw all (begun, omega arith)
  ]

  begun_finished :
      (job : Job F) → IsBegun job → steps_left job ≤ 0 → (ok : Bool) × (job ≡ finished ok)
  begun_finished idle b h = elim b [ ]
  begun_finished (finished ok) b h = (ok, refl)
  begun_finished (writing payload) b h = absurd (omega arith)
  begun_finished (reading f kg acc) b h = absurd (omega arith)

  -- A snapshot that was begun has its result after as many steps as it has key groups left to read,
  -- one to encode and one to write: the wait of drain ends.
  pub work_on-finished :
      (n : ℕ) (r : Running F S)
      → IsBegun r.snapshots.job
      → steps_left r.snapshots.job ≤ n
      → (ok : Bool) × ((work_on n gob disk r).snapshots.job ≡ finished ok)
  unfolding work_on work
  work_on-finished zero r b h = begun_finished r.snapshots.job b h
  work_on-finished (suc n) r b h =
      let (begun, fewer) = step_job_lem r r.snapshots.job n refl b h in
      work_on-finished n (step_job gob disk r.snapshots.job r) begun fewer
