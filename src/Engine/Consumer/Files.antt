-- ===== src/Engine/Consumer/Files.antt =====
-- The snapshot file of consumer.go: it is replaced as a whole or not at all.
use rule_engine.Prelude.{
  ◌≡◌, ◌≢◌, ap, ◌∙◌, Bool, true, false, some, arith, inl, inr, Bool-cases, length, length-append,
}
use rule_engine.Text.{Text, bytes}
use rule_engine.Engine.Consumer.{Disk, temporary, write_snapshot_file}

-- What the operating system documents of the three operations: a write concerns one file, and a
-- rename replaces its target at once, or fails and changes nothing.
pub record IsLawful {S : Type 0} (disk : Disk S) : Type 0 where
  pub write-read :
      (s : S) (p d : Text)
      → (disk.write_file s p d).1 ≡ true
      → disk.read_file (disk.write_file s p d).0 p ≡ some d
  pub write-other :
      (s : S) (p d q : Text)
      → q ≢ p
      → disk.read_file (disk.write_file s p d).0 q ≡ disk.read_file s q
  pub rename-read :
      (s : S) (p q : Text)
      → (disk.rename s p q).1 ≡ true
      → disk.read_file (disk.rename s p q).0 q ≡ disk.read_file s p
  pub rename-failed :
      (s : S) (p q r : Text)
      → (disk.rename s p q).1 ≡ false
      → disk.read_file (disk.rename s p q).0 r ≡ disk.read_file s r

not_temporary : (path : Text) → path ≢ temporary path
not_temporary path e = omega (arith, ap length e, length-append path (bytes ".tmp"))

module _ {S : Type 0} (disk : Disk S) (lawful : IsLawful disk) (store : S)
    (path payload : Text) where
  abbrev written : S × Bool
  written = disk.write_file store (temporary path) payload

  write_failed :
      written.1 ≡ false → write_snapshot_file disk store path payload ≡ (written.0, false)
  unfolding write_snapshot_file
  write_failed e = ground arith

  write_done :
      written.1 ≡ true
      → write_snapshot_file disk store path payload ≡ disk.rename written.0 (temporary path) path
  unfolding write_snapshot_file
  write_done e = ground arith

  untouched : disk.read_file written.0 path ≡ disk.read_file store path
  untouched = lawful.write-other store (temporary path) payload path (not_temporary path)

  -- On a lawful file system, writeSnapshotFile leaves the new snapshot at the path if it succeeds,
  -- and what was there before if it fails or stops before the rename.
  pub write_snapshot_file-atomic :
      ((write_snapshot_file disk store path payload).1 ≡ true
        → disk.read_file (write_snapshot_file disk store path payload).0 path ≡ some payload)
      × ((write_snapshot_file disk store path payload).1 ≡ false
          → disk.read_file (write_snapshot_file disk store path payload).0 path
            ≡ disk.read_file store path)
      × (disk.read_file (disk.write_file store (temporary path) payload).0 path
          ≡ disk.read_file store path)
  write_snapshot_file-atomic = elim (Bool-cases written.1) [
    | inl e ↦ rw (write_done e) (
      (λ ok.
          lawful.rename-read written.0 (temporary path) path ok
          ∙ lawful.write-read store (temporary path) payload e),
      (λ no. lawful.rename-failed written.0 (temporary path) path path no ∙ untouched),
      untouched,
    )
    | inr e ↦ rw (write_failed e) ((λ ok. cc ok), (λ no. untouched), untouched)
  ]
