-- ===== src/Tests/Consumers.antt =====
-- Consumers: a file system of named files, a codec that keeps the position, and a snapshot.
use rule_engine.Prelude.{
  ◌≡◌, refl, ◌∙◌, [], ◌∷◌, Bool, true, false, Option, none, some, ℤ, pos, arith, if◌then◌else◌,
  ◌==◌, ◌+◌,
}
use rule_engine.Text.{Text, bytes, text_eq, text_beq_iff}
use rule_engine.Dict
use rule_engine.Dict.{Dict, get-put}
use rule_engine.Engine.Event.{BehaviorEvent}
use rule_engine.Engine.Shard.Live.{new_shard-IsValid}
use rule_engine.Engine.Shard.Shared.{new_shard-HasDistinctKeys}
use rule_engine.Engine.Core.{new_core, process_event}
use rule_engine.Engine.Snapshot.{Codec, Snapshot, frozen_view, begin_snapshot}
use rule_engine.Engine.KeyGroup.{num_key_groups}
use rule_engine.Engine.Consumer.{Disk, temporary, write_snapshot_file}
use rule_engine.Engine.Consumer.Files.{IsLawful, write_snapshot_file-atomic}
use rule_engine.Engine.Consumer.Snapshotter.{
  Running, new_async_snapshotter, start, work_on, finished,
}
use rule_engine.Engine.Consumer.Snapshotter.Steps.{Runs, IsFresh, begun, handled, started}
use rule_engine.Engine.Consumer.Snapshotter.Written.{Runs-written, Runs-released}
use rule_engine.Engine.Consumer.Snapshotter.Wait.{work_on-finished}
use rule_engine.Engine.Consumer.Runs.{work_on-Runs}
use rule_engine.Tests.Program.{program}
use rule_engine.Tests.Samples.{int_float, alice, at_second, no_rules, event_of}

abbrev pub Files : Type 0
Files = Dict Text Text

-- the file under its new name, which takes the place of what was there
abbrev move : Files → Text → Text → Option Text → Files × Bool
move s p q none = (s, false)
move s p q (some d) = (Dict.put s q d, true)

abbrev pub files : Disk Files
files = record {
  read_file = Dict.get;
  write_file = λ s p d. (Dict.put s p d, true);
  rename = λ s p q. move s p q (Dict.get s p);
}

-- The position is all that this codec keeps.
abbrev pub positions : Codec ℤ
positions = record { encode = λ snap. some (snap.last_seq ∷ []); decode = λ blob. none }

abbrev pub path : Text
path = bytes "s"

same_text : (p : Text) → (p == p) ≡ true
same_text p = (text_beq_iff p p).1 refl

move-read :
    (s : Files) (p q : Text) (d : Option Text)
    → d ≡ Dict.get s p
    → (move s p q d).1 ≡ true
    → Dict.get (move s p q d).0 q ≡ Dict.get s p
move-read s p q none e ok = cc ok
move-read s p q (some d) e ok = get-put s q q d ∙ rw (same_text q) e

move-failed :
    (s : Files) (p q r : Text) (d : Option Text)
    → (move s p q d).1 ≡ false
    → Dict.get (move s p q d).0 r ≡ Dict.get s r
move-failed s p q r none lost = refl
move-failed s p q r (some d) lost = cc lost

files-IsLawful : IsLawful files
files-IsLawful = record {
  write-read = λ s p d ok. get-put s p p d ∙ rw (same_text p) refl;
  write-other = λ s p d q other. ground (arith, get-put s p q d, text_beq_iff p q, other);
  rename-read = λ s p q ok. move-read s p q (Dict.get s p) refl ok;
  rename-failed = λ s p q r lost. move-failed s p q r (Dict.get s p) lost;
}

abbrev visit : BehaviorEvent ℤ
visit = event_of (bytes "e1") alice (bytes "Visit") 1000

-- each payload but "bad" is a visit
abbrev pub unmarshal : Text → Option (BehaviorEvent ℤ)
unmarshal payload =
    if payload == bytes "bad" then none else some (event_of payload alice (bytes "Visit") 1000)

abbrev fresh : Running ℤ Files
fresh = record {
  core = new_core (pos 0) no_rules [];
  snapshots = new_async_snapshotter path (pos 1) (at_second 0);
  store = [];
}

fresh-IsFresh : IsFresh fresh
unfolding program
fresh-IsFresh = record {
  valid = new_shard-IsValid;
  distinct = new_shard-HasDistinctKeys ℤ;
  not_frozen = refl;
  no_job = refl;
}

abbrev pub visited : Running ℤ Files
visited = record fresh { core = (process_event fresh.core visit).core }

pub visited-Runs : Runs int_float positions files visited none
visited-Runs = handled fresh none visit (begun fresh fresh-IsFresh)

write_snapshot_file-atomic_example :
    ((write_snapshot_file files [] path (bytes "new")).1 ≡ true
      → files.read_file (write_snapshot_file files [] path (bytes "new")).0 path
        ≡ some (bytes "new"))
    × ((write_snapshot_file files [] path (bytes "new")).1 ≡ false
        → files.read_file (write_snapshot_file files [] path (bytes "new")).0 path
          ≡ files.read_file [] path)
    × (files.read_file (files.write_file [] (temporary path) (bytes "new")).0 path
        ≡ files.read_file [] path)
write_snapshot_file-atomic_example =
    write_snapshot_file-atomic files files-IsLawful [] path (bytes "new")

Runs-released_example : visited.core.shard.frozen_epoch ≡ 0
Runs-released_example =
    Runs-released positions files int_float files-IsLawful visited none visited-Runs
      (unfold program in refl)

-- a snapshot of the visit is begun, and its goroutine runs to its end
abbrev snapping : Running ℤ Files
snapping = start (at_second 9) visited

abbrev taken : Snapshot ℤ
taken = frozen_view visited.core.shard (begin_snapshot visited.core).1

snapping-Runs : Runs int_float positions files snapping (some taken)
snapping-Runs = started visited none (at_second 9) (unfold program in refl) visited-Runs

abbrev snapped : Running ℤ Files
snapped = work_on (num_key_groups + 2) positions files snapping

snapped-finished : snapped.snapshots.job ≡ finished true
unfolding program
snapped-finished = refl

Runs-written_example :
    (snap : Snapshot ℤ) × (payload : Text) × (some taken ≡ some snap)
    × (positions.encode snap ≡ some payload)
    × (files.read_file snapped.store snapped.snapshots.path ≡ some payload)
Runs-written_example =
    Runs-written positions files int_float files-IsLawful snapped (some taken)
      (work_on-Runs positions files (num_key_groups + 2) snapping (some taken) snapping-Runs)
      snapped-finished

work_on-finished_example : (ok : Bool) × (snapped.snapshots.job ≡ finished ok)
work_on-finished_example =
    work_on-finished positions files (num_key_groups + 2) snapping (unfold program in tt)
      (unfold program in omega arith)
