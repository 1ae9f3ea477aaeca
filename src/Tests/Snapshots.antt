-- ===== src/Tests/Snapshots.antt =====
-- Snapshots: a shard with one member, written and read back.
use rule_engine.Prelude.{
  ℤ, ℤ, ℤ, pos, ◌≡◌, refl, [], ◌∷◌, none, some, ℤ, Option, nat_eq, sym, ◌∙◌, arith, negsuc, int_eq,
}
use mathlib.Core.Option
use rule_engine.Text.{Text, bytes, text_eq}
use rule_engine.Dict
use rule_engine.Dict.{Dict}
use rule_engine.Engine.Member.{MemberState}
use rule_engine.Engine.Shard.{member}
use rule_engine.Engine.Shard.CopyOnWrite.{unversioned}
use rule_engine.Engine.Shard.Shared.{
  new_shard-HasDistinctKeys, HasDistinctKeys, HasDistinctKeys-IsKept,
}
use rule_engine.Engine.Shard.Live.{new_shard-IsValid}
use rule_engine.Engine.Writes.{process_event-IsKept}
use rule_engine.Engine.Core.{Core, new_core, process_event}
use rule_engine.Engine.Snapshot.{
  key_group_out_of_range, failed, restore_snapshot, Codec, Snapshot, restored, restore,
  begin_snapshot, frozen_view,
}
use rule_engine.Dict.Distinct.{DistinctKeys}
use rule_engine.Engine.KeyGroup.{num_key_groups}
use rule_engine.Engine.Snapshot.Lookup.{frozen_groups-DistinctKeys}
use rule_engine.Engine.Snapshot.RoundTrip.{SameGroup, IsDecoded, take_snapshot-restore}
use rule_engine.Tests.Program.{program}
use rule_engine.Tests.Samples.{int_float, alice, no_rules, event_of}

abbrev visited : Core ℤ
visited =
    record (process_event (new_core (pos 0) no_rules [])
      (event_of (bytes "e1") alice (bytes "Visit") 1000)).core { last_seq = 41 }

abbrev mapped : {K V W : Type 0} → (V → W) → Dict K V → Dict K W
mapped f [] = []
mapped f ((k, v) ∷ m) = (k, f v) ∷ mapped f m

get-mapped_members :
    (m : Dict Text (MemberState ℤ)) (id : Text)
    → Dict.get (mapped unversioned m) id ≡ Option.map unversioned (Dict.get m id)
unfolding Dict.get
get-mapped_members [] id = refl
get-mapped_members ((k, v) ∷ m) id = ground (arith, get-mapped_members m id)

mapped-SameGroup :
    (o : Option (Dict Text (MemberState ℤ))) → SameGroup o (Option.map (mapped unversioned) o)
mapped-SameGroup none = tt
mapped-SameGroup (some m) = get-mapped_members m

get-mapped_groups :
    (m : Dict ℤ (Dict Text (MemberState ℤ))) (kg : ℤ)
    → Option.map (mapped unversioned) (Dict.get m kg) ≡ Dict.get (mapped (mapped unversioned) m) kg
unfolding Dict.get
get-mapped_groups [] kg = refl
get-mapped_groups ((k, v) ∷ m) kg = ground (arith, get-mapped_groups m kg)

mapped_missing :
    (m : Dict ℤ (Dict Text (MemberState ℤ))) (kg : ℤ)
    → Dict.get m kg ≡ none
    → Dict.get (mapped (mapped unversioned) m) kg ≡ none
mapped_missing m kg e = sym (get-mapped_groups m kg) ∙ rw e refl

mapped-DistinctKeys :
    (m : Dict ℤ (Dict Text (MemberState ℤ)))
    → DistinctKeys m
    → DistinctKeys (mapped (mapped unversioned) m)
mapped-DistinctKeys [] d = tt
mapped-DistinctKeys ((k, v) ∷ m) (fresh, d) = (mapped_missing m k fresh, mapped-DistinctKeys m d)

-- what encode gives to gob, and what gob gives back
abbrev pub view_at : Core ℤ → Snapshot ℤ
view_at c = frozen_view (begin_snapshot c).0.shard (begin_snapshot c).1

abbrev pub decoded_view : Core ℤ → Snapshot ℤ
decoded_view c = record (view_at c) {
  key_groups = mapped (mapped unversioned) (view_at c).key_groups;
}

abbrev pub one_blob : Core ℤ → Codec ℤ
one_blob c = record { encode = λ snap. some (bytes "blob"); decode = λ blob. some (decoded_view c) }

pub view_at-IsDecoded : (c : Core ℤ) → IsDecoded (view_at c) (decoded_view c)
view_at-IsDecoded c = record {
  watermark = refl;
  last_seq = refl;
  distinct = mapped-DistinctKeys (view_at c).key_groups (
      unfold frozen_view in
      frozen_groups-DistinctKeys (begin_snapshot c).0.shard (begin_snapshot c).1.state
        num_key_groups 0);
  groups = λ kg.
      rw (get-mapped_groups (view_at c).key_groups kg) at
        (mapped-SameGroup (Dict.get (view_at c).key_groups kg));
}

visited-HasDistinctKeys : HasDistinctKeys visited.shard
visited-HasDistinctKeys =
    process_event-IsKept HasDistinctKeys HasDistinctKeys-IsKept (new_core (pos 0) no_rules [])
      (event_of (bytes "e1") alice (bytes "Visit") 1000) (unfold program in new_shard-IsValid)
      (unfold program in new_shard-HasDistinctKeys ℤ)

take_snapshot-restore_example :
    (e : Core ℤ) × (restore (one_blob visited) (new_core (pos 0) no_rules []) (bytes "blob")
      ≡ restored (e, 41))
    × (e.watermark ≡ visited.watermark)
    × (e.last_seq ≡ 41)
    × ((id : Text) → member e.shard id ≡ Option.map unversioned (member visited.shard id))
take_snapshot-restore_example =
    take_snapshot-restore (one_blob visited) visited (new_core (pos 0) no_rules []) (bytes "blob")
      (decoded_view visited) visited-HasDistinctKeys (unfold program in refl) refl
      (view_at-IsDecoded visited)

-- a key group below zero in what gob decodes
below_zero :
    restore_snapshot
      (new_core (pos 0) no_rules [])
      (record (view_at visited) { key_groups = (negsuc 0, []) ∷ [] })
    ≡ failed (key_group_out_of_range (negsuc 0))
unfolding program
below_zero = refl
