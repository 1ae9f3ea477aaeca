-- ===== src/Engine/Snapshot/RoundTrip.antt =====
-- Snapshot of snapshot.go, then Restore: the member states come back.
use rule_engine.Prelude.{
  ℕ, ◌≡◌, refl, sym, ap, ◌∙◌, Option, none, some, arith, inl, inr, Option-cases, int_eq, ℤ, pos,
  negsuc, Bool-cases, ltb,
}
use mathlib.Core.Option
use rule_engine.Text.{Text, text_eq}
use rule_engine.Dict
use rule_engine.Dict.{Dict}
use rule_engine.Dict.Distinct.{DistinctKeys, Each-keys}
use rule_engine.Engine.KeyGroup.{num_key_groups, key_group_of}
use rule_engine.Engine.KeyGroup.Layout.{key_group_of-lt}
use rule_engine.Engine.Member.{MemberState}
use rule_engine.Engine.Shard.{Shard, find_in_group, freeze_state, member}
use rule_engine.Engine.Shard.CopyOnWrite.{unversioned}
use rule_engine.Engine.Shard.Shared.{HasDistinctKeys}
use rule_engine.Engine.Core.{Core}
use rule_engine.Engine.Snapshot.{
  Snapshot, Codec, restored, frozen_groups, frozen_view, begin_snapshot, take_snapshot,
  restore_groups, restore_snapshot, restore, rebuild_negative_deadlines,
}
use rule_engine.Engine.Snapshot.StoreGroup.{lookup, member-lookup, IsBelow}
use rule_engine.Engine.Snapshot.Restore.{RestoredGroups, InRange, restore_groups-RestoredGroups}
use rule_engine.Engine.Snapshot.Lookup.{
  find_member, get-frozen_groups, frozen_groups_after, frozen_groups-negsuc, written-lookup,
}

module _ {F : Type 0} where
  -- a key group before and after gob: the map has the same entries, without what is not exported
  abbrev pub SameGroup :
      Option (Dict Text (MemberState F)) → Option (Dict Text (MemberState F)) → Type 0
  SameGroup none none = Unit
  SameGroup none (some g') = ⊥
  SameGroup (some g) none = ⊥
  SameGroup (some g) (some g') =
      (id : Text) → Dict.get g' id ≡ Option.map unversioned (Dict.get g id)

  find-SameGroup :
      (o o' : Option (Dict Text (MemberState F))) (id : Text)
      → SameGroup o o'
      → find_member o' id ≡ Option.map unversioned (find_member o id)
  find-SameGroup none none id h = refl
  find-SameGroup none (some g') id h = elim h [ ]
  find-SameGroup (some g) none id h = elim h [ ]
  find-SameGroup (some g) (some g') id h = h id

-- What gob documents of a value that it encodes and decodes: fields and entries of maps are the
-- same, and fields that are not exported have the zero value. The maps of key groups and of members
-- come in an order of gob's own; those within a member are taken to keep their order here.
pub record IsDecoded {F : Type 0} (snap snap' : Snapshot F) : Type 0 where
  pub watermark : snap'.watermark_nanos ≡ snap.watermark_nanos
  pub last_seq : snap'.last_seq ≡ snap.last_seq
  pub distinct : DistinctKeys snap'.key_groups
  pub groups : (kg : ℤ) → SameGroup (Dict.get snap.key_groups kg) (Dict.get snap'.key_groups kg)

module _ {F : Type 0} (s : Shard F) (groups : Dict ℤ (Dict Text (MemberState F)))
    (same : (kg : ℤ)
      → SameGroup
          (Dict.get (frozen_groups s s.state 0 num_key_groups) kg)
          (Dict.get groups kg)) where
  out_of_range :
      (kg : ℤ) (o o' : Option (Dict Text (MemberState F))) (members : Dict Text (MemberState F))
      → o ≡ none
      → o' ≡ some members
      → SameGroup o o'
      → InRange kg
  out_of_range kg none none members e e' h = cc e'
  out_of_range kg none (some g) members e e' h = elim h [ ]
  out_of_range kg (some g) o' members e e' h = cc e

  in_range :
      (kg : ℤ) (members : Dict Text (MemberState F))
      → Dict.get groups kg ≡ some members
      → InRange kg
  in_range (negsuc n) members e =
      out_of_range (negsuc n) (Dict.get (frozen_groups s s.state 0 num_key_groups) (negsuc n))
        (Dict.get groups (negsuc n)) members (frozen_groups-negsuc s s.state num_key_groups 0 n) e
        (same (negsuc n))
  in_range (pos kg) members e = elim (Bool-cases (ltb kg num_key_groups)) [
    | inl below ↦ ground arith
    | inr past ↦
        out_of_range (pos kg) (Dict.get (frozen_groups s s.state 0 num_key_groups) (pos kg))
          (Dict.get groups (pos kg)) members
          (frozen_groups_after s s.state num_key_groups 0 kg (ground arith)) e (same (pos kg))
  ]

module _ {F : Type 0} (d : Core F) where
  -- the shard that Restore fills
  abbrev pub emptied : Shard F
  emptied = record d.shard { state = λ kg. none }

  emptied-IsBelow : IsBelow emptied
  unfolding find_in_group
  emptied-IsBelow = record { slots = λ kg b e. cc e; entries = λ kg id m e. cc e }

  restored_member :
      (groups : Dict ℤ (Dict Text (MemberState F))) (r : RestoredGroups emptied groups) (kg : ℕ)
      (id : Text)
      → lookup r.shard kg id ≡ find_member (Dict.get groups (pos kg)) id
  unfolding find_in_group
  restored_member groups r kg id = elim (Option-cases (Dict.get groups (pos kg))) [
    | inl e ↦ r.absent kg id e ∙ rw e refl
    | inr (members, e) ↦ r.there kg members id e ∙ rw e refl
  ]

  abbrev pub filled : Snapshot F → Shard F → Core F
  filled snap s =
      rebuild_negative_deadlines
        (record d { shard = s; watermark = snap.watermark_nanos; last_seq = snap.last_seq })

  restore_decoded :
      (gob : Codec F) (payload : Text) (snap : Snapshot F) (s : Shard F)
      → gob.decode payload ≡ some snap
      → restore_groups emptied snap.key_groups ≡ restored s
      → restore gob d payload ≡ restored (filled snap s, snap.last_seq)
  unfolding restore restore_snapshot
  restore_decoded gob payload snap s e h = ground arith

-- Snapshot and then Restore, into whatever core, of a shard whose maps have distinct keys: where gob
-- gives back what it was given, Restore succeeds, returns the position of the snapshot, sets the
-- watermark and the position, and every member reads as before, with its version reset.
pub take_snapshot-restore :
    {F : Type 0} (gob : Codec F) (c d : Core F) (payload : Text) (snap : Snapshot F)
    → HasDistinctKeys c.shard
    → (take_snapshot gob c).1 ≡ some payload
    → gob.decode payload ≡ some snap
    → IsDecoded (frozen_view (begin_snapshot c).0.shard (begin_snapshot c).1) snap
    → (e : Core F) × (restore gob d payload ≡ restored (e, c.last_seq))
      × (e.watermark ≡ c.watermark)
      × (e.last_seq ≡ c.last_seq)
      × ((id : Text) → member e.shard id ≡ Option.map unversioned (member c.shard id))
unfolding frozen_view begin_snapshot freeze_state rebuild_negative_deadlines
take_snapshot-restore gob c d payload snap keys encoded decodes same =
    let s = (freeze_state c.shard).0 in
    let r =
      restore_groups-RestoredGroups (emptied d) snap.key_groups (emptied-IsBelow d) same.distinct (
        Each-keys InRange snap.key_groups same.distinct (in_range s snap.key_groups same.groups)) in
    let kept = λ (id : Text).
      let kg = key_group_of id in
      member-lookup r.shard id
      ∙ restored_member d snap.key_groups r kg id
      ∙ find-SameGroup (Dict.get (frozen_groups s s.state 0 num_key_groups) (pos kg))
          (Dict.get snap.key_groups (pos kg)) id (same.groups (pos kg))
      ∙ ap (λ o. Option.map unversioned (find_member o id))
          (get-frozen_groups s s.state num_key_groups 0 kg (omega arith)
            (omega (arith, key_group_of-lt id)))
      ∙ ap (Option.map unversioned)
          (written-lookup s kg id keys ∙ sym (member-lookup c.shard id)) in
    (
      filled d snap r.shard,
      restore_decoded d gob payload snap r.shard decodes r.done
          ∙ ap (λ n. restored (filled d snap r.shard, n)) same.last_seq,
      same.watermark,
      same.last_seq,
      kept,
    )
