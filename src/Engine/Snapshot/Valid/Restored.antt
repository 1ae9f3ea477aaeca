-- ===== src/Engine/Snapshot/Valid/Restored.antt =====
-- Restore of snapshot.go: its parts, and that the restored shard is valid.
use rule_engine.Prelude.{
  ℕ, ◌≡◌, refl, sym, ap, ◌∙◌, [], ◌∷◌, Option, none, some, arith, inl, inr, Option-cases, Each,
  nat_eq, ◌⊎◌, ℤ, pos, negsuc, int_eq,
}
use mathlib.Core.Option
use mathlib.Core.Option.{none-ne-some}
use rule_engine.Text.{Text, text_eq}
use rule_engine.Dict
use rule_engine.Dict.{Dict}
use rule_engine.Dict.Distinct.{DistinctKeys, Each-entries, Each-get}
use rule_engine.Engine.Member.{MemberState}
use rule_engine.Engine.Shard.{Shard, address_in, find_in_group}
use rule_engine.Engine.Shard.CopyOnWrite.{unversioned}
use rule_engine.Engine.Shard.Valid.{IsValid}
use rule_engine.Engine.Core.{Core}
use rule_engine.Engine.Snapshot.{
  ℤ, Snapshot, Codec, Restored, restored, failed, store_group, restore_groups, restore_snapshot,
  restore,
}
use rule_engine.Engine.Snapshot.RoundTrip.{SameGroup, IsDecoded, emptied, filled}
use rule_engine.Engine.Snapshot.Valid.{Unstamped}
use rule_engine.Engine.Snapshot.Valid.Group.{store_group-IsValid}

Restored-cases :
    {A : Type 0} → (r : Restored A) → ((x : A) × (r ≡ restored x)) ⊎ ((e : _) × (r ≡ failed e))
Restored-cases (restored x) = inl (x, refl)
Restored-cases (failed e) = inr (e, refl)

module _ {F : Type 0} where
  -- what Restore leaves, if it succeeds
  pub restore_parts :
      (gob : Codec F) (d e : Core F) (payload : Text) (n : ℕ) (snap : Snapshot F)
      → gob.decode payload ≡ some snap
      → restore gob d payload ≡ restored (e, n)
      → (t : Shard F) × (restore_groups (emptied d) snap.key_groups ≡ restored t)
        × (e ≡ filled d snap t)
  unfolding restore restore_snapshot
  restore_parts gob d e payload n snap decodes h =
      elim (Restored-cases (restore_groups (emptied d) snap.key_groups)) [
        | inr (x, bad) ↦ ground (arith, decodes, bad, h)
        | inl (t, good) ↦ (t, good, ground (arith, decodes, good, h))
      ]

  pub restore_groups-IsValid :
      (s t : Shard F) (groups : Dict ℤ (Dict Text (MemberState F)))
      → IsValid s
      → Each (λ (p : ℤ × Dict Text (MemberState F)). Unstamped p.1) groups
      → restore_groups s groups ≡ restored t
      → IsValid t
  unfolding restore_groups
  restore_groups-IsValid s t [] v h e = let same : s ≡ t = ground (arith, e) in rw (sym same) v
  restore_groups-IsValid s t ((negsuc n, members) ∷ rest) v h e = absurd (ground (arith, e))
  restore_groups-IsValid s t ((pos kg, members) ∷ rest) v (now, h) e =
      restore_groups-IsValid (store_group s kg members) t rest
        (store_group-IsValid s kg members v now) h (ground (arith, e))

  pub emptied-IsValid : (d : Core F) → IsValid d.shard → IsValid (emptied d)
  unfolding address_in find_in_group
  emptied-IsValid d v = record {
    free_groups = v.free_groups;
    free_members = v.free_members;
    epochs = v.epochs;
    slots = λ kg a e. cc e;
    entries = λ kg a g id m e c f. cc e;
    group_versions = v.group_versions;
    member_versions = v.member_versions;
    slots_apart = λ j k a e q. cc e;
    members_apart = λ i j m e q. cc e;
  }

  unstamped_value :
      (o : Option (Dict Text (MemberState F))) (g : Dict Text (MemberState F)) (id : Text)
      (ms : MemberState F)
      → SameGroup o (some g)
      → Dict.get g id ≡ some ms
      → ms.version ≡ 0
  unstamped_value none g id ms h e = elim h [ ]
  unstamped_value (some g') g id ms h e = elim (Option-cases (Dict.get g' id)) [
    | inl gone ↦ absurd (none-ne-some _ (sym (ap (Option.map unversioned) gone) ∙ sym (h id) ∙ e))
    | inr (old, there) ↦
        let same : unversioned old ≡ ms =
          ground (arith, ap (Option.map unversioned) there, h id, e) in
        ap (λ m. m.version) (sym same)
  ]

  pub decoded-Unstamped :
      (snap snap' : Snapshot F)
      → IsDecoded snap snap'
      → Each (λ (p : ℤ × Dict Text (MemberState F)). DistinctKeys p.1) snap'.key_groups
      → Each (λ (p : ℤ × Dict Text (MemberState F)). Unstamped p.1) snap'.key_groups
  decoded-Unstamped snap snap' same keys =
      Each-entries Unstamped snap'.key_groups same.distinct (λ kg g there.
        Each-entries (λ ms. ms.version ≡ 0) g
          (Each-get DistinctKeys snap'.key_groups kg g keys there)
          (λ id ms found.
            unstamped_value (Dict.get snap.key_groups kg) g id ms (rw (there) at (same.groups kg))
              found))
