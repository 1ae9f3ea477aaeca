-- ===== src/Engine/RuleView/Restart.antt =====
-- A restart from a snapshot (Snapshot and Restore of snapshot.go), as the rules see it.
use rule_engine.Prelude.{
  ℤ, ◌≡◌, refl, sym, ap, ◌∙◌, ◌&&◌, not, List, Option, none, some, Each, int_eq,
}
use mathlib.Core.Option
use rule_engine.Text.{Text, text_eq}
use rule_engine.Float.{Float}
use rule_engine.Dict.{Dict}
use rule_engine.Dict.Distinct.{DistinctKeys}
use rule_engine.Engine.Event.{BehaviorEvent}
use rule_engine.Engine.Member.{MemberState}
use rule_engine.Engine.Shard.{member}
use rule_engine.Engine.Shard.Valid.{IsValid}
use rule_engine.Engine.Shard.CopyOnWrite.{unversioned}
use rule_engine.Engine.Core.{Core}
use rule_engine.Engine.Reachable.{Reachable, Reachable-IsValid}
use rule_engine.Engine.Reachable.Keys.{Reachable-HasDistinctKeys}
use rule_engine.Engine.Snapshot.{
  Snapshot, Codec, restored, take_snapshot, begin_snapshot, frozen_view, restore,
  rebuild_negative_deadlines,
}
use rule_engine.Engine.Snapshot.RoundTrip.{IsDecoded, take_snapshot-restore, filled, emptied}
use rule_engine.Engine.Snapshot.Valid.Restored.{
  restore_parts, restore_groups-IsValid, emptied-IsValid, decoded-Unstamped,
}
use rule_engine.Engine.Shard.{Shard}
use rule_engine.Engine.RuleView.{base_of, view_of, process_all}
use rule_engine.Engine.RuleView.OnTime.{Shows}
use rule_engine.Engine.RuleView.Refines.{all-Shows, process_all-see_all}

base_of-unversioned :
    {F : Type 0} (o : Option (MemberState F)) → base_of (Option.map unversioned o) ≡ base_of o
base_of-unversioned none = refl
base_of-unversioned (some ms) = refl

-- two cores with the same rules and settings
pub record SameSettings {F : Type 0} (c d : Core F) : Type 0 where
  pub rule_set : d.rule_set ≡ c.rule_set
  pub max_window : d.max_window ≡ c.max_window
  pub allowed_lateness : d.allowed_lateness ≡ c.allowed_lateness
  pub reports_late : (d.has_late_sink && not d.replaying) ≡ (c.has_late_sink && not c.replaying)

module _ {F : Type 0} where
  -- Restore fills the core that it is given, under that core's settings.
  filled_lem :
      (d : Core F) (snap : Snapshot F) (t : Shard F)
      → ((filled d snap t).shard ≡ t) × SameSettings d (filled d snap t)
  unfolding rebuild_negative_deadlines
  filled_lem d snap t = (
    refl,
    record { rule_set = refl; max_window = refl; allowed_lateness = refl; reports_late = refl },
  )

  restored-Shows :
      (c d e : Core F) (snap : Snapshot F) (t : Shard F)
      → SameSettings c d
      → e ≡ filled d snap t
      → IsValid t
      → e.watermark ≡ c.watermark
      → ((id : Text) → member e.shard id ≡ Option.map unversioned (member c.shard id))
      → Shows e (view_of c)
  unfolding view_of
  restored-Shows c d e snap t same whole v watermark members =
      let (shard, settings) = filled_lem d snap t in
      record {
        valid = rw (whole, shard) v;
        rule_set = ap (λ x. x.rule_set) whole ∙ settings.rule_set ∙ same.rule_set;
        max_window = ap (λ x. x.max_window) whole ∙ settings.max_window ∙ same.max_window;
        allowed_lateness =
            ap (λ x. x.allowed_lateness) whole ∙ settings.allowed_lateness ∙ same.allowed_lateness;
        reports_late =
            ap (λ x. x.has_late_sink && not x.replaying) whole
            ∙ settings.reports_late
            ∙ same.reports_late;
        watermark = watermark;
        members = λ id. ap base_of (members id) ∙ base_of-unversioned (member c.shard id);
      }

module _ {F : Type 0} (fl : Float F) where
  -- A restart loses nothing that the rules or the late sink see. If a core that the operations lead
  -- to is written to a snapshot and read back into another such core with the same rules, settings
  -- and replay state, then Restore succeeds, and from there the restored core matches the same
  -- rules and reports the same late events as the first core would have, for any events. gob gives
  -- back what it was given, in maps whose keys are distinct.
  pub process_all-restore :
      (gob : Codec F) (c d : Core F) (payload : Text) (snap : Snapshot F)
      (events : List (BehaviorEvent F))
      → Reachable fl c
      → Reachable fl d
      → SameSettings c d
      → (take_snapshot gob c).1 ≡ some payload
      → gob.decode payload ≡ some snap
      → IsDecoded (frozen_view (begin_snapshot c).0.shard (begin_snapshot c).1) snap
      → Each (λ (p : ℤ × Dict Text (MemberState F)). DistinctKeys p.1) snap.key_groups
      → (e : Core F) × (restore gob d payload ≡ restored (e, c.last_seq))
        × (process_all ⦃fl = fl⦄ e events ≡ process_all ⦃fl = fl⦄ c events)
  process_all-restore gob c d payload snap events r q same written decodes decoded keys =
      let (e, done, watermark, seq, members) =
        take_snapshot-restore gob c d payload snap (Reachable-HasDistinctKeys fl c r) written
          decodes decoded in
      let (t, groups, whole) = restore_parts gob d e payload c.last_seq snap decodes done in
      let valid =
        restore_groups-IsValid (emptied d) t snap.key_groups
          (emptied-IsValid d (Reachable-IsValid fl d q)) (decoded-Unstamped _ snap decoded keys)
          groups in
      (
        e,
        done,
        all-Shows ⦃fl = fl⦄ e (view_of c) events
              (restored-Shows c d e snap t same whole valid watermark members)
            ∙ sym (process_all-see_all ⦃fl = fl⦄ c events r),
      )
