-- ===== src/Engine/Writes.antt =====
-- The writes of ProcessEvent to the shard (service/engine/core): each goes through memberForWrite, so
-- what memberForWrite and a write to an unshared member keep, every event keeps.
use rule_engine.Prelude.{
  ◌≡◌, refl, false, [], ◌∷◌, List, some, arith, inl, inr, Bool-cases, Option-cases, Each, length,
}
use rule_engine.Text.{Text}
use rule_engine.Time.{Time}
use rule_engine.Dict.{Dict}
use rule_engine.Float.{Float}
use rule_engine.Engine.Event.{BehaviorEvent, PatternProgress, MatchResult}
use rule_engine.Engine.Member.{MemberState}
use rule_engine.Engine.Deadlines.{Deadline}
use rule_engine.Engine.Shard.{Shard, Address, is_shared, member_for_write, write_member}
use rule_engine.Engine.Shard.Valid.{IsValid}
use rule_engine.Engine.Shard.Install.{write_member-IsValid}
use rule_engine.Engine.Shard.CopyOnWrite.{member_for_write-Writable}
use rule_engine.Engine.Shard.Frozen.{Edit, edit_member, edit_lem}
use rule_engine.Engine.Core.{
  Core, advance_watermark, is_late, fire_deadline, fold_event, drain_negative_matches,
  process_on_time, process_event, parked_progress,
}
use rule_engine.Engine.Core.Cases.{s, a, folded, late_event, on_time_event}
use rule_engine.Engine.Core.Drain.{popped, drain_induction}
use rule_engine.Engine.Core.Fire.{fire_stale, forget, shard-fire_deadline, fire_deadline-IsValid}

pub shard-advance_watermark :
    {F : Type 0} (c : Core F) (t : Time) → (advance_watermark c t).shard ≡ c.shard
unfolding advance_watermark
shard-advance_watermark c t = ground arith

pub version-fold_event :
    {F : Type 0} ⦃fl : Float F⦄ (c : Core F) (event : BehaviorEvent F) (ms : MemberState F)
    → (fold_event c event ms).version ≡ ms.version
unfolding fold_event
version-fold_event c event ms = refl

-- What memberForWrite keeps, and a write to a member that no snapshot shares.
pub record IsKept {F : Type 0} (P : Shard F → Type 0) : Type 0 where
  pub grows : (s : Shard F) (id : Text) → IsValid s → P s → P (member_for_write s id).0
  pub writes :
      (s : Shard F) (a : Address) (old new : MemberState F)
      → IsValid s
      → s.members a ≡ some old
      → is_shared s old.version ≡ false
      → new.version ≡ old.version
      → P s
      → P (write_member s a new)

module _ {F : Type 0} (P : Shard F → Type 0) (k : IsKept P) where
  pub edit_member-IsKept :
      (s : Shard F) (id : Text) (edit : Edit F) → IsValid s → P s → P (edit_member s (id, edit))
  edit_member-IsKept s id edit v p =
      let w = member_for_write-Writable s id v in
      rw (edit_lem s id edit v) (
        k.writes (member_for_write s id).0 (member_for_write s id).1 w.content (edit.run w.content)
          w.valid w.cell (ground (arith, w.unshared, w.frozen_epoch)) (edit.version w.content)
          (k.grows s id v p))

  fire_deadline-IsKept :
      (c : Core F) (top : Deadline) → IsValid c.shard → P c.shard → P (fire_deadline c top).0.shard
  fire_deadline-IsKept c top v p = elim (Option-cases (parked_progress c top)) [
    | inl e ↦ rw (fire_stale c top e) p
    | inr (x, e) ↦
        rw (shard-fire_deadline c top x e)
          (edit_member-IsKept c.shard top.member_id (forget top.progress_id) v p)
  ]

  nothing : (ms : List (MatchResult F)) → Each {0, 0} (λ m. Unit) ms
  nothing [] = tt
  nothing (m ∷ ms) = (tt, nothing ms)

  drain-IsKept :
      (c : Core F) (watermark : Time)
      → IsValid c.shard
      → P c.shard
      → P (drain_negative_matches c watermark).0.shard
  unfolding drain_negative_matches
  drain-IsKept c watermark v p =
      (drain_induction watermark (λ d. IsValid d.shard × P d.shard) (λ m. Unit)
        (λ d top due h.
          (fire_deadline-IsValid (popped d) top h.0, fire_deadline-IsKept (popped d) top h.0 h.1))
        (λ d top due h. nothing (fire_deadline (popped d) top).1) (length c.neg_deadlines) c
        (v, p)).0.1

  progresses-IsKept :
      (s t : Shard F) (a : Address) (ms : MemberState F)
      (progresses : Dict Text (PatternProgress F))
      → t ≡ s
      → IsValid s
      → s.members a ≡ some ms
      → is_shared s ms.version ≡ false
      → P s
      → IsValid (write_member t a (record ms { progresses = progresses }))
        × P (write_member t a (record ms { progresses = progresses }))
  progresses-IsKept s t a ms progresses e v there alone p = rw e (
    write_member-IsValid s a ms (record ms { progresses = progresses }) v there refl,
    k.writes s a ms (record ms { progresses = progresses }) v there alone refl p,
  )

  module _ ⦃fl : Float F⦄ where
    on_time-IsKept :
        (c : Core F) (a : Address) (ms : MemberState F) (event : BehaviorEvent F)
        → IsValid c.shard
        → c.shard.members a ≡ some ms
        → is_shared c.shard ms.version ≡ false
        → P c.shard
        → P (process_on_time c a ms event).core.shard
    unfolding process_on_time
    on_time-IsKept c a ms event v there alone p =
        let (valid, kept) =
          progresses-IsKept c.shard (advance_watermark c event.occurred_at).shard a ms _
            (shard-advance_watermark c event.occurred_at) v there alone p in
        drain-IsKept _ (advance_watermark c event.occurred_at).watermark valid kept

    pub process_event-IsKept :
        (c : Core F) (event : BehaviorEvent F)
        → IsValid c.shard
        → P c.shard
        → P (process_event c event).core.shard
    process_event-IsKept c event v p =
        let w = member_for_write-Writable c.shard event.member_id v in
        let alone : is_shared (s c event) w.content.version ≡ false =
          ground (arith, w.unshared, w.frozen_epoch) in
        let grown = k.grows c.shard event.member_id v p in
        let folds =
          k.writes (s c event) (a c event) w.content (fold_event c event w.content) w.valid w.cell
            alone (version-fold_event c event w.content) grown in
        let valid =
          write_member-IsValid (s c event) (a c event) w.content (fold_event c event w.content)
            w.valid w.cell (version-fold_event c event w.content) in
        elim (Bool-cases (is_late c event.occurred_at)) [
          | inl late ↦ rw (late_event c event w.content w.cell late) folds
          | inr early ↦ rw (on_time_event c event w.content w.cell early) (
              on_time-IsKept (folded c event w.content) (a c event) (fold_event c event w.content)
                event valid (unfold write_member in ground arith)
                (unfold write_member in ground (arith, alone, version-fold_event c event w.content))
                folds)
        ]
