-- ===== src/Engine/RuleView/Drained.antt =====
-- The drain changes nothing that the rules see.
use rule_engine.Prelude.{
  ◌≡◌, refl, sym, ap, ◌∙◌, Bool, List, [], ◌∷◌, some, inl, inr, arith, Bool-cases, Option-cases,
  Each, length,
}
use rule_engine.Text.{Text, text_beq, text_beq_iff}
use rule_engine.Time.{Time, Duration}
use rule_engine.Rule.Keys.{CompiledRuleSet}
use rule_engine.Engine.Event.{MatchResult}
use rule_engine.Engine.Deadlines.{Deadline}
use rule_engine.Engine.Shard.{Shard, member}
use rule_engine.Engine.Shard.Valid.{IsValid}
use rule_engine.Engine.Shard.CopyOnWrite.{or_new}
use rule_engine.Engine.Shard.Frozen.{edit_member}
use rule_engine.Engine.Shard.Live.{edit_member-live}
use rule_engine.Engine.Core.{Core, parked_progress, fire_deadline, drain_negative_matches}
use rule_engine.Engine.Core.Drain.{popped, drain_induction}
use rule_engine.Engine.Core.Fire.{
  fire_stale, forget, parked-member, shard-fire_deadline, fire_deadline-IsValid,
}
use rule_engine.Engine.RuleView.{base, base_of}
use rule_engine.Engine.RuleView.Members.{base-unversioned}

-- what a core is set up with, and its watermark
abbrev pub Setting : Type 0 → Type 0
Setting F = CompiledRuleSet F × Duration × Duration × Bool × Bool × Time

abbrev pub setting : {F : Type 0} → Core F → Setting F
setting c =
    (c.rule_set, c.max_window, c.allowed_lateness, c.has_late_sink, c.replaying, c.watermark)

abbrev pub SameMembers : {F : Type 0} → Shard F → Shard F → Type 0
SameMembers s t = (id : Text) → base_of (member t id) ≡ base_of (member s id)

-- A valid core that shows the rules what `c` shows.
abbrev pub LooksLike : {F : Type 0} → Core F → Core F → Type 0
LooksLike c d = IsValid d.shard × (setting d ≡ setting c) × SameMembers c.shard d.shard

module _ {F : Type 0} where
  setting-fire_deadline :
      (c : Core F) (top : Deadline) → setting (fire_deadline c top).0 ≡ setting c
  unfolding fire_deadline
  setting-fire_deadline c top = ground arith

  forget-SameMembers :
      (s : Shard F) (id progress_id : Text) (ms : _)
      → IsValid s
      → member s id ≡ some ms
      → SameMembers s (edit_member s (id, forget progress_id))
  forget-SameMembers s id progress_id ms v there j =
      let (content, same, live) = edit_member-live s id (forget progress_id) v in
      ap base_of (live j) ∙ elim (Bool-cases (text_beq id j)) [
        | inr other ↦ rw (other) refl
        | inl self ↦ rw (self) (
            ap some (
              base-unversioned content (or_new id (member s id)) same
              ∙ ap (λ o. base (or_new id o)) there)
            ∙ ap base_of (sym there ∙ ap (member s) ((text_beq_iff id j).0 self)))
      ]

  fired-SameMembers :
      (c : Core F) (top : Deadline)
      → IsValid c.shard
      → SameMembers c.shard (fire_deadline c top).0.shard
  fired-SameMembers c top v = elim (Option-cases (parked_progress c top)) [
    | inl e ↦ rw (fire_stale c top e) (λ id. refl)
    | inr (p, e) ↦
        let (ms, there, found) = parked-member c top p e in
        rw (shard-fire_deadline c top p e)
          (forget-SameMembers c.shard top.member_id top.progress_id ms v there)
  ]

  nothing : (ms : List (MatchResult F)) → Each {0, 0} (λ m. Unit) ms
  nothing [] = tt
  nothing (m ∷ ms) = (tt, nothing ms)

  pub drain_negative_matches-LooksLike :
      (c : Core F) (watermark : Time)
      → IsValid c.shard
      → LooksLike c (drain_negative_matches c watermark).0
  unfolding drain_negative_matches
  drain_negative_matches-LooksLike c watermark v =
      (drain_induction watermark (LooksLike c) (λ m. Unit)
        (λ d top due (valid, same, members). (
          fire_deadline-IsValid (popped d) top valid,
          setting-fire_deadline (popped d) top ∙ same,
          λ id. fired-SameMembers (popped d) top valid id ∙ members id,
        ))
        (λ d top due h. nothing (fire_deadline (popped d) top).1) (length c.neg_deadlines) c
        (v, refl, λ id. refl)).0
