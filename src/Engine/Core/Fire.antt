-- ===== src/Engine/Core/Fire.antt =====
-- One popped deadline: what it emits, and that a progress fires at most once.
use rule_engine.Prelude.{◌≡◌, refl, ◌∙◌, [], ◌∷◌, none, some, arith, Each, inl, inr, Option-cases}
use rule_engine.Text.{Text, text_eq, text_beq_iff}
use rule_engine.Dict
use rule_engine.Dict.{get-delete}
use rule_engine.Engine.Event.{PatternProgress}
use rule_engine.Engine.Member.{MemberState}
use rule_engine.Engine.Deadlines.{Deadline}
use rule_engine.Engine.Shard.{member}
use rule_engine.Engine.Shard.Valid.{IsValid}
use rule_engine.Engine.Shard.Frozen.{Edit, edit_at, edit_member, edit_member-IsValid}
use rule_engine.Engine.Shard.Live.{edit_member-live}
use rule_engine.Engine.Cep.Pattern.{CompiledPattern, pattern_by_id}
use rule_engine.Engine.Cep.Advance.{match_result}
use rule_engine.Engine.Core.{Core, parked_progress, fire_deadline}

-- `delete(ms.Progresses, id)` as an edit
abbrev pub forget : {F : Type 0} → Text → Edit F
forget id = record {
  run = λ ms. record ms { progresses = Dict.delete ms.progresses id };
  version = λ ms. refl;
}

module _ {F : Type 0} (c : Core F) (top : Deadline) where
  pub fire_stale : parked_progress c top ≡ none → fire_deadline c top ≡ (c, [])
  unfolding fire_deadline
  fire_stale e = ground arith

  pub parked-deadline :
      (p : PatternProgress F) → parked_progress c top ≡ some p → p.negative_deadline ≡ top.deadline
  unfolding parked_progress
  parked-deadline p e = ground arith

  pub parked-member :
      (p : PatternProgress F)
      → parked_progress c top ≡ some p
      → (ms : MemberState F) × (member c.shard top.member_id ≡ some ms)
        × (Dict.get ms.progresses top.progress_id ≡ some p)
  unfolding parked_progress
  parked-member p e = ground arith

  -- the shard of a deadline that is not stale
  pub shard-fire_deadline :
      (p : PatternProgress F)
      → parked_progress c top ≡ some p
      → (fire_deadline c top).0.shard ≡ edit_member c.shard (top.member_id, forget top.progress_id)
  unfolding fire_deadline edit_member edit_at
  shard-fire_deadline p e = ground arith

  emitted :
      (p : PatternProgress F)
      → parked_progress c top ≡ some p
      → Each (λ m. m.matched_at ≡ p.negative_deadline) (fire_deadline c top).1
  unfolding fire_deadline
  emitted p e = elim (Option-cases (pattern_by_id c.patterns p.pattern_id)) [
    | inl q ↦ rw (no_pattern q) tt
    | inr (cp, q) ↦ rw (with_pattern cp q) (refl, tt)
  ]
    where
      no_pattern : pattern_by_id c.patterns p.pattern_id ≡ none → (fire_deadline c top).1 ≡ []
      no_pattern q = ground arith

      with_pattern :
          (cp : CompiledPattern F)
          → pattern_by_id c.patterns p.pattern_id ≡ some cp
          → (fire_deadline c top).1
            ≡ match_result cp p.member_id p.variables p.negative_deadline ∷ []
      with_pattern cp q = ground arith

  -- a match is dated by the deadline that fired
  pub matched_at-fire_deadline : Each (λ m. m.matched_at ≡ top.deadline) (fire_deadline c top).1
  matched_at-fire_deadline = elim (Option-cases (parked_progress c top)) [
    | inl e ↦ rw (fire_stale e) tt
    | inr (p, e) ↦ rw (parked-deadline p e) at (emitted p e)
  ]

  pub fire_deadline-IsValid : IsValid c.shard → IsValid (fire_deadline c top).0.shard
  fire_deadline-IsValid v = elim (Option-cases (parked_progress c top)) [
    | inl e ↦ rw (fire_stale e) v
    | inr (p, e) ↦
        rw (shard-fire_deadline p e)
          (edit_member-IsValid c.shard top.member_id (forget top.progress_id) v)
  ]

  no_progress :
      (d : Core F) (ms : MemberState F)
      → member d.shard top.member_id ≡ some ms
      → Dict.get ms.progresses top.progress_id ≡ none
      → parked_progress d top ≡ none
  unfolding parked_progress
  no_progress d ms p q = ground arith

  -- On a valid shard a deadline fires at most once: when it was handled, its progress is parked no
  -- longer, so another entry for it is stale.
  pub fire_deadline-once : IsValid c.shard → parked_progress (fire_deadline c top).0 top ≡ none
  fire_deadline-once v = elim (Option-cases (parked_progress c top)) [
    | inl e ↦ rw (fire_stale e) e
    | inr (p, e) ↦
        let (ms, same, live) = edit_member-live c.shard top.member_id (forget top.progress_id) v in
        no_progress (fire_deadline c top).0
          (record ms { progresses = Dict.delete ms.progresses top.progress_id })
          (rw (shard-fire_deadline p e)
            (live top.member_id ∙ rw ((text_beq_iff top.member_id top.member_id).1 refl)))
          (get-delete ms.progresses top.progress_id top.progress_id
            ∙ rw ((text_beq_iff top.progress_id top.progress_id).1 refl))
  ]
