-- ===== src/Engine/Core/Targets.antt =====
-- Two popped deadlines of negative_queue.go: what the one leaves of the progress of the other.
use rule_engine.Prelude.{
  ◌≡◌, ◌≢◌, refl, ap, ◌∙◌, List, [], ◌∷◌, ◌++◌, some, true, false, not, ◌&&◌, arith, inl, inr, ◌⊎◌,
  Bool-cases, nat_beq,
}
use rule_engine.Text.{text_eq, text_beq, text_beq_iff}
use rule_engine.Time.{is_zero}
use rule_engine.Dict
use rule_engine.Dict.{get-delete}
use rule_engine.Engine.Event.{PatternProgress}
use rule_engine.Engine.Member.{MemberState}
use rule_engine.Engine.Deadlines.{Deadline}
use rule_engine.Engine.Shard.{member}
use rule_engine.Engine.Shard.Valid.{IsValid}
use rule_engine.Engine.Shard.CopyOnWrite.{unversioned, or_new}
use rule_engine.Engine.Shard.Live.{edit_member-live}
use rule_engine.Engine.Cep.Pattern.{CompiledPattern, pattern_by_id}
use rule_engine.Engine.Cep.Advance.{match_result}
use rule_engine.Engine.Core.{Core, parked_progress, fire_deadline}
use rule_engine.Engine.Core.Fire.{forget, parked-member, shard-fire_deadline}

-- an element of a list
abbrev pub IsIn : {A : Type 0} → A → List A → Type 0
IsIn x [] = ⊥
IsIn x (y ∷ ys) = (y ≡ x) ⊎ IsIn x ys

module _ {A : Type 0} (x : A) where
  pub IsIn-append_left : (xs ys : List A) → IsIn x xs → IsIn x (xs ++ ys)
  IsIn-append_left [] ys h = elim h [ ]
  IsIn-append_left (y ∷ xs) ys (inl e) = inl e
  IsIn-append_left (y ∷ xs) ys (inr h) = inr (IsIn-append_left xs ys h)

  pub IsIn-append_right : (xs ys : List A) → IsIn x ys → IsIn x (xs ++ ys)
  IsIn-append_right [] ys h = h
  IsIn-append_right (y ∷ xs) ys h = inr (IsIn-append_right xs ys h)

parked_lem :
    {F : Type 0} (c : Core F) (x : Deadline) (ms : MemberState F) (p : PatternProgress F)
    → member c.shard x.member_id ≡ some ms
    → Dict.get ms.progresses x.progress_id ≡ some p
    → (not (is_zero p.negative_deadline) && nat_beq p.negative_deadline x.deadline) ≡ true
    → parked_progress c x ≡ some p
unfolding parked_progress
parked_lem c x ms p a b t = ground arith

module _ {F : Type 0} (c : Core F) where
  -- the test that a deadline is not stale
  parked-test :
      (x : Deadline) (p : PatternProgress F)
      → parked_progress c x ≡ some p
      → (not (is_zero p.negative_deadline) && nat_beq p.negative_deadline x.deadline) ≡ true
  unfolding parked_progress
  parked-test x p e = ground arith

  module _ (y : Deadline) (q : PatternProgress F) (parked : parked_progress c y ≡ some q) where
    pub fired_match :
        (cp : CompiledPattern F)
        → pattern_by_id c.patterns q.pattern_id ≡ some cp
        → (fire_deadline c y).1 ≡ match_result cp q.member_id q.variables q.negative_deadline ∷ []
    unfolding fire_deadline
    fired_match cp e = ground arith

    -- two deadlines of one progress
    pub same_target :
        (x : Deadline) (p : PatternProgress F)
        → parked_progress c x ≡ some p
        → y.member_id ≡ x.member_id
        → y.progress_id ≡ x.progress_id
        → q ≡ p
    same_target x p e m i =
        let (ms, a, b) = parked-member c y q parked in
        let (ms', a', b') = parked-member c x p e in cc (a, b, a', b', m, i)

    -- a deadline of another progress
    pub other_target :
        (x : Deadline) (p : PatternProgress F)
        → IsValid c.shard
        → parked_progress c x ≡ some p
        → (y.member_id ≡ x.member_id → y.progress_id ≢ x.progress_id)
        → parked_progress (fire_deadline c y).0 x ≡ some p
    other_target x p v e apart =
        let (ms, a, b) = parked-member c x p e in
        let (ms', same, live) = edit_member-live c.shard y.member_id (forget y.progress_id) v in
        elim (Bool-cases (text_beq y.member_id x.member_id)) [
          | inl one ↦
              let m = (text_beq_iff y.member_id x.member_id).0 one in
              still (record ms' { progresses = Dict.delete ms'.progresses y.progress_id })
                (rw (shard-fire_deadline c y q parked) (live x.member_id ∙ rw one refl))
                (others_left ms ms' a same m b)
          | inr two ↦
              still ms (rw (shard-fire_deadline c y q parked) (live x.member_id ∙ rw two a)) b
        ]
      where
        still :
            (ms : MemberState F)
            → member (fire_deadline c y).0.shard x.member_id ≡ some ms
            → Dict.get ms.progresses x.progress_id ≡ some p
            → parked_progress (fire_deadline c y).0 x ≡ some p
        still ms a b = parked_lem (fire_deadline c y).0 x ms p a b (parked-test x p e)

        not_equal : y.progress_id ≢ x.progress_id → text_beq y.progress_id x.progress_id ≡ false
        not_equal ne = ground (arith, text_beq_iff y.progress_id x.progress_id)

        others_left :
            (ms ms' : MemberState F)
            → member c.shard x.member_id ≡ some ms
            → unversioned ms' ≡ unversioned (or_new y.member_id (member c.shard y.member_id))
            → y.member_id ≡ x.member_id
            → Dict.get ms.progresses x.progress_id ≡ some p
            → Dict.get (Dict.delete ms'.progresses y.progress_id) x.progress_id ≡ some p
        others_left ms ms' a same m b =
            get-delete ms'.progresses y.progress_id x.progress_id
            ∙ rw (not_equal (apart m)) (
                ap (λ (t : MemberState F). Dict.get t.progresses x.progress_id)
                  (same ∙ ap (λ o. unversioned (or_new y.member_id o)) (ap (member c.shard) m ∙ a))
                ∙ b)
