-- ===== src/Engine/Core/Emitted.antt =====
-- Every negative match that is due is emitted by drainNegativeMatches of negative_queue.go.
use rule_engine.Prelude.{
  ℕ, zero, suc, ◌<◌, ◌≤◌, ◌≡◌, ◌≢◌, sym, ap, ◌∙◌, ◌∷◌, none, some, arith, inl, inr, ◌⊎◌, Bool-cases,
  Option-cases, length, get_elem?,
}
use rule_engine.Text.{text_eq, text_beq, text_beq_iff}
use rule_engine.Time.{Time, is_after}
use rule_engine.Engine.Event.{PatternProgress, MatchResult}
use rule_engine.Engine.Deadlines.{Deadline, Heap, pop}
use rule_engine.Engine.Deadlines.Order.{deadline_or_zero, key, IsHeap}
use rule_engine.Engine.Deadlines.Ordered.{pop-IsHeap}
use rule_engine.Engine.Deadlines.Size.{length-pop}
use rule_engine.Engine.Deadlines.Held.{IsHeld, pop-IsHeld}
use rule_engine.Engine.Shard.Valid.{IsValid}
use rule_engine.Engine.Cep.Pattern.{CompiledPattern, pattern_by_id}
use rule_engine.Engine.Cep.Advance.{match_result}
use rule_engine.Engine.Core.{Core, parked_progress, fire_deadline, drain, drain_negative_matches}
use rule_engine.Engine.Core.Fire.{fire_stale, fire_deadline-IsValid}
use rule_engine.Engine.Core.Drain.{popped, fired, List-cases, heap-fired, drain_round}
use rule_engine.Engine.Core.Overdue.{first_least}
use rule_engine.Engine.Core.Targets.{
  IsIn, IsIn-append_left, IsIn-append_right, fired_match, same_target, other_target,
}

none-ne-some : {A : Type 0} {a : A} → none ≡ some a → ⊥
none-ne-some e = cc e

module _ {F : Type 0} where
  patterns-fired : (c : Core F) (top : Deadline) → (fired c top).patterns ≡ c.patterns
  unfolding fire_deadline
  patterns-fired c top = ground arith

  -- A deadline of a parked progress, in the heap or still to come.
  record IsParked (watermark : Time) (x : Deadline) (p : PatternProgress F) (cp : CompiledPattern F)
      (c : Core F) : Type 0 where
    valid : IsValid c.shard
    heap : IsHeap c.neg_deadlines
    held : IsHeld x c.neg_deadlines
    parked : parked_progress c x ≡ some p
    pattern : pattern_by_id c.patterns p.pattern_id ≡ some cp

  module _ (watermark : Time) (x : Deadline) (p : PatternProgress F) (cp : CompiledPattern F)
      (due : x.deadline < watermark) where
    abbrev m : MatchResult F
    m = match_result cp p.member_id p.variables p.negative_deadline

    module _ (c : Core F) (top : Deadline) (rest : Heap) (h : IsParked watermark x p cp c)
        (first : c.neg_deadlines ≡ top ∷ rest) where
      -- x is the deadline popped, or it stays
      place : (top ≡ x) ⊎ IsHeld x (pop c.neg_deadlines)
      place = elim (pop-IsHeld c.neg_deadlines x h.held) [
        | inl e ↦ inl (let e' = ap (λ t. get_elem? t 0) first in cc (e, e'))
        | inr stays ↦ inr stays
      ]

      still_parked : parked_progress (popped c) x ≡ some p
      unfolding parked_progress
      still_parked = h.parked

      popped-IsParked : IsHeld x (pop c.neg_deadlines) → IsParked watermark x p cp (popped c)
      popped-IsParked held = record {
        valid = h.valid;
        heap = pop-IsHeap c.neg_deadlines h.heap;
        held = held;
        parked = still_parked;
        pattern = h.pattern;
      }

      stale :
          parked_progress (popped c) top ≡ none
          → IsParked watermark x p cp (fire_deadline (popped c) top).0
      stale e = rw (fire_stale (popped c) top e) (elim place [
        | inl same ↦
            absurd
              (none-ne-some (sym (ap (parked_progress (popped c)) (sym same) ∙ e) ∙ still_parked))
        | inr held ↦ popped-IsParked held
      ])

      module _ (q : PatternProgress F) (live : parked_progress (popped c) top ≡ some q) where
        fires :
            top.member_id ≡ x.member_id
            → top.progress_id ≡ x.progress_id
            → IsIn m (fire_deadline (popped c) top).1
        fires a b =
            let same = same_target (popped c) top q live x p still_parked a b in
            rw
              (fired_match (popped c) top q live cp (
                ap (λ (t : PatternProgress F). pattern_by_id c.patterns t.pattern_id) same
                ∙ h.pattern))
              (inl (
                ap
                  (λ (t : PatternProgress F).
                    match_result cp t.member_id t.variables t.negative_deadline)
                  same))

        stays :
            (top.member_id ≡ x.member_id → top.progress_id ≢ x.progress_id)
            → IsParked watermark x p cp (fire_deadline (popped c) top).0
        stays apart = record {
          valid = fire_deadline-IsValid (popped c) top h.valid;
          heap = rw (heap-fired c top) (pop-IsHeap c.neg_deadlines h.heap);
          held = rw (heap-fired c top) (elim place [
            | inl same ↦ absurd (
                apart (ap (λ (t : Deadline). t.member_id) same)
                  (ap (λ (t : Deadline). t.progress_id) same))
            | inr held ↦ held
          ]);
          parked = other_target (popped c) top q live x p h.valid still_parked apart;
          pattern = rw (patterns-fired c top) h.pattern;
        }

      -- one round: the match is emitted, or the deadline stays
      round :
          IsIn m (fire_deadline (popped c) top).1
          ⊎ IsParked watermark x p cp (fire_deadline (popped c) top).0
      round = elim (Option-cases (parked_progress (popped c) top)) [
        | inl e ↦ inr (stale e)
        | inr (q, live) ↦ elim (Bool-cases (text_beq top.member_id x.member_id)) [
          | inr other ↦
              inr (stays q live (λ a. ground (arith, text_beq_iff top.member_id x.member_id)))
          | inl a ↦ elim (Bool-cases (text_beq top.progress_id x.progress_id)) [
            | inr other ↦
                inr
                  (stays q live (λ a b. ground (arith, text_beq_iff top.progress_id x.progress_id)))
            | inl b ↦ inl (
                fires q live ((text_beq_iff top.member_id x.member_id).0 a)
                  ((text_beq_iff top.progress_id x.progress_id).0 b))
          ]
        ]
      ]

    emitted :
        (f : ℕ) (c : Core F)
        → length c.neg_deadlines ≤ f
        → IsParked watermark x p cp c
        → IsIn m (drain f c watermark).1
    emitted zero c l h = let (k, lt, e) = h.held in absurd (omega (arith, l, lt))
    emitted (suc f) c l h = elim (List-cases c.neg_deadlines) [
      | inl e ↦ let (k, lt, there) = h.held in absurd (omega (arith, ap length e, lt))
      | inr (top, rest, e) ↦ elim (Bool-cases (is_after watermark top.deadline)) [
        | inr no_more ↦
            let (k, lt, there) = h.held in
            let least = first_least k c.neg_deadlines k h.heap lt (omega arith) in
            let here = ap deadline_or_zero there in
            let front : key c.neg_deadlines 0 ≡ top.deadline = ap (λ t. key t 0) e in
            let early : watermark ≤ top.deadline = ground arith in
            absurd (omega (arith, least, here, front, early, due))
        | inl passed ↦
            rw (drain_round f c watermark top rest e passed) (elim (round c top rest h e) [
              | inl now ↦
                  IsIn-append_left m (fire_deadline (popped c) top).1
                    (drain f (fired c top) watermark).1 now
              | inr later ↦
                  IsIn-append_right m (fire_deadline (popped c) top).1
                    (drain f (fired c top) watermark).1
                    (emitted f (fired c top)
                      (omega (
                        arith,
                        ap length e,
                        ap length (heap-fired c top),
                        length-pop c.neg_deadlines,
                        l,
                      ))
                      later)
            ])
      ]
    ]

  -- On a valid shard whose deadlines are in heap order: where a deadline in the heap is passed by
  -- the watermark and its progress is still parked on it, for a pattern that is registered, the
  -- drain emits the progress's match.
  pub drain_negative_matches-emits :
      (c : Core F) (watermark : Time) (x : Deadline) (p : PatternProgress F)
      (cp : CompiledPattern F)
      → IsValid c.shard
      → IsHeap c.neg_deadlines
      → IsHeld x c.neg_deadlines
      → x.deadline < watermark
      → parked_progress c x ≡ some p
      → pattern_by_id c.patterns p.pattern_id ≡ some cp
      → IsIn
          (match_result cp p.member_id p.variables p.negative_deadline)
          (drain_negative_matches c watermark).1
  unfolding drain_negative_matches
  drain_negative_matches-emits c watermark x p cp valid heap held due parked pattern =
      emitted watermark x p cp due (length c.neg_deadlines) c (omega arith)
        (record { valid = valid; heap = heap; held = held; parked = parked; pattern = pattern })
