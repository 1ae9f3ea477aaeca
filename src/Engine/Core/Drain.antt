-- ===== src/Engine/Core/Drain.antt =====
-- drainNegativeMatches of negative_queue.go: one round at a time, an induction over the rounds, and
-- the end of the loop.
use rule_engine.Prelude.{
  ℕ, zero, suc, ◌≤◌, ◌≡◌, refl, true, false, [], ◌∷◌, arith, ◌++◌, inl, inr, ◌⊎◌, Bool-cases, ap,
  length, Each, Each-append,
}
use rule_engine.Time.{Time, is_after}
use rule_engine.Engine.Event.{MatchResult}
use rule_engine.Engine.Deadlines.{Deadline, Heap, pop}
use rule_engine.Engine.Deadlines.Size.{length-pop}
use rule_engine.Engine.Core.{Core, fire_deadline, drain, drain_negative_matches}

pub List-cases : (h : Heap) → (h ≡ []) ⊎ ((x : Deadline) × (r : Heap) × (h ≡ x ∷ r))
List-cases [] = inl refl
List-cases (x ∷ r) = inr (x, r, refl)

module _ {F : Type 0} where
  -- the core without its first deadline
  abbrev pub popped : Core F → Core F
  popped c = record c { neg_deadlines = pop c.neg_deadlines }

  abbrev pub fired : Core F → Deadline → Core F
  fired c top = (fire_deadline (popped c) top).0

  module _ (f : ℕ) (c : Core F) (watermark : Time) where
    drain_empty : c.neg_deadlines ≡ [] → drain (suc f) c watermark ≡ (c, [])
    unfolding drain
    drain_empty e = ground arith

    module _ (top : Deadline) (rest : Heap) (heap : c.neg_deadlines ≡ top ∷ rest) where
      pub drain_wait : is_after watermark top.deadline ≡ false → drain (suc f) c watermark ≡ (c, [])
      unfolding drain
      drain_wait e = ground arith

      pub drain_round :
          is_after watermark top.deadline ≡ true
          → drain (suc f) c watermark ≡ (
            (drain f (fired c top) watermark).0,
            (fire_deadline (popped c) top).1 ++ (drain f (fired c top) watermark).1,
          )
      unfolding drain
      drain_round e = ground arith

-- What each round keeps, the loop keeps; what each match of a round satisfies, all matches satisfy.
module _ {F : Type 0} (watermark : Time) (P : Core F → Type 0) (Q : MatchResult F → Type 0)
    (keep : (c : Core F) (top : Deadline)
      → is_after watermark top.deadline ≡ true
      → P c
      → P (fired c top))
    (emit : (c : Core F) (top : Deadline)
      → is_after watermark top.deadline ≡ true
      → P c
      → Each Q (fire_deadline (popped c) top).1) where
  pub drain_induction :
      (f : ℕ) (c : Core F) → P c → P (drain f c watermark).0 × Each Q (drain f c watermark).1
  drain_induction zero c h = unfold drain in (h, tt)
  drain_induction (suc f) c h = elim (List-cases c.neg_deadlines) [
    | inl e ↦ rw (drain_empty f c watermark e) (h, tt)
    | inr (top, rest, e) ↦ elim (Bool-cases (is_after watermark top.deadline)) [
      | inr no_more ↦ rw (drain_wait f c watermark top rest e no_more) (h, tt)
      | inl due ↦
          let (last, later) = drain_induction f (fired c top) (keep c top due h) in
          rw (drain_round f c watermark top rest e due) (
            last,
            Each-append Q (fire_deadline (popped c) top).1 (drain f (fired c top) watermark).1
                (emit c top due h) later,
          )
    ]
  ]

module _ {F : Type 0} where
  pub heap-fired : (c : Core F) (top : Deadline) → (fired c top).neg_deadlines ≡ pop c.neg_deadlines
  unfolding fire_deadline
  heap-fired c top = ground arith

  drained :
      (f : ℕ) (c : Core F) (watermark : Time)
      → length c.neg_deadlines ≤ f
      → (top : Deadline) (rest : Heap) → (drain f c watermark).0.neg_deadlines ≡ top ∷ rest
      → is_after watermark top.deadline ≡ false
  drained zero c watermark h = λ top rest. unfold drain in λ e. absurd (omega (arith, ap length e))
  drained (suc f) c watermark h = elim (List-cases c.neg_deadlines) [
    | inl e ↦ λ top rest. rw (drain_empty f c watermark e) (λ e'. cc (e, e'))
    | inr (x, r, e) ↦ elim (Bool-cases (is_after watermark x.deadline)) [
      | inr no_more ↦ λ top rest.
          rw (drain_wait f c watermark x r e no_more) (λ e'. ground (arith, e, e', no_more))
      | inl due ↦
          let shorter : length (fired c x).neg_deadlines ≤ f =
            omega (arith, ap length e, ap length (heap-fired c x), length-pop c.neg_deadlines) in
          λ top rest.
            rw (drain_round f c watermark x r e due)
              (drained f (fired c x) watermark shorter top rest)
    ]
  ]

  -- The loop of drainNegativeMatches ends by its own test: no deadline is left, or the first one
  -- is not yet passed by the watermark.
  pub drain_negative_matches-done :
      (c : Core F) (watermark : Time) (top : Deadline) (rest : Heap)
      → (drain_negative_matches c watermark).0.neg_deadlines ≡ top ∷ rest
      → watermark ≤ top.deadline
  unfolding drain_negative_matches
  drain_negative_matches-done c watermark top rest e =
      ground (arith, drained (length c.neg_deadlines) c watermark (omega arith) top rest e)
