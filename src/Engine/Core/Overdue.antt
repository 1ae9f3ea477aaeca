-- ===== src/Engine/Core/Overdue.antt =====
-- The pending deadlines of a core against its watermark (core.go, negative_queue.go).
use rule_engine.Prelude.{
  ℕ, zero, suc, ◌-◌, ◌/◌, ◌<◌, ◌≤◌, ◌≡◌, refl, ap, [], ◌∷◌, List, arith, inl, inr, Bool-cases,
  Option-cases, length, Each,
}
use rule_engine.Time.{Time}
use rule_engine.Float.{Float}
use rule_engine.Engine.Event.{BehaviorEvent, MatchResult}
use rule_engine.Engine.Member.{MemberState}
use rule_engine.Engine.Shard.{Address}
use rule_engine.Engine.Deadlines.{Deadline, Heap}
use rule_engine.Engine.Deadlines.Order.{key, IsHeap, same_or_not}
use rule_engine.Engine.Deadlines.Ordered.{push-IsHeap, pop-IsHeap}
use rule_engine.Engine.Cep.Pushes.{process_cep-kept}
use rule_engine.Engine.Core.{
  Core, advance_watermark, is_late, fire_deadline, fold_event, drain_negative_matches,
  process_on_time, process_event, cep_event,
}
use rule_engine.Engine.Core.Cases.{s, a, folded, lost_member, late_event, on_time_event}
use rule_engine.Engine.Core.Drain.{popped, heap-fired, drain_induction, drain_negative_matches-done}
use rule_engine.Engine.Core.Watermark.{watermark-on_time}

-- The first deadline of a heap comes before no other.
pub first_least : (f : ℕ) (h : Heap) (k : ℕ) → IsHeap h → k < length h → k ≤ f → key h 0 ≤ key h k
first_least zero h k heap lt l = omega (arith, ap (key h) (let e : k ≡ 0 = omega arith in e))
first_least (suc f) h k heap lt l = elim (same_or_not k 0) [
  | inl e ↦ omega (arith, ap (key h) e)
  | inr ne ↦
      let p = (k - 1) / 2 in
      omega (
        arith,
        first_least f h p heap (omega (arith, lt)) (omega (arith, l, ne)),
        heap p k (omega arith) (omega (arith, ne), omega arith) lt,
      )
]

-- The deadlines form a heap, and the watermark has passed none of them.
pub record IsTimely (watermark : Time) (h : Heap) : Type 0 where
  pub heap : IsHeap h
  pub pending : (k : ℕ) → k < length h → watermark ≤ key h k

timely :
    (watermark : Time) (h : Heap)
    → IsHeap h
    → ((top : Deadline) (rest : Heap) → h ≡ top ∷ rest → watermark ≤ top.deadline)
    → IsTimely watermark h
timely watermark [] heap first = record { heap = heap; pending = λ k lt. absurd (omega arith) }
timely watermark (top ∷ rest) heap first = record {
  heap = heap;
  pending = λ k lt.
      omega (arith, first_least k (top ∷ rest) k heap lt (omega arith), first top rest refl);
}

nothing : {F : Type 0} (ms : List (MatchResult F)) → Each {0, 0} (λ m. Unit) ms
nothing [] = tt
nothing (m ∷ ms) = (tt, nothing ms)

module _ {F : Type 0} where
  drain-IsHeap :
      (c : Core F) (watermark : Time)
      → IsHeap c.neg_deadlines
      → IsHeap (drain_negative_matches c watermark).0.neg_deadlines
  unfolding drain_negative_matches
  drain-IsHeap c watermark heap =
      (drain_induction watermark (λ d. IsHeap d.neg_deadlines) (λ m. Unit)
        (λ d top due h. rw (heap-fired d top) (pop-IsHeap d.neg_deadlines h))
        (λ d top due h. nothing (fire_deadline (popped d) top).1) (length c.neg_deadlines) c heap).0

  drain-IsTimely :
      (c : Core F) (watermark : Time)
      → IsHeap c.neg_deadlines
      → IsTimely watermark (drain_negative_matches c watermark).0.neg_deadlines
  drain-IsTimely c watermark heap =
      timely watermark (drain_negative_matches c watermark).0.neg_deadlines
        (drain-IsHeap c watermark heap) (drain_negative_matches-done c watermark)

module _ {F : Type 0} ⦃fl : Float F⦄ where
  heap-advance : (c : Core F) (t : Time) → (advance_watermark c t).neg_deadlines ≡ c.neg_deadlines
  unfolding advance_watermark
  heap-advance c t = ground arith

  on_time-IsTimely :
      (c : Core F) (a : Address) (ms : MemberState F) (event : BehaviorEvent F)
      → IsHeap c.neg_deadlines
      → IsTimely
          (advance_watermark c event.occurred_at).watermark
          (process_on_time c a ms event).core.neg_deadlines
  unfolding process_on_time
  on_time-IsTimely c a ms event heap =
      let c1 = advance_watermark c event.occurred_at in
      drain-IsTimely _ c1.watermark (
        process_cep-kept IsHeap push-IsHeap c1.patterns (cep_event event) c1.watermark ms.progresses
          c1.neg_deadlines (rw (heap-advance c event.occurred_at) heap))

  -- Whatever event comes in: if the deadlines form a heap and the watermark has passed none of
  -- them, the same holds afterwards, for the new watermark.
  pub process_event-IsTimely :
      (c : Core F) (event : BehaviorEvent F)
      → IsTimely c.watermark c.neg_deadlines
      → IsTimely (process_event c event).core.watermark (process_event c event).core.neg_deadlines
  process_event-IsTimely c event h = elim (Option-cases ((s c event).members (a c event))) [
    | inl e ↦ rw (lost_member c event e) h
    | inr (ms, e) ↦ elim (Bool-cases (is_late c event.occurred_at)) [
      | inl late ↦ rw (late_event c event ms e late) h
      | inr early ↦
          rw
            (
              on_time_event c event ms e early,
              watermark-on_time (folded c event ms) (a c event) (fold_event c event ms) event,
            )
            (on_time-IsTimely (folded c event ms) (a c event) (fold_event c event ms) event h.heap)
    ]
  ]
