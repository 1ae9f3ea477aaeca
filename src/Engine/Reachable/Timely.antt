-- ===== src/Engine/Reachable/Timely.antt =====
-- The pending deadlines of every core that the operations of core.go lead to.
use rule_engine.Prelude.{◌≡◌, arith}
use rule_engine.Float.{Float}
use rule_engine.Engine.Event.{CepPattern}
use rule_engine.Engine.Cep.Pattern.{added}
use rule_engine.Engine.Core.{
  Core, new_core, with_allowed_lateness, with_late_sink, begin_replay, end_replay, register_pattern,
}
use rule_engine.Engine.Core.Overdue.{IsTimely, process_event-IsTimely}
use rule_engine.Engine.Snapshot.{begin_snapshot, end_snapshot}
use rule_engine.Engine.Reachable.{
  Reachable, started, tuned, sunk, registered, replay_begun, replay_ended, snapshot_begun,
  snapshot_ended, processed, positioned,
}

module _ {F : Type 0} (fl : Float F) (c c' : Core F) (pattern : CepPattern F)
    (h : register_pattern fl c pattern ≡ added c') where
  heap-register_pattern : c'.neg_deadlines ≡ c.neg_deadlines
  unfolding register_pattern
  heap-register_pattern = ground arith

  watermark-register_pattern : c'.watermark ≡ c.watermark
  unfolding register_pattern
  watermark-register_pattern = ground arith

module _ {F : Type 0} (fl : Float F) where
  -- In every core that the operations lead to, the deadlines are in heap order and the watermark
  -- has passed none of them: every deadline that it passed was taken off.
  pub Reachable-IsTimely : (c : Core F) → Reachable fl c → IsTimely c.watermark c.neg_deadlines
  unfolding new_core with_allowed_lateness with_late_sink begin_replay end_replay begin_snapshot
      end_snapshot
  Reachable-IsTimely _ (started id rs) = record {
    heap = λ p k from child lt. absurd (omega arith);
    pending = λ k lt. absurd (omega arith);
  }
  Reachable-IsTimely _ (tuned d q r) = Reachable-IsTimely d r
  Reachable-IsTimely _ (sunk d r) = Reachable-IsTimely d r
  Reachable-IsTimely _ (registered d c p h r) =
      rw (heap-register_pattern fl d c p h, watermark-register_pattern fl d c p h)
        (Reachable-IsTimely d r)
  Reachable-IsTimely _ (replay_begun d r) = Reachable-IsTimely d r
  Reachable-IsTimely _ (replay_ended d r) = Reachable-IsTimely d r
  Reachable-IsTimely _ (snapshot_begun d r) = Reachable-IsTimely d r
  Reachable-IsTimely _ (snapshot_ended d r) = Reachable-IsTimely d r
  Reachable-IsTimely _ (positioned d seq r) = Reachable-IsTimely d r
  Reachable-IsTimely _ (processed d event r) =
      process_event-IsTimely ⦃fl = fl⦄ d event (Reachable-IsTimely d r)
